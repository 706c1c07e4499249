-- ===== src/Config/Normal/Profiles.antt =====
-- The profile list: names and hotkeys come out trimmed, given, valid and distinct, and a list that
-- is so already is kept.
use deej.Prelude.{
  ℕ, suc, subst, ◌+◌, ◌≡◌, ◌<◌, refl, ◌∙◌, List, [], ◌∷◌, ◌++◌, arith, length, Bool-cases, inl, inr,
}
use deej.Prelude.Text.{
  Text, Unicode, codes, text_eq, text_eq_iff, contains, to_lower, trim_space, trim_space_idem,
  trim_space-nil, trim_space-append, is_space, NoSpace,
}
use deej.Prelude.Strconv.{itoa, itoa-ne-nil, all_digits-itoa, all_digits-NoSpace}
use deej.Config.Model.{Profile}
use deej.Config.Mapping.{normalized-IsCanonical, normalized_of_IsCanonical}
use deej.Config.Rules.{profile_name, check_hotkey, normalize_profile_list, cons_profile}
use deej.Config.Normal.Shape.{
  NonEmpty, IsTrimmed, IsNormalHotkey, hotkeys_after, IsNormalProfile, AreNormalProfiles,
}

IsTrimmed-generated : (d : Text) → 0 < length d → NoSpace d → IsTrimmed (codes "profile " ++ d)
unfolding is_space
IsTrimmed-generated [] h k = absurd (omega arith)
IsTrimmed-generated (c ∷ d) h k = trim_space-append b'p' (codes "rofile ") c d refl k

profile_name-IsTrimmed :
    (i : ℕ) (name : Text)
    → IsTrimmed (profile_name i (trim_space name)).0 × NonEmpty (profile_name i (trim_space name)).0
unfolding profile_name text_eq
profile_name-IsTrimmed i name = elim (Bool-cases (text_eq (trim_space name) [])) [
  | inl e ↦ rw e (
    IsTrimmed-generated (itoa (i + 1)) (itoa-ne-nil (i + 1))
        (all_digits-NoSpace _ (all_digits-itoa (i + 1))),
    refl,
  )
  | inr e ↦ rw e (trim_space_idem name, e)
]

check_hotkey-IsNormalHotkey :
    (u : Unicode) (name : Text) (seen : List Text) (hotkey : Text)
    → let r = check_hotkey u name seen (trim_space hotkey) in
      IsNormalHotkey u seen r.kept × (r.seen ≡ hotkeys_after u seen r.kept)
unfolding check_hotkey text_eq
check_hotkey-IsNormalHotkey u name seen hotkey =
    ground (arith, trim_space_idem hotkey, trim_space-nil, text_eq_iff (trim_space hotkey) [])

check_hotkey_of_IsNormalHotkey :
    (u : Unicode) (name : Text) (seen : List Text) (hotkey : Text)
    → IsNormalHotkey u seen hotkey
    → check_hotkey u name seen (trim_space hotkey)
      ≡ record { kept = hotkey; problems = []; seen = hotkeys_after u seen hotkey }
unfolding check_hotkey text_eq
check_hotkey_of_IsNormalHotkey u name seen hotkey (trimmed, h) = rw trimmed (ground arith)

-- The loop gives a normal list, behind any names and hotkeys.
pub normalize_profile_list-AreNormalProfiles :
    (u : Unicode) (i : ℕ) (names hotkeys : List Text) (ps : List Profile)
    → AreNormalProfiles u names hotkeys (normalize_profile_list u i names hotkeys ps).0
unfolding normalize_profile_list
normalize_profile_list-AreNormalProfiles u i names hotkeys [] = tt
normalize_profile_list-AreNormalProfiles u i names hotkeys (p ∷ ps) =
    let name = (profile_name i (trim_space p.name)).0 in
    let hotkey = check_hotkey u name hotkeys (trim_space p.hotkey) in
    let (trimmed, given) = profile_name-IsTrimmed i p.name in
    let (fits, after) = check_hotkey-IsNormalHotkey u name hotkeys p.hotkey in
    let rest =
      normalize_profile_list-AreNormalProfiles u (suc i) (to_lower u name ∷ names) hotkey.seen ps in
    elim (Bool-cases (contains names (to_lower u name))) [
      | inl e ↦ rw e (normalize_profile_list-AreNormalProfiles u (suc i) names hotkeys ps)
      | inr e ↦ rw e (
        record {
          name_trimmed = trimmed;
          name_given = given;
          name_new = e;
          hotkey_normal = fits;
          mapping_canonical = normalized-IsCanonical p.slider_mapping;
        },
        subst
            (λ (x : List Text).
              AreNormalProfiles u (to_lower u name ∷ names) x
                (normalize_profile_list u (suc i) (to_lower u name ∷ names) hotkey.seen ps).0)
            after rest,
      )
    ]

profile_name_of_given :
    (i : ℕ) (name : Text)
    → IsTrimmed name
    → NonEmpty name
    → profile_name i (trim_space name) ≡ (name, [])
unfolding profile_name
profile_name_of_given i name trimmed given = rw (trimmed, given)

normal_profile :
    (u : Unicode) (i : ℕ) (names hotkeys : List Text) (p : Profile) (ps : List Profile)
    → IsNormalProfile u names hotkeys p
    → normalize_profile_list u i names hotkeys (p ∷ ps)
      ≡ cons_profile p [] (
          normalize_profile_list u
            (suc i)
            (to_lower u p.name ∷ names)
            (hotkeys_after u hotkeys p.hotkey)
            ps)
unfolding normalize_profile_list
normal_profile u i names hotkeys p ps h = rw (
  profile_name_of_given i p.name h.name_trimmed h.name_given,
  check_hotkey_of_IsNormalHotkey u p.name hotkeys p.hotkey h.hotkey_normal,
  normalized_of_IsCanonical p.slider_mapping h.mapping_canonical,
  h.name_new,
)

pub normalize_profile_list_of_AreNormalProfiles :
    (u : Unicode) (i : ℕ) (names hotkeys : List Text) (ps : List Profile)
    → AreNormalProfiles u names hotkeys ps
    → normalize_profile_list u i names hotkeys ps ≡ (ps, [])
normalize_profile_list_of_AreNormalProfiles u i names hotkeys [] h =
    unfold normalize_profile_list in refl
normalize_profile_list_of_AreNormalProfiles u i names hotkeys (p ∷ ps) h =
    normal_profile u i names hotkeys p ps h.0
    ∙ rw (
        normalize_profile_list_of_AreNormalProfiles u (suc i) (to_lower u p.name ∷ names)
          (hotkeys_after u hotkeys p.hotkey) ps h.1)
