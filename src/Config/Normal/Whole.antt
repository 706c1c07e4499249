-- ===== src/Config/Normal/Whole.antt =====
-- The settings as a whole: the active profile always resolves, and normalising twice is normalising
-- once.
use deej.Prelude.{
  ◌≡◌, ◌<◌, refl, ◌∙◌, List, [], ◌∷◌, map, some, arith, if◌then◌else◌, length, Bool-cases,
  Option-cases, inl, inr, subst,
}
use deej.Prelude.Text.{
  Text, Unicode, text_eq, text_eq_iff, text_eq_self, contains, to_lower, equal_fold, trim_space,
}
use deej.Config.Model.{Profile, Settings, default_settings, default_profile_name}
use deej.Config.Rules.{
  find_profile_name, or_default_profile, normalize_active, normalize, valid_noise_reduction_levels,
  valid_languages,
}
use deej.Config.Normal.Shape.{
  IsTrimmed, IsNormal, IsNormalProfile, AreNormalProfiles, hotkeys_after,
}
use deej.Config.Normal.Sections.{
  normalize_com-IsNormalCom, normalize_com_of_IsNormalCom, normalize_choice-contains,
  normalize_choice_of_contains, normalize_obs-IsNormalObs, normalize_obs_of_IsNormalObs,
  normalize_discord-IsNormalDiscord, normalize_discord_of_IsNormalDiscord,
}
use deej.Config.Normal.Profiles.{
  normalize_profile_list-AreNormalProfiles, normalize_profile_list_of_AreNormalProfiles,
}

-- What is found is the spelling of a profile that folds to the name.
find_profile_name-fold :
    (u : Unicode) (ps : List Profile) (name : Text) {r : Text}
    → find_profile_name u ps name ≡ some r
    → map u.fold r ≡ map u.fold name
unfolding find_profile_name equal_fold
find_profile_name-fold u [] name h = cc
find_profile_name-fold u (p ∷ ps) name {r} h = ground (
  arith,
  find_profile_name-fold u ps name {r = r},
  text_eq_iff (map u.fold p.name) (map u.fold name),
)

find_profile_name-cong :
    (u : Unicode) (ps : List Profile) (a b : Text)
    → map u.fold a ≡ map u.fold b
    → find_profile_name u ps a ≡ find_profile_name u ps b
unfolding find_profile_name equal_fold
find_profile_name-cong u [] a b h = refl
find_profile_name-cong u (p ∷ ps) a b h = rw h (rw (find_profile_name-cong u ps a b h))

-- The spelling that is found resolves to itself.
pub find_profile_name_again :
    (u : Unicode) (ps : List Profile) (name r : Text)
    → find_profile_name u ps name ≡ some r
    → find_profile_name u ps r ≡ some r
find_profile_name_again u ps name r h =
    find_profile_name-cong u ps r name (find_profile_name-fold u ps name h) ∙ h

find_profile_name-first :
    (u : Unicode) (p : Profile) (ps : List Profile)
    → find_profile_name u (p ∷ ps) p.name ≡ some p.name
unfolding find_profile_name equal_fold
find_profile_name-first u p ps = rw (text_eq_self (map u.fold p.name))

normalize_active-resolved :
    (u : Unicode) (p : Profile) (ps : List Profile) (active : Text)
    → find_profile_name u (p ∷ ps) (normalize_active u (p ∷ ps) active).0
      ≡ some (normalize_active u (p ∷ ps) active).0
unfolding normalize_active
normalize_active-resolved u p ps active =
    elim (Option-cases (find_profile_name u (p ∷ ps) (trim_space active))) [
      | inl e ↦ rw e (find_profile_name-first u p ps)
      | inr (r, e) ↦ rw e (find_profile_name_again u (p ∷ ps) (trim_space active) r e)
    ]

default_normal :
    (u : Unicode)
    → IsNormalProfile u [] []
        (record { name = default_profile_name; hotkey = []; slider_mapping = [] })
unfolding trim_space text_eq contains
default_normal u = record {
  name_trimmed = refl;
  name_given = refl;
  name_new = refl;
  hotkey_normal = (refl, inl refl);
  mapping_canonical = (tt, tt);
}

AreNormalProfiles-or_default :
    (u : Unicode) (ps : List Profile)
    → AreNormalProfiles u [] [] ps
    → AreNormalProfiles u [] [] (or_default_profile ps) × (0 < length (or_default_profile ps))
AreNormalProfiles-or_default u [] h = ((default_normal u, tt), omega arith)
AreNormalProfiles-or_default u (p ∷ ps) h = (h, omega arith)

or_default-resolved :
    (u : Unicode) (ps : List Profile) (active : Text)
    → find_profile_name u
        (or_default_profile ps)
        (normalize_active u (or_default_profile ps) active).0
      ≡ some (normalize_active u (or_default_profile ps) active).0
or_default-resolved u [] active = normalize_active-resolved u _ [] active
or_default-resolved u (p ∷ ps) active = normalize_active-resolved u p ps active

-- Whatever the settings were, normalised ones are normal: the serial port and its ids are
-- well-formed, the choices known, Discord is enabled only with a numeric id and a secret, names and
-- hotkeys are distinct, each mapping is canonical, there is a profile, and the active one is the
-- spelling of one.
pub normalize-IsNormal : (u : Unicode) (s : Settings) → IsNormal u (normalize u s).0
unfolding normalize contains
normalize-IsNormal u s =
    let (normal, given) =
      AreNormalProfiles-or_default u _
        (normalize_profile_list-AreNormalProfiles u 0 [] [] s.profiles) in
    record {
      com_normal = normalize_com-IsNormalCom u s.com_settings;
      noise_valid =
          normalize_choice-contains valid_noise_reduction_levels [] _ s.noise_reduction refl;
      language_valid =
          normalize_choice-contains valid_languages default_settings.language _ s.language refl;
      obs_normal = normalize_obs-IsNormalObs s.obs;
      discord_normal = normalize_discord-IsNormalDiscord s.discord;
      profiles_normal = normal;
      some_profile = given;
      active_resolved = or_default-resolved u _ s.active_profile;
    }

find_profile_name-IsTrimmed :
    (u : Unicode) (names hotkeys : List Text) (ps : List Profile) (name : Text) {r : Text}
    → AreNormalProfiles u names hotkeys ps
    → find_profile_name u ps name ≡ some r
    → IsTrimmed r
unfolding find_profile_name
find_profile_name-IsTrimmed u names hotkeys [] name h e = cc
find_profile_name-IsTrimmed u names hotkeys (p ∷ ps) name {r} h e =
    elim (Bool-cases (equal_fold u p.name name)) [
      | inl t ↦ let same : p.name ≡ r = ground arith in subst IsTrimmed same h.0.name_trimmed
      | inr t ↦
          find_profile_name-IsTrimmed u (to_lower u p.name ∷ names)
            (hotkeys_after u hotkeys p.hotkey) ps name h.1 (rw (t, if◌then◌else◌) at e)
    ]

normalize_active_of_resolved :
    (u : Unicode) (ps : List Profile) (active : Text)
    → AreNormalProfiles u [] [] ps
    → find_profile_name u ps active ≡ some active
    → normalize_active u ps active ≡ (active, [])
unfolding normalize_active
normalize_active_of_resolved u ps active h e =
    rw (find_profile_name-IsTrimmed u [] [] ps active h e, e)

or_default_of_pos : (ps : List Profile) → 0 < length ps → or_default_profile ps ≡ ps
or_default_of_pos [] h = absurd (omega arith)
or_default_of_pos (p ∷ ps) h = refl

-- Normal settings are kept, with nothing to report.
pub normalize_of_IsNormal : (u : Unicode) (s : Settings) → IsNormal u s → normalize u s ≡ (s, [])
unfolding normalize
normalize_of_IsNormal u s h = rw (
  normalize_com_of_IsNormalCom u s.com_settings h.com_normal,
  normalize_choice_of_contains valid_noise_reduction_levels [] _ s.noise_reduction h.noise_valid,
  normalize_choice_of_contains valid_languages default_settings.language _ s.language
      h.language_valid,
  normalize_obs_of_IsNormalObs s.obs h.obs_normal,
  normalize_discord_of_IsNormalDiscord s.discord h.discord_normal,
  normalize_profile_list_of_AreNormalProfiles u 0 [] [] s.profiles h.profiles_normal,
  or_default_of_pos s.profiles h.some_profile,
  normalize_active_of_resolved u s.profiles s.active_profile h.profiles_normal h.active_resolved,
)

-- Normalising again changes nothing and reports nothing.
pub normalize_idem :
    (u : Unicode) (s : Settings) → normalize u (normalize u s).0 ≡ ((normalize u s).0, [])
normalize_idem u s = normalize_of_IsNormal u _ (normalize-IsNormal u s)
