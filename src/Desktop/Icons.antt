-- ===== src/Desktop/Icons.antt =====
-- internal/desktop/settings_service.go: the icons of processes, which are kept across calls. A Go map is
-- a function to an option; the icon of a file is the text of its data URI.
use deej.Prelude.{
  ℕ, ◌≡◌, refl, ap, sym, ◌∙◌, subst, Bool, true, false, ◌||◌, List, [], ◌∷◌, Option, none, some,
  if◌then◌else◌, Bool-cases, inl, inr,
}
use deej.Prelude.Text.{Text, Unicode, to_lower, text_eq, text_eq_iff, contains}

-- The operating system, as the service asks it: internal/platform.
pub record Platform : Type 0 where
  pub icons_supported : Bool
  -- ProcessIDsByName
  pub pids_by_name : Option (Text → List ℕ)
  pub image_path : ℕ → Option Text
  pub file_icon : Text → Option Text

-- The loop of `processIconDataURI` with the paths tried so far.
unfoldable pub try_pids : Platform → List Text → List ℕ → Text × Bool
unfolding contains
try_pids p [] [] = ([], false)
try_pids p (t ∷ tried) [] = ([], true)
try_pids p tried (pid ∷ pids) = elim (p.image_path pid) [
  | none ↦ try_pids p tried pids
  | some path ↦ elim (contains tried path) [
    | true ↦ try_pids p tried pids
    | false ↦ elim (p.file_icon path) [
      | some icon ↦ (icon, true)
      | none ↦ try_pids p (path ∷ tried) pids
    ]
  ]
]

-- `processIconDataURI`
unfoldable pub process_icon_data_uri : Platform → List ℕ → Text × Bool
unfolding try_pids
process_icon_data_uri p pids = try_pids p [] pids

abbrev pub IconCache : Type 0
IconCache = Text → Option Text

-- An entry of the map of extracted icons: only a conclusive answer is kept.
unfoldable pub conclusive : Text × Bool → Option Text
conclusive (icon, true) = some icon
conclusive (icon, false) = none

unfoldable pub non_empty : Option Text → Option Text
non_empty none = none
non_empty (some []) = none
non_empty (some (c ∷ s)) = some (c ∷ s)

abbrev unless_cached : Option Text → Bool → Bool
unless_cached none rest = true
unless_cached (some icon) rest = rest

-- The keys of names that the cache does not know.
unfoldable pub is_missing : Unicode → IconCache → List Text → Text → Bool
unfolding text_eq
is_missing u cache [] k = false
is_missing u cache (n ∷ ns) k =
    let rest = is_missing u cache ns k in
    if text_eq (to_lower u n) k then unless_cached (cache k) rest else rest

unfoldable pub extract : Unicode → Platform → IconCache → List Text → (Text → List ℕ) → IconCache
unfolding is_missing conclusive process_icon_data_uri
extract u p cache names pids k =
    if is_missing u cache names k then conclusive (process_icon_data_uri p (pids k)) else none

-- maps.Copy
unfoldable pub copy_into : IconCache → IconCache → IconCache
copy_into cache extracted k = elim (extracted k) [ none ↦ cache k | some icon ↦ some icon ]

-- The result of one loop over the names: what `icons` has for the names, unless it is empty.
unfoldable pub icons_of : Unicode → IconCache → List Text → IconCache
unfolding non_empty contains
icons_of u icons names n = if contains names n then non_empty (icons (to_lower u n)) else none

-- The end of `GetProcessIcons`, by the list of the processes. Where the cache knows every name, the code does
-- not ask for the list, and here nothing is extracted.
unfoldable pub look_up :
    Unicode → Platform → List Text → IconCache → Option (Text → List ℕ) → IconCache × IconCache
unfolding icons_of extract copy_into
look_up u p names cache none = (icons_of u cache names, cache)
look_up u p names cache (some pids) =
    let extracted = extract u p cache names pids in
    let found = icons_of u extracted names in
    let cached = icons_of u cache names in
    ((λ n. elim (found n) [ none ↦ cached n | some icon ↦ some icon ]), copy_into cache extracted)

-- `GetProcessIcons`: the icons by name, and the cache.
unfoldable pub get_process_icons :
    Unicode → Platform → List Text → IconCache → IconCache × IconCache
unfolding look_up
get_process_icons u p names cache =
    if p.icons_supported then look_up u p names cache p.pids_by_name else ((λ n. none), cache)

-- What the platform says of a key, without any cache.
unfoldable pub icon_now : Platform → (Text → List ℕ) → IconCache
unfolding conclusive process_icon_data_uri
icon_now p pids k = conclusive (process_icon_data_uri p (pids k))

-- Every cached icon is the one that the platform gives.
abbrev pub IsUpToDate : Platform → (Text → List ℕ) → IconCache → Type 0
IsUpToDate p pids cache = (k icon : Text) → cache k ≡ some icon → icon_now p pids k ≡ some icon

is_missing-cached :
    (u : Unicode) (cache : IconCache) (names : List Text) (k : Text) {icon : Text}
    → cache k ≡ some icon
    → is_missing u cache names k ≡ false
unfolding is_missing
is_missing-cached u cache [] k e = refl
is_missing-cached u cache (n ∷ ns) k {icon} e = elim (Bool-cases (text_eq (to_lower u n) k)) [
  | inl q ↦ rw (q, e) (is_missing-cached u cache ns k e)
  | inr q ↦ rw q (is_missing-cached u cache ns k e)
]

is_missing-asked :
    (u : Unicode) (cache : IconCache) (names : List Text) (n : Text)
    → contains names n ≡ true
    → cache (to_lower u n) ≡ none
    → is_missing u cache names (to_lower u n) ≡ true
unfolding is_missing contains
is_missing-asked u cache [] n h e = absurd (cc h)
is_missing-asked u cache (m ∷ ns) n h e =
    elim (Bool-cases (text_eq (to_lower u m) (to_lower u n))) [
      | inl q ↦ rw (q, e) refl
      | inr q ↦ rw q (is_missing-asked u cache ns n (later (text_eq m n) refl h q) e)
    ]
  where
    later :
        (b : Bool)
        → text_eq m n ≡ b
        → (b || contains ns n) ≡ true
        → text_eq (to_lower u m) (to_lower u n) ≡ false
        → contains ns n ≡ true
    later false g h q = h
    later true g h q = absurd (
        cc (
          q,
          (text_eq_iff (to_lower u m) (to_lower u n)).1 (ap (to_lower u) ((text_eq_iff m n).0 g)),
        ))

-- The icon of one key: it was cached, or it is extracted now.
key_icon :
    (u : Unicode) (p : Platform) (pids : Text → List ℕ) (names : List Text) (cache : IconCache)
    (n : Text) (o : Option Text)
    → IsUpToDate p pids cache
    → cache (to_lower u n) ≡ o
    → contains names n ≡ true
    → (elim (non_empty (extract u p cache names pids (to_lower u n))) [
      | none ↦ non_empty o
      | some icon ↦ some icon
    ])
      ≡ non_empty (icon_now p pids (to_lower u n))
unfolding extract icon_now non_empty
key_icon u p pids names cache n (some icon) h e c =
    rw (is_missing-cached u cache names (to_lower u n) e)
      (ap non_empty (sym (h (to_lower u n) icon e)))
key_icon u p pids names cache n none h e c =
    rw (is_missing-asked u cache names n c e) (itself (non_empty (icon_now p pids (to_lower u n))))
  where
    itself : (o : Option Text) → (elim o [ none ↦ none | some icon ↦ some icon ]) ≡ o
    itself none = refl
    itself (some icon) = refl

copied-IsUpToDate :
    (u : Unicode) (p : Platform) (pids : Text → List ℕ) (names : List Text) (cache : IconCache)
    → IsUpToDate p pids cache
    → IsUpToDate p pids (copy_into cache (extract u p cache names pids))
unfolding copy_into extract icon_now
copied-IsUpToDate u p pids names cache h k icon =
    copied (is_missing u cache names k) (icon_now p pids k) refl
  where
    copied :
        (b : Bool) (o : Option Text)
        → icon_now p pids k ≡ o
        → (elim (if b then o else none) [ none ↦ cache k | some i ↦ some i ]) ≡ some icon
        → icon_now p pids k ≡ some icon
    copied false o q e = h k icon e
    copied true none q e = h k icon e
    copied true (some i) q e = q ∙ e

look_up-icon_now :
    (u : Unicode) (p : Platform) (pids : Text → List ℕ) (names : List Text) (cache : IconCache)
    (n : Text)
    → IsUpToDate p pids cache
    → (look_up u p names cache (some pids)).0 n ≡ icons_of u (icon_now p pids) names n
unfolding look_up icons_of
look_up-icon_now u p pids names cache n h = asked (contains names n) refl
  where
    k : Text
    k = to_lower u n

    asked :
        (b : Bool)
        → contains names n ≡ b
        → (elim (if b then non_empty (extract u p cache names pids k) else none) [
          | none ↦ if b then non_empty (cache k) else none
          | some icon ↦ some icon
        ])
          ≡ (if b then non_empty (icon_now p pids k) else none)
    asked false q = refl
    asked true q = key_icon u p pids names cache n (cache k) h refl q

-- While the answers of the platform stay what they were when they were cached, a call gives for each name asked
-- exactly the icon that the platform gives for it without a cache, nothing for an empty or inconclusive
-- one or for another name; and the cache it leaves is up to date again.
pub get_process_icons-icon_now :
    (u : Unicode) (p : Platform) (pids : Text → List ℕ) (names : List Text) (cache : IconCache)
    → p.icons_supported ≡ true
    → p.pids_by_name ≡ some pids
    → IsUpToDate p pids cache
    → let result = get_process_icons u p names cache in
      ((n : Text) → result.0 n ≡ icons_of u (icon_now p pids) names n) × IsUpToDate p pids result.1
unfolding get_process_icons look_up
get_process_icons-icon_now u p pids names cache s l h =
    subst
      (λ (r : IconCache × IconCache).
        ((n : Text) → r.0 n ≡ icons_of u (icon_now p pids) names n) × IsUpToDate p pids r.1)
      (sym (
        ap
          (λ (b : Bool).
            if b then look_up u p names cache p.pids_by_name else ((λ (n : Text). none), cache))
          s
        ∙ ap (look_up u p names cache) l))
      ((λ n. look_up-icon_now u p pids names cache n h), copied-IsUpToDate u p pids names cache h)
