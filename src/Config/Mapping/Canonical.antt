-- ===== src/Config/Mapping/Canonical.antt =====
-- The canonical form of a mapping, which `normalized` reaches and keeps.
use deej.Prelude.{
  ◌≡◌, ◌<◌, refl, ap, ◌∙◌, true, false, List, [], ◌∷◌, arith, All, length, Bool-cases, inl, inr,
}
use deej.Prelude.Int.{ℤ, eqb_ℤ, is_neg, ltb_ℤ}
use deej.Prelude.Text.{Text, text_eq}
use deej.Config.Model.{SliderMappingEntry, SliderMappings}
use deej.Config.Entries.{
  MappingProblem, contains_slider, drop_empty, report, keep_entry, collect, normalized,
}
use deej.Config.Mapping.Order.{
  Ascending, Distinct, All-sort_entries, sort_entries-Ascending, sort_entries_of_Ascending,
}

-- A slider that is not negative, with targets, none of them empty.
abbrev pub IsKept : SliderMappingEntry → Type 0
IsKept e =
    (is_neg e.slider ≡ false) × (0 < length e.targets) × All (λ t. text_eq t [] ≡ false) e.targets

abbrev pub IsCanonical : SliderMappings → Type 0
IsCanonical m = Ascending m × All IsKept m

drop_empty-All : (ts : List Text) → All (λ t. text_eq t [] ≡ false) (drop_empty ts)
unfolding drop_empty
drop_empty-All [] = tt
drop_empty-All (t ∷ ts) = elim (Bool-cases (text_eq t [])) [
  | inl e ↦ rw e (drop_empty-All ts)
  | inr e ↦ rw e (e, drop_empty-All ts)
]

drop_empty_of_All : (ts : List Text) → All (λ t. text_eq t [] ≡ false) ts → drop_empty ts ≡ ts
unfolding drop_empty
drop_empty_of_All [] h = refl
drop_empty_of_All (t ∷ ts) h = rw (h.0, drop_empty_of_All ts h.1)

-- What holds of the results of every way through one round of `collect` holds of `collect`.
collect_cases {ℓ} :
    (P : SliderMappings × List MappingProblem → Type ℓ) (seen : List ℤ) (e : SliderMappingEntry)
    (es : SliderMappings)
    → ((p : MappingProblem) → P (report p (collect seen es)))
    → (is_neg e.slider ≡ false
        → contains_slider seen e.slider ≡ false
        → P (keep_entry e.slider (drop_empty e.targets) (collect (e.slider ∷ seen) es)))
    → P (collect seen (e ∷ es))
unfolding collect
collect_cases P seen e es skipped kept = elim (Bool-cases (is_neg e.slider)) [
  | inl n ↦ rw n (skipped _)
  | inr n ↦ elim (Bool-cases (contains_slider seen e.slider)) [
    | inl c ↦ rw (n, c) (skipped _)
    | inr c ↦ rw (n, c) (kept n c)
  ]
]

-- The entry goes on if it has targets, and is left out if not.
keep_entry_cases {ℓ} :
    (P : SliderMappings → Type ℓ) (slider : ℤ) (ts : List Text)
    (r : SliderMappings × List MappingProblem)
    → P r.0
    → (0 < length ts → P (record { slider = slider; targets = ts } ∷ r.0))
    → P (keep_entry slider ts r).0
keep_entry_cases P slider [] r out kept = out
keep_entry_cases P slider (t ∷ ts) r out kept = kept (omega arith)

collect-IsKept : (seen : List ℤ) (es : SliderMappings) → All IsKept (collect seen es).0
collect-IsKept seen [] = unfold collect in tt
collect-IsKept seen (e ∷ es) =
    let rest = collect-IsKept (e.slider ∷ seen) es in
    collect_cases (λ r. All IsKept r.0) seen e es (λ p. collect-IsKept seen es)
      λ n c.
        keep_entry_cases (All IsKept) e.slider (drop_empty e.targets) _ rest
          λ some_left. ((n, some_left, drop_empty-All e.targets), rest)

abbrev Unseen : List ℤ → SliderMappingEntry → Type 0
Unseen seen d = contains_slider seen d.slider ≡ false

Unseen-cons :
    (s : ℤ) (seen : List ℤ) (es : SliderMappings)
    → All (Unseen (s ∷ seen)) es
    → All (λ d. eqb_ℤ s d.slider ≡ false) es × All (Unseen seen) es
unfolding contains_slider
Unseen-cons s seen [] h = (tt, tt)
Unseen-cons s seen (e ∷ es) h =
    let (a, b) = Unseen-cons s seen es h.1 in ((ground arith, a), (ground arith, b))

collect-Unseen :
    (seen : List ℤ) (es : SliderMappings)
    → All (Unseen seen) (collect seen es).0 × Distinct (collect seen es).0
collect-Unseen seen [] = unfold collect in (tt, tt)
collect-Unseen seen (e ∷ es) =
    let (unseen, distinct) = collect-Unseen (e.slider ∷ seen) es in
    let (other, old) = Unseen-cons e.slider seen _ unseen in
    collect_cases (λ r. All (Unseen seen) r.0 × Distinct r.0) seen e es
      (λ p. collect-Unseen seen es)
      λ n c.
        keep_entry_cases (λ m. All (Unseen seen) m × Distinct m) e.slider (drop_empty e.targets) _
          (old, distinct) λ some_left. ((c, old), (other, distinct))

-- `normalized` gives a canonical mapping: its sliders rise, none is negative, and each has targets,
-- none of them empty.
pub normalized-IsCanonical : (m : SliderMappings) → IsCanonical (normalized m).0
unfolding normalized
normalized-IsCanonical m = (
  sort_entries-Ascending (collect [] m).0 (collect-Unseen [] m).1,
  All-sort_entries IsKept (collect [] m).0 (collect-IsKept [] m),
)

keep_entry_of_IsKept :
    (e : SliderMappingEntry) (r : SliderMappings × List MappingProblem)
    → IsKept e
    → keep_entry e.slider (drop_empty e.targets) r ≡ (e ∷ r.0, r.1)
keep_entry_of_IsKept e r (n, some_left, full) =
    rw (drop_empty_of_All e.targets full) (step e.targets refl)
  where
    step : (ts : List Text) → e.targets ≡ ts → keep_entry e.slider ts r ≡ (e ∷ r.0, r.1)
    step [] h = absurd (ground arith)
    step (t ∷ ts) h = ground arith

collect_of_IsCanonical :
    (seen : List ℤ) (es : SliderMappings)
    → Ascending es
    → All IsKept es
    → All (Unseen seen) es
    → collect seen es ≡ (es, [])
unfolding collect
collect_of_IsCanonical seen [] a k u = refl
collect_of_IsCanonical seen (e ∷ es) a k u =
    rw (k.0.0, u.0)
      (keep_entry_of_IsKept e (collect (e.slider ∷ seen) es) k.0
        ∙ rw (collect_of_IsCanonical (e.slider ∷ seen) es a.1 k.1 (newer es a.0 u.1)))
  where
    newer :
        (ds : SliderMappings)
        → All (λ d. ltb_ℤ e.slider d.slider ≡ true) ds
        → All (Unseen seen) ds
        → All (Unseen (e.slider ∷ seen)) ds
    newer [] above old = tt
    newer (d ∷ ds) above old = (unfold contains_slider in ground arith, newer ds above.1 old.1)

All-Unseen-nil : (es : SliderMappings) → All (Unseen []) es
unfolding contains_slider
All-Unseen-nil [] = tt
All-Unseen-nil (e ∷ es) = (refl, All-Unseen-nil es)

-- A canonical mapping is kept as it is, with nothing to report.
pub normalized_of_IsCanonical : (m : SliderMappings) → IsCanonical m → normalized m ≡ (m, [])
unfolding normalized
normalized_of_IsCanonical m (a, k) =
    rw (collect_of_IsCanonical [] m a k (All-Unseen-nil m))
      (ap (λ (x : SliderMappings). (x, [])) (sort_entries_of_Ascending m a))
