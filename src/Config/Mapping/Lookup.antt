-- ===== src/Config/Mapping/Lookup.antt =====
-- What a normalised mapping gives for each slider, in terms of the mapping that was written.
use deej.Prelude.{
  sym, ◌≡◌, refl, ap, ◌∙◌, true, false, List, [], ◌∷◌, Option, none, some, arith, if◌then◌else◌,
  Bool-cases, inl, inr,
}
use deej.Prelude.Int.{ℤ, eqb_ℤ, eqb_ℤ_iff, is_neg}
use deej.Prelude.Text.{Text}
use deej.Config.Model.{SliderMappingEntry, SliderMappings}
use deej.Config.Entries.{
  get, MappingProblem, contains_slider, drop_empty, keep_entry, collect, normalized,
}
use deej.Config.Mapping.Order.{get-sort_entries}

abbrev pub if_any : List Text → Option (List Text)
if_any [] = none
if_any (t ∷ ts) = some (t ∷ ts)

-- The targets that are not empty, if there are any.
abbrev pub usable : Option (List Text) → Option (List Text)
usable none = none
usable (some ts) = if_any (drop_empty ts)

get-keep_entry :
    (slider s : ℤ) (ts : List Text) (r : SliderMappings × List MappingProblem)
    → (eqb_ℤ slider s ≡ true → get r.0 s ≡ none)
    → get (keep_entry slider ts r).0 s ≡ (if eqb_ℤ slider s then if_any ts else get r.0 s)
unfolding get
get-keep_entry slider s [] r h = elim (Bool-cases (eqb_ℤ slider s)) [
  | inl e ↦ rw e (h e)
  | inr e ↦ rw e
]
get-keep_entry slider s (t ∷ ts) r h = refl

-- Where a skipped entry is for another slider, or its slider is not looked up, it makes no
-- difference.
usable-skip :
    (seen : List ℤ) (e : SliderMappingEntry) (es : SliderMappings) (s : ℤ)
    → (e.slider ≡ s → contains_slider seen s ≡ true)
    → (if contains_slider seen s then none else usable (get es s))
      ≡ (if contains_slider seen s then none else usable (get (e ∷ es) s))
unfolding get
usable-skip seen e es s h = elim (Bool-cases (eqb_ℤ e.slider s)) [
  | inl t ↦ rw (h ((eqb_ℤ_iff e.slider s).0 t))
  | inr t ↦ rw t
]

usable-kept :
    (seen : List ℤ) (e : SliderMappingEntry) (es : SliderMappings) (s : ℤ)
    (rest : Option (List Text))
    → contains_slider seen e.slider ≡ false
    → rest ≡ (if contains_slider (e.slider ∷ seen) s then none else usable (get es s))
    → (if eqb_ℤ e.slider s then if_any (drop_empty e.targets) else rest)
      ≡ (if contains_slider seen s then none else usable (get (e ∷ es) s))
unfolding get contains_slider
usable-kept seen e es s rest c h = elim (Bool-cases (eqb_ℤ e.slider s)) [
  | inl t ↦ rw t (rw (ap (contains_slider seen) (sym ((eqb_ℤ_iff e.slider s).0 t)) ∙ c))
  | inr t ↦ rw t (h ∙ rw t)
]

get-collect :
    (seen : List ℤ) (es : SliderMappings) (s : ℤ)
    → is_neg s ≡ false
    → get (collect seen es).0 s ≡ (if contains_slider seen s then none else usable (get es s))
unfolding collect
get-collect seen [] s h = unfold get in ground arith
get-collect seen (e ∷ es) s h = elim (Bool-cases (is_neg e.slider)) [
  | inl n ↦
      rw n (get-collect seen es s h ∙ usable-skip seen e es s (λ t. absurd (cc (ap is_neg t))))
  | inr n ↦ elim (Bool-cases (contains_slider seen e.slider)) [
    | inl c ↦
        rw (n, c)
          (get-collect seen es s h
            ∙ usable-skip seen e es s (λ t. ap (contains_slider seen) (sym t) ∙ c))
    | inr c ↦
        rw (n, c)
          (get-keep_entry e.slider s (drop_empty e.targets) (collect (e.slider ∷ seen) es)
              (λ t. get-collect (e.slider ∷ seen) es s h ∙ rw t)
            ∙ usable-kept seen e es s _ c (get-collect (e.slider ∷ seen) es s h))
  ]
]

-- A slider that is not negative has, in a normalised mapping, the usable targets of the first
-- entry that was written for it, and no entry if there are none.
pub get-normalized :
    (m : SliderMappings) (s : ℤ) → is_neg s ≡ false → get (normalized m).0 s ≡ usable (get m s)
unfolding normalized
get-normalized m s h =
    get-sort_entries (collect [] m).0 s ∙ get-collect [] m s h ∙ unfold contains_slider in refl
