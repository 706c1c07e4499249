-- ===== src/Config/Mapping/Order.antt =====
-- Sorting the entries of a mapping: the order it makes, and that lookups do not see it.
use deej.Prelude.{
  ◌≡◌, refl, true, false, List, [], ◌∷◌, some, arith, if◌then◌else◌, All, Bool-cases, inl, inr,
}
use deej.Prelude.Int.{ℤ, eqb_ℤ, eqb_ℤ_iff, ltb_ℤ}
use deej.Config.Model.{SliderMappingEntry, SliderMappings}
use deej.Config.Entries.{get, insert_entry, sort_entries}

-- The sliders rise along the mapping.
abbrev pub Ascending : SliderMappings → Type 0
Ascending [] = Unit {0}
Ascending (e ∷ es) = All (λ d. ltb_ℤ e.slider d.slider ≡ true) es × Ascending es

-- No two entries have one slider.
abbrev pub Distinct : SliderMappings → Type 0
Distinct [] = Unit {0}
Distinct (e ∷ es) = All (λ d. eqb_ℤ e.slider d.slider ≡ false) es × Distinct es

ltb_ℤ_trans : (a b c : ℤ) → ltb_ℤ a b ≡ true → ltb_ℤ b c ≡ true → ltb_ℤ a c ≡ true
ltb_ℤ_trans a b c h k = ground arith

ltb_ℤ_total : (a b : ℤ) → ltb_ℤ a b ≡ false → eqb_ℤ b a ≡ false → ltb_ℤ b a ≡ true
ltb_ℤ_total a b h k = ground arith

All-map {ℓ κ μ} :
    {A : Type ℓ} (P : A → Type κ) (Q : A → Type μ)
    → ((a : A) → P a → Q a)
    → (xs : List A) → All P xs
    → All Q xs
All-map P Q f [] h = tt
All-map P Q f (x ∷ xs) h = (f x h.0, All-map P Q f xs h.1)

All-insert_entry {ℓ} :
    (P : SliderMappingEntry → Type ℓ) (e : SliderMappingEntry) (es : SliderMappings)
    → P e
    → All P es
    → All P (insert_entry e es)
unfolding insert_entry
All-insert_entry P e [] p h = (p, h)
All-insert_entry P e (d ∷ ds) p h = elim (Bool-cases (ltb_ℤ d.slider e.slider)) [
  | inl t ↦ rw t (h.0, All-insert_entry P e ds p h.1)
  | inr t ↦ rw t (p, h)
]

pub All-sort_entries {ℓ} :
    (P : SliderMappingEntry → Type ℓ) (es : SliderMappings) → All P es → All P (sort_entries es)
unfolding sort_entries
All-sort_entries P [] h = h
All-sort_entries P (e ∷ es) h =
    All-insert_entry P e (sort_entries es) h.0 (All-sort_entries P es h.1)

insert_entry-Ascending :
    (e : SliderMappingEntry) (es : SliderMappings)
    → All (λ d. eqb_ℤ e.slider d.slider ≡ false) es
    → Ascending es
    → Ascending (insert_entry e es)
unfolding insert_entry
insert_entry-Ascending e [] h a = (tt, tt)
insert_entry-Ascending e (d ∷ ds) h a = elim (Bool-cases (ltb_ℤ d.slider e.slider)) [
  | inl t ↦ rw t (All-insert_entry _ e ds t a.0, insert_entry-Ascending e ds h.1 a.1)
  | inr t ↦
      let below : ltb_ℤ e.slider d.slider ≡ true = ltb_ℤ_total d.slider e.slider t h.0 in
      rw t ((below, All-map _ _ (λ c k. ltb_ℤ_trans e.slider d.slider c.slider below k) ds a.0), a)
]

-- Sorting entries with distinct sliders puts them in rising order.
pub sort_entries-Ascending : (es : SliderMappings) → Distinct es → Ascending (sort_entries es)
unfolding sort_entries
sort_entries-Ascending [] h = tt
sort_entries-Ascending (e ∷ es) h =
    insert_entry-Ascending e (sort_entries es) (All-sort_entries _ es h.0)
      (sort_entries-Ascending es h.1)

insert_entry-first :
    (e : SliderMappingEntry) (es : SliderMappings)
    → All (λ d. ltb_ℤ e.slider d.slider ≡ true) es
    → insert_entry e es ≡ e ∷ es
unfolding insert_entry
insert_entry-first e [] h = refl
insert_entry-first e (d ∷ ds) h = ground arith

-- A sorted mapping stays as it is.
pub sort_entries_of_Ascending : (es : SliderMappings) → Ascending es → sort_entries es ≡ es
unfolding sort_entries
sort_entries_of_Ascending [] h = refl
sort_entries_of_Ascending (e ∷ es) h =
    rw (sort_entries_of_Ascending es h.1) (insert_entry-first e es h.0)

get-insert_entry :
    (e : SliderMappingEntry) (es : SliderMappings) (slider : ℤ)
    → get (insert_entry e es) slider
      ≡ (if eqb_ℤ e.slider slider then some e.targets else get es slider)
unfolding get insert_entry
get-insert_entry e [] slider = refl
get-insert_entry e (d ∷ ds) slider =
    ground (arith, get-insert_entry e ds slider, eqb_ℤ_iff e.slider slider)

-- Sorting changes no lookup.
pub get-sort_entries :
    (es : SliderMappings) (slider : ℤ) → get (sort_entries es) slider ≡ get es slider
unfolding sort_entries get
get-sort_entries [] slider = refl
get-sort_entries (e ∷ es) slider =
    rw (get-insert_entry e (sort_entries es) slider, get-sort_entries es slider)
