-- ===== src/Audio/Wca/Maps.antt =====
-- The maps from ids to sessions and to devices: no id stands twice, so taking one out takes one entry.
use deej.Prelude.{
  ℕ, ◌+◌, ◌≡◌, refl, ap, Bool, true, false, List, [], ◌∷◌, map, Option, none, some, arith, ◌==◌,
  if◌then◌else◌, count, count-append, Bool-cases, ◌⊎◌, inl, inr, subst,
}
use deej.Prelude.Text.{Text, text_eq, text_eq_iff}
use deej.Mixer.Counts.{one_if}
use deej.Audio.Wca.{
  Tracked, DeviceManager, find_tracked, delete_tracked, find_manager, delete_manager, option_list,
  manager_masters,
}

some-inj : {A : Type 0} {x y : A} → some x ≡ some y → x ≡ y
some-inj e = cc

-- The two ways in which a lookup found `y`.
if_split :
    {A : Type 0} (b : Bool) (x : A) (r : Option A) {y : Option A}
    → (if b then some x else r) ≡ y
    → ((b ≡ true) × (some x ≡ y)) ⊎ ((b ≡ false) × (r ≡ y))
if_split true x r h = inl (refl, h)
if_split false x r h = inr (refl, h)

-- No id stands twice.
abbrev pub AreTracked : List Tracked → Type 0
AreTracked [] = Unit {0}
AreTracked (t ∷ ts) = (find_tracked t.id ts ≡ none) × AreTracked ts

abbrev pub AreManagers : List DeviceManager → Type 0
AreManagers [] = Unit {0}
AreManagers (d ∷ ds) = (find_manager d.id ds ≡ none) × AreManagers ds

delete_tracked-none :
    (id : Text) (ts : List Tracked) → find_tracked id ts ≡ none → delete_tracked id ts ≡ ts
unfolding find_tracked delete_tracked
delete_tracked-none id [] h = refl
delete_tracked-none id (t ∷ ts) h = elim (if_split (text_eq t.id id) t (find_tracked id ts) h) [
  | inl (e, g) ↦ absurd (cc g)
  | inr (e, g) ↦ rw e (ap (◌∷◌ t) (delete_tracked-none id ts g))
]

pub delete_manager-none :
    (id : Text) (ds : List DeviceManager) → find_manager id ds ≡ none → delete_manager id ds ≡ ds
unfolding find_manager delete_manager
delete_manager-none id [] h = refl
delete_manager-none id (d ∷ ds) h = elim (if_split (text_eq d.id id) d (find_manager id ds) h) [
  | inl (e, g) ↦ absurd (cc g)
  | inr (e, g) ↦ rw e (ap (◌∷◌ d) (delete_manager-none id ds g))
]

find_tracked-delete_tracked :
    (i j : Text) (ts : List Tracked)
    → find_tracked j ts ≡ none
    → find_tracked j (delete_tracked i ts) ≡ none
unfolding find_tracked delete_tracked
find_tracked-delete_tracked i j [] h = refl
find_tracked-delete_tracked i j (t ∷ ts) h =
    elim (if_split (text_eq t.id j) t (find_tracked j ts) h) [
      | inl (e, g) ↦ absurd (cc g)
      | inr (e, g) ↦
          let rest = find_tracked-delete_tracked i j ts g in
          elim (Bool-cases (text_eq t.id i)) [ inl e' ↦ rw e' rest | inr e' ↦ rw e' (rw e rest) ]
    ]

find_manager-delete_manager :
    (i j : Text) (ds : List DeviceManager)
    → find_manager j ds ≡ none
    → find_manager j (delete_manager i ds) ≡ none
unfolding find_manager delete_manager
find_manager-delete_manager i j [] h = refl
find_manager-delete_manager i j (d ∷ ds) h =
    elim (if_split (text_eq d.id j) d (find_manager j ds) h) [
      | inl (e, g) ↦ absurd (cc g)
      | inr (e, g) ↦
          let rest = find_manager-delete_manager i j ds g in
          elim (Bool-cases (text_eq d.id i)) [ inl e' ↦ rw e' rest | inr e' ↦ rw e' (rw e rest) ]
    ]

pub delete_tracked-AreTracked :
    (id : Text) (ts : List Tracked) → AreTracked ts → AreTracked (delete_tracked id ts)
unfolding delete_tracked
delete_tracked-AreTracked id [] h = tt
delete_tracked-AreTracked id (t ∷ ts) h = elim (Bool-cases (text_eq t.id id)) [
  | inl e ↦ rw e (delete_tracked-AreTracked id ts h.1)
  | inr e ↦ rw e (find_tracked-delete_tracked id t.id ts h.0, delete_tracked-AreTracked id ts h.1)
]

pub delete_manager-AreManagers :
    (id : Text) (ds : List DeviceManager) → AreManagers ds → AreManagers (delete_manager id ds)
unfolding delete_manager
delete_manager-AreManagers id [] h = tt
delete_manager-AreManagers id (d ∷ ds) h = elim (Bool-cases (text_eq d.id id)) [
  | inl e ↦ rw e (delete_manager-AreManagers id ds h.1)
  | inr e ↦ rw e (find_manager-delete_manager id d.id ds h.0, delete_manager-AreManagers id ds h.1)
]

-- What an id finds goes with it, and nothing else; `part` is a number of the entry.
pub count-delete_tracked :
    (part : Tracked → ℕ) (id : Text) (t : Tracked) (n : ℕ) (ts : List Tracked)
    → AreTracked ts
    → find_tracked id ts ≡ some t
    → count n (map part ts) ≡ one_if (part t == n) + count n (map part (delete_tracked id ts))
unfolding find_tracked delete_tracked
count-delete_tracked part id t n [] h f = absurd (cc)
count-delete_tracked part id t n (u ∷ ts) h f =
    elim (if_split (text_eq u.id id) u (find_tracked id ts) f) [
      | inl (e, g) ↦
          let kept : delete_tracked id ts ≡ ts =
            delete_tracked-none id ts
              (subst (λ (x : Text). find_tracked x ts ≡ none) ((text_eq_iff u.id id).0 e) h.0) in
          let same : part u ≡ part t = ap part (some-inj g) in rw e (rw kept (ground (arith, same)))
      | inr (e, g) ↦ rw e (ground (arith, count-delete_tracked part id t n ts h.1 g))
    ]

pub count-delete_manager :
    (id : Text) (d : DeviceManager) (n : ℕ) (ds : List DeviceManager)
    → AreManagers ds
    → find_manager id ds ≡ some d
    → count n (manager_masters ds)
      ≡ count n (option_list d.master) + count n (manager_masters (delete_manager id ds))
unfolding find_manager delete_manager
count-delete_manager id d n [] h f = absurd (cc)
count-delete_manager id d n (e ∷ ds) h f =
    elim (if_split (text_eq e.id id) e (find_manager id ds) f) [
      | inl (q, g) ↦
          let kept : delete_manager id ds ≡ ds =
            delete_manager-none id ds
              (subst (λ (x : Text). find_manager x ds ≡ none) ((text_eq_iff e.id id).0 q) h.0) in
          let same : count n (option_list e.master) ≡ count n (option_list d.master) =
            ap (λ (x : DeviceManager). count n (option_list x.master)) (some-inj g) in
          rw q (
            rw kept
              (omega (arith, same, count-append n (option_list e.master) (manager_masters ds))))
      | inr (q, g) ↦ rw q (
          omega (
            arith,
            count-delete_manager id d n ds h.1 g,
            count-append n (option_list e.master) (manager_masters ds),
            count-append n (option_list e.master) (manager_masters (delete_manager id ds)),
          ))
    ]
