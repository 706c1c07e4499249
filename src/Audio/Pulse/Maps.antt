-- ===== src/Audio/Pulse/Maps.antt =====
-- The maps from indices to sessions: no index stands twice, so taking one out takes one session.
use deej.Prelude.{
  ℕ, ◌+◌, ◌≡◌, refl, ap, Bool, [], ◌∷◌, none, some, arith, ◌==◌, ==_iff, if◌then◌else◌, count,
  Bool-cases, inl, inr, subst,
}
use deej.Mixer.Counts.{one_if}
use deej.Audio.Pulse.{IndexMap, find_index, delete_index, sessions_in}

abbrev pub LacksIndex : ℕ → IndexMap → Type 0
LacksIndex i m = find_index i m ≡ none

-- No index stands twice.
abbrev pub IsIndexed : IndexMap → Type 0
IsIndexed [] = Unit {0}
IsIndexed ((i, s) ∷ m) = LacksIndex i m × IsIndexed m

delete_index-LacksIndex : (i : ℕ) (m : IndexMap) → LacksIndex i m → delete_index i m ≡ m
unfolding find_index delete_index
delete_index-LacksIndex i [] h = refl
delete_index-LacksIndex i ((j, s) ∷ m) h = elim (Bool-cases (j == i)) [
  | inl e ↦ absurd (cc (subst (λ (b : Bool). (if b then some s else find_index i m) ≡ none) e h))
  | inr e ↦
      let h' : find_index i m ≡ none =
        subst (λ (b : Bool). (if b then some s else find_index i m) ≡ none) e h in
      rw e (ap (λ (x : IndexMap). (j, s) ∷ x) (delete_index-LacksIndex i m h'))
]

find_index-delete_index :
    (i j : ℕ) (m : IndexMap)
    → find_index j (delete_index i m) ≡ (if j == i then none else find_index j m)
unfolding find_index delete_index
find_index-delete_index i j [] = ground arith
find_index-delete_index i j ((k, s) ∷ m) = ground (arith, find_index-delete_index i j m)

pub delete_index-IsIndexed : (i : ℕ) (m : IndexMap) → IsIndexed m → IsIndexed (delete_index i m)
unfolding delete_index
delete_index-IsIndexed i [] h = tt
delete_index-IsIndexed i ((j, s) ∷ m) h = elim (Bool-cases (j == i)) [
  | inl e ↦ rw e (delete_index-IsIndexed i m h.1)
  | inr e ↦
      rw e (ground (arith, find_index-delete_index i j m, h.0), delete_index-IsIndexed i m h.1)
]

some-inj : {s t : ℕ} → some s ≡ some t → s ≡ t
some-inj e = cc

-- The session that an index finds is the one that goes with it.
pub count-delete_index :
    (i s t : ℕ) (m : IndexMap)
    → IsIndexed m
    → find_index i m ≡ some s
    → count t (sessions_in m) ≡ one_if (s == t) + count t (sessions_in (delete_index i m))
unfolding find_index delete_index
count-delete_index i s t [] h f = absurd (cc)
count-delete_index i s t ((j, u) ∷ m) h f = elim (Bool-cases (j == i)) [
  | inl e ↦
      let same : u ≡ s =
        some-inj (subst (λ (b : Bool). (if b then some u else find_index i m) ≡ some s) e f) in
      let kept : delete_index i m ≡ m =
        delete_index-LacksIndex i m
          (subst (λ (x : ℕ). find_index x m ≡ none) ((==_iff j i).0 e) h.0) in
      rw e (rw kept (ground (arith, same)))
  | inr e ↦
      let rest =
        count-delete_index i s t m h.1
          (subst (λ (b : Bool). (if b then some u else find_index i m) ≡ some s) e f) in
      rw e (ground (arith, rest))
]
