-- ===== src/Mixer/Counts.antt =====
-- How often a session stands in the map and in the unmapped list, through every operation.
use deej.Prelude.{
  ℕ, count, count-append, ==_iff, subst, ◌+◌, ◌-◌, ◌<◌, ◌≡◌, refl, ap, sym, ◌∙◌, Bool, true, false,
  List, [], ◌∷◌, ◌++◌, arith, ◌==◌, if◌then◌else◌, length, All, Bool-cases, inl, inr,
}
use deej.Prelude.Text.{Text, text_eq, text_eq_iff}
use deej.Mixer.Sessions.{
  Attributes, SessionMap, add_session, remove_first, put_bucket, remove_session, sessions_of,
  reject,
}

abbrev pub one_if : Bool → ℕ
one_if true = 1
one_if false = 0

pub count-add_session :
    (a : Attributes) (m : SessionMap) (s t : ℕ)
    → count t (sessions_of (add_session a m s)) ≡ count t (sessions_of m) + one_if (s == t)
unfolding add_session
count-add_session a [] s t = ground arith
count-add_session a ((k, ss) ∷ m) s t = elim (Bool-cases (text_eq k (a.key s))) [
  | inl e ↦ rw e (
      ground (
        arith,
        count-append t (ss ++ s ∷ []) (sessions_of m),
        count-append t ss (s ∷ []),
        count-append t ss (sessions_of m),
      ))
  | inr e ↦ rw e (
      ground (
        arith,
        count-append t ss (sessions_of (add_session a m s)),
        count-append t ss (sessions_of m),
        count-add_session a m s t,
      ))
]

pub count-remove_first :
    (s t : ℕ) (xs : List ℕ) → count t (remove_first s xs) ≡ count t xs - one_if (s == t)
unfolding remove_first
count-remove_first s t [] = ground arith
count-remove_first s t (x ∷ xs) = ground (arith, count-remove_first s t xs)

pub count-reject :
    (test : ℕ → Bool) (t : ℕ) (xs : List ℕ)
    → count t (reject test xs) ≡ (if test t then 0 else count t xs)
unfolding reject
count-reject test t [] = ground arith
count-reject test t (x ∷ xs) = elim (Bool-cases (x == t)) [
  | inl e ↦ ground (arith, count-reject test t xs, ap test ((==_iff x t).0 e))
  | inr e ↦ ground (arith, count-reject test t xs)
]

-- Each bucket has sessions, all under its key, and no key stands twice.
abbrev pub HasKey : Attributes → Text → List ℕ → Type 0
HasKey a k = All (λ s. a.key s ≡ k)

abbrev pub Lacks : Text → SessionMap → Type 0
Lacks k [] = Unit {0}
Lacks k ((j, ss) ∷ m) = (text_eq j k ≡ false) × Lacks k m

abbrev pub IsKeyed : Attributes → SessionMap → Type 0
IsKeyed a [] = Unit {0}
IsKeyed a ((k, ss) ∷ m) = HasKey a k ss × (0 < length ss) × Lacks k m × IsKeyed a m

count-put_bucket :
    (t : ℕ) (k : Text) (ss : List ℕ) (m : SessionMap)
    → count t (sessions_of (put_bucket k ss m)) ≡ count t ss + count t (sessions_of m)
count-put_bucket t k [] m = omega arith
count-put_bucket t k (s ∷ ss) m = count-append t (s ∷ ss) (sessions_of m)

-- A session under another key does not stand in the bucket.
pub count-HasKey :
    (a : Attributes) (s : ℕ) (k : Text) (ss : List ℕ)
    → HasKey a k ss
    → text_eq k (a.key s) ≡ false
    → count s ss ≡ 0
count-HasKey a s k [] h e = refl
count-HasKey a s k (t ∷ ss) h e = elim (Bool-cases (t == s)) [
  | inl same ↦
      let e' : k ≡ a.key s = sym h.0 ∙ ap a.key ((==_iff t s).0 same) in
      absurd (cc ((text_eq_iff k (a.key s)).1 e'))
  | inr other ↦ rw other (count-HasKey a s k ss h.1 e)
]

pub count-Lacks :
    (a : Attributes) (s : ℕ) (m : SessionMap)
    → IsKeyed a m
    → Lacks (a.key s) m
    → count s (sessions_of m) ≡ 0
count-Lacks a s [] h l = refl
count-Lacks a s ((k, ss) ∷ m) h l = omega (
  arith,
  count-append s ss (sessions_of m),
  count-HasKey a s k ss h.0 l.0,
  count-Lacks a s m h.3 l.1,
)

-- In a keyed map removing a session takes it away once, wherever it stands, and no other.
pub count-remove_session :
    (a : Attributes) (m : SessionMap) (s t : ℕ)
    → IsKeyed a m
    → count t (sessions_of (remove_session a m s)) ≡ count t (sessions_of m) - one_if (s == t)
unfolding remove_session
count-remove_session a [] s t h = ground arith
count-remove_session a ((k, ss) ∷ m) s t h = elim (Bool-cases (text_eq k (a.key s))) [
  | inl e ↦
      let gone : s ≡ t → count t (sessions_of m) ≡ 0 = λ same.
        subst (λ (x : ℕ). count x (sessions_of m) ≡ 0) same
          (count-Lacks a s m h.3
            (subst (λ (x : Text). Lacks x m) ((text_eq_iff k (a.key s)).0 e) h.2)) in
      rw e (
        ground (
          arith,
          count-put_bucket t k (remove_first s ss) m,
          count-remove_first s t ss,
          count-append t ss (sessions_of m),
          gone,
        ))
  | inr e ↦
      let other : s ≡ t → count t ss ≡ 0 =
        λ same. subst (λ (x : ℕ). count x ss ≡ 0) same (count-HasKey a s k ss h.0 e) in
      rw e (
        ground (
          arith,
          count-append t ss (sessions_of (remove_session a m s)),
          count-remove_session a m s t h.3,
          count-append t ss (sessions_of m),
          other,
        ))
]
