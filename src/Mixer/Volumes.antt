-- ===== src/Mixer/Volumes.antt =====
-- The volumes that a slider move sets, session by session.
use deej.Prelude.{
  ℕ, count, count-append, ◌<◌, ◌≡◌, refl, ap, sym, ◌∙◌, Bool, true, false, ◌&&◌, List, [], ◌∷◌,
  arith, ◌==◌, ltb, if◌then◌else◌, All, Bool-cases, inl, inr, subst,
}
use deej.Prelude.Text.{Text, text_eq, text_eq_iff}
use deej.Mixer.Sessions.{Attributes, SessionMap, sessions_of, find_sessions}
use deej.Mixer.Counts.{count-HasKey, count-Lacks, Lacks, IsKeyed}
use deej.Mixer.Targets.{Backend, changed, set_volumes, set_session_volumes, or_none}

abbrev pub stands_in : ℕ → List ℕ → Bool
stands_in t ss = ltb 0 (count t ss)

abbrev next : ℕ → ℕ → Backend → Backend
next s v b = if b.accepts s then record b { volume = changed b.volume s v } else b

next-accepts : (s v : ℕ) (b : Backend) → (next s v b).accepts ≡ b.accepts
next-accepts s v b = elim (Bool-cases (b.accepts s)) [ inl e ↦ rw e | inr e ↦ rw e ]

next-volume :
    (s v : ℕ) (b : Backend) (t : ℕ)
    → (next s v b).volume t ≡ (if (s == t) && b.accepts t then v else b.volume t)
next-volume s v b t =
    let same : s ≡ t → b.accepts s ≡ b.accepts t = λ e. ap b.accepts e in
    elim (Bool-cases (b.accepts s)) [
      | inl e ↦ rw e (ground (arith, same))
      | inr e ↦ rw e (ground (arith, same))
    ]

pub set_volumes-accepts :
    (v : ℕ) (ss : List ℕ) (b : Backend) → (set_volumes v ss b).1.accepts ≡ b.accepts
unfolding set_volumes
set_volumes-accepts v [] b = refl
set_volumes-accepts v (s ∷ ss) b = elim (Bool-cases (b.volume s == v)) [
  | inl e ↦ rw e (set_volumes-accepts v ss b)
  | inr e ↦ rw e (set_volumes-accepts v ss (next s v b) ∙ next-accepts s v b)
]

set_already :
    (v s : ℕ) (ss : List ℕ) (b : Backend) (t : ℕ)
    → (b.volume s == v) ≡ true
    → (if stands_in t ss && b.accepts t then v else b.volume t)
      ≡ (if stands_in t (s ∷ ss) && b.accepts t then v else b.volume t)
set_already v s ss b t e =
    let same : s ≡ t → b.volume s ≡ b.volume t = λ k. ap b.volume k in ground (arith, same)

set_next :
    (v s : ℕ) (ss : List ℕ) (b : Backend) (t : ℕ)
    → (if stands_in t ss && (next s v b).accepts t then v else (next s v b).volume t)
      ≡ (if stands_in t (s ∷ ss) && b.accepts t then v else b.volume t)
set_next v s ss b t = rw (next-accepts s v b, next-volume s v b t) (ground arith)

-- Each listed session that takes volumes has the new one, and every other keeps its own.
set_volumes-volume :
    (v : ℕ) (ss : List ℕ) (b : Backend) (t : ℕ)
    → (set_volumes v ss b).1.volume t ≡ (if stands_in t ss && b.accepts t then v else b.volume t)
unfolding set_volumes
set_volumes-volume v [] b t = refl
set_volumes-volume v (s ∷ ss) b t = elim (Bool-cases (b.volume s == v)) [
  | inl e ↦ rw e (set_volumes-volume v ss b t ∙ set_already v s ss b t e)
  | inr e ↦ rw e (set_volumes-volume v ss (next s v b) t ∙ set_next v s ss b t)
]

-- In a keyed map the key of a session decides which bucket it stands in.
in_bucket :
    (a : Attributes) (k : Text) (ss : List ℕ) (m : SessionMap) (t : ℕ)
    → IsKeyed a ((k, ss) ∷ m)
    → (if text_eq (a.key t) k then count t (sessions_of m) ≡ 0 else count t ss ≡ 0)
in_bucket a k ss m t h = elim (Bool-cases (text_eq (a.key t) k)) [
  | inl e ↦ rw e (
      count-Lacks a t m h.3
        (subst (λ (x : Text). Lacks x m) (sym ((text_eq_iff (a.key t) k).0 e)) h.2))
  | inr e ↦ rw e (count-HasKey a t k ss h.0 (text_eq-false k (a.key t) e))
]
  where
    text_eq-false : (x y : Text) → text_eq y x ≡ false → text_eq x y ≡ false
    text_eq-false x y n = elim (Bool-cases (text_eq x y)) [
      | inl p ↦ absurd (cc ((text_eq_iff y x).1 (sym ((text_eq_iff x y).0 p))))
      | inr p ↦ p
    ]

count-find_sessions :
    (a : Attributes) (m : SessionMap) (target : Text) (t : ℕ)
    → IsKeyed a m
    → count t (or_none (find_sessions m target))
      ≡ (if text_eq (a.key t) target then count t (sessions_of m) else 0)
unfolding find_sessions
count-find_sessions a [] target t h = ground arith
count-find_sessions a ((k, ss) ∷ m) target t h = ground (
  arith,
  text_eq_iff k target,
  text_eq_iff (a.key t) target,
  text_eq_iff (a.key t) k,
  in_bucket a k ss m t h,
  count-append t ss (sessions_of m),
  count-find_sessions a m target t h.3,
)

-- In a keyed map, a move on a target sets exactly the sessions of the map that have the target as
-- their key and take the volume; the volume of every other session is as before.
pub set_session_volumes-volume :
    (a : Attributes) (m : SessionMap) (target : Text) (v : ℕ) (b : Backend) (t : ℕ)
    → IsKeyed a m
    → (set_session_volumes m target v b).1.volume t ≡ (
        if text_eq (a.key t) target && stands_in t (sessions_of m) && b.accepts t
        then v
        else b.volume t)
unfolding set_session_volumes
set_session_volumes-volume a m target v b t h =
    set_volumes-volume v (or_none (find_sessions m target)) b t
    ∙ ground (arith, count-find_sessions a m target t h)

set_volumes-quiet :
    (v : ℕ) (ss : List ℕ) (b : Backend)
    → All (λ s. b.volume s ≡ v) ss
    → set_volumes v ss b ≡ ([], b)
unfolding set_volumes
set_volumes-quiet v [] b h = refl
set_volumes-quiet v (s ∷ ss) b h = ground (arith, set_volumes-quiet v ss b h.1)

All-of_count {ℓ} : (P : ℕ → Type ℓ) (ss : List ℕ) → ((t : ℕ) → 0 < count t ss → P t) → All P ss
All-of_count P [] h = tt
All-of_count P (s ∷ ss) h = (h s (ground arith), All-of_count P ss (λ t k. h t (ground arith)))

-- A second move to the same position tells no session anything, where all of them took the first.
set_session_volumes_again :
    (m : SessionMap) (target : Text) (v : ℕ) (b : Backend)
    → ((t : ℕ) → b.accepts t ≡ true)
    → let b' = (set_session_volumes m target v b).1 in set_session_volumes m target v b' ≡ ([], b')
unfolding set_session_volumes
set_session_volumes_again m target v b all =
    let ss = or_none (find_sessions m target) in
    set_volumes-quiet v ss (set_volumes v ss b).1 (
      All-of_count (λ s. (set_volumes v ss b).1.volume s ≡ v) ss
        λ t h. set_volumes-volume v ss b t ∙ ground (arith, all t))
