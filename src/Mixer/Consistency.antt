-- ===== src/Mixer/Consistency.antt =====
-- What holds of the mixer between two session events, and that a released session is out of reach.
use deej.Prelude.{
  ℕ, count, count-append, ◌≤◌, ◌≡◌, refl, sym, Bool, false, List, [], ◌∷◌, ◌++◌, arith, ◌==◌,
  if◌then◌else◌, length, length-append, Bool-cases, inl, inr, subst,
}
use deej.Prelude.Text.{Text, text_eq, text_eq_iff}
use deej.Mixer.Sessions.{
  Attributes, SessionMap, MixerState, add_session, remove_first, put_bucket, remove_session,
  sessions_of, session_count, refresh_unmapped, handle_session_added, handle_session_removed,
  SessionEvent, added, removed, removed_nil, handle_session_event,
}
use deej.Mixer.Counts.{
  count-add_session, count-remove_first, count-reject, count-remove_session, HasKey, Lacks, IsKeyed,
}

-- Each session stands in the map at most once, under its key, and as unmapped only if it is there.
pub record IsConsistent (a : Attributes) (st : MixerState) : Type 0 where
  pub keyed : IsKeyed a st.sessions
  pub once : (t : ℕ) → count t (sessions_of st.sessions) ≤ 1
  pub tracked : (t : ℕ) → count t st.unmapped ≤ count t (sessions_of st.sessions)

HasKey-append :
    (a : Attributes) (k : Text) (xs : List ℕ) (s : ℕ)
    → HasKey a k xs
    → a.key s ≡ k
    → HasKey a k (xs ++ s ∷ [])
HasKey-append a k [] s h e = (e, tt)
HasKey-append a k (x ∷ xs) s h e = (h.0, HasKey-append a k xs s h.1 e)

HasKey-remove_first :
    (a : Attributes) (k : Text) (s : ℕ) (xs : List ℕ)
    → HasKey a k xs
    → HasKey a k (remove_first s xs)
unfolding remove_first
HasKey-remove_first a k s [] h = tt
HasKey-remove_first a k s (x ∷ xs) h = elim (Bool-cases (x == s)) [
  | inl e ↦ rw e h.1
  | inr e ↦ rw e (h.0, HasKey-remove_first a k s xs h.1)
]

Lacks-add_session :
    (a : Attributes) (k : Text) (m : SessionMap) (s : ℕ)
    → Lacks k m
    → text_eq (a.key s) k ≡ false
    → Lacks k (add_session a m s)
unfolding add_session
Lacks-add_session a k [] s h e = (e, tt)
Lacks-add_session a k ((j, ss) ∷ m) s h e = elim (Bool-cases (text_eq j (a.key s))) [
  | inl t ↦ rw t h
  | inr t ↦ rw t (h.0, Lacks-add_session a k m s h.1 e)
]

Lacks-put_bucket :
    (j k : Text) (ss : List ℕ) (m : SessionMap)
    → text_eq j k ≡ false
    → Lacks k m
    → Lacks k (put_bucket j ss m)
Lacks-put_bucket j k [] m e h = h
Lacks-put_bucket j k (s ∷ ss) m e h = (e, h)

Lacks-remove_session :
    (a : Attributes) (k : Text) (m : SessionMap) (s : ℕ)
    → Lacks k m
    → Lacks k (remove_session a m s)
unfolding remove_session
Lacks-remove_session a k [] s h = tt
Lacks-remove_session a k ((j, ss) ∷ m) s h = elim (Bool-cases (text_eq j (a.key s))) [
  | inl t ↦ rw t (Lacks-put_bucket j k (remove_first s ss) m h.0 h.1)
  | inr t ↦ rw t (h.0, Lacks-remove_session a k m s h.1)
]

IsKeyed-add_session :
    (a : Attributes) (m : SessionMap) (s : ℕ) → IsKeyed a m → IsKeyed a (add_session a m s)
unfolding add_session
IsKeyed-add_session a [] s h = ((refl, tt), omega arith, tt, tt)
IsKeyed-add_session a ((k, ss) ∷ m) s h = elim (Bool-cases (text_eq k (a.key s))) [
  | inl e ↦ rw e (
    HasKey-append a k ss s h.0 (sym ((text_eq_iff k (a.key s)).0 e)),
    omega (arith, length-append ss (s ∷ [])),
    h.2,
    h.3,
  )
  | inr e ↦ rw e (
    h.0,
    h.1,
    Lacks-add_session a k m s h.2 (swapped k (a.key s) e),
    IsKeyed-add_session a m s h.3,
  )
]
  where
    swapped : (x y : Text) → text_eq x y ≡ false → text_eq y x ≡ false
    swapped x y e = elim (Bool-cases (text_eq y x)) [
      | inl t ↦ absurd (cc ((text_eq_iff x y).1 (sym ((text_eq_iff y x).0 t))))
      | inr t ↦ t
    ]

IsKeyed-put_bucket :
    (a : Attributes) (k : Text) (ss : List ℕ) (m : SessionMap)
    → HasKey a k ss
    → Lacks k m
    → IsKeyed a m
    → IsKeyed a (put_bucket k ss m)
IsKeyed-put_bucket a k [] m h l i = i
IsKeyed-put_bucket a k (s ∷ ss) m h l i = (h, omega arith, l, i)

IsKeyed-remove_session :
    (a : Attributes) (m : SessionMap) (s : ℕ) → IsKeyed a m → IsKeyed a (remove_session a m s)
unfolding remove_session
IsKeyed-remove_session a [] s h = tt
IsKeyed-remove_session a ((k, ss) ∷ m) s h = elim (Bool-cases (text_eq k (a.key s))) [
  | inl e ↦
      rw e (IsKeyed-put_bucket a k (remove_first s ss) m (HasKey-remove_first a k s ss h.0) h.2 h.3)
  | inr e ↦ rw e (h.0, h.1, Lacks-remove_session a k m s h.2, IsKeyed-remove_session a m s h.3)
]

added-IsConsistent :
    (a : Attributes) (mapped : ℕ → Bool) (st : MixerState) (s : ℕ)
    → IsConsistent a st
    → count s (sessions_of st.sessions) ≡ 0
    → IsConsistent a (handle_session_added a mapped st s)
unfolding handle_session_added
added-IsConsistent a mapped st s c fresh =
    let gone : (t : ℕ) → s ≡ t → count t (sessions_of st.sessions) ≡ 0 =
      λ t e. subst (λ (x : ℕ). count x (sessions_of st.sessions) ≡ 0) e fresh in
    record {
      keyed = IsKeyed-add_session a st.sessions s c.keyed;
      once = λ t. ground (arith, count-add_session a st.sessions s t, c.once t, gone t);
      tracked = λ t. ground (
        arith,
        count-add_session a st.sessions s t,
        c.tracked t,
        count-append t st.unmapped (s ∷ []),
      );
    }

removed-IsConsistent :
    (a : Attributes) (st : MixerState) (s : ℕ)
    → IsConsistent a st
    → IsConsistent a (handle_session_removed a st s)
unfolding handle_session_removed
removed-IsConsistent a st s c = record {
  keyed = IsKeyed-remove_session a st.sessions s c.keyed;
  once = λ t. omega (arith, count-remove_session a st.sessions s t c.keyed, c.once t);
  tracked = λ t. omega (
    arith,
    count-remove_session a st.sessions s t c.keyed,
    c.tracked t,
    count-remove_first s t st.unmapped,
  );
}

-- A finder announces a session only while it is not in the map.
abbrev pub IsFresh : MixerState → SessionEvent → Type 0
IsFresh st (added s) = count s (sessions_of st.sessions) ≡ 0
IsFresh st (removed s) = Unit {0}
IsFresh st removed_nil = Unit {0}

-- Every session event keeps a consistent mixer consistent, where an added session is not yet in
-- the map.
pub handle_session_event-IsConsistent :
    (a : Attributes) (mapped : ℕ → Bool) (st : MixerState) (e : SessionEvent)
    → IsConsistent a st
    → IsFresh st e
    → IsConsistent a (handle_session_event a mapped st e)
unfolding handle_session_event
handle_session_event-IsConsistent a mapped st (added s) c f = added-IsConsistent a mapped st s c f
handle_session_event-IsConsistent a mapped st (removed s) c f = removed-IsConsistent a st s c
handle_session_event-IsConsistent a mapped st removed_nil c f = c

-- From a consistent mixer, when the handler of a removal returns, the session is out of reach: it
-- stands neither in the map nor in the unmapped list, and every other session stands in both as
-- often as before.
pub removed_unreachable :
    (a : Attributes) (st : MixerState) (s t : ℕ)
    → IsConsistent a st
    → let st' = handle_session_removed a st s in
      (count t (sessions_of st'.sessions)
        ≡ (if t == s then 0 else count t (sessions_of st.sessions)))
      × (count t st'.unmapped ≡ (if t == s then 0 else count t st.unmapped))
unfolding handle_session_removed
removed_unreachable a st s t c = (
  ground (arith, count-remove_session a st.sessions s t c.keyed, c.once t),
  ground (arith, count-remove_first s t st.unmapped, c.tracked t, c.once t),
)

-- A reload keeps a consistent mixer consistent, and then the unmapped sessions are exactly the
-- sessions of the map that no slider is mapped to.
refresh_unmapped-count :
    (a : Attributes) (mapped : ℕ → Bool) (st : MixerState)
    → IsConsistent a st
    → IsConsistent a (refresh_unmapped mapped st)
      × ((t : ℕ)
          → count t (refresh_unmapped mapped st).unmapped
            ≡ (if mapped t then 0 else count t (sessions_of st.sessions)))
unfolding refresh_unmapped
refresh_unmapped-count a mapped st c = (
  record {
    keyed = c.keyed;
    once = c.once;
    tracked = λ t. ground (arith, count-reject mapped t (sessions_of st.sessions));
  },
  λ t. count-reject mapped t (sessions_of st.sessions),
)

-- `SessionCount` counts every session of the map.
session_count-length : (m : SessionMap) → session_count m ≡ length (sessions_of m)
unfolding session_count
session_count-length [] = refl
session_count-length ((k, ss) ∷ m) =
    omega (arith, session_count-length m, length-append ss (sessions_of m))
