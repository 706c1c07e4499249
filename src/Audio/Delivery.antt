-- ===== src/Audio/Delivery.antt =====
-- internal/audio/session_finder.go: what a finder owes the mixer, which takes its events one by one
-- while the finder waits, and how a finder that keeps its own list of sessions meets it.
use deej.Prelude.{
  ℕ, suc, ◌+◌, ◌≤◌, ◌≡◌, refl, sym, ◌∙◌, Bool, false, List, [], ◌∷◌, ◌++◌, arith, ◌==◌,
  if◌then◌else◌, count, ltb,
}
use deej.Mixer.Sessions.{
  Attributes, MixerState, SessionEvent, added, removed, handle_session_event, sessions_of,
  handle_session_added,
}
use deej.Mixer.Counts.{count-add_session, one_if}
use deej.Mixer.Consistency.{IsConsistent, handle_session_event-IsConsistent, removed_unreachable}

-- What a finder does to the outside: it calls the handler, and it releases a session.
pub data Effect : Type 0 where
  notify : SessionEvent → Effect
  release : ℕ → Effect

-- The effects of a finder, newest first.
abbrev pub Log : Type 0
Log = List Effect

-- The mixer before the first event.
abbrev pub empty_mixer : MixerState
empty_mixer = record { sessions = []; unmapped = []; count_changed = false }

-- The mixer after the events of a log.
unfoldable pub mixer_after : Attributes → (ℕ → Bool) → Log → MixerState
mixer_after a mapped [] = empty_mixer
mixer_after a mapped (notify e ∷ l) = handle_session_event a mapped (mixer_after a mapped l) e
mixer_after a mapped (release s ∷ l) = mixer_after a mapped l

-- How often a log releases a session.
unfoldable pub releases : ℕ → Log → ℕ
releases t [] = 0
releases t (notify e ∷ l) = releases t l
releases t (release s ∷ l) = let rest = releases t l in if s == t then suc rest else rest

-- The effects that remove a session: its removal is delivered, and then it is released.
unfoldable pub retire : ℕ → Log → Log
retire s l = release s ∷ notify (removed s) ∷ l

unfoldable pub retire_all : List ℕ → Log → Log
unfolding retire
retire_all [] l = l
retire_all (s ∷ ss) l = retire_all ss (retire s l)

module _ (a : Attributes) (mapped : ℕ → Bool) where
  abbrev pub reach : ℕ → Log → ℕ
  reach t l = count t (sessions_of (mixer_after a mapped l).sessions)

  -- What the effect may meet: an added session is not in the mixer, a removed one is, and a released one
  -- is no longer.
  abbrev pub Permits : Log → Effect → Type 0
  Permits l (notify (added s)) = reach s l ≡ 0
  Permits l (notify (removed s)) = reach s l ≡ 1
  Permits l (notify SessionEvent.removed_nil) = Unit {0}
  Permits l (release s) = reach s l ≡ 0

  -- Every effect of the log came when it was permitted.
  abbrev pub IsDelivered : Log → Type 0
  IsDelivered [] = Unit {0}
  IsDelivered (e ∷ l) = Permits l e × IsDelivered l

  pub mixer_after-IsConsistent : (l : Log) → IsDelivered l → IsConsistent a (mixer_after a mapped l)
  unfolding mixer_after
  mixer_after-IsConsistent [] d = record {
    keyed = tt;
    once = λ t. omega arith;
    tracked = λ t. omega arith;
  }
  mixer_after-IsConsistent (notify (added s) ∷ l) d =
      handle_session_event-IsConsistent a mapped (mixer_after a mapped l) (added s)
        (mixer_after-IsConsistent l d.1) d.0
  mixer_after-IsConsistent (notify (removed s) ∷ l) d =
      handle_session_event-IsConsistent a mapped (mixer_after a mapped l) (removed s)
        (mixer_after-IsConsistent l d.1) tt
  mixer_after-IsConsistent (notify SessionEvent.removed_nil ∷ l) d =
      handle_session_event-IsConsistent a mapped (mixer_after a mapped l) SessionEvent.removed_nil
        (mixer_after-IsConsistent l d.1) tt
  mixer_after-IsConsistent (release s ∷ l) d = mixer_after-IsConsistent l d.1

  reach-added : (s t : ℕ) (l : Log) → reach t (notify (added s) ∷ l) ≡ reach t l + one_if (s == t)
  unfolding mixer_after handle_session_event handle_session_added
  reach-added s t l = count-add_session a (mixer_after a mapped l).sessions s t

  reach-removed :
      (s t : ℕ) (l : Log)
      → IsDelivered l
      → reach t (notify (removed s) ∷ l) ≡ (if t == s then 0 else reach t l)
  unfolding mixer_after handle_session_event
  reach-removed s t l d =
      (removed_unreachable a (mixer_after a mapped l) s t (mixer_after-IsConsistent l d)).0

  -- A finder that lists its sessions as `live` and has made `n` so far, with these effects: the mixer has
  -- exactly the listed sessions, and each session made is either listed or was released once.
  pub record IsInStep (live : List ℕ) (n : ℕ) (l : Log) : Type 0 where
    pub delivered : IsDelivered l
    pub reaches : (t : ℕ) → reach t l ≡ count t live
    pub owned : (t : ℕ) → count t live + releases t l ≡ (if ltb t n then 1 else 0)

  pub IsInStep-nil : IsInStep [] 0 []
  unfolding mixer_after releases
  IsInStep-nil = record { delivered = tt; reaches = λ t. omega arith; owned = λ t. ground arith }

  -- The order of the list does not matter.
  pub IsInStep-order :
      (xs ys : List ℕ) (n : ℕ) (l : Log)
      → ((t : ℕ) → count t xs ≡ count t ys)
      → IsInStep xs n l
      → IsInStep ys n l
  IsInStep-order xs ys n l e h = record {
    delivered = h.delivered;
    reaches = λ t. omega (arith, h.reaches t, e t);
    owned = λ t. ground (arith, h.owned t, e t);
  }

  -- A session is made, listed and announced.
  pub IsInStep-added :
      (live : List ℕ) (n : ℕ) (l : Log)
      → IsInStep live n l
      → IsInStep (n ∷ live) (suc n) (notify (added n) ∷ l)
  unfolding releases
  IsInStep-added live n l h = record {
    delivered = (ground (arith, h.owned n, h.reaches n), h.delivered);
    reaches = λ t. ground (arith, reach-added n t l, h.reaches t);
    owned = λ t. ground (arith, h.owned t);
  }

  -- A session is made, and released without having been announced.
  pub IsInStep-discarded :
      (live : List ℕ) (n : ℕ) (l : Log) → IsInStep live n l → IsInStep live (suc n) (release n ∷ l)
  unfolding releases mixer_after
  IsInStep-discarded live n l h = record {
    delivered = (ground (arith, h.owned n, h.reaches n), h.delivered);
    reaches = h.reaches;
    owned = λ t. ground (arith, h.owned t);
  }

  -- A listed session is taken off the list, its removal delivered, and then released.
  pub IsInStep-retire :
      (s : ℕ) (live : List ℕ) (n : ℕ) (l : Log)
      → IsInStep (s ∷ live) n l
      → IsInStep live n (retire s l)
  unfolding retire releases mixer_after
  IsInStep-retire s live n l h = record {
    delivered = delivered_retire;
    reaches = reaches_retire;
    owned = owned_retire;
  }
    where
      alone : (t : ℕ) → count t (s ∷ live) ≤ 1
      alone t = ground (arith, h.owned t)

      delivered_retire : IsDelivered (retire s l)
      delivered_retire = (
        ground (arith, reach-removed s s l h.delivered),
        (ground (arith, h.reaches s, alone s), h.delivered),
      )

      released_later : (t : ℕ) → reach t (notify (removed s) ∷ l) ≡ reach t (retire s l)
      released_later t = refl

      reaches_retire : (t : ℕ) → reach t (retire s l) ≡ count t live
      reaches_retire t =
          sym (released_later t)
          ∙ ground (arith, reach-removed s t l h.delivered, h.reaches t, h.owned t)

      owned_retire : (t : ℕ) → count t live + releases t (retire s l) ≡ (if ltb t n then 1 else 0)
      owned_retire t = ground (arith, h.owned t)

  pub IsInStep-retire_all :
      (xs live : List ℕ) (n : ℕ) (l : Log)
      → IsInStep (xs ++ live) n l
      → IsInStep live n (retire_all xs l)
  unfolding retire_all retire
  IsInStep-retire_all [] live n l h = h
  IsInStep-retire_all (x ∷ xs) live n l h =
      IsInStep-retire_all xs live n (retire x l) (IsInStep-retire x (xs ++ live) n l h)
