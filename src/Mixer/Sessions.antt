-- ===== src/Mixer/Sessions.antt =====
-- internal/mixer/mixer.go: the session map. A session is a reference; what its methods answer are
-- functions of the reference, and two sessions are equal when they are one reference. A Go map is
-- the list of its entries in the order of some iteration.
use deej.Prelude.{
  ℕ, ◌+◌, Bool, ◌||◌, List, [], ◌∷◌, ◌++◌, Option, none, some, ◌==◌, if◌then◌else◌, true, length,
}
use deej.Prelude.Text.{Text, text_eq}

-- The methods of audio.Session that never change their answer.
pub record Attributes : Type 0 where
  pub key : ℕ → Text
  pub display_name : ℕ → Text
  pub is_device : ℕ → Bool
  pub is_input : ℕ → Bool

abbrev pub SessionMap : Type 0
SessionMap = List (Text × List ℕ)

pub record MixerState : Type 0 where
  pub sessions : SessionMap
  pub unmapped : List ℕ
  -- a signal waits in the channel of `SubscribeToSessionCountChange`
  pub count_changed : Bool

-- `m.m[key]`
unfoldable pub find_sessions : SessionMap → Text → Option (List ℕ)
unfolding text_eq
find_sessions [] k = none
find_sessions ((j, ss) ∷ m) k = if text_eq j k then some ss else find_sessions m k

-- `addLocked`
unfoldable pub add_session : Attributes → SessionMap → ℕ → SessionMap
add_session a [] s = (a.key s, s ∷ []) ∷ []
add_session a ((k, ss) ∷ m) s =
    if text_eq k (a.key s) then (k, ss ++ s ∷ []) ∷ m else (k, ss) ∷ add_session a m s

-- The loops that cut the first occurrence of a session out of a slice.
unfoldable pub remove_first : ℕ → List ℕ → List ℕ
remove_first s [] = []
remove_first s (t ∷ ts) = let rest = t ∷ remove_first s ts in if t == s then ts else rest

abbrev pub put_bucket : Text → List ℕ → SessionMap → SessionMap
put_bucket k [] m = m
put_bucket k (s ∷ ss) m = (k, s ∷ ss) ∷ m

-- `removeSessionLocked`: a key without sessions is deleted.
unfoldable pub remove_session : Attributes → SessionMap → ℕ → SessionMap
unfolding remove_first
remove_session a [] s = []
remove_session a ((k, ss) ∷ m) s =
    if text_eq k (a.key s)
    then put_bucket k (remove_first s ss) m
    else (k, ss) ∷ remove_session a m s

-- The sessions of all keys.
abbrev pub sessions_of : SessionMap → List ℕ
sessions_of [] = []
sessions_of ((k, ss) ∷ m) = ss ++ sessions_of m

-- The sessions that a test does not accept.
unfoldable pub reject : (ℕ → Bool) → List ℕ → List ℕ
reject test [] = []
reject test (s ∷ ss) = let rest = reject test ss in if test s then rest else s ∷ rest

-- `refreshUnmappedSessions`
unfoldable pub refresh_unmapped : (ℕ → Bool) → MixerState → MixerState
unfolding reject
refresh_unmapped mapped st = record st { unmapped = reject mapped (sessions_of st.sessions) }

-- `handleSessionAdded`
unfoldable pub handle_session_added : Attributes → (ℕ → Bool) → MixerState → ℕ → MixerState
unfolding add_session
handle_session_added a mapped st s = record {
  sessions = add_session a st.sessions s;
  unmapped = if mapped s then st.unmapped else st.unmapped ++ s ∷ [];
  count_changed = true;
}

-- `handleSessionRemoved`
unfoldable pub handle_session_removed : Attributes → MixerState → ℕ → MixerState
unfolding remove_session remove_first
handle_session_removed a st s = record {
  sessions = remove_session a st.sessions s;
  unmapped = remove_first s st.unmapped;
  count_changed = true;
}

pub data SessionEvent : Type 0 where
  added removed : ℕ → SessionEvent
  removed_nil : SessionEvent

-- `handleSessionEvent`
unfoldable pub handle_session_event :
    Attributes → (ℕ → Bool) → MixerState → SessionEvent → MixerState
unfolding handle_session_added handle_session_removed
handle_session_event a mapped st (added s) = handle_session_added a mapped st s
handle_session_event a mapped st (removed s) = handle_session_removed a st s
handle_session_event a mapped st removed_nil = st

-- `SessionCount`
unfoldable pub session_count : SessionMap → ℕ
session_count [] = 0
session_count ((k, ss) ∷ m) = length ss + session_count m

pub record SessionInfo : Type 0 where
  pub key : Text
  pub display_name : Text
  pub is_device : Bool
  pub is_input : Bool

-- The inner loop of `SessionInfos`.
unfoldable pub session_info : Attributes → SessionInfo → List ℕ → SessionInfo
unfolding text_eq
session_info a info [] = info
session_info a info (s ∷ ss) =
    session_info a
      (record info {
        is_device = a.is_device s || info.is_device;
        is_input = a.is_input s || info.is_input;
        display_name = if text_eq info.display_name [] then a.display_name s else info.display_name;
      })
      ss
