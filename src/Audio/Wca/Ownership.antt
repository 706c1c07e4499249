-- ===== src/Audio/Wca/Ownership.antt =====
-- Who releases a session control: addSessionFromControl takes it over on every path.
use deej.Prelude.{ℕ, ◌+◌, ◌≡◌, refl, not, Option, none, some, arith, ◌==◌, count, if_both}
use deej.Prelude.Text.{Text, Unicode}
use deej.Mixer.Counts.{one_if}
use deej.Audio.Session.{BaseSession}
use deej.Audio.Com.{Com}
use deej.Audio.Wca.{
  Tracked, Finder, tracked_controls, announce, discard, find_tracked, remove_found, remove_session,
  new_wca_session,
}
use deej.Audio.Wca.Worker.{
  free_control, track, session_id, add_session_of, pid_unusable, add_session_from_control,
}
use deej.Audio.Wca.Maps.{AreTracked, count-delete_tracked}

-- How often a control is kept with a tracked session or was released.
abbrev pub owned : ℕ → Finder → ℕ
owned n f = count n (tracked_controls f.tracked) + count n f.freed

track-owned :
    (id : Text) (c : ℕ) (s : BaseSession) (o : Option Tracked) (n : ℕ) (f : Finder)
    → owned n (track id c s o f) ≡ owned n f + one_if (c == n)
unfolding track free_control discard announce
track-owned id c s (some old) n f = ground arith
track-owned id c s none n f = ground arith

add_session_of-owned :
    (u : Unicode) (device : Text) (c pid : ℕ) (o : Option BaseSession) (n : ℕ) (f : Finder)
    → owned n (add_session_of u device c pid o f) ≡ owned n f + one_if (c == n)
unfolding add_session_of free_control
add_session_of-owned u device c pid none n f = ground arith
add_session_of-owned u device c pid (some s) n f =
    let id = session_id u device s pid in track-owned id c s (find_tracked id f.tracked) n f

-- addSessionFromControl takes a control over on every path, errors and duplicates included: it is
-- kept with a tracked session or released, once, and every other control is as before.
pub add_session_from_control-owned :
    (u : Unicode) (api : Com) (device : Text) (c n : ℕ) (f : Finder)
    → owned n (add_session_from_control u api device c f) ≡ owned n f + one_if (c == n)
unfolding add_session_from_control free_control
add_session_from_control-owned u api device c n f =
    let k = api.controls c in
    let freed : owned n (free_control c f) ≡ owned n f + one_if (c == n) = ground arith in
    let Adds : Finder → Type 0 = λ g. owned n g ≡ owned n f + one_if (c == n) in
    if_both Adds (not k.has_control2) freed (
      if_both Adds (pid_unusable k) freed (
        if_both Adds (not k.has_volume) freed
          (add_session_of-owned u device c k.pid (new_wca_session k.pid k.process) n f)))

-- removeSession releases the control of the session that it removes, and no other.
remove_session-owned :
    (id : Text) (n : ℕ) (f : Finder)
    → AreTracked f.tracked
    → owned n (remove_session id f) ≡ owned n f
unfolding remove_session remove_found
remove_session-owned id n f h = removed (find_tracked id f.tracked) refl
  where
    removed :
        (o : Option Tracked)
        → find_tracked id f.tracked ≡ o
        → owned n (remove_found id o f) ≡ owned n f
    removed none e = refl
    removed (some t) e = ground (arith, count-delete_tracked (λ u. u.control) id t n f.tracked h e)
