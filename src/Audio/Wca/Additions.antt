-- ===== src/Audio/Wca/Additions.antt =====
-- The additions of sessions, and the cleanup, keep what holds of the finder.
use deej.Prelude.{
  ℕ, ◌≡◌, refl, ◌∙◌, Bool, List, [], ◌∷◌, ◌++◌, map, not, Option, none, some, arith, count-append,
  length, if_both,
}
use deej.Prelude.Text.{Text, Unicode}
use deej.Mixer.Sessions.{Attributes}
use deej.Audio.Session.{BaseSession}
use deej.Audio.Com.{Com}
use deej.Audio.Wca.{
  Finder, Tracked, option_list, announce, discard, remove_old, remove_device_managers, cleanup,
  find_tracked, new_wca_session,
}
use deej.Audio.Wca.Worker.{
  free_control, track, session_id, add_session_of, pid_unusable, add_session_from_control,
  enumerate_device_sessions,
}
use deej.Audio.Wca.Invariant.{
  count-live, IsSound, IsSound-moved, announce-IsSound, discard-IsSound, remove_old-IsSound,
  remove_device_managers-IsSound,
}

module _ (a : Attributes) (mapped : ℕ → Bool) where
  pub cleanup-IsSound : (f : Finder) → IsSound a mapped [] f → IsSound a mapped [] (cleanup f)
  unfolding cleanup
  cleanup-IsSound f h =
      let g = remove_device_managers (map (λ d. d.id) f.managers) f in
      let bare : Finder = record g { master_out = none; master_in = none } in
      let ys = option_list g.master_out ++ (option_list g.master_in ++ []) in
      remove_old-IsSound a mapped g.master_in [] (remove_old g.master_out bare) (
        remove_old-IsSound a mapped g.master_out (option_list g.master_in ++ []) bare (
          IsSound-moved a mapped [] ys g bare refl refl
            (λ t. omega (
              arith,
              count-live t [] g,
              count-live t ys bare,
              count-append t (option_list g.master_out) (option_list g.master_in ++ []),
              count-append t (option_list g.master_in) [],
            ))
            kept.ids kept.devices kept))
    where
      kept : IsSound a mapped [] (remove_device_managers (map (λ d. d.id) f.managers) f)
      kept = remove_device_managers-IsSound a mapped (map (λ d. d.id) f.managers) f h

  free_control-IsSound :
      (c : ℕ) (xs : List ℕ) (f : Finder)
      → IsSound a mapped xs f
      → IsSound a mapped xs (free_control c f)
  unfolding free_control
  free_control-IsSound c xs f h = record { in_step = h.in_step; ids = h.ids; devices = h.devices }

  track-IsSound :
      (id : Text) (c : ℕ) (s : BaseSession) (o : Option Tracked) (xs : List ℕ) (f : Finder)
      → find_tracked id f.tracked ≡ o
      → IsSound a mapped xs f
      → IsSound a mapped xs (track id c s o f)
  unfolding track announce
  track-IsSound id c s (some old) xs f e h =
      free_control-IsSound c xs (discard s f) (discard-IsSound a mapped s xs f h)
  track-IsSound id c s none xs f e h =
      let n = length f.made in
      let t : Tracked = record { id = id; session = n; control = c } in
      let g : Finder = record f { tracked = t ∷ f.tracked } in
      IsSound-moved a mapped (n ∷ xs) xs (announce s f) (announce s g) refl refl
        (λ t. ground (arith, count-live t (n ∷ xs) (announce s f), count-live t xs (announce s g)))
        (e, h.ids) h.devices (announce-IsSound a mapped s xs f h)

  add_session_of-IsSound :
      (u : Unicode) (device : Text) (c pid : ℕ) (o : Option BaseSession) (xs : List ℕ) (f : Finder)
      → IsSound a mapped xs f
      → IsSound a mapped xs (add_session_of u device c pid o f)
  unfolding add_session_of
  add_session_of-IsSound u device c pid none xs f h = free_control-IsSound c xs f h
  add_session_of-IsSound u device c pid (some s) xs f h =
      let id = session_id u device s pid in
      track-IsSound id c s (find_tracked id f.tracked) xs f refl h

  pub add_session_from_control-IsSound :
      (u : Unicode) (api : Com) (device : Text) (c : ℕ) (xs : List ℕ) (f : Finder)
      → IsSound a mapped xs f
      → IsSound a mapped xs (add_session_from_control u api device c f)
  unfolding add_session_from_control
  add_session_from_control-IsSound u api device c xs f h =
      let k = api.controls c in
      let freed = free_control-IsSound c xs f h in
      if_both (IsSound a mapped xs) (not k.has_control2) freed (
        if_both (IsSound a mapped xs) (pid_unusable k) freed (
          if_both (IsSound a mapped xs) (not k.has_volume) freed
            (add_session_of-IsSound u device c k.pid (new_wca_session k.pid k.process) xs f h)))

  pub enumerate_device_sessions-IsSound :
      (u : Unicode) (api : Com) (device : Text) (cs : List (Option ℕ)) (xs : List ℕ) (f : Finder)
      → IsSound a mapped xs f
      → IsSound a mapped xs (enumerate_device_sessions u api device cs f)
  unfolding enumerate_device_sessions
  enumerate_device_sessions-IsSound u api device [] xs f h = h
  enumerate_device_sessions-IsSound u api device (none ∷ cs) xs f h =
      enumerate_device_sessions-IsSound u api device cs xs f h
  enumerate_device_sessions-IsSound u api device (some c ∷ cs) xs f h =
      enumerate_device_sessions-IsSound u api device cs xs
        (add_session_from_control u api device c f)
        (add_session_from_control-IsSound u api device c xs f h)

track-managers :
    (id : Text) (c : ℕ) (s : BaseSession) (o : Option Tracked) (f : Finder)
    → (track id c s o f).managers ≡ f.managers
unfolding track free_control discard announce
track-managers id c s none f = refl
track-managers id c s (some old) f = refl

add_session_of-managers :
    (u : Unicode) (device : Text) (c pid : ℕ) (o : Option BaseSession) (f : Finder)
    → (add_session_of u device c pid o f).managers ≡ f.managers
unfolding add_session_of free_control
add_session_of-managers u device c pid none f = refl
add_session_of-managers u device c pid (some s) f =
    let id = session_id u device s pid in track-managers id c s (find_tracked id f.tracked) f

-- Sessions that are added leave the devices alone.
pub enumerate_device_sessions-managers :
    (u : Unicode) (api : Com) (device : Text) (cs : List (Option ℕ)) (f : Finder)
    → (enumerate_device_sessions u api device cs f).managers ≡ f.managers
unfolding enumerate_device_sessions add_session_from_control free_control
enumerate_device_sessions-managers u api device [] f = refl
enumerate_device_sessions-managers u api device (none ∷ cs) f =
    enumerate_device_sessions-managers u api device cs f
enumerate_device_sessions-managers u api device (some c ∷ cs) f =
    let k = api.controls c in
    let Same : Finder → Type 0 = λ g. g.managers ≡ f.managers in
    enumerate_device_sessions-managers u api device cs (add_session_from_control u api device c f)
    ∙ if_both Same (not k.has_control2) refl (
        if_both Same (pid_unusable k) refl (
          if_both Same (not k.has_volume) refl
            (add_session_of-managers u device c k.pid (new_wca_session k.pid k.process) f)))
