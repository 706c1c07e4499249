-- ===== src/Audio/Wca/Invariant.antt =====
-- What holds of the finder between two steps of its worker, and how the steps keep it. Some sessions may
-- be announced and not stand in the maps yet, or no longer.
use deej.Prelude.{
  ℕ, ◌+◌, ◌≡◌, refl, Bool, List, [], ◌∷◌, ◌++◌, Option, none, some, arith, count, count-append,
  length, length-append, subst,
}
use deej.Prelude.Text.{Text}
use deej.Mixer.Sessions.{Attributes}
use deej.Audio.Delivery.{
  IsInStep, IsInStep-order, IsInStep-added, IsInStep-retire, IsInStep-retire_all,
  IsInStep-discarded,
}
use deej.Audio.Session.{BaseSession}
use deej.Audio.Wca.{
  Finder, Tracked, DeviceManager, live, tracked_sessions, manager_masters, option_list, announce,
  discard, remove_old, remove_found, remove_session, remove_sessions, sessions_of_device,
  remove_manager, remove_device_manager, remove_device_managers, find_tracked, find_manager,
  delete_tracked, delete_manager,
}
use deej.Audio.Wca.Maps.{
  AreTracked, AreManagers, delete_tracked-AreTracked, delete_manager-AreManagers,
  count-delete_tracked, count-delete_manager,
}

-- The sessions of a finder by their number.
pub count-live :
    (t : ℕ) (xs : List ℕ) (f : Finder)
    → count t (xs ++ live f)
      ≡ count t xs
        + (count t (tracked_sessions f.tracked)
            + count t (manager_masters f.managers)
            + count t (option_list f.master_out)
            + count t (option_list f.master_in))
count-live t xs f =
    let ws = tracked_sessions f.tracked in
    let bs = manager_masters f.managers in
    let cs = option_list f.master_out in
    let ds = option_list f.master_in in
    omega (
      arith,
      count-append t xs (ws ++ bs ++ cs ++ ds),
      count-append t ws bs,
      count-append t (ws ++ bs) cs,
      count-append t (ws ++ bs ++ cs) ds,
    )

module _ (a : Attributes) (mapped : ℕ → Bool) where
  -- The mixer has the sessions of the finder and those of `xs`, and no id stands twice in a map.
  pub record IsSound (xs : List ℕ) (f : Finder) : Type 0 where
    pub in_step : IsInStep a mapped (xs ++ live f) (length f.made) f.log
    pub ids : AreTracked f.tracked
    pub devices : AreManagers f.managers

  -- A change of the maps that keeps the sessions.
  pub IsSound-moved :
      (xs ys : List ℕ) (f g : Finder)
      → f.made ≡ g.made
      → f.log ≡ g.log
      → ((t : ℕ) → count t (xs ++ live f) ≡ count t (ys ++ live g))
      → AreTracked g.tracked
      → AreManagers g.managers
      → IsSound xs f
      → IsSound ys g
  IsSound-moved xs ys f g e e' c ids devices h = record {
    in_step =
        subst (λ m. IsInStep a mapped (ys ++ live g) (length m) g.log) e
          (subst (λ l. IsInStep a mapped (ys ++ live g) (length f.made) l) e'
            (IsInStep-order a mapped (xs ++ live f) (ys ++ live g) (length f.made) f.log c
              h.in_step));
    ids = ids;
    devices = devices;
  }

  pub announce-IsSound :
      (s : BaseSession) (xs : List ℕ) (f : Finder)
      → IsSound xs f
      → IsSound (length f.made ∷ xs) (announce s f)
  unfolding announce
  announce-IsSound s xs f h = record {
    in_step =
        subst (λ (n : ℕ). IsInStep a mapped (length f.made ∷ xs ++ live f) n (announce s f).log)
          (omega (arith, length-append f.made (s ∷ [])))
          (IsInStep-added a mapped (xs ++ live f) (length f.made) f.log h.in_step);
    ids = h.ids;
    devices = h.devices;
  }

  pub discard-IsSound :
      (s : BaseSession) (xs : List ℕ) (f : Finder) → IsSound xs f → IsSound xs (discard s f)
  unfolding discard
  discard-IsSound s xs f h = record {
    in_step =
        subst (λ (n : ℕ). IsInStep a mapped (xs ++ live f) n (discard s f).log)
          (omega (arith, length-append f.made (s ∷ [])))
          (IsInStep-discarded a mapped (xs ++ live f) (length f.made) f.log h.in_step);
    ids = h.ids;
    devices = h.devices;
  }

  pub remove_old-IsSound :
      (o : Option ℕ) (xs : List ℕ) (f : Finder)
      → IsSound (option_list o ++ xs) f
      → IsSound xs (remove_old o f)
  unfolding remove_old
  remove_old-IsSound o xs f h = record {
    in_step = IsInStep-retire_all a mapped (option_list o) (xs ++ live f) (length f.made) f.log (
        IsInStep-order a mapped (option_list o ++ xs ++ live f) (option_list o ++ (xs ++ live f))
          (length f.made) f.log
          (λ t. omega (
            arith,
            count-append t (option_list o ++ xs) (live f),
            count-append t (option_list o) xs,
            count-append t (option_list o) (xs ++ live f),
            count-append t xs (live f),
          ))
          h.in_step);
    ids = h.ids;
    devices = h.devices;
  }

  pub remove_found-IsSound :
      (id : Text) (o : Option Tracked) (xs : List ℕ) (f : Finder)
      → find_tracked id f.tracked ≡ o
      → IsSound xs f
      → IsSound xs (remove_found id o f)
  unfolding remove_found
  remove_found-IsSound id none xs f e h = h
  remove_found-IsSound id (some t) xs f e h =
      let g : Finder = record f { tracked = delete_tracked id f.tracked } in
      record {
        in_step = IsInStep-retire a mapped t.session (xs ++ live g) (length f.made) f.log (
            IsInStep-order a mapped (xs ++ live f) (t.session ∷ (xs ++ live g)) (length f.made)
              f.log
              (λ n. ground (
                arith,
                count-live n xs f,
                count-live n xs g,
                count-delete_tracked (λ u. u.session) id t n f.tracked h.ids e,
              ))
              h.in_step);
        ids = delete_tracked-AreTracked id f.tracked h.ids;
        devices = h.devices;
      }

  pub remove_sessions-IsSound :
      (ids : List Text) (xs : List ℕ) (f : Finder)
      → IsSound xs f
      → IsSound xs (remove_sessions ids f)
  unfolding remove_sessions remove_session
  remove_sessions-IsSound [] xs f h = h
  remove_sessions-IsSound (id ∷ ids) xs f h =
      remove_sessions-IsSound ids xs (remove_session id f)
        (remove_found-IsSound id (find_tracked id f.tracked) xs f refl h)

  pub remove_manager-IsSound :
      (id : Text) (o : Option DeviceManager) (xs : List ℕ) (f : Finder)
      → find_manager id f.managers ≡ o
      → IsSound xs f
      → IsSound xs (remove_manager id o f)
  unfolding remove_manager
  remove_manager-IsSound id none xs f e h = h
  remove_manager-IsSound id (some d) xs f e h =
      let g : Finder = record f { managers = delete_manager id f.managers } in
      let ids = sessions_of_device id f.tracked in
      let ys = option_list d.master ++ xs in
      remove_old-IsSound d.master xs (remove_sessions ids g) (
        remove_sessions-IsSound ids ys g (
          IsSound-moved xs ys f g refl refl
            (λ t. omega (
              arith,
              count-live t xs f,
              count-live t ys g,
              count-append t (option_list d.master) xs,
              count-delete_manager id d t f.managers h.devices e,
            ))
            h.ids (delete_manager-AreManagers id f.managers h.devices) h))

  pub remove_device_managers-IsSound :
      (ids : List Text) (f : Finder) → IsSound [] f → IsSound [] (remove_device_managers ids f)
  unfolding remove_device_managers remove_device_manager
  remove_device_managers-IsSound [] f h = h
  remove_device_managers-IsSound (id ∷ ids) f h =
      remove_device_managers-IsSound ids (remove_device_manager id f)
        (remove_manager-IsSound id (find_manager id f.managers) [] f refl h)
