-- ===== src/Audio/Wca/Steps.antt =====
-- Each job of the worker keeps what holds of the finder.
use deej.Prelude.{
  ℕ, ◌≡◌, refl, ap, ◌∙◌, Bool, true, false, List, [], ◌∷◌, ◌++◌, Option, none, some, arith,
  if◌then◌else◌, count-append, length, if_both,
}
use deej.Prelude.Text.{Text, Unicode}
use deej.Mixer.Sessions.{Attributes}
use deej.Audio.Session.{master_session_name, input_session_name}
use deej.Audio.Com.{Device, Com}
use deej.Audio.Wca.{
  Finder, DeviceManager, Job, option_list, manager_masters, announce, remove_old,
  remove_device_manager, remove_session, find_tracked, find_manager, new_master_session,
}
use deej.Audio.Wca.Worker.{
  enumerate_device_sessions, put_manager, make_manager, activate, create_unless,
  create_device_manager, handle_device_added, initialize_all_device_managers, refresh_master_output,
  refresh_master_input, refresh_masters, run_job,
}
use deej.Audio.Wca.Invariant.{
  count-live, IsSound, IsSound-moved, announce-IsSound, remove_old-IsSound, remove_found-IsSound,
  remove_manager-IsSound,
}
use deej.Audio.Wca.Additions.{
  add_session_from_control-IsSound, enumerate_device_sessions-IsSound,
  enumerate_device_sessions-managers,
}

module _ (a : Attributes) (mapped : ℕ → Bool) where
  put-IsSound :
      (id : Text) (master : Option ℕ) (xs : List ℕ) (f : Finder)
      → find_manager id f.managers ≡ none
      → IsSound a mapped (option_list master ++ xs) f
      → IsSound a mapped xs
          (record f { managers = record { id = id; master = master } ∷ f.managers })
  put-IsSound id master xs f e h =
      let d : DeviceManager = record { id = id; master = master } in
      let g : Finder = record f { managers = d ∷ f.managers } in
      IsSound-moved a mapped (option_list master ++ xs) xs f g refl refl
        (λ t. omega (
          arith,
          count-live t (option_list master ++ xs) f,
          count-live t xs g,
          count-append t (option_list master) xs,
          count-append t (option_list master) (manager_masters f.managers),
        ))
        h.ids (e, h.devices) h

  put_manager-IsSound :
      (u : Unicode) (api : Com) (d : Device) (is_output : Bool) (id : Text) (master : Option ℕ)
      (f : Finder)
      → find_manager id f.managers ≡ none
      → IsSound a mapped (option_list master ++ []) f
      → IsSound a mapped [] (put_manager u api d is_output id master f)
  unfolding put_manager
  put_manager-IsSound u api d false id master f e h = put-IsSound id master [] f e h
  put_manager-IsSound u api d true id master f e h =
      put-IsSound id master [] (enumerate_device_sessions u api id d.session_list f)
        (ap (find_manager id) (enumerate_device_sessions-managers u api id d.session_list f) ∙ e)
        (enumerate_device_sessions-IsSound a mapped u api id d.session_list
          (option_list master ++ []) f h)

  make_manager-IsSound :
      (u : Unicode) (api : Com) (d : Device) (is_output : Bool) (id : Text) (name : Option Text)
      (f : Finder)
      → find_manager id f.managers ≡ none
      → IsSound a mapped [] f
      → IsSound a mapped [] (make_manager u api d is_output id name f)
  unfolding make_manager announce
  make_manager-IsSound u api d is_output id none f e h =
      put_manager-IsSound u api d is_output id none f e h
  make_manager-IsSound u api d is_output id (some name) f e h =
      let s = new_master_session name is_output true in
      put_manager-IsSound u api d is_output id (some (length f.made)) (announce s f) e
        (announce-IsSound a mapped s [] f h)

  activate-IsSound :
      (u : Unicode) (api : Com) (d : Device) (id : Text) (o : Option Bool) (f : Finder)
      → find_manager id f.managers ≡ none
      → IsSound a mapped [] f
      → IsSound a mapped [] (activate u api d id o f)
  unfolding activate
  activate-IsSound u api d id none f e h = h
  activate-IsSound u api d id (some is_output) f e h =
      if_both (IsSound a mapped []) d.has_session_manager
        (make_manager-IsSound u api d is_output id d.master_name f e h) h

  create_unless-IsSound :
      (u : Unicode) (api : Com) (d : Device) (id : Text) (o : Option DeviceManager) (f : Finder)
      → find_manager id f.managers ≡ o
      → IsSound a mapped [] f
      → IsSound a mapped [] (create_unless u api d id o f)
  unfolding create_unless
  create_unless-IsSound u api d id (some m) f e h = h
  create_unless-IsSound u api d id none f e h =
      if_both (IsSound a mapped []) d.has_endpoint (activate-IsSound u api d id d.is_output f e h) h

  create_device_manager-IsSound :
      (u : Unicode) (api : Com) (d : Device) (o : Option Text) (f : Finder)
      → IsSound a mapped [] f
      → IsSound a mapped [] (create_device_manager u api d o f)
  unfolding create_device_manager
  create_device_manager-IsSound u api d none f h = h
  create_device_manager-IsSound u api d (some id) f h =
      create_unless-IsSound u api d id (find_manager id f.managers) f refl h

  handle_device_added-IsSound :
      (u : Unicode) (api : Com) (o : Option Device) (f : Finder)
      → IsSound a mapped [] f
      → IsSound a mapped [] (handle_device_added u api o f)
  unfolding handle_device_added
  handle_device_added-IsSound u api none f h = h
  handle_device_added-IsSound u api (some d) f h = create_device_manager-IsSound u api d d.id f h

  pub initialize_all_device_managers-IsSound :
      (u : Unicode) (api : Com) (ds : List (Option Device)) (f : Finder)
      → IsSound a mapped [] f
      → IsSound a mapped [] (initialize_all_device_managers u api ds f)
  unfolding initialize_all_device_managers
  initialize_all_device_managers-IsSound u api [] f h = h
  initialize_all_device_managers-IsSound u api (d ∷ ds) f h =
      initialize_all_device_managers-IsSound u api ds (handle_device_added u api d f)
        (handle_device_added-IsSound u api d f h)

  refresh_master_output-IsSound :
      (found : Bool) (f : Finder)
      → IsSound a mapped [] f
      → IsSound a mapped [] (refresh_master_output found f)
  unfolding refresh_master_output remove_old announce
  refresh_master_output-IsSound found f h =
      let bare : Finder = record f { master_out = none } in
      let g : Finder = remove_old f.master_out bare in
      let n = length f.made in
      let s = new_master_session master_session_name true false in
      let set : Finder = record g { master_out = some n } in
      let removed : IsSound a mapped [] g = remove_old-IsSound a mapped f.master_out [] bare (
        IsSound-moved a mapped [] (option_list f.master_out ++ []) f bare refl refl
          (λ t. omega (
            arith,
            count-live t [] f,
            count-live t (option_list f.master_out ++ []) bare,
            count-append t (option_list f.master_out) [],
          ))
          h.ids h.devices h) in
      if_both (IsSound a mapped []) found
        (IsSound-moved a mapped (n ∷ []) [] (announce s g) (announce s set) refl refl
          (λ t.
            omega (arith, count-live t (n ∷ []) (announce s g), count-live t [] (announce s set)))
          h.ids h.devices (announce-IsSound a mapped s [] g removed))
        removed

  refresh_master_input-IsSound :
      (found : Bool) (f : Finder)
      → IsSound a mapped [] f
      → IsSound a mapped [] (refresh_master_input found f)
  unfolding refresh_master_input remove_old announce
  refresh_master_input-IsSound found f h =
      let bare : Finder = record f { master_in = none } in
      let g : Finder = remove_old f.master_in bare in
      let n = length f.made in
      let s = new_master_session input_session_name false false in
      let set : Finder = record g { master_in = some n } in
      let removed : IsSound a mapped [] g = remove_old-IsSound a mapped f.master_in [] bare (
        IsSound-moved a mapped [] (option_list f.master_in ++ []) f bare refl refl
          (λ t. omega (
            arith,
            count-live t [] f,
            count-live t (option_list f.master_in ++ []) bare,
            count-append t (option_list f.master_in) [],
          ))
          h.ids h.devices h) in
      if_both (IsSound a mapped []) found
        (IsSound-moved a mapped (n ∷ []) [] (announce s g) (announce s set) refl refl
          (λ t.
            omega (arith, count-live t (n ∷ []) (announce s g), count-live t [] (announce s set)))
          h.ids h.devices (announce-IsSound a mapped s [] g removed))
        removed

  pub refresh_masters-IsSound :
      (api : Com) (output input : Bool) (f : Finder)
      → IsSound a mapped [] f
      → IsSound a mapped [] (refresh_masters api output input f)
  unfolding refresh_masters
  refresh_masters-IsSound api output input f h =
      if_both (IsSound a mapped []) input
        (refresh_master_input-IsSound api.has_default_input g kept) kept
    where
      g : Finder
      g = if output then refresh_master_output api.has_default_output f else f

      kept : IsSound a mapped [] g
      kept =
          if_both (IsSound a mapped []) output
            (refresh_master_output-IsSound api.has_default_output f h) h

  pub run_job-IsSound :
      (u : Unicode) (api : Com) (j : Job) (f : Finder)
      → IsSound a mapped [] f
      → IsSound a mapped [] (run_job u api j f)
  unfolding run_job remove_session remove_device_manager
  run_job-IsSound u api (Job.add_session device c) f h =
      add_session_from_control-IsSound a mapped u api device c [] f h
  run_job-IsSound u api (Job.remove_tracked id) f h =
      remove_found-IsSound a mapped id (find_tracked id f.tracked) [] f refl h
  run_job-IsSound u api (Job.refresh output input) f h =
      refresh_masters-IsSound api output input f h
  run_job-IsSound u api (Job.add_device id) f h =
      handle_device_added-IsSound u api (api.get_device id) f h
  run_job-IsSound u api (Job.remove_device id) f h =
      remove_manager-IsSound a mapped id (find_manager id f.managers) [] f refl h
