-- ===== src/Audio/Wca/Worker.antt =====
-- internal/audio/session_finder_windows.go: what makes sessions, the jobs of the worker and the
-- callbacks that dispatch them. A job runs with the answers that COM gives meanwhile.
use deej.Prelude.{
  ℕ, Bool, true, false, not, ◌&&◌, List, [], ◌∷◌, ◌++◌, Option, none, some, if◌then◌else◌, length,
}
use deej.Prelude.Text.{Text, codes, Unicode}
use deej.Prelude.Strconv.{itoa}
use deej.Audio.Session.{BaseSession, key_of, master_session_name, input_session_name}
use deej.Audio.Com.{Control, Device, Com}
use deej.Audio.Wca.{
  Tracked, DeviceManager, Job, Finder, new_master_session, new_wca_session, announce, discard,
  remove_old, find_tracked, find_manager, remove_session, remove_device_manager,
}

-- `addSessionFromControl` releases the control on every path on which it does not keep it.
unfoldable pub free_control : ℕ → Finder → Finder
free_control c f = record f { freed = c ∷ f.freed }

unfoldable pub track : Text → ℕ → BaseSession → Option Tracked → Finder → Finder
unfolding free_control discard announce
track id c s (some old) f = free_control c (discard s f)
track id c s none f =
    announce s
      (record f { tracked = record { id = id; session = length f.made; control = c } ∷ f.tracked })

unfoldable pub session_id : Unicode → Text → BaseSession → ℕ → Text
unfolding key_of itoa
session_id u device s pid = device ++ codes "_" ++ key_of u s ++ codes "_" ++ itoa pid

-- The end of `addSessionFromControl`, once `newWCASession` has returned.
unfoldable pub add_session_of : Unicode → Text → ℕ → ℕ → Option BaseSession → Finder → Finder
unfolding free_control track session_id find_tracked
add_session_of u device c pid none f = free_control c f
add_session_of u device c pid (some s) f =
    let id = session_id u device s pid in track id c s (find_tracked id f.tracked) f

unfoldable pub pid_unusable : Control → Bool
pid_unusable k = k.pid_failed && (not k.is_system_sounds && not k.no_single_process)

-- `addSessionFromControl`
unfoldable pub add_session_from_control : Unicode → Com → Text → ℕ → Finder → Finder
unfolding free_control pid_unusable add_session_of new_wca_session
add_session_from_control u api device c f =
    let k = api.controls c in
    if not k.has_control2
    then free_control c f
    else if pid_unusable k
    then free_control c f
    else if not k.has_volume
    then free_control c f
    else add_session_of u device c k.pid (new_wca_session k.pid k.process) f

-- The loop of `enumerateDeviceSessions`.
unfoldable pub enumerate_device_sessions : Unicode → Com → Text → List (Option ℕ) → Finder → Finder
unfolding add_session_from_control
enumerate_device_sessions u api device [] f = f
enumerate_device_sessions u api device (none ∷ cs) f = enumerate_device_sessions u api device cs f
enumerate_device_sessions u api device (some c ∷ cs) f =
    enumerate_device_sessions u api device cs (add_session_from_control u api device c f)

-- The sessions of an output device, and its entry in the map.
unfoldable pub put_manager : Unicode → Com → Device → Bool → Text → Option ℕ → Finder → Finder
unfolding enumerate_device_sessions
put_manager u api d is_output id master f =
    let sessions = enumerate_device_sessions u api id d.session_list f in
    let g = if is_output then sessions else f in
    record g { managers = record { id = id; master = master } ∷ g.managers }

-- `createDeviceManager` from the device's master session on.
unfoldable pub make_manager : Unicode → Com → Device → Bool → Text → Option Text → Finder → Finder
unfolding put_manager announce new_master_session
make_manager u api d is_output id none f = put_manager u api d is_output id none f
make_manager u api d is_output id (some name) f =
    put_manager u api d is_output id (some (length f.made))
      (announce (new_master_session name is_output true) f)

unfoldable pub activate : Unicode → Com → Device → Text → Option Bool → Finder → Finder
unfolding make_manager
activate u api d id none f = f
activate u api d id (some is_output) f =
    if d.has_session_manager then make_manager u api d is_output id d.master_name f else f

unfoldable pub create_unless :
    Unicode → Com → Device → Text → Option DeviceManager → Finder → Finder
unfolding activate
create_unless u api d id (some m) f = f
create_unless u api d id none f = if d.has_endpoint then activate u api d id d.is_output f else f

-- `createDeviceManager`
unfoldable pub create_device_manager : Unicode → Com → Device → Option Text → Finder → Finder
unfolding create_unless find_manager
create_device_manager u api d none f = f
create_device_manager u api d (some id) f = create_unless u api d id (find_manager id f.managers) f

-- `handleDeviceAdded`, by what GetDevice gives, and one round of `initializeAllDeviceManagers`.
unfoldable pub handle_device_added : Unicode → Com → Option Device → Finder → Finder
unfolding create_device_manager
handle_device_added u api none f = f
handle_device_added u api (some d) f = create_device_manager u api d d.id f

-- `initializeAllDeviceManagers`
unfoldable pub initialize_all_device_managers :
    Unicode → Com → List (Option Device) → Finder → Finder
unfolding handle_device_added
initialize_all_device_managers u api [] f = f
initialize_all_device_managers u api (d ∷ ds) f =
    initialize_all_device_managers u api ds (handle_device_added u api d f)

-- `refreshMasterOutput`
unfoldable pub refresh_master_output : Bool → Finder → Finder
unfolding remove_old announce new_master_session
refresh_master_output found f =
    let g = remove_old f.master_out (record f { master_out = none }) in
    if found
    then announce (new_master_session master_session_name true false)
        (record g { master_out = some (length g.made) })
    else g

-- `refreshMasterInput`
unfoldable pub refresh_master_input : Bool → Finder → Finder
unfolding remove_old announce new_master_session
refresh_master_input found f =
    let g = remove_old f.master_in (record f { master_in = none }) in
    if found
    then announce (new_master_session input_session_name false false)
        (record g { master_in = some (length g.made) })
    else g

-- The job of `defaultDeviceChangedCallback`.
unfoldable pub refresh_masters : Com → Bool → Bool → Finder → Finder
unfolding refresh_master_output refresh_master_input
refresh_masters api output input f =
    let g = if output then refresh_master_output api.has_default_output f else f in
    if input then refresh_master_input api.has_default_input g else g

unfoldable pub run_job : Unicode → Com → Job → Finder → Finder
unfolding add_session_from_control remove_session refresh_masters handle_device_added
    remove_device_manager
run_job u api (Job.add_session device c) f = add_session_from_control u api device c f
run_job u api (Job.remove_tracked id) f = remove_session id f
run_job u api (Job.refresh output input) f = refresh_masters api output input f
run_job u api (Job.add_device id) f = handle_device_added u api (api.get_device id) f
run_job u api (Job.remove_device id) f = remove_device_manager id f
