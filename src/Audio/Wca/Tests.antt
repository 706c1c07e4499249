-- ===== src/Audio/Wca/Tests.antt =====
-- Runs of the finder for Windows with one device and one program.
use deej.Prelude.{
  ℕ, ◌+◌, ◌≡◌, refl, true, false, List, [], ◌∷◌, Option, none, some, ◌==◌, if◌then◌else◌, ltb,
  count, length,
}
use deej.Prelude.Text.{codes, ascii, text_eq, cut_prefix}
use deej.Prelude.Strconv.{itoa}
use deej.Mixer.Counts.{one_if}
use deej.Audio.Delivery.{IsDelivered, reach, releases, retire, retire_all}
use deej.Audio.Session.{attributes_of_bases, key_of}
use deej.Audio.Com.{Process, Control, Device, Com}
use deej.Audio.Wca.{
  Finder, new_session_finder, live, cleanup, find_manager, find_tracked, new_wca_session,
  named_session, new_master_session, announce, discard, remove_old, remove_device_managers,
  remove_device_manager, remove_manager, remove_sessions, remove_session, remove_found,
  sessions_of_device, delete_tracked, delete_manager,
}
use deej.Audio.Wca.Worker.{
  add_session_from_control, free_control, track, session_id, add_session_of, pid_unusable,
  enumerate_device_sessions, put_manager, make_manager, activate, create_unless,
  create_device_manager, handle_device_added, initialize_all_device_managers, refresh_master_output,
  refresh_master_input, refresh_masters, run_job,
}
use deej.Audio.Wca.Callbacks.{
  dispatch_work, start, begin_worker, end_worker, is_working, is_idle, Input, take_job, step, Reach,
}
use deej.Audio.Wca.Runs.{Reach-matched}
use deej.Audio.Wca.Ownership.{owned, add_session_from_control-owned}
use deej.Audio.Wca.Cleanup.{is_of_devices, cleanup-live}

abbrev player : Control
player = record {
  has_control2 = true;
  pid_failed = false;
  is_system_sounds = false;
  no_single_process = false;
  pid = 7;
  has_volume = true;
  process = Process.executable (codes "Player.exe") none;
}

abbrev speakers : Device
speakers = record {
  id = some (codes "d");
  has_endpoint = true;
  is_output = some true;
  has_session_manager = true;
  master_name = some (codes "Speakers");
  session_list = some 5 ∷ none ∷ some 6 ∷ [];
}

abbrev api : Com
api = record {
  controls = λ c. player;
  get_device = λ id. none;
  has_default_output = true;
  has_default_input = false;
  endpoints = some speakers ∷ [];
}

abbrev after_input : Finder → Option Finder → Finder
after_input f none = f
after_input f (some g) = g

-- Inputs one after the other; one that cannot come is left out.
abbrev run_inputs : List Input → Finder → Finder
run_inputs [] f = f
run_inputs (i ∷ is) f = run_inputs is (after_input f (step ascii f i))

Reach-after_input :
    (f : Finder) (i : Input) (o : Option Finder)
    → step ascii f i ≡ o
    → Reach ascii f
    → Reach ascii (after_input f o)
Reach-after_input f i none e r = r
Reach-after_input f i (some g) e r = Reach.next r i e

Reach-run_inputs : (is : List Input) (f : Finder) → Reach ascii f → Reach ascii (run_inputs is f)
Reach-run_inputs [] f r = r
Reach-run_inputs (i ∷ is) f r =
    Reach-run_inputs is (after_input f (step ascii f i))
      (Reach-after_input f i (step ascii f i) refl r)

-- The device, its program and the default output, which are there when the worker begins.
abbrev first_inputs : List Input
first_inputs = Input.call_start ∷ Input.worker_begins api true ∷ []

abbrev working : Finder
working = run_inputs first_inputs new_session_finder

working_Reach : Reach ascii working
working_Reach = Reach-run_inputs first_inputs new_session_finder Reach.begin

working-live : live working ≡ 1 ∷ 0 ∷ 3 ∷ []
unfolding step start begin_worker end_worker cleanup is_working is_idle take_job dispatch_work
    run_job new_session_finder add_session_from_control free_control pid_unusable add_session_of
    track session_id enumerate_device_sessions put_manager make_manager activate create_unless
    create_device_manager handle_device_added initialize_all_device_managers refresh_master_output
    refresh_master_input refresh_masters find_manager find_tracked new_wca_session named_session
    new_master_session announce discard remove_old remove_device_managers remove_device_manager
    remove_manager remove_sessions remove_session remove_found sessions_of_device delete_tracked
    delete_manager retire retire_all text_eq key_of itoa cut_prefix
working-live = refl

working-freed : working.freed ≡ 6 ∷ []
unfolding step start begin_worker end_worker cleanup is_working is_idle take_job dispatch_work
    run_job new_session_finder add_session_from_control free_control pid_unusable add_session_of
    track session_id enumerate_device_sessions put_manager make_manager activate create_unless
    create_device_manager handle_device_added initialize_all_device_managers refresh_master_output
    refresh_master_input refresh_masters find_manager find_tracked new_wca_session named_session
    new_master_session announce discard remove_old remove_device_managers remove_device_manager
    remove_manager remove_sessions remove_session remove_found sessions_of_device delete_tracked
    delete_manager retire retire_all text_eq key_of itoa cut_prefix
working-freed = refl

Reach-matched_example :
    let a = attributes_of_bases ascii working.made in
    IsDelivered a (λ s. false) working.log
    × ((t : ℕ) → reach a (λ s. false) t working.log ≡ count t (live working))
    × ((t : ℕ)
        → count t (live working) + releases t working.log
          ≡ (if ltb t (length working.made) then 1 else 0))
Reach-matched_example = Reach-matched ascii (λ s. false) working_Reach

cleanup-live_example :
    let g = cleanup working in
    (live g ≡ [])
    × ((t : ℕ)
        → (reach (attributes_of_bases ascii g.made) (λ s. false) t g.log ≡ 0)
          × (releases t g.log ≡ (if ltb t (length g.made) then 1 else 0)))
unfolding step start begin_worker end_worker cleanup is_working is_idle take_job dispatch_work
    run_job new_session_finder add_session_from_control free_control pid_unusable add_session_of
    track session_id enumerate_device_sessions put_manager make_manager activate create_unless
    create_device_manager handle_device_added initialize_all_device_managers refresh_master_output
    refresh_master_input refresh_masters find_manager find_tracked new_wca_session named_session
    new_master_session announce discard remove_old remove_device_managers remove_device_manager
    remove_manager remove_sessions remove_session remove_found sessions_of_device delete_tracked
    delete_manager retire retire_all text_eq key_of itoa cut_prefix is_of_devices
cleanup-live_example = cleanup-live ascii (λ s. false) working_Reach (refl, tt)

add_session_from_control-owned_example :
    owned 6 (add_session_from_control ascii api (codes "d") 6 working)
    ≡ owned 6 working + one_if (6 == 6)
add_session_from_control-owned_example =
    add_session_from_control-owned ascii api (codes "d") 6 6 working

abbrev changed_once : Finder
changed_once = record new_session_finder { last_output_change = some 1000 }

-- A session of the device is announced after the job that removes the device was dispatched, and before it
-- ran: it stays when the worker has ended.
abbrev left_over : Finder
left_over =
    run_inputs
      (Input.device_removed (codes "d")
        ∷ Input.session_created (codes "d") 8
        ∷ Input.work api
        ∷ Input.work api
        ∷ Input.call_release
        ∷ Input.worker_ends
        ∷ [])
      working

left_over-live : live left_over ≡ 4 ∷ []
unfolding step start begin_worker end_worker cleanup is_working is_idle take_job dispatch_work
    run_job new_session_finder add_session_from_control free_control pid_unusable add_session_of
    track session_id enumerate_device_sessions put_manager make_manager activate create_unless
    create_device_manager handle_device_added initialize_all_device_managers refresh_master_output
    refresh_master_input refresh_masters find_manager find_tracked new_wca_session named_session
    new_master_session announce discard remove_old remove_device_managers remove_device_manager
    remove_manager remove_sessions remove_session remove_found sessions_of_device delete_tracked
    delete_manager retire retire_all text_eq key_of itoa cut_prefix
left_over-live = refl
