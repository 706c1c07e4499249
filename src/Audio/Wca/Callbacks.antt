-- ===== src/Audio/Wca/Callbacks.antt =====
-- internal/audio/session_finder_windows.go: the callbacks, which may come on any thread, the lifecycle
-- of the worker, and the runs of the finder. Times are in milliseconds.
use deej.Prelude.{
  ℕ, ◌+◌, ◌≡◌, Bool, true, false, not, ◌&&◌, ◌||◌, List, [], ◌∷◌, ◌++◌, Option, none, some,
  if◌then◌else◌, ltb, length, ◌==◌,
}
use deej.Prelude.Text.{Text, Unicode}
use deej.Audio.Com.{Com}
use deej.Audio.Wca.{Job, WorkerState, Finder, new_session_finder, cleanup}
use deej.Audio.Wca.Worker.{initialize_all_device_managers, refresh_masters, run_job}

abbrev pub device_work_chan_size : ℕ
device_work_chan_size = 50

-- `dispatchWork`
unfoldable pub dispatch_work : Job → Finder → Finder
dispatch_work j f =
    if ltb (length f.work_chan) device_work_chan_size
    then record f { work_chan = f.work_chan ++ j ∷ [] }
    else f

pub data DataFlow : Type 0 where
  render capture all : DataFlow

abbrev pub min_default_device_change_threshold : ℕ
min_default_device_change_threshold = 100

-- The last change is less than the threshold ago.
unfoldable pub too_soon : Option ℕ → ℕ → Bool
too_soon none now = false
too_soon (some last) now = ltb now (last + min_default_device_change_threshold)

unfoldable pub is_output_flow : DataFlow → Bool
is_output_flow render = true
is_output_flow capture = false
is_output_flow all = true

unfoldable pub is_input_flow : DataFlow → Bool
is_input_flow render = false
is_input_flow capture = true
is_input_flow all = true

-- `defaultDeviceChangedCallback`
unfoldable pub default_device_changed : DataFlow → ℕ → Finder → Finder
unfolding too_soon is_output_flow is_input_flow dispatch_work
default_device_changed flow now f =
    let output = is_output_flow flow && not (too_soon f.last_output_change now) in
    let input = is_input_flow flow && not (too_soon f.last_input_change now) in
    let g = record f {
      last_output_change = if output then some now else f.last_output_change;
      last_input_change = if input then some now else f.last_input_change;
    } in
    if output || input then dispatch_work (Job.refresh output input) g else g

abbrev pub device_state_active : ℕ
device_state_active = 1

abbrev pub audio_session_state_expired : ℕ
audio_session_state_expired = 2

-- `Start`: whether it reports no error.
unfoldable pub start : Finder → Bool × Finder
start f =
    if f.released
    then (false, f)
    else if f.started
    then (false, f)
    else (true, record f { started = true })

-- `sessionFinderWorker` up to its loop, when COM is there. Without the device enumerator it ends.
unfoldable pub begin_worker : Unicode → Com → Bool → Finder → Finder
unfolding cleanup initialize_all_device_managers refresh_masters
begin_worker u api has_enumerator f =
    let g = refresh_masters api true true (
      initialize_all_device_managers u api api.endpoints
        (record f { worker = WorkerState.working })) in
    if has_enumerator then g else cleanup (record f { worker = WorkerState.ended })

-- The worker sees that `Release` was called.
unfoldable pub end_worker : Finder → Finder
unfolding cleanup
end_worker f = cleanup (record f { worker = WorkerState.ended })

unfoldable pub is_working : WorkerState → Bool
is_working WorkerState.working = true
is_working _ = false

unfoldable pub is_idle : WorkerState → Bool
is_idle WorkerState.idle = true
is_idle _ = false

pub data Input : Type 0 where
  call_start call_release : Input
  worker_begins : Com → Bool → Input
  -- the worker takes the next job
  work : Com → Input
  worker_ends : Input
  -- the callbacks
  session_created : Text → ℕ → Input
  session_state : Text → ℕ → Input
  session_disconnected : Text → Input
  default_device : DataFlow → ℕ → Input
  device_added device_removed : Text → Input
  device_state : Text → ℕ → Input

unfoldable pub take_job : Unicode → Com → List Job → Finder → Option Finder
unfolding run_job
take_job u api [] f = none
take_job u api (j ∷ js) f = some (run_job u api j (record f { work_chan = js }))

-- One input; `none` says that it cannot come.
unfoldable pub step : Unicode → Finder → Input → Option Finder
unfolding start begin_worker end_worker cleanup is_working is_idle take_job dispatch_work
    default_device_changed
step u f call_start = some (start f).1
step u f call_release = some (record f { released = true })
step u f (worker_begins api has_enumerator) =
    if f.started && is_idle f.worker then some (begin_worker u api has_enumerator f) else none
step u f (work api) = if is_working f.worker then take_job u api f.work_chan f else none
step u f worker_ends = if f.released && is_working f.worker then some (end_worker f) else none
step u f (session_created device c) = some (dispatch_work (Job.add_session device c) f)
step u f (session_state id state) =
    some
      (if state == audio_session_state_expired then dispatch_work (Job.remove_tracked id) f else f)
step u f (session_disconnected id) = some (dispatch_work (Job.remove_tracked id) f)
step u f (default_device flow now) = some (default_device_changed flow now f)
step u f (device_added id) = some (dispatch_work (Job.add_device id) f)
step u f (device_removed id) = some (dispatch_work (Job.remove_device id) f)
step u f (device_state id state) = some (
    dispatch_work (if state == device_state_active then Job.add_device id else Job.remove_device id)
      f)

-- A run of the finder from its construction.
pub data Reach (u : Unicode) : Finder → Type 0 where
  begin : Reach u new_session_finder
  next : {f f' : Finder} → Reach u f → (i : Input) → step u f i ≡ some f' → Reach u f'
