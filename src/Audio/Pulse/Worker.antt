-- ===== src/Audio/Pulse/Worker.antt =====
-- internal/audio/session_finder_linux.go: the worker, the work channel and the calls from outside.
use deej.Prelude.{
  ℕ, ◌≡◌, Bool, true, false, List, [], ◌∷◌, ◌++◌, map, Option, none, some, if◌then◌else◌, ltb,
  length,
}
use deej.Audio.Server.{
  DeviceInfo, EventType, Facility, Reply, event_new, event_remove, event_sink_sink_input,
  event_server, event_sink, event_source, other_facility, sink_input_info, device_info,
}
use deej.Audio.Pulse.{
  Job, Op, Finder, new_session_finder, find_index, replace_master_sink, replace_master_source,
  session_name, put_sink_input, put_sink, put_source, remove_sink_input_at, remove_sink_at,
  remove_source_at, clear_sessions, initial_sync, refresh_master, sink_input_event, sink_event,
  source_event, refresh_master_sink, refresh_master_source, set_master_sink, set_master_source,
  enumerate_existing_sessions, enumerate_existing_sinks, enumerate_existing_sources, add_sink_input,
  add_sink, add_source, add_sink_input_from_info, add_sink_from_info, add_source_from_info,
  remove_sink_input, remove_sink, remove_source,
}

-- The first of the devices that a reply has: a request for one device is answered by one.
abbrev pub first_device : (DeviceInfo → List Op) → Reply → List Op
first_device k (device_info (d ∷ ds)) = k d
first_device k _ = []

abbrev pub all_devices : (DeviceInfo → Op) → Reply → List Op
all_devices k (device_info ds) = map k ds
all_devices k _ = []

abbrev pub first_sink_input : Reply → List Op
first_sink_input (sink_input_info (i ∷ is)) = add_sink_input_from_info i ∷ []
first_sink_input _ = []

abbrev pub all_sink_inputs : Reply → List Op
all_sink_inputs (sink_input_info is) = map add_sink_input_from_info is
all_sink_inputs _ = []

-- A request is made on the current connection, if there is one; what follows it.
abbrev pub request : Option ℕ → (ℕ → List Op) → List Op
request none k = []
request (some conn) k = k conn

-- The operations that follow one on the reply to its request. One that makes no request has none.
unfoldable pub follow : Op → Option ℕ → Reply → List Op
follow refresh_master_sink c r =
    request c (λ conn. first_device (λ d. set_master_sink conn d ∷ []) r)
follow refresh_master_source c r =
    request c (λ conn. first_device (λ d. set_master_source conn d ∷ []) r)
follow enumerate_existing_sessions c r = request c (λ conn. all_sink_inputs r)
follow enumerate_existing_sinks c r = request c (λ conn. all_devices add_sink_from_info r)
follow enumerate_existing_sources c r = request c (λ conn. all_devices add_source_from_info r)
follow (add_sink_input i) c r = request c (λ conn. first_sink_input r)
follow (add_sink i) c r = request c (λ conn. first_device (λ d. add_sink_from_info d ∷ []) r)
follow (add_source i) c r = request c (λ conn. first_device (λ d. add_source_from_info d ∷ []) r)
follow _ c r = []

-- What an operation does to the maps.
unfoldable pub perform : Op → Finder → Finder
unfolding replace_master_sink replace_master_source put_sink_input put_sink put_source
    remove_sink_input_at remove_sink_at remove_source_at find_index session_name
perform (set_master_sink conn d) f = replace_master_sink conn d f
perform (set_master_source conn d) f = replace_master_source conn d f
perform (add_sink_input_from_info i) f = put_sink_input i f.current (session_name i) f
perform (add_sink_from_info d) f = put_sink d f.current f
perform (add_source_from_info d) f = put_source d f.current f
perform (remove_sink_input i) f = remove_sink_input_at i (find_index i f.sink_inputs) f
perform (remove_sink i) f = remove_sink_at i (find_index i f.named_sinks) f
perform (remove_source i) f = remove_source_at i (find_index i f.named_sources) f
perform _ f = f

-- The job of each kind, cut into its operations.
unfoldable pub operations_of : Job → List Op
operations_of initial_sync =
    refresh_master_sink ∷ refresh_master_source ∷ enumerate_existing_sessions
    ∷ enumerate_existing_sinks ∷ enumerate_existing_sources ∷ []
operations_of refresh_master = refresh_master_sink ∷ refresh_master_source ∷ []
operations_of (sink_input_event event_new i) = add_sink_input i ∷ []
operations_of (sink_input_event event_remove i) = remove_sink_input i ∷ []
operations_of (sink_event event_new i) = add_sink i ∷ []
operations_of (sink_event event_remove i) = remove_sink i ∷ []
operations_of (source_event event_new i) = add_source i ∷ []
operations_of (source_event event_remove i) = remove_source i ∷ []
operations_of _ = []

abbrev pub pa_work_chan_size : ℕ
pa_work_chan_size = 512

-- `dispatchWork`: a job that finds the channel full is dropped.
unfoldable pub dispatch_work : Job → Finder → Finder
dispatch_work j f =
    if ltb (length f.work_chan) pa_work_chan_size
    then record f { work_chan = f.work_chan ++ j ∷ [] }
    else f

-- `handleSubscribeEvent`
unfoldable pub handle_subscribe_event : Facility → EventType → ℕ → Finder → Finder
unfolding dispatch_work
handle_subscribe_event event_sink_sink_input e i f = dispatch_work (sink_input_event e i) f
handle_subscribe_event event_server e i f = dispatch_work refresh_master f
handle_subscribe_event event_sink e i f = dispatch_work (sink_event e i) f
handle_subscribe_event event_source e i f = dispatch_work (source_event e i) f
handle_subscribe_event other_facility e i f = f

-- `Start`: whether it reports no error.
unfoldable pub start : Finder → Bool × Finder
start f =
    if f.released
    then (false, f)
    else if f.started
    then (false, f)
    else (true, record f { started = true; worker = true })

-- `Release` stops the reconnector and closes the stop channel. The worker ends when it is done with its
-- job, and then the sessions are cleared.
unfoldable pub begin_release : Finder → Finder
begin_release f = if f.released then f else record f { released = true; current = none }

unfoldable pub end_release : Finder → Option Finder
unfolding clear_sessions
end_release f =
    if f.released
    then elim f.running [ [] ↦ some (clear_sessions (record f { worker = false })) | _ ↦ none ]
    else none

-- What happens to the finder.
pub data Input : Type 0 where
  call_start call_release release_ends : Input
  -- the reconnector adopts a connection and calls `onUp`; it calls `onDown`; it drops the connection
  up : ℕ → Input
  down lost : Input
  event : Facility → EventType → ℕ → Input
  -- the worker takes a job, or does the next operation of the one it has, with the reply to its request
  take : Input
  work : Reply → Input

unfoldable pub take_job : List Job → List Op → Finder → Option Finder
unfolding operations_of
take_job (j ∷ js) [] f = some (record f { work_chan = js; running = operations_of j })
take_job _ _ f = none

unfoldable pub work_on : List Op → Reply → Finder → Option Finder
unfolding perform follow
work_on [] r f = none
work_on (o ∷ os) r f = some (perform o (record f { running = follow o f.current r ++ os }))

-- One input; `none` says that it cannot come.
unfoldable pub step : Finder → Input → Option Finder
unfolding start begin_release end_release clear_sessions handle_subscribe_event take_job work_on
    dispatch_work
step f call_start = some (start f).1
step f call_release = some (begin_release f)
step f release_ends = end_release f
step f (up c) = some (dispatch_work initial_sync (record f { current = some c }))
step f down = some (clear_sessions f)
step f lost = some (record f { current = none })
step f (event facility e i) = some (handle_subscribe_event facility e i f)
step f take = if f.worker then take_job f.work_chan f.running f else none
step f (work r) = work_on f.running r f

-- A run of the finder from its construction.
pub data Reach : Finder → Type 0 where
  begin : Reach new_session_finder
  next : {f f' : Finder} → Reach f → (i : Input) → step f i ≡ some f' → Reach f'
