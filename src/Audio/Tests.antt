-- ===== src/Audio/Tests.antt =====
-- Runs of the finders with a few sessions.
use deej.Prelude.{◌≡◌, List, Option, ◌≤◌, ◌<◌, ◌*◌, ◌+◌, refl, [], ◌∷◌, none, some, arith}
use deej.Prelude.Text.{codes}
use deej.Audio.Delivery.{retire, retire_all}
use deej.Audio.Session.{
  new_pa_session, new_master_session, new_named_master_session, get_volume, set_volume_request,
  max_volume, get_volume-set_volume_request,
}
use deej.Audio.Server.{SinkInputInfo, DeviceInfo, Reply, Facility, EventType}
use deej.Audio.Pulse.{
  Finder, new_session_finder, live, find_index, session_name, clear_sessions, put_sink_input,
  insert_sink_input, announce, replace_master_sink, remove_old, text_or_empty,
}
use deej.Audio.Pulse.Worker.{
  Input, step, end_release, start, begin_release, take_job, work_on, perform, follow, operations_of,
  dispatch_work, handle_subscribe_event,
}
use deej.Audio.Pulse.Tracking.{add_all, add_all_again}

abbrev firefox : SinkInputInfo
firefox = record {
  index = 4;
  channels = 2;
  process_binary = some (codes "firefox");
  application_id = none;
  application_name = some (codes "Firefox");
}

abbrev speakers : DeviceInfo
speakers = record {
  index = 1;
  channels = 2;
  device = codes "Speakers";
  description = none;
  monitor_source_name = [];
}

get_volume-set_volume_request_example :
    let s = new_pa_session 0 4 2 (codes "firefox") [] in
    let read = get_volume (some (set_volume_request s 33).volumes) in
    (read.1 ≡ s.channels * max_volume)
    × (read.0 * 100 ≤ 33 * read.1)
    × (33 * read.1 < (read.0 + s.channels) * 100)
unfolding new_pa_session
get_volume-set_volume_request_example =
    get_volume-set_volume_request (new_pa_session 0 4 2 (codes "firefox") []) 33 (omega arith)
      (omega arith) (omega arith)

abbrev after_input : Finder → Option Finder → Finder
after_input f none = f
after_input f (some g) = g

-- Inputs one after the other; one that cannot come is left out.
abbrev run_inputs : List Input → Finder → Finder
run_inputs [] f = f
run_inputs (i ∷ is) f = run_inputs is (after_input f (step f i))

-- A connection comes up, and the worker lists the master sink and a sink input.
abbrev first_sync : List Input
first_sync =
    Input.call_start
    ∷ Input.up 0
    ∷ Input.take
    ∷ Input.work (Reply.device_info (speakers ∷ []))
    ∷ Input.work Reply.failed
    ∷ Input.work Reply.failed
    ∷ Input.work (Reply.sink_input_info (firefox ∷ []))
    ∷ Input.work Reply.failed
    ∷ Input.work Reply.failed
    ∷ Input.work Reply.failed
    ∷ []

abbrev synced : Finder
synced = run_inputs first_sync new_session_finder

synced-live : live synced ≡ 1 ∷ 0 ∷ []
unfolding step start begin_release end_release clear_sessions take_job work_on perform follow
    operations_of dispatch_work new_session_finder put_sink_input insert_sink_input announce
    replace_master_sink remove_old retire retire_all find_index session_name text_or_empty
    new_pa_session new_master_session new_named_master_session handle_subscribe_event
synced-live = refl

abbrev releasing : Finder
releasing = run_inputs (Input.call_release ∷ []) synced

abbrev released_finder : Finder
released_finder = run_inputs (Input.release_ends ∷ []) releasing

added_twice : add_all (firefox ∷ []) (add_all (firefox ∷ []) synced) ≡ add_all (firefox ∷ []) synced
added_twice = add_all_again (firefox ∷ []) synced

abbrev connected : Finder
connected = record new_session_finder { current = some 0 }

-- The worker has the reply for a sink input when the connection fails. Its session is made after the
-- sessions were cleared, and stays when the next connection is up.
abbrev stale : Finder
stale =
    run_inputs
      (Input.call_start
        ∷ Input.up 0
        ∷ Input.event Facility.event_sink_sink_input EventType.event_new 4
        ∷ Input.take
        ∷ Input.work Reply.failed
        ∷ Input.work Reply.failed
        ∷ Input.work Reply.failed
        ∷ Input.work Reply.failed
        ∷ Input.work Reply.failed
        ∷ Input.take
        ∷ Input.work (Reply.sink_input_info (firefox ∷ []))
        ∷ Input.down
        ∷ Input.work Reply.failed
        ∷ Input.lost
        ∷ Input.up 1
        ∷ [])
      new_session_finder

stale-live : live stale ≡ 0 ∷ []
unfolding step start begin_release end_release clear_sessions take_job work_on perform follow
    operations_of dispatch_work new_session_finder put_sink_input insert_sink_input announce
    replace_master_sink remove_old retire retire_all find_index session_name text_or_empty
    new_pa_session new_master_session new_named_master_session handle_subscribe_event
stale-live = refl
