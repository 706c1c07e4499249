-- ===== src/Audio/Pulse.antt =====
-- internal/audio/session_finder_linux.go: the state of the finder for PulseAudio and its maps. Its worker is a list of small
-- operations, each of which is a request with its reply or a change of the maps under the lock, with
-- the events that follow it; between two of them the reconnector and PulseAudio may do anything.
-- A connection is its number. A session is its place in the list of those made.
use deej.Prelude.{
  ℕ, suc, Bool, true, false, not, List, [], ◌∷◌, ◌++◌, map, Option, none, some, ◌==◌, if◌then◌else◌,
  ltb, length,
}
use deej.Prelude.Text.{Text, codes, text_eq}
use deej.Mixer.Sessions.{added}
use deej.Audio.Delivery.{Log, notify, retire, retire_all}
use deej.Audio.Session.{PaSession, new_pa_session, new_master_session, new_named_master_session}
use deej.Audio.Server.{SinkInputInfo, DeviceInfo, EventType}
pub mod Worker
pub mod Maps
pub mod Invariant
pub mod Operations
pub mod Steps
pub mod Runs
pub mod Tracking

-- The jobs of the work channel: the first sync of a connection, and the subscription events.
pub data Job : Type 0 where
  initial_sync : Job
  refresh_master : Job
  sink_input_event sink_event source_event : EventType → ℕ → Job

-- What the worker has yet to do of its job.
pub data Op : Type 0 where
  refresh_master_sink refresh_master_source : Op
  set_master_sink set_master_source : ℕ → DeviceInfo → Op
  enumerate_existing_sessions enumerate_existing_sinks enumerate_existing_sources : Op
  add_sink_input add_sink add_source : ℕ → Op
  add_sink_input_from_info : SinkInputInfo → Op
  add_sink_from_info add_source_from_info : DeviceInfo → Op
  remove_sink_input remove_sink remove_source : ℕ → Op

-- A map from the indices of PulseAudio to sessions.
abbrev pub IndexMap : Type 0
IndexMap = List (ℕ × ℕ)

pub record Finder : Type 0 where
  pub started : Bool
  pub released : Bool
  -- the goroutine of the worker runs
  pub worker : Bool
  -- what `Current` of the reconnector says
  pub current : Option ℕ
  pub master_sink : Option ℕ
  pub master_source : Option ℕ
  pub sink_inputs : IndexMap
  pub named_sinks : IndexMap
  pub named_sources : IndexMap
  pub work_chan : List Job
  pub running : List Op
  pub made : List PaSession
  pub log : Log

-- `NewSessionFinder`
unfoldable pub new_session_finder : Finder
new_session_finder = record {
  started = false;
  released = false;
  worker = false;
  current = none;
  master_sink = none;
  master_source = none;
  sink_inputs = [];
  named_sinks = [];
  named_sources = [];
  work_chan = [];
  running = [];
  made = [];
  log = [];
}

unfoldable pub find_index : ℕ → IndexMap → Option ℕ
find_index i [] = none
find_index i ((j, s) ∷ m) = if j == i then some s else find_index i m

-- `delete(m, index)`
unfoldable pub delete_index : ℕ → IndexMap → IndexMap
delete_index i [] = []
delete_index i ((j, s) ∷ m) = let rest = delete_index i m in if j == i then rest else (j, s) ∷ rest

abbrev pub sessions_in : IndexMap → List ℕ
sessions_in m = map (λ e. e.1) m

abbrev pub option_list : Option ℕ → List ℕ
option_list none = []
option_list (some s) = s ∷ []

-- The sessions that the finder holds, in the order in which `clearSessions` collects them.
abbrev pub live : Finder → List ℕ
live f =
    sessions_in f.sink_inputs
    ++ sessions_in f.named_sinks
    ++ sessions_in f.named_sources
    ++ option_list f.master_sink
    ++ option_list f.master_source

-- `notify` of a new session, and its release with the event that goes before.
unfoldable pub announce : PaSession → Finder → Finder
announce s f = record f { made = f.made ++ s ∷ []; log = notify (added (length f.made)) ∷ f.log }

unfoldable pub remove : ℕ → Finder → Finder
unfolding retire
remove s f = record f { log = retire s f.log }

unfoldable pub remove_old : Option ℕ → Finder → Finder
unfolding retire_all
remove_old o f = record f { log = retire_all (option_list o) f.log }

-- The end of `refreshMasterSink` and of `refreshMasterSource`, once there is a reply.
unfoldable pub replace_master_sink : ℕ → DeviceInfo → Finder → Finder
unfolding announce remove_old new_master_session
replace_master_sink conn d f =
    announce (new_master_session conn d.index d.channels true)
      (remove_old f.master_sink (record f { master_sink = some (length f.made) }))

unfoldable pub replace_master_source : ℕ → DeviceInfo → Finder → Finder
unfolding announce remove_old new_master_session
replace_master_source conn d f =
    announce (new_master_session conn d.index d.channels false)
      (remove_old f.master_source (record f { master_source = some (length f.made) }))

-- The name of a sink input, and what the settings show of it.
unfoldable pub session_name : SinkInputInfo → Option Text
session_name i = elim i.process_binary [
  | some name ↦ some name
  | none ↦ elim i.application_id [ some name ↦ some name | none ↦ i.application_name ]
]

unfoldable pub text_or_empty : Option Text → Text
text_or_empty none = []
text_or_empty (some t) = t

unfoldable pub insert_sink_input : PaSession → Option ℕ → Finder → Finder
unfolding announce
insert_sink_input s (some old) f = f
insert_sink_input s none f =
    announce s (record f { sink_inputs = (s.index, length f.made) ∷ f.sink_inputs })

unfoldable pub insert_sink : PaSession → Option ℕ → Finder → Finder
unfolding announce
insert_sink s (some old) f = f
insert_sink s none f =
    announce s (record f { named_sinks = (s.index, length f.made) ∷ f.named_sinks })

unfoldable pub insert_source : PaSession → Option ℕ → Finder → Finder
unfolding announce
insert_source s (some old) f = f
insert_source s none f =
    announce s (record f { named_sources = (s.index, length f.made) ∷ f.named_sources })

-- `addSinkInputFromInfo`
unfoldable pub put_sink_input : SinkInputInfo → Option ℕ → Option Text → Finder → Finder
unfolding insert_sink_input new_pa_session text_or_empty find_index
put_sink_input i none name f = f
put_sink_input i (some conn) none f = f
put_sink_input i (some conn) (some name) f =
    insert_sink_input
      (new_pa_session conn i.index i.channels name (text_or_empty i.application_name))
      (find_index i.index f.sink_inputs) f

-- The description of a device.
unfoldable pub description_of : DeviceInfo → Text
unfolding text_eq text_or_empty
description_of d = if text_eq d.device [] then text_or_empty d.description else d.device

abbrev pub as_device : PaSession → PaSession
as_device s = record s { base = record s.base { device = true } }

-- `addSinkFromInfo`
unfoldable pub put_sink : DeviceInfo → Option ℕ → Finder → Finder
unfolding insert_sink new_named_master_session description_of find_index
put_sink d none f = f
put_sink d (some conn) f =
    insert_sink
      (as_device (new_named_master_session conn d.index d.channels true (description_of d)))
      (find_index d.index f.named_sinks) f

-- `addSourceFromInfo`
unfoldable pub put_source : DeviceInfo → Option ℕ → Finder → Finder
unfolding insert_source new_named_master_session description_of find_index text_eq
put_source d none f = f
put_source d (some conn) f =
    let put =
      insert_source
        (as_device (
          new_named_master_session conn d.index d.channels false
            (description_of d ++ codes " (input)")))
        (find_index d.index f.named_sources) f in
    if text_eq d.monitor_source_name [] then put else f

unfoldable pub remove_sink_input_at : ℕ → Option ℕ → Finder → Finder
unfolding remove delete_index
remove_sink_input_at i none f = f
remove_sink_input_at i (some s) f =
    remove s (record f { sink_inputs = delete_index i f.sink_inputs })

unfoldable pub remove_sink_at : ℕ → Option ℕ → Finder → Finder
unfolding remove delete_index
remove_sink_at i none f = f
remove_sink_at i (some s) f = remove s (record f { named_sinks = delete_index i f.named_sinks })

unfoldable pub remove_source_at : ℕ → Option ℕ → Finder → Finder
unfolding remove delete_index
remove_source_at i none f = f
remove_source_at i (some s) f =
    remove s (record f { named_sources = delete_index i f.named_sources })

-- `clearSessions`
unfoldable pub clear_sessions : Finder → Finder
unfolding retire_all
clear_sessions f = record f {
  sink_inputs = [];
  named_sinks = [];
  named_sources = [];
  master_sink = none;
  master_source = none;
  log = retire_all (live f) f.log;
}
