-- ===== src/Audio/Wca.antt =====
-- internal/audio/session_finder_windows.go: the state of the finder for Windows and what its worker does
-- to the maps. All of it runs on the one goroutine of the worker. A session is its place in the list
-- of those made.
use deej.Prelude.{
  ℕ, ◌+◌, ◌<◌, Bool, true, false, not, ◌&&◌, List, [], ◌∷◌, ◌++◌, Option, none, some, ◌==◌,
  if◌then◌else◌, ltb, length, map,
}
use deej.Prelude.Text.{Text, codes, text_eq, Unicode, has_prefix}
use deej.Prelude.Strconv.{itoa}
use deej.Mixer.Sessions.{added}
use deej.Audio.Delivery.{Log, notify, release, retire, retire_all}
use deej.Audio.Session.{
  BaseSession, key_of, master_session_name, input_session_name, system_session_name,
}
use deej.Audio.Com.{Process}
pub mod Worker
pub mod Callbacks
pub mod Maps
pub mod Invariant
pub mod Additions
pub mod Steps
pub mod Runs
pub mod Ownership
pub mod Debounce
pub mod Removal
pub mod Cleanup
mod Tests

pub record Tracked : Type 0 where
  pub id : Text
  pub session : ℕ
  pub control : ℕ

pub record DeviceManager : Type 0 where
  pub id : Text
  pub master : Option ℕ

pub data Job : Type 0 where
  add_session : Text → ℕ → Job
  remove_tracked : Text → Job
  refresh : Bool → Bool → Job
  add_device remove_device : Text → Job

pub data WorkerState : Type 0 where
  idle working ended : WorkerState

pub record Finder : Type 0 where
  pub started : Bool
  pub released : Bool
  pub worker : WorkerState
  pub last_output_change : Option ℕ
  pub last_input_change : Option ℕ
  pub work_chan : List Job
  pub master_out : Option ℕ
  pub master_in : Option ℕ
  pub managers : List DeviceManager
  pub tracked : List Tracked
  pub made : List BaseSession
  -- controls that were released, newest first
  pub freed : List ℕ
  pub log : Log

-- `NewSessionFinder`
unfoldable pub new_session_finder : Finder
new_session_finder = record {
  started = false;
  released = false;
  worker = idle;
  last_output_change = none;
  last_input_change = none;
  work_chan = [];
  master_out = none;
  master_in = none;
  managers = [];
  tracked = [];
  made = [];
  freed = [];
  log = [];
}

-- `newMasterSession`, with what a caller sets after it
unfoldable pub new_master_session : Text → Bool → Bool → BaseSession
new_master_session key is_output device = record {
  system = false;
  master = true;
  device = device;
  input = not is_output;
  name = key;
  display_name = key;
}

unfoldable pub named_session : Process → Option BaseSession
named_session Process.not_found = none
named_session Process.exited = none
named_session (Process.executable name description) = some (record {
  system = false;
  master = false;
  device = false;
  input = false;
  name = name;
  display_name = elim description [ none ↦ [] | some d ↦ d ];
})

-- `newWCASession`
unfoldable pub new_wca_session : ℕ → Process → Option BaseSession
unfolding named_session
new_wca_session pid p =
    if pid == 0
    then some (record {
      system = true;
      master = false;
      device = false;
      input = false;
      name = system_session_name;
      display_name = [];
    })
    else named_session p

abbrev pub option_list : Option ℕ → List ℕ
option_list none = []
option_list (some s) = s ∷ []

abbrev pub tracked_sessions : List Tracked → List ℕ
tracked_sessions ts = map (λ t. t.session) ts

abbrev pub tracked_controls : List Tracked → List ℕ
tracked_controls ts = map (λ t. t.control) ts

abbrev pub manager_masters : List DeviceManager → List ℕ
manager_masters [] = []
manager_masters (d ∷ ds) = option_list d.master ++ manager_masters ds

-- The sessions that the finder holds.
abbrev pub live : Finder → List ℕ
live f =
    tracked_sessions f.tracked
    ++ manager_masters f.managers
    ++ option_list f.master_out
    ++ option_list f.master_in

unfoldable pub announce : BaseSession → Finder → Finder
announce s f = record f { made = f.made ++ s ∷ []; log = notify (added (length f.made)) ∷ f.log }

-- A session is made and released without having been announced.
unfoldable pub discard : BaseSession → Finder → Finder
discard s f = record f { made = f.made ++ s ∷ []; log = release (length f.made) ∷ f.log }

unfoldable pub remove_old : Option ℕ → Finder → Finder
unfolding retire_all
remove_old o f = record f { log = retire_all (option_list o) f.log }

unfoldable pub find_tracked : Text → List Tracked → Option Tracked
unfolding text_eq
find_tracked id [] = none
find_tracked id (t ∷ ts) = if text_eq t.id id then some t else find_tracked id ts

unfoldable pub delete_tracked : Text → List Tracked → List Tracked
unfolding text_eq
delete_tracked id [] = []
delete_tracked id (t ∷ ts) =
    let rest = delete_tracked id ts in if text_eq t.id id then rest else t ∷ rest

unfoldable pub find_manager : Text → List DeviceManager → Option DeviceManager
unfolding text_eq
find_manager id [] = none
find_manager id (d ∷ ds) = if text_eq d.id id then some d else find_manager id ds

unfoldable pub delete_manager : Text → List DeviceManager → List DeviceManager
unfolding text_eq
delete_manager id [] = []
delete_manager id (d ∷ ds) =
    let rest = delete_manager id ds in if text_eq d.id id then rest else d ∷ rest

-- `removeSession`
unfoldable pub remove_found : Text → Option Tracked → Finder → Finder
unfolding delete_tracked retire
remove_found id none f = f
remove_found id (some t) f = record f {
  tracked = delete_tracked id f.tracked;
  freed = t.control ∷ f.freed;
  log = retire t.session f.log;
}

unfoldable pub remove_session : Text → Finder → Finder
unfolding remove_found find_tracked
remove_session id f = remove_found id (find_tracked id f.tracked) f

unfoldable pub remove_sessions : List Text → Finder → Finder
unfolding remove_session
remove_sessions [] f = f
remove_sessions (id ∷ ids) f = remove_sessions ids (remove_session id f)

-- The ids of the tracked sessions of a device.
unfoldable pub sessions_of_device : Text → List Tracked → List Text
sessions_of_device device [] = []
sessions_of_device device (t ∷ ts) =
    let rest = sessions_of_device device ts in
    if has_prefix (device ++ codes "_") t.id then t.id ∷ rest else rest

-- `removeDeviceManager`
unfoldable pub remove_manager : Text → Option DeviceManager → Finder → Finder
unfolding remove_sessions sessions_of_device remove_old delete_manager
remove_manager id none f = f
remove_manager id (some d) f =
    let g = record f { managers = delete_manager id f.managers } in
    let ids = sessions_of_device id f.tracked in remove_old d.master (remove_sessions ids g)

unfoldable pub remove_device_manager : Text → Finder → Finder
unfolding remove_manager find_manager
remove_device_manager id f = remove_manager id (find_manager id f.managers) f

unfoldable pub remove_device_managers : List Text → Finder → Finder
unfolding remove_device_manager
remove_device_managers [] f = f
remove_device_managers (id ∷ ids) f = remove_device_managers ids (remove_device_manager id f)

-- `cleanup`
unfoldable pub cleanup : Finder → Finder
unfolding remove_device_managers remove_old
cleanup f =
    let g = remove_device_managers (map (λ d. d.id) f.managers) f in
    remove_old g.master_in
      (remove_old g.master_out (record g { master_out = none; master_in = none }))
