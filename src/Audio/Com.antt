-- ===== src/Audio/Com.antt =====
-- What internal/audio/session_finder_windows.go and session_windows.go learn from the audio API of
-- Windows, the table of processes and the files of programs. A COM object is its number.
use deej.Prelude.{ℕ, Bool, List, Option}
use deej.Prelude.Text.{Text}

-- What ps.FindProcess says of a pid, and the description of the program's file.
pub data Process : Type 0 where
  not_found exited : Process
  executable : Text → Option Text → Process

-- The calls of addSessionFromControl, in their order.
pub record Control : Type 0 where
  pub has_control2 : Bool
  pub pid_failed : Bool
  -- IsSystemSoundsSession reports no error
  pub is_system_sounds : Bool
  -- the error of GetProcessId is 143196173, more than one process
  pub no_single_process : Bool
  pub pid : ℕ
  pub has_volume : Bool
  pub process : Process

-- The calls of createDeviceManager, in their order.
pub record Device : Type 0 where
  pub id : Option Text
  pub has_endpoint : Bool
  -- whether the data flow is eRender
  pub is_output : Option Bool
  pub has_session_manager : Bool
  -- the friendly name, when a master session can be made
  pub master_name : Option Text
  -- the controls of the session enumerator, as far as they can be got
  pub session_list : List (Option ℕ)

-- The answers while one job runs.
pub record Com : Type 0 where
  pub controls : ℕ → Control
  pub get_device : Text → Option Device
  -- there is a default endpoint, and a master session can be made for it
  pub has_default_output : Bool
  pub has_default_input : Bool
  -- EnumAudioEndpoints, with what Item gives
  pub endpoints : List (Option Device)
