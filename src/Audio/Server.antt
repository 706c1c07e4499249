-- ===== src/Audio/Server.antt =====
-- What internal/audio/session_finder_linux.go reads of the messages of PulseAudio, which the package
-- github.com/jfreymuth/pulse/proto decodes.
use deej.Prelude.{ℕ, List, Option}
use deej.Prelude.Text.{Text}

-- What the finder reads of a GetSinkInputInfoReply.
pub record SinkInputInfo : Type 0 where
  pub index : ℕ
  pub channels : ℕ
  -- the properties application.process.binary, application.id and application.name
  pub process_binary : Option Text
  pub application_id : Option Text
  pub application_name : Option Text

-- What the finder reads of a GetSinkInfoReply or a GetSourceInfoReply.
pub record DeviceInfo : Type 0 where
  pub index : ℕ
  pub channels : ℕ
  pub device : Text
  -- the property device.description
  pub description : Option Text
  -- of a source only
  pub monitor_source_name : Text

pub data EventType : Type 0 where
  event_new event_change event_remove : EventType

pub data Facility : Type 0 where
  event_sink_sink_input event_server event_sink event_source other_facility : Facility

-- How PulseAudio answers a request.
pub data Reply : Type 0 where
  failed : Reply
  sink_input_info : List SinkInputInfo → Reply
  device_info : List DeviceInfo → Reply
