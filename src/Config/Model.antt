-- ===== src/Config/Model.antt =====
-- internal/config/model.go: the settings, and internal/config/defaults.go.
use deej.Prelude.{Bool, true, false, List, [], ◌∷◌}
use deej.Prelude.Int.{ℤ, pos}
use deej.Prelude.Text.{Text, codes}

pub record ComSettings : Type 0 where
  pub port : Text
  pub baud_rate : ℤ
  pub vid : Text
  pub pid : Text

pub record ObsSettings : Type 0 where
  pub enabled : Bool
  pub host : Text
  pub port : ℤ
  pub password : Text
  pub volume_conversion : Bool

pub record DiscordSettings : Type 0 where
  pub enabled : Bool
  pub client_id : Text
  pub client_secret : Text
  pub volume_conversion : Bool

pub record SliderMappingEntry : Type 0 where
  pub slider : ℤ
  pub targets : List Text

abbrev pub SliderMappings : Type 0
SliderMappings = List SliderMappingEntry

pub record Profile : Type 0 where
  pub name : Text
  pub hotkey : Text
  pub slider_mapping : SliderMappings

pub record Settings : Type 0 where
  pub active_profile : Text
  pub profiles : List Profile
  pub invert_sliders : Bool
  pub com_settings : ComSettings
  pub noise_reduction : Text
  pub language : Text
  pub obs : ObsSettings
  pub discord : DiscordSettings

abbrev pub default_profile_name : Text
default_profile_name = codes "default"

abbrev pub default_com : ComSettings
default_com = record {
  port = codes "auto";
  baud_rate = pos 9600;
  vid = codes "1A86";
  pid = codes "7523";
}

abbrev pub default_settings : Settings
default_settings = record {
  active_profile = [];
  profiles = record { name = default_profile_name; hotkey = []; slider_mapping = [] } ∷ [];
  invert_sliders = false;
  com_settings = default_com;
  noise_reduction = [];
  language = codes "auto";
  obs = record {
    enabled = false;
    host = codes "localhost";
    port = pos 4455;
    password = [];
    volume_conversion = true;
  };
  discord = record {
    enabled = false;
    client_id = [];
    client_secret = [];
    volume_conversion = true;
  };
}
