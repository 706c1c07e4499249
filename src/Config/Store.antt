-- ===== src/Config/Store.antt =====
-- internal/config/store.go, legacy.go and watch.go: the settings in force, the file that they are
-- kept in, and who hears of a change. YAML (go.yaml.in/yaml) and whether the disk takes a write
-- are parameters.
use deej.Prelude.{
  ℕ, ◌==◌, Bool, true, false, ◌&&◌, List, [], ◌∷◌, ◌++◌, map, Option, none, some, if◌then◌else◌,
}
use deej.Prelude.Int.{ℤ, eqb_ℤ}
use deej.Prelude.Text.{Text, Unicode, text_eq}
use deej.Config.Model.{
  ComSettings, ObsSettings, DiscordSettings, SliderMappingEntry, SliderMappings, Profile, Settings,
  default_settings, default_profile_name,
}
use deej.Config.Rules.{Problem, find_profile_name, is_nil, normalize}
pub mod Equal
pub mod Normal
pub mod Save
use Equal.{settings_eq}

-- What stands at the path of the configuration file.
pub data Disk : Type 0 where
  absent folder unreadable : Disk
  file : Text → Disk

-- The keys of old files.
pub record Legacy : Type 0 where
  pub com_port : Option Text
  pub baud_rate : Option ℤ
  pub com_vid : Option Text
  pub com_pid : Option Text
  pub slider_mapping : Option SliderMappings

-- What `yaml.Unmarshal` makes of settings: whole, with fields of wrong types left alone, or an
-- error.
pub data Decoded : Type 0 where
  decoded : Settings → Decoded
  mistyped : Settings → Decoded
  broken : Decoded

pub record Yaml : Type 0 where
  pub encode : Settings → Option Text
  pub decode : Text → Settings → Decoded
  pub legacy_keys : Text → Option Legacy

pub data OutcomeKind : Type 0 where
  missing read_error invalid reloaded : OutcomeKind

pub data Failure : Type 0 where
  create_default config_missing read_config parse_config marshal write unknown_profile : Failure
  invalid_settings : List Problem → Failure

-- The outcomes are those reported so far, newest first; a consumer is a channel of capacity one and
-- stands here as whether a signal waits in it.
pub record Store : Type 0 where
  pub disk : Disk
  pub current : Option Settings
  pub outcomes : List OutcomeKind
  pub reload_consumers : List Bool

-- The error, if any, and the store behind an operation.
abbrev pub Outcome : Type 0
Outcome = Option Failure × Store

abbrev pub or_kept {ℓ} : {A : Type ℓ} → Option A → A → A
or_kept none a = a
or_kept (some b) a = b

abbrev pub legacy_profiles : Option SliderMappings → List Profile → List Profile
legacy_profiles none ps = ps
legacy_profiles (some m) ps =
    record { name = default_profile_name; hotkey = []; slider_mapping = m } ∷ []

-- `applyLegacyKeys`, behind the decoding of the keys
unfoldable pub apply_legacy_keys : Option Legacy → Settings → Settings
apply_legacy_keys none s = s
apply_legacy_keys (some l) s = record s {
  com_settings = record {
    port = or_kept l.com_port s.com_settings.port;
    baud_rate = or_kept l.baud_rate s.com_settings.baud_rate;
    vid = or_kept l.com_vid s.com_settings.vid;
    pid = or_kept l.com_pid s.com_settings.pid;
  };
  profiles = legacy_profiles l.slider_mapping s.profiles;
}

unfoldable pub report_outcome : OutcomeKind → Store → Store
report_outcome k st = record st { outcomes = k ∷ st.outcomes }

unfoldable pub on_config_reloaded : Store → Store
on_config_reloaded st = record st { reload_consumers = map (λ _. true) st.reload_consumers }

-- A new subscriber has nothing to hear yet.
unfoldable pub subscribe_to_changes : Store → Store
subscribe_to_changes st = record st { reload_consumers = st.reload_consumers ++ false ∷ [] }

module _ (u : Unicode) (y : Yaml) (writable : Bool) where
  abbrev pub written : Option Text → Store → Outcome
  written none st = (some marshal, st)
  written (some d) st = if writable then (none, record st { disk = file d }) else (some write, st)

  unfoldable pub write_settings : Settings → Store → Outcome
  write_settings s st = written (y.encode s) st

  -- The settings that a decoded file puts in force.
  abbrev pub accept : Decoded → Store → Outcome
  accept (decoded s) st = (none, record st { current = some (normalize u s).0 })
  accept (mistyped s) st = (none, record st { current = some (normalize u s).0 })
  accept broken st = (some parse_config, report_outcome invalid st)

  unfoldable pub read_disk : Disk → Store → Outcome
  unfolding report_outcome apply_legacy_keys
  read_disk (file d) st =
      accept (y.decode d (apply_legacy_keys (y.legacy_keys d) default_settings)) st
  read_disk _ st = (some read_config, report_outcome read_error st)

  -- `loadLocked` behind the bootstrap
  unfoldable pub read_settings : Store → Outcome
  unfolding read_disk
  read_settings st = read_disk st.disk st

  abbrev pub and_read : Outcome → Outcome
  and_read (none, st) = read_settings st
  and_read (some e, st) = (some create_default, st)

  -- An absent file is created with the defaults, if no settings are in force yet.
  abbrev pub bootstrap : Option Settings → Store → Outcome
  bootstrap none st = and_read (write_settings (normalize u default_settings).0 st)
  bootstrap (some s) st = (some config_missing, report_outcome missing st)

  unfoldable pub load_disk : Disk → Store → Outcome
  unfolding read_settings write_settings report_outcome
  load_disk absent st = bootstrap st.current st
  load_disk folder st = (some config_missing, report_outcome missing st)
  load_disk _ st = read_settings st

  unfoldable pub load_locked : Store → Outcome
  unfolding load_disk
  load_locked st = load_disk st.disk st

  abbrev pub and_load : Outcome → Outcome
  and_load (none, st) = load_locked st
  and_load (some e, st) = (some e, st)

  unfoldable pub save_and_reload : Settings → Store → Outcome
  unfolding load_locked write_settings
  save_and_reload s st = and_load (write_settings s st)

  -- Consumers hear of what went well.
  abbrev pub and_notify : Outcome → Outcome
  and_notify (none, st) = (none, on_config_reloaded st)
  and_notify (some e, st) = (some e, st)

  abbrev pub switch_to : Option Text → Settings → Store → Outcome
  switch_to none s st = (some unknown_profile, st)
  switch_to (some r) s st =
      if text_eq s.active_profile r
      then (none, st)
      else and_notify (save_and_reload (record s { active_profile = r }) st)

  abbrev pub set_active_in : Option Settings → Text → Store → Option Outcome
  set_active_in none name st = none
  set_active_in (some s) name st = some (switch_to (find_profile_name u s.profiles name) s st)

  -- `SetActiveProfile`; before any settings are in force it is a nil dereference, which panics
  unfoldable pub set_active_profile : Text → Store → Option Outcome
  unfolding save_and_reload on_config_reloaded
  set_active_profile name st = set_active_in st.current name st

  abbrev pub save_normal : Settings × List Problem → Store → Outcome
  save_normal (s, []) st = and_notify (save_and_reload s st)
  save_normal (s, p ∷ ps) st = (some (invalid_settings (p ∷ ps)), st)

  unfoldable pub save_user_settings : Settings → Store → Outcome
  unfolding save_and_reload on_config_reloaded
  save_user_settings s st = save_normal (normalize u s) st

  abbrev pub same_settings : Option Settings → Option Settings → Bool
  same_settings (some s) (some t) = settings_eq s t
  same_settings _ _ = false

  abbrev pub announce : Option Settings → Outcome → Outcome
  announce before (some e, st) = (some e, st)
  announce before (none, st) =
      if same_settings before st.current
      then (none, st)
      else (none, on_config_reloaded (report_outcome reloaded st))

  -- `handleConfigFileChange`; it logs the error that is returned here
  unfoldable pub handle_config_file_change : Store → Outcome
  unfolding load_locked on_config_reloaded report_outcome
  handle_config_file_change st = announce st.current (load_locked st)

-- What happens to a store: calls of it, and what others do with the file or hear of it.
pub data Operation : Type 0 where
  load : Bool → Operation
  set_active : Bool → Text → Operation
  save : Bool → Settings → Operation
  file_changed : Bool → Operation
  edited : Disk → Operation
  heard : List Bool → Operation

-- The Booleans say whether the disk takes a write; `none` is a panic.
unfoldable pub run_operation : Unicode → Yaml → Operation → Store → Option Outcome
unfolding load_locked set_active_profile save_user_settings handle_config_file_change
run_operation u y (load w) st = some (load_locked u y w st)
run_operation u y (set_active w name) st = set_active_profile u y w name st
run_operation u y (save w s) st = some (save_user_settings u y w s st)
run_operation u y (file_changed w) st = some (handle_config_file_change u y w st)
run_operation u y (edited d) st = some (none, record st { disk = d })
run_operation u y (heard signals) st = some (none, record st { reload_consumers = signals })
