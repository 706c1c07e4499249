-- ===== src/Config/Tests.antt =====
-- Runs of the configuration's code.
use deej.Prelude.{
  ℕ, Option, ◌+◌, All, ◌⊎◌, ◌≡◌, refl, true, false, List, [], ◌∷◌, none, some, if◌then◌else◌,
}
use deej.Prelude.Int.{pos, negsuc}
use deej.Prelude.Text.{
  Text, ascii, codes, text_eq, equal_fold, trim_space, trim_left, trim_right, is_space, cut_prefix,
}
use deej.Config.Model.{SliderMappings, Profile, Settings, default_settings}
use deej.Prelude.Strconv.{hex_digit, hex_value, parse_uint16_hex}
use deej.Config.Hex.{value, canonical, value-format_hex}
use deej.Config.HexNode.{Decoder, HexNode, marshal_hex, unmarshal_hex, unmarshal_hex-marshal_hex}
use deej.Config.AtomicFile.{Directory, Fault, write, newest, write-target}
use deej.Config.Watch.{
  Entry, Watcher, WatchInput, watch_debounce_delay, begin_watch, watch_file, watch_step,
  watch_round, is_due, is_relevant, IsDebounced, settled,
}
use deej.Config.Watch.Debounced.{and_tick, watch_file-settled}
use deej.Config.Entries.{
  collect, contains_slider, drop_empty, sort_entries, insert_entry, get, normalized,
}
use deej.Config.Mapping.Canonical.{normalized-IsCanonical}
use deej.Config.Yaml.{IsInt, unmarshal, marshal, unmarshal-marshal}
use deej.Config.Mapping.Lookup.{usable, get-normalized}
use deej.Config.Rules.{normalize}
use deej.Config.Normal.Shape.{IsNormal}
use deej.Config.Normal.Whole.{normalize-IsNormal, normalize_of_IsNormal, normalize_idem}
use deej.Config.Store.{
  absent, file, decoded, Yaml, config_missing, Store, on_config_reloaded, save_user_settings,
  handle_config_file_change, load, run_operation, load_locked, load_disk, read_settings, read_disk,
  report_outcome, missing,
}
use deej.Config.Store.Normal.{IsInForce, run_operation-IsInForce, run_operation_failed}
use deej.Config.Store.Save.{ReadsBack, kept, save_user_settings_kept, file_change_after_save}

abbrev profiles : List Profile
profiles =
    record { name = codes "Home"; hotkey = []; slider_mapping = [] }
    ∷ record { name = codes "Work"; hotkey = []; slider_mapping = [] }
    ∷ []

-- Settings with much to correct.
abbrev crooked : Settings
crooked = record default_settings {
  profiles = profiles;
  active_profile = codes " WORK ";
  noise_reduction = codes "loud";
}

-- The same, corrected.
abbrev straight : Settings
straight = (normalize ascii crooked).0

abbrev entries : SliderMappings
entries =
    record { slider = pos 3; targets = [] ∷ codes "a" ∷ [] }
    ∷ record { slider = negsuc 0; targets = codes "b" ∷ [] }
    ∷ record { slider = pos 3; targets = codes "c" ∷ [] }
    ∷ []

get-normalized_example : get (normalized entries).0 (pos 3) ≡ usable (get entries (pos 3))
get-normalized_example = get-normalized entries (pos 3) refl

entries_of_yaml : All IsInt (normalized entries).0
unfolding normalized collect contains_slider drop_empty sort_entries insert_entry text_eq
entries_of_yaml = (refl, tt)

unmarshal-marshal_example : unmarshal (marshal (normalized entries).0) ≡ (normalized entries).0
unmarshal-marshal_example =
    unmarshal-marshal (normalized entries).0 (normalized-IsCanonical entries) entries_of_yaml

normalize-IsNormal_example : IsNormal ascii (normalize ascii crooked).0
normalize-IsNormal_example = normalize-IsNormal ascii crooked

normalize_idem_example :
    normalize ascii (normalize ascii crooked).0 ≡ ((normalize ascii crooked).0, [])
normalize_idem_example = normalize_idem ascii crooked

abbrev document : Text
document = codes "work"

-- YAML that knows one document, of the settings corrected above or with the other profile.
abbrev yaml_of : Settings → Yaml
yaml_of t = record {
  encode = λ s. some document;
  decode = λ d s. decoded t;
  legacy_keys = λ d. none;
}

yaml_ReadsBack : (t : Settings) → ReadsBack (yaml_of t) t document
yaml_ReadsBack t = record { encoded = refl; no_legacy = refl; read_back = refl }

-- A running store whose file was taken away, with two consumers.
abbrev running : Store
running = record {
  disk = absent;
  current = some straight;
  outcomes = [];
  reload_consumers = false ∷ true ∷ [];
}

missed : Store
missed = record running { outcomes = missing ∷ [] }

straight_IsInForce : IsInForce ascii running.current
straight_IsInForce = normalize-IsNormal ascii crooked

abbrev found : Store
found = record running { disk = file document }

loaded : run_operation ascii (yaml_of crooked) (load true) found ≡ some (none, found)
unfolding run_operation load_locked load_disk read_settings read_disk
loaded = refl

run_operation-IsInForce_example : IsInForce ascii found.current
run_operation-IsInForce_example =
    run_operation-IsInForce ascii (yaml_of crooked) (load true) found found straight_IsInForce
      loaded

not_loaded :
    run_operation ascii (yaml_of crooked) (load true) running ≡ some (some config_missing, missed)
unfolding run_operation load_locked load_disk report_outcome missed
not_loaded = refl

run_operation_failed_example :
    (missed.current ≡ running.current) × (missed.reload_consumers ≡ running.reload_consumers)
run_operation_failed_example =
    run_operation_failed ascii (yaml_of crooked) (load true) running missed config_missing
      straight_IsInForce not_loaded

save_user_settings_kept_example :
    save_user_settings ascii (yaml_of straight) true straight running
    ≡ (none, on_config_reloaded (kept straight document running))
save_user_settings_kept_example =
    save_user_settings_kept ascii (yaml_of straight) straight straight document running
      (normalize_of_IsNormal ascii straight (normalize-IsNormal ascii crooked))
      (yaml_ReadsBack straight)

abbrev saved : Store
saved = on_config_reloaded (kept straight document running)

abbrev heard_all : Store
heard_all = record saved { reload_consumers = false ∷ false ∷ [] }

file_change_after_save_example :
    handle_config_file_change ascii (yaml_of straight) true heard_all ≡ (none, heard_all)
file_change_after_save_example =
    file_change_after_save ascii (yaml_of straight) straight straight document running saved
      (false ∷ false ∷ []) (normalize_of_IsNormal ascii straight (normalize-IsNormal ascii crooked))
      (yaml_ReadsBack straight) save_user_settings_kept_example

abbrev old_file : Directory
old_file = record { target = some (codes "old"); temp = none }

write-target_example :
    let w = write (codes "new") (Fault.write_fails 2) true old_file in
    All (λ (e : Directory). (e.target ≡ old_file.target) ⊎ (e.target ≡ some (codes "new"))) w.0
    × ((newest old_file w.0).target ≡ (if w.1 then old_file.target else some (codes "new")))
    × ((newest old_file w.0).temp ≡ none)
write-target_example = write-target (codes "new") (Fault.write_fails 2) old_file refl

abbrev config_path : Text
config_path = codes "config.yaml"

abbrev written : WatchInput
written =
    WatchInput.file_event config_path
      (record { create = false; write = true; remove = false; rename = false; chmod = false })

abbrev two_bursts : List WatchInput
two_bursts =
    written
    ∷ WatchInput.passes 100
    ∷ WatchInput.tick
    ∷ written
    ∷ WatchInput.passes 300
    ∷ WatchInput.tick
    ∷ WatchInput.tick
    ∷ WatchInput.watch_error
    ∷ written
    ∷ []

abbrev watch_bursts : Watcher
watch_bursts = watch_file ascii (λ p. p) config_path two_bursts (begin_watch 0)

two_bursts_logged :
    watch_bursts.log
    ≡ Entry.changed 400 ∷ Entry.reloaded 400 ∷ Entry.changed 100 ∷ Entry.changed 0 ∷ []
unfolding watch_file watch_step watch_round is_due is_relevant equal_fold text_eq
two_bursts_logged = refl

watch_file-settled_example :
    IsDebounced watch_bursts.log
    × ((watch_file ascii (λ p. p) config_path and_tick watch_bursts).log ≡ (
        if watch_bursts.running
        then settled (watch_bursts.now + watch_debounce_delay) watch_bursts.log
        else watch_bursts.log))
watch_file-settled_example = watch_file-settled ascii (λ p. p) config_path two_bursts 0

abbrev decoder : Decoder
decoder = record {
  decode_number =
      λ node. elim node [ HexNode.plain t ↦ none | HexNode.tagged tag t ↦ digits_behind t ];
  decode_string = λ node. elim node [ HexNode.plain t ↦ some t | HexNode.tagged tag t ↦ some t ];
}
  where
    digits_behind : Text → Option ℕ
    digits_behind (zero_digit ∷ x ∷ s) = value ascii s
    digits_behind s = none

abbrev spelled : Text
spelled = codes " 0x1a86 "

spelling_is_read : value ascii spelled ≡ some 0x1A86
unfolding value trim_space trim_left trim_right is_space cut_prefix parse_uint16_hex hex_value
    hex_digit
spelling_is_read = refl

unmarshal_hex-marshal_hex_example :
    (unmarshal_hex decoder (marshal_hex ascii spelled)
      ≡ some (canonical ascii spelled (codes "7523")).0)
    × ((canonical ascii spelled (codes "7523")).1 ≡ true)
unmarshal_hex-marshal_hex_example =
    unmarshal_hex-marshal_hex ascii decoder spelled (codes "7523") 0x1A86 (value-format_hex ascii)
      spelling_is_read
