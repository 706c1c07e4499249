-- ===== src/Config/Store/Save.antt =====
-- What a save and a switch of the profile do when the disk takes the file and YAML reads back what
-- it wrote.
use deej.Prelude.{
  ◌≡◌, refl, ap, sym, ◌∙◌, subst, Bool, true, List, [], Option, none, some, if◌then◌else◌,
  Bool-cases, inl, inr,
}
use deej.Prelude.Text.{Text, Unicode, text_eq}
use deej.Config.Model.{Settings, default_settings}
use deej.Config.Rules.{Problem, find_profile_name, normalize}
use deej.Config.Normal.Shape.{IsNormal}
use deej.Config.Normal.Whole.{find_profile_name_again, normalize-IsNormal, normalize_of_IsNormal}
use deej.Config.Store.{
  file, decoded, Yaml, Store, Outcome, apply_legacy_keys, on_config_reloaded, write_settings,
  read_disk, read_settings, load_disk, load_locked, save_and_reload, switch_to, set_active_in,
  set_active_profile, save_user_settings, handle_config_file_change,
}
use deej.Config.Store.Equal.{settings_eq_self}

-- The settings are written as the given document, which has none of the old keys and reads back as
-- them.
pub record ReadsBack (y : Yaml) (s : Settings) (d : Text) : Type 0 where
  pub encoded : y.encode s ≡ some d
  pub no_legacy : y.legacy_keys d ≡ none
  pub read_back : y.decode d default_settings ≡ decoded s

-- The store with the settings in the file and in force.
abbrev pub kept : Settings → Text → Store → Store
kept s d st = record st { disk = file d; current = some s }

module _ (u : Unicode) (y : Yaml) (s : Settings) (d : Text) where
  load_kept :
      (st : Store)
      → IsNormal u s
      → ReadsBack y s d
      → st.disk ≡ file d
      → load_locked u y true st ≡ (none, record st { current = some s })
  unfolding load_locked load_disk read_settings read_disk apply_legacy_keys
  load_kept st n r e = rw (e, r.no_legacy, r.read_back, normalize_of_IsNormal u s n)

  save_and_reload-kept :
      (st : Store)
      → IsNormal u s
      → ReadsBack y s d
      → save_and_reload u y true s st ≡ (none, kept s d st)
  unfolding save_and_reload write_settings
  save_and_reload-kept st n r = rw r.encoded (load_kept (record st { disk = file d }) n r refl)

-- If normalising the settings finds no problem, YAML reads back the document that it makes of
-- them, and the disk takes it, then a save puts them, normalised, in the file and in force, and
-- signals to every consumer.
pub save_user_settings_kept :
    (u : Unicode) (y : Yaml) (s t : Settings) (d : Text) (st : Store)
    → normalize u s ≡ (t, [])
    → ReadsBack y t d
    → save_user_settings u y true s st ≡ (none, on_config_reloaded (kept t d st))
unfolding save_user_settings
save_user_settings_kept u y s t d st e r =
    let normal =
      subst (λ (x : Settings × List Problem). IsNormal u x.0) e (normalize-IsNormal u s) in
    rw (e, save_and_reload-kept u y t d st normal r)

-- The file event behind a save of settings without a problem, which the disk took and YAML reads
-- back, changes nothing, reports nothing and signals to nobody, whatever signals wait by then.
pub file_change_after_save :
    (u : Unicode) (y : Yaml) (s t : Settings) (d : Text) (st st' : Store) (signals : List Bool)
    → normalize u s ≡ (t, [])
    → ReadsBack y t d
    → save_user_settings u y true s st ≡ (none, st')
    → handle_config_file_change u y true (record st' { reload_consumers = signals })
      ≡ (none, record st' { reload_consumers = signals })
unfolding handle_config_file_change on_config_reloaded
file_change_after_save u y s t d st st' signals e r saved =
    let normal =
      subst (λ (x : Settings × List Problem). IsNormal u x.0) e (normalize-IsNormal u s) in
    let same : on_config_reloaded (kept t d st) ≡ st' =
      ap (λ (x : Outcome). x.1) (sym (save_user_settings_kept u y s t d st e r) ∙ saved) in
    subst
      (λ (x : Store).
        handle_config_file_change u y true (record x { reload_consumers = signals })
        ≡ (none, record x { reload_consumers = signals }))
      same
      (rw (
        load_kept u y t d (record (kept t d st) { reload_consumers = signals }) normal r refl,
        settings_eq_self t,
      ))

with_active-IsNormal :
    (u : Unicode) (s : Settings) (name r : Text)
    → IsNormal u s
    → find_profile_name u s.profiles name ≡ some r
    → IsNormal u (record s { active_profile = r })
with_active-IsNormal u s name r n e = record {
  com_normal = n.com_normal;
  noise_valid = n.noise_valid;
  language_valid = n.language_valid;
  obs_normal = n.obs_normal;
  discord_normal = n.discord_normal;
  profiles_normal = n.profiles_normal;
  some_profile = n.some_profile;
  active_resolved = find_profile_name_again u s.profiles name r e;
}

switch_to-kept :
    (u : Unicode) (y : Yaml) (s : Settings) (r d : Text) (st : Store)
    → IsNormal u (record s { active_profile = r })
    → ReadsBack y (record s { active_profile = r }) d
    → switch_to u y true (some r) s st ≡ (
      none,
      if text_eq s.active_profile r
          then st
          else on_config_reloaded (kept (record s { active_profile = r }) d st),
    )
switch_to-kept u y s r d st n b = elim (Bool-cases (text_eq s.active_profile r)) [
  | inl g ↦ rw g
  | inr g ↦ rw (g, save_and_reload-kept u y (record s { active_profile = r }) d st n b)
]

-- From normal settings in force, where the disk takes the file and YAML reads it back, a switch to
-- a profile, by a name that resolves to it, puts the profile as it is spelled in the settings in
-- the file and in force and signals to every consumer; if that spelling is in force already,
-- nothing happens at all.
set_active_profile_kept :
    (u : Unicode) (y : Yaml) (s : Settings) (name r d : Text) (st : Store)
    → st.current ≡ some s
    → IsNormal u s
    → find_profile_name u s.profiles name ≡ some r
    → ReadsBack y (record s { active_profile = r }) d
    → set_active_profile u y true name st
      ≡ some (
        none,
        if text_eq s.active_profile r
            then st
            else on_config_reloaded (kept (record s { active_profile = r }) d st),
      )
unfolding set_active_profile
set_active_profile_kept u y s name r d st e n f b =
    ap (λ (c : Option Settings). set_active_in u y true c name st) e
    ∙ ap some (
        ap (λ (o : Option Text). switch_to u y true o s st) f
        ∙ switch_to-kept u y s r d st (with_active-IsNormal u s name r n f) b)
