-- ===== src/Config/Store/Normal.antt =====
-- The settings in force: always normal, and as before where an operation fails.
use deej.Prelude.{
  ◌≡◌, refl, sym, subst, Bool, List, [], ◌∷◌, Option, none, some, arith, Bool-cases, inl, inr,
}
use deej.Prelude.Text.{Text, Unicode, text_eq}
use deej.Config.Model.{Settings}
use deej.Config.Rules.{Problem, find_profile_name, normalize}
use deej.Config.Normal.Shape.{IsNormal}
use deej.Config.Normal.Whole.{normalize-IsNormal}
use deej.Config.Store.{
  Disk, absent, folder, unreadable, file, Decoded, decoded, mistyped, broken, Yaml, Failure, Store,
  Outcome, report_outcome, on_config_reloaded, written, write_settings, accept, read_disk,
  read_settings, load_disk, and_read, bootstrap, load_locked, and_load, save_and_reload, and_notify,
  switch_to, set_active_in, set_active_profile, save_normal, save_user_settings, same_settings,
  announce, handle_config_file_change, Operation, load, set_active, save, file_changed, edited,
  heard, run_operation,
}

-- The settings in force are normal, if any are.
abbrev pub IsInForce : Unicode → Option Settings → Type 0
IsInForce u none = Unit {0}
IsInForce u (some s) = IsNormal u s

-- What an operation may make of a store: the settings in force are normal, and if it fails, what
-- the rest of the program sees is as given.
abbrev Sound : Unicode → Option Settings → List Bool → Outcome → Type 0
Sound u c rs (none, st) = IsInForce u st.current
Sound u c rs (some e, st) = (st.current ≡ c) × (st.reload_consumers ≡ rs)

module _ (u : Unicode) (y : Yaml) (w : Bool) (c : Option Settings) (rs : List Bool) where
  -- The store still shows what was given.
  abbrev Shows : Store → Type 0
  Shows st = (st.current ≡ c) × (st.reload_consumers ≡ rs)

  accept-Sound : (d : Decoded) (st : Store) → Shows st → Sound u c rs (accept u y w d st)
  unfolding report_outcome
  accept-Sound (decoded s) st h = normalize-IsNormal u s
  accept-Sound (mistyped s) st h = normalize-IsNormal u s
  accept-Sound broken st h = h

  read_disk-Sound : (d : Disk) (st : Store) → Shows st → Sound u c rs (read_disk u y w d st)
  unfolding read_disk report_outcome
  read_disk-Sound (file d) st h = accept-Sound _ st h
  read_disk-Sound absent st h = h
  read_disk-Sound folder st h = h
  read_disk-Sound unreadable st h = h

  read_settings-Sound : (st : Store) → Shows st → Sound u c rs (read_settings u y w st)
  unfolding read_settings
  read_settings-Sound st h = read_disk-Sound st.disk st h

  -- A write changes the file alone.
  written-Shows : (o : Option Text) (st : Store) → Shows st → Shows (written u y w o st).1
  written-Shows none st h = h
  written-Shows (some d) st h = ground arith

  write_settings-Shows :
      (s : Settings) (st : Store) → Shows st → Shows (write_settings u y w s st).1
  unfolding write_settings
  write_settings-Shows s st h = written-Shows (y.encode s) st h

  and_read-Sound : (o : Outcome) → Shows o.1 → Sound u c rs (and_read u y w o)
  and_read-Sound (none, st) h = read_settings-Sound st h
  and_read-Sound (some e, st) h = h

  bootstrap-Sound :
      (o : Option Settings) (st : Store) → Shows st → Sound u c rs (bootstrap u y w o st)
  unfolding report_outcome
  bootstrap-Sound none st h = and_read-Sound _ (write_settings-Shows _ st h)
  bootstrap-Sound (some s) st h = h

  load_disk-Sound : (d : Disk) (st : Store) → Shows st → Sound u c rs (load_disk u y w d st)
  unfolding load_disk report_outcome
  load_disk-Sound absent st h = bootstrap-Sound st.current st h
  load_disk-Sound folder st h = h
  load_disk-Sound unreadable st h = read_settings-Sound st h
  load_disk-Sound (file d) st h = read_settings-Sound st h

  load_locked-Sound : (st : Store) → Shows st → Sound u c rs (load_locked u y w st)
  unfolding load_locked
  load_locked-Sound st h = load_disk-Sound st.disk st h

  and_load-Sound : (o : Outcome) → Shows o.1 → Sound u c rs (and_load u y w o)
  and_load-Sound (none, st) h = load_locked-Sound st h
  and_load-Sound (some e, st) h = h

  and_notify-Sound : (o : Outcome) → Sound u c rs o → Sound u c rs (and_notify u y w o)
  unfolding on_config_reloaded
  and_notify-Sound (none, st) h = h
  and_notify-Sound (some e, st) h = h

  save_and_reload-Sound :
      (s : Settings) (st : Store) → Shows st → Sound u c rs (save_and_reload u y w s st)
  unfolding save_and_reload
  save_and_reload-Sound s st h = and_load-Sound _ (write_settings-Shows s st h)

  saved-Sound :
      (s : Settings) (st : Store)
      → Shows st
      → Sound u c rs (and_notify u y w (save_and_reload u y w s st))
  saved-Sound s st h = and_notify-Sound _ (save_and_reload-Sound s st h)

  save_normal-Sound :
      (r : Settings × List Problem) (st : Store) → Shows st → Sound u c rs (save_normal u y w r st)
  save_normal-Sound (s, []) st h = saved-Sound s st h
  save_normal-Sound (s, p ∷ ps) st h = h

  save_user_settings-Sound :
      (s : Settings) (st : Store) → Shows st → Sound u c rs (save_user_settings u y w s st)
  unfolding save_user_settings
  save_user_settings-Sound s st h = save_normal-Sound (normalize u s) st h

  switch_to-Sound :
      (o : Option Text) (s : Settings) (st : Store)
      → Shows st
      → IsInForce u c
      → Sound u c rs (switch_to u y w o s st)
  switch_to-Sound none s st h k = h
  switch_to-Sound (some r) s st h k = elim (Bool-cases (text_eq s.active_profile r)) [
    | inl e ↦ rw e (subst (IsInForce u) (sym h.0) k)
    | inr e ↦ rw e (saved-Sound (record s { active_profile = r }) st h)
  ]

  announce-Sound :
      (b : Option Settings) (o : Outcome) → Sound u c rs o → Sound u c rs (announce u y w b o)
  unfolding on_config_reloaded report_outcome
  announce-Sound b (some e, st) h = h
  announce-Sound b (none, st) h = elim (Bool-cases (same_settings u y w b st.current)) [
    | inl e ↦ rw e h
    | inr e ↦ rw e h
  ]

abbrev SoundResult : Unicode → Option Settings → List Bool → Option Outcome → Type 0
SoundResult u c rs none = Unit {0}
SoundResult u c rs (some o) = Sound u c rs o

set_active_in-Sound :
    (u : Unicode) (y : Yaml) (w : Bool) (c : Option Settings) (name : Text) (st : Store)
    → IsInForce u st.current
    → SoundResult u st.current st.reload_consumers (set_active_in u y w c name st)
set_active_in-Sound u y w none name st k = tt
set_active_in-Sound u y w (some s) name st k =
    switch_to-Sound u y w st.current st.reload_consumers (find_profile_name u s.profiles name) s st
      (refl, refl) k

run_operation-Sound :
    (u : Unicode) (y : Yaml) (op : Operation) (st : Store)
    → IsInForce u st.current
    → SoundResult u st.current st.reload_consumers (run_operation u y op st)
unfolding run_operation set_active_profile handle_config_file_change
run_operation-Sound u y (load w) st k = load_locked-Sound u y w _ _ st (refl, refl)
run_operation-Sound u y (set_active w name) st k = set_active_in-Sound u y w st.current name st k
run_operation-Sound u y (save w s) st k = save_user_settings-Sound u y w _ _ s st (refl, refl)
run_operation-Sound u y (file_changed w) st k =
    announce-Sound u y w _ _ st.current _ (load_locked-Sound u y w _ _ st (refl, refl))
run_operation-Sound u y (edited d) st k = k
run_operation-Sound u y (heard signals) st k = k

-- Every operation that succeeds leaves normal settings in force, or none, if the settings in force
-- before it were so.
pub run_operation-IsInForce :
    (u : Unicode) (y : Yaml) (op : Operation) (st st' : Store)
    → IsInForce u st.current
    → run_operation u y op st ≡ some (none, st')
    → IsInForce u st'.current
run_operation-IsInForce u y op st st' k e =
    subst (SoundResult u _ _) e (run_operation-Sound u y op st k)

-- An operation that fails leaves the settings in force as they were and signals to nobody.
pub run_operation_failed :
    (u : Unicode) (y : Yaml) (op : Operation) (st st' : Store) (f : Failure)
    → IsInForce u st.current
    → run_operation u y op st ≡ some (some f, st')
    → (st'.current ≡ st.current) × (st'.reload_consumers ≡ st.reload_consumers)
run_operation_failed u y op st st' f k e =
    subst (SoundResult u _ _) e (run_operation-Sound u y op st k)
