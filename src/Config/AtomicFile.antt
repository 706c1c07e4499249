-- ===== src/Config/AtomicFile.antt =====
-- internal/atomicfile/write.go: a file is written beside the target and renamed over it. Each call of the
-- operating system is one step, and the program may end behind any of them.
use deej.Prelude.{
  ℕ, ◌≡◌, refl, ◌⊎◌, inl, inr, Bool, true, false, List, [], ◌∷◌, Option, none, some, take,
  if◌then◌else◌, All,
}
use deej.Prelude.Text.{Text}

-- The target and the temporary file, with what each holds.
pub record Directory : Type 0 where
  pub target : Option Text
  pub temp : Option Text

-- The first call that fails; a write may have put some of the data down before.
pub data Fault : Type 0 where
  no_fault create_fails : Fault
  write_fails : ℕ → Fault
  close_fails rename_fails : Fault

-- os.Remove of the temporary file, the failure of which is ignored.
unfoldable pub remove_temp : Bool → Directory → Directory
remove_temp removes d = if removes then record d { temp = none } else d

-- `Write`: the directory behind each call, newest first, and whether there is an error.
unfoldable pub write : Text → Fault → Bool → Directory → List Directory × Bool
unfolding remove_temp
write bytes Fault.create_fails removes d = (d ∷ [], true)
write bytes (Fault.write_fails n) removes d =
    let created = record d { temp = some [] } in
    let written = record d { temp = some (take n bytes) } in
    (remove_temp removes written ∷ written ∷ created ∷ d ∷ [], true)
write bytes Fault.close_fails removes d =
    let created = record d { temp = some [] } in
    let written = record d { temp = some bytes } in
    (remove_temp removes written ∷ written ∷ created ∷ d ∷ [], true)
write bytes Fault.rename_fails removes d =
    let created = record d { temp = some [] } in
    let written = record d { temp = some bytes } in
    (remove_temp removes written ∷ written ∷ written ∷ created ∷ d ∷ [], true)
write bytes Fault.no_fault removes d =
    let created = record d { temp = some [] } in
    let written = record d { temp = some bytes } in
    (record { target = some bytes; temp = none } ∷ written ∷ written ∷ created ∷ d ∷ [], false)

abbrev pub newest : Directory → List Directory → Directory
newest d [] = d
newest d (e ∷ es) = e

-- Wherever a write ends, by a fault or with the program, the target holds what it held before, or all of the
-- new data; when it returns, it holds the new data if there is no error and what it held before if there
-- is one, and then no temporary file is left behind if there was none before and it could be removed.
pub write-target :
    (bytes : Text) (fault : Fault) (d : Directory)
    → d.temp ≡ none
    → let w = write bytes fault true d in
      All (λ (e : Directory). (e.target ≡ d.target) ⊎ (e.target ≡ some bytes)) w.0
      × ((newest d w.0).target ≡ (if w.1 then d.target else some bytes))
      × ((newest d w.0).temp ≡ none)
unfolding write remove_temp
write-target bytes Fault.create_fails d h = ((inl refl, tt), refl, h)
write-target bytes (Fault.write_fails n) d h =
    ((inl refl, (inl refl, (inl refl, (inl refl, tt)))), refl, refl)
write-target bytes Fault.close_fails d h =
    ((inl refl, (inl refl, (inl refl, (inl refl, tt)))), refl, refl)
write-target bytes Fault.rename_fails d h =
    ((inl refl, (inl refl, (inl refl, (inl refl, (inl refl, tt))))), refl, refl)
write-target bytes Fault.no_fault d h =
    ((inr refl, (inl refl, (inl refl, (inl refl, (inl refl, tt))))), refl, refl)
