-- ===== src/Clients/Obs.antt =====
-- internal/integrations/obs/client.go: the volume of an input, and the list of inputs. The answers of OBS
-- are parameters. A slider position is in hundredths, a volume multiplier in millionths.
use deej.Prelude.{
  ℕ, ◌*◌, Bool, List, [], ◌∷◌, Option, none, some, ltb, if◌then◌else◌, ◌⊎◌, inl, inr,
}
use deej.Prelude.Text.{Text}
use deej.Config.Model.{ObsSettings}
use deej.Discord.Roster.{text_less}
use deej.Clients.Renewal.{Client}

abbrev clamped : ℕ → ℕ
clamped percent = if ltb percent 100 then percent else 100

-- `obsVolumeMulFromPercent`. A position is not negative, and so is its model.
unfoldable pub obs_volume_mul_from_percent : ℕ → Bool → ℕ
obs_volume_mul_from_percent percent convert =
    let position = clamped percent in
    if convert then position * position * position else position * 10000

pub data ObsError : Type 0 where
  not_connected refused : ObsError

-- What SetInputVolume asks of OBS.
pub record InputVolume : Type 0 where
  pub input : Text
  pub mul : ℕ

-- `SetInputVolume`: the request, if there is one, and the error. `accepts` says whether OBS takes it.
unfoldable pub set_input_volume :
    Client ObsSettings → Bool → Text → ℕ → Option InputVolume × Option ObsError
unfolding obs_volume_mul_from_percent
set_input_volume c accepts input percent = elim c.reconnector.current [
  | none ↦ (none, some not_connected)
  | some conn ↦ (
    some (record {
      input = input;
      mul = obs_volume_mul_from_percent percent c.settings.volume_conversion;
    }),
    if accepts then none else some refused,
  )
]

-- What `ListInputs` gives of the names that OBS lists.
unfoldable insert_name : Text → List Text → List Text
unfolding text_less
insert_name a [] = a ∷ []
insert_name a (b ∷ bs) =
    let rest = b ∷ insert_name a bs in if text_less b a then rest else a ∷ b ∷ bs

-- `sort.Strings`
unfoldable pub sort_names : List Text → List Text
unfolding insert_name
sort_names [] = []
sort_names (a ∷ xs) = insert_name a (sort_names xs)

unfoldable pub list_inputs : Client ObsSettings → Option (List Text) → List Text ⊎ ObsError
unfolding sort_names
list_inputs c reply = elim c.reconnector.current [
  | none ↦ inr not_connected
  | some conn ↦ elim reply [ none ↦ inr refused | some names ↦ inl (sort_names names) ]
]
