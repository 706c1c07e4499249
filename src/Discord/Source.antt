-- ===== src/Discord/Source.antt =====
-- internal/app/app.go: the slider values that Discord volumes are restored from, in hundredths.
use deej.Prelude.{ℕ, ◌≡◌, refl, List, [], ◌∷◌, ◌++◌, Option, none, some, All, get_elem?}
use deej.Prelude.Int.{ℤ, pos, negsuc}
use deej.Prelude.Text.{Text, Unicode}
use deej.Config.Model.{SliderMappings, Settings}
use deej.Config.Entries.{active_mapping}
use deej.Mixer.Targets.{discord_target_key}
use deej.Discord.Volume.{local_target_key}
use deej.Discord.Keys.{local_target_key-discord_target_key}

abbrev pub TargetVolume : Type 0
TargetVolume = Text × ℕ

abbrev pub with_key : Option Text → ℕ → List TargetVolume → List TargetVolume
with_key none percent rest = rest
with_key (some key) percent rest = (key, percent) ∷ rest

unfoldable pub target_values : Unicode → ℕ → List Text → List TargetVolume
unfolding discord_target_key
target_values u percent [] = []
target_values u percent (t ∷ ts) =
    with_key (discord_target_key u t) percent (target_values u percent ts)

-- The value of a slider, if there is one: a negative index and one behind the end have none.
abbrev pub slider_value : List ℕ → ℤ → Option ℕ
slider_value values (pos n) = get_elem? values n
slider_value values (negsuc n) = none

abbrev pub values_of : Unicode → Option ℕ → List Text → List TargetVolume
values_of u none targets = []
values_of u (some percent) targets = target_values u percent targets

unfoldable pub mapping_values : Unicode → List ℕ → SliderMappings → List TargetVolume
unfolding target_values
mapping_values u values [] = []
mapping_values u values (e ∷ es) =
    values_of u (slider_value values e.slider) e.targets ++ mapping_values u values es

unfoldable pub discord_volume_source : Unicode → Settings → List ℕ → List TargetVolume
unfolding mapping_values active_mapping
discord_volume_source u s values = mapping_values u values (active_mapping s)

-- The client takes the key of the value as it is.
abbrev pub IsTaken : Unicode → TargetVolume → Type 0
IsTaken u v = local_target_key u v.0 ≡ some v.0

All-append :
    (u : Unicode) (xs ys : List TargetVolume)
    → All (IsTaken u) xs
    → All (IsTaken u) ys
    → All (IsTaken u) (xs ++ ys)
All-append u [] ys h k = k
All-append u (x ∷ xs) ys h k = (h.0, All-append u xs ys h.1 k)

with_key-IsTaken :
    (u : Unicode) (t : Text) (o : Option Text) (percent : ℕ) (rest : List TargetVolume)
    → discord_target_key u t ≡ o
    → All (IsTaken u) rest
    → All (IsTaken u) (with_key o percent rest)
with_key-IsTaken u t none percent rest e h = h
with_key-IsTaken u t (some k) percent rest e h = (local_target_key-discord_target_key u t k e, h)

target_values-IsTaken :
    (u : Unicode) (percent : ℕ) (ts : List Text) → All (IsTaken u) (target_values u percent ts)
unfolding target_values
target_values-IsTaken u percent [] = tt
target_values-IsTaken u percent (t ∷ ts) =
    with_key-IsTaken u t (discord_target_key u t) percent (target_values u percent ts) refl
      (target_values-IsTaken u percent ts)

values_of-IsTaken :
    (u : Unicode) (o : Option ℕ) (ts : List Text) → All (IsTaken u) (values_of u o ts)
values_of-IsTaken u none ts = tt
values_of-IsTaken u (some percent) ts = target_values-IsTaken u percent ts

mapping_values-IsTaken :
    (u : Unicode) (values : List ℕ) (m : SliderMappings)
    → All (IsTaken u) (mapping_values u values m)
unfolding mapping_values
mapping_values-IsTaken u values [] = tt
mapping_values-IsTaken u values (e ∷ es) =
    All-append u _ _ (values_of-IsTaken u (slider_value values e.slider) e.targets)
      (mapping_values-IsTaken u values es)

-- Every value that Discord volumes are restored from has a key that the client takes as it is.
discord_volume_source-IsTaken :
    (u : Unicode) (s : Settings) (values : List ℕ)
    → All (IsTaken u) (discord_volume_source u s values)
unfolding discord_volume_source
discord_volume_source-IsTaken u s values = mapping_values-IsTaken u values (active_mapping s)
