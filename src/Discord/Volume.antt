-- ===== src/Discord/Volume.antt =====
-- internal/integrations/discord/volume.go: the newest value of each target is sent at the next
-- flush, unless Discord has it. The maps are functions here, and a flush is cut where its requests
-- block. Percents are in hundredths; a volume of a member is in ten-thousandths of Discord's unit,
-- without rounding.
use deej.Prelude.{
  ℕ, ◌+◌, ◌*◌, ◌==◌, ltb, Bool, false, List, [], ◌∷◌, ◌++◌, Option, none, some, if◌then◌else◌,
}
use deej.Prelude.Text.{Text, Unicode, codes, text_eq, to_lower, cut_prefix, trim_prefix, trim_space}
use deej.Discord.Roster.{DiscordRoster, resolve_user}

abbrev pub input_target : Text
input_target = codes "input"

abbrev pub output_target : Text
output_target = codes "output"

abbrev pub user_target_prefix : Text
user_target_prefix = codes "user:"

unfoldable pub local_key : Text → Option Text
unfolding text_eq cut_prefix trim_space
local_key lower =
    if text_eq lower input_target
    then some lower
    else if text_eq lower output_target
    then some lower
    else elim (cut_prefix user_target_prefix lower) [
      | none ↦ none
      | some name ↦ some (user_target_prefix ++ trim_space name)
    ]

unfoldable pub local_target_key : Unicode → Text → Option Text
unfolding local_key
local_target_key u target = local_key (to_lower u target)

abbrev pub VolumeMap : Type 0
VolumeMap = Text → Option ℕ

abbrev pub put : Text → ℕ → VolumeMap → VolumeMap
put k v m = λ j. if text_eq j k then some v else m j

abbrev pub empty_map : VolumeMap
empty_map = λ _. none

-- The connection is that of the reconnector.
pub record VolumeState : Type 0 where
  pub connection : Option ℕ
  pub pending : VolumeMap
  pub last_sent : VolumeMap
  pub volume_generation : ℕ

-- `setVolume`: a value that arrives while there is no connection is dropped.
unfoldable pub set_volume : Text → ℕ → VolumeState → VolumeState
unfolding text_eq
set_volume key percent st = elim st.connection [
  | none ↦ st
  | some c ↦ record st { pending = put key percent st.pending }
]

abbrev pub set_key : Option Text → ℕ → VolumeState → VolumeState
set_key none percent st = st
set_key (some key) percent st = set_volume key percent st

-- `SetVolume`
unfoldable pub set_target_volume : Unicode → Text → ℕ → VolumeState → VolumeState
unfolding local_target_key set_volume
set_target_volume u target percent st = set_key (local_target_key u target) percent st

abbrev pub put_key : Option Text → ℕ → VolumeMap → VolumeMap
put_key none percent m = m
put_key (some key) percent m = put key percent m

unfoldable pub put_all : Unicode → List (Text × ℕ) → VolumeMap → VolumeMap
unfolding local_target_key text_eq
put_all u [] m = m
put_all u ((target, percent) ∷ values) m =
    put_all u values (put_key (local_target_key u target) percent m)

-- The values are those that `currentVolumes` gives.
unfoldable pub replay_mapped_slider_values : Unicode → List (Text × ℕ) → VolumeState → VolumeState
unfolding put_all
replay_mapped_slider_values u values st = record st { pending = put_all u values st.pending }

-- Discord has the value already.
abbrev pub has_value : Option ℕ → ℕ → Bool
has_value none percent = false
has_value (some last) percent = last == percent

abbrev pub unless_sent : Option ℕ → Option ℕ → Option ℕ
unless_sent last none = none
unless_sent last (some percent) = if has_value last percent then none else some percent

-- `takePendingLocked`: what there is to send, and the state behind.
unfoldable pub take_pending : VolumeState → VolumeMap × VolumeState
take_pending st =
    ((λ k. unless_sent (st.last_sent k) (st.pending k)), record st { pending = empty_map })

pub data Request : Type 0 where
  set_input : ℕ → Request
  set_output : ℕ → Request
  set_user : Text → ℕ → Request

abbrev clamped : ℕ → ℕ
clamped percent = if ltb 100 percent then 100 else percent

unfoldable pub discord_volume : ℕ → ℕ
discord_volume percent = clamped percent

unfoldable pub discord_user_volume : ℕ → Bool → ℕ
discord_user_volume percent convert =
    let p = clamped percent in if convert then p * p * p else p * 10000

abbrev pub user_request : ℕ → Option Text → Option Request
user_request volume none = none
user_request volume (some id) = some (set_user id volume)

-- The request that `send` makes; there is none for a name that nobody in the channel has.
unfoldable pub send : Unicode → Option DiscordRoster → Bool → Text → ℕ → Option Request
unfolding text_eq cut_prefix resolve_user discord_volume discord_user_volume
send u roster convert key percent =
    if text_eq key input_target
    then some (set_input (discord_volume percent))
    else if text_eq key output_target
    then some (set_output (discord_volume percent))
    else user_request (discord_user_volume percent convert)
        (resolve_user u roster (trim_prefix user_target_prefix key))

-- The connection and the generation that a flush began with, and what it sends.
pub record Flight : Type 0 where
  pub conn : ℕ
  pub generation : ℕ
  pub todo : VolumeMap

-- `flush` until its requests
unfoldable pub begin_flush : VolumeState → Option (Flight × VolumeState)
unfolding take_pending
begin_flush st = elim st.connection [
  | none ↦ none
  | some c ↦ some (
    record { conn = c; generation = st.volume_generation; todo = (take_pending st).0 },
    (take_pending st).1,
  )
]

abbrev pub if_accepted : (Request → Bool) → ℕ → Option Request → Option ℕ
if_accepted accepts percent none = none
if_accepted accepts percent (some r) = if accepts r then some percent else none

abbrev pub send_value :
    Unicode → Option DiscordRoster → Bool → (Request → Bool) → Text → Option ℕ → Option ℕ
send_value u roster convert accepts k none = none
send_value u roster convert accepts k (some p) = if_accepted accepts p (send u roster convert k p)

-- The values that Discord took.
unfoldable pub sent_of :
    Unicode → Option DiscordRoster → Bool → (Request → Bool) → Flight → VolumeMap
unfolding send
sent_of u roster convert accepts f = λ k. send_value u roster convert accepts k (f.todo k)

abbrev pub first_of : Option ℕ → Option ℕ → Option ℕ
first_of none b = b
first_of (some v) b = some v

-- `maps.Copy`
abbrev pub copy_onto : VolumeMap → VolumeMap → VolumeMap
copy_onto m sent = λ k. first_of (sent k) (m k)

abbrev pub is_conn : Option ℕ → ℕ → Bool
is_conn none c = false
is_conn (some d) c = d == c

-- `flush` behind its requests
unfoldable pub finish_flush : Flight → VolumeMap → VolumeState → VolumeState
finish_flush f sent st =
    if is_conn st.connection f.conn
    then (if f.generation == st.volume_generation
        then record st { last_sent = copy_onto st.last_sent sent }
        else st)
    else st

unfoldable pub invalidate_volumes : VolumeState → VolumeState
invalidate_volumes st = record st {
  last_sent = empty_map;
  volume_generation = st.volume_generation + 1;
}
