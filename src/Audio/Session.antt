-- ===== src/Audio/Session.antt =====
-- internal/audio/session.go and session_linux.go: what a session is, and the volumes of its
-- channels. A volume is in hundredths of 1, one of PulseAudio in parts of 0x10000.
use deej.Prelude.{
  ℕ, zero, suc, ◌+◌, ◌*◌, ◌/◌, ◌%◌, Bool, true, false, not, List, [], ◌∷◌, Option, none, some,
  replicate, length, length-replicate, refl, get_elem?, map, if◌then◌else◌, ◌≡◌, ◌≤◌, ◌<◌, arith,
}
use deej.Prelude.Text.{Text, codes, Unicode, to_lower}
use deej.Mixer.Sessions.{Attributes}

abbrev pub system_session_name : Text
system_session_name = codes "system"

abbrev pub master_session_name : Text
master_session_name = codes "master"

abbrev pub input_session_name : Text
input_session_name = codes "mic"

-- `baseSession`, without what is only logged
pub record BaseSession : Type 0 where
  pub system : Bool
  pub master : Bool
  pub device : Bool
  pub input : Bool
  pub name : Text
  pub display_name : Text

-- `Key`
unfoldable pub key_of : Unicode → BaseSession → Text
key_of u b =
    if b.system
    then system_session_name
    else if b.master
    then to_lower u b.name
    else to_lower u b.name

-- What a session controls: the input of a sink, or a whole sink or source.
pub data Stream : Type 0 where
  sink_input sink source : Stream

-- `paSession` and `masterSession`
pub record PaSession : Type 0 where
  pub base : BaseSession
  pub conn : ℕ
  pub stream : Stream
  pub index : ℕ
  pub channels : ℕ

-- `newPASession`
unfoldable pub new_pa_session : ℕ → ℕ → ℕ → Text → Text → PaSession
new_pa_session conn index channels process_name display_name = record {
  base = record {
    system = false;
    master = false;
    device = false;
    input = false;
    name = process_name;
    display_name = display_name;
  };
  conn = conn;
  stream = sink_input;
  index = index;
  channels = channels;
}

-- `newNamedMasterSession`
unfoldable pub new_named_master_session : ℕ → ℕ → ℕ → Bool → Text → PaSession
new_named_master_session conn index channels is_output name = record {
  base = record {
    system = false;
    master = true;
    device = false;
    input = not is_output;
    name = name;
    display_name = name;
  };
  conn = conn;
  stream = if is_output then sink else source;
  index = index;
  channels = channels;
}

-- `newMasterSession`
unfoldable pub new_master_session : ℕ → ℕ → ℕ → Bool → PaSession
unfolding new_named_master_session
new_master_session conn index channels is_output =
    new_named_master_session conn index channels is_output
      (if is_output then master_session_name else input_session_name)

abbrev pub nameless : BaseSession
nameless = record {
  system = false;
  master = false;
  device = false;
  input = false;
  name = [];
  display_name = [];
}

abbrev pub base_at : Option BaseSession → BaseSession
base_at none = nameless
base_at (some s) = s

-- The methods of the sessions made so far, oldest first.
unfoldable pub attributes_of_bases : Unicode → List BaseSession → Attributes
unfolding key_of
attributes_of_bases u made = record {
  key = λ s. key_of u (base_at (get_elem? made s));
  display_name = λ s. (base_at (get_elem? made s)).display_name;
  is_device = λ s. (base_at (get_elem? made s)).device;
  is_input = λ s. (base_at (get_elem? made s)).input;
}

unfoldable pub attributes_of : Unicode → List PaSession → Attributes
unfolding attributes_of_bases
attributes_of u made = attributes_of_bases u (map (λ s. s.base) made)

abbrev pub max_volume : ℕ
max_volume = 65536

-- `createChannelVolumes`, for a volume in hundredths
unfoldable pub create_channel_volumes : ℕ → ℕ → List ℕ
create_channel_volumes channels volume = replicate channels (volume * max_volume / 100)

-- The sum of `parseChannelVolumes`, in 32 bits.
unfoldable pub add_levels : ℕ → List ℕ → ℕ
add_levels level [] = level
add_levels level (v ∷ vs) = add_levels ((level + v) % 4294967296) vs

-- `parseChannelVolumes`: the volume is the first number divided by the second.
unfoldable pub parse_channel_volumes : List ℕ → ℕ × ℕ
unfolding add_levels
parse_channel_volumes vs = (add_levels 0 vs, length vs * max_volume)

-- `GetVolume`, by what the request replied.
unfoldable pub get_volume : Option (List ℕ) → ℕ × ℕ
unfolding parse_channel_volumes
get_volume none = (0, 1)
get_volume (some vs) = parse_channel_volumes vs

-- A request that sets the volumes of the channels of a stream.
pub record SetVolumes : Type 0 where
  pub stream : Stream
  pub index : ℕ
  pub volumes : List ℕ

-- The request of `SetVolume`.
unfoldable pub set_volume_request : PaSession → ℕ → SetVolumes
unfolding create_channel_volumes
set_volume_request s v = record {
  stream = s.stream;
  index = s.index;
  volumes = create_channel_volumes s.channels v;
}

add_levels-replicate :
    (n v level : ℕ) → level + n * v < 4294967296 → add_levels level (replicate n v) ≡ level + n * v
unfolding add_levels
add_levels-replicate zero v level h = omega arith
add_levels-replicate (suc n) v level h =
    omega (arith, add_levels-replicate n v ((level + v) % 4294967296) (omega arith))

-- Shares of n channels that stand at q each, for a volume v.
total-bounds :
    (n q v : ℕ)
    → q * 100 ≤ v * 65536
    → v * 65536 < q * 100 + 100
    → (n * q * 100 ≤ v * (n * 65536))
      × (v * (n * 65536) + n ≤ (n * q + n) * 100)
      × (v ≤ 100 → n * q ≤ n * 65536)
total-bounds zero q v h1 h2 = (omega arith, omega arith, λ h. omega arith)
total-bounds (suc n) q v h1 h2 =
    let rest = total-bounds n q v h1 h2 in
    (omega (arith, rest.0), omega (arith, rest.1), λ h. omega (arith, rest.2 h))

-- A volume that is set on up to 255 channels is read back at less than one step of PulseAudio below:
-- the sum of the channels does not overflow, and the fraction that is read is at most the volume
-- and above the volume less 1 / 0x10000.
pub get_volume-set_volume_request :
    (s : PaSession) (v : ℕ)
    → v ≤ 100
    → 0 < s.channels
    → s.channels ≤ 255
    → let read = get_volume (some (set_volume_request s v).volumes) in
      (read.1 ≡ s.channels * max_volume)
      × (read.0 * 100 ≤ v * read.1)
      × (v * read.1 < (read.0 + s.channels) * 100)
unfolding get_volume parse_channel_volumes set_volume_request create_channel_volumes
get_volume-set_volume_request s v h1 h2 h3 =
    let q = v * max_volume / 100 in
    let b = total-bounds s.channels q v (omega arith) (omega arith) in
    let level : add_levels 0 (replicate s.channels q) ≡ s.channels * q =
      omega (arith, add_levels-replicate s.channels q 0 (omega (arith, b.2 h1))) in
    let size : length (replicate s.channels q) ≡ s.channels = length-replicate s.channels q in
    (rw size refl, rw size (rw level (b.0)), rw size (rw level (omega (arith, b.1))))
