-- ===== src/Discord/Frames.antt =====
-- internal/integrations/discord/rpc.go: the frames on the pipe to Discord, as bytes, and what the read loop
-- does with each. The JSON of a frame is read by the caller.
use deej.Prelude.{
  ℕ, ◌+◌, ◌*◌, ◌/◌, ◌%◌, ◌<◌, ◌≡◌, refl, ap, ◌∙◌, false, List, [], ◌∷◌, ◌++◌, arith, if◌then◌else◌,
  ltb, length, take, drop, take-length-append, drop-length-append, length-append,
}

-- binary.LittleEndian.PutUint32, which keeps the low 32 bits
unfoldable pub put_uint32 : ℕ → List ℕ
put_uint32 n = n % 256 ∷ n / 256 % 256 ∷ n / 65536 % 256 ∷ n / 16777216 % 256 ∷ []

unfoldable pub uint32 : ℕ → ℕ → ℕ → ℕ → ℕ
uint32 a b c d = a + 256 * b + 65536 * c + 16777216 * d

abbrev pub discord_max_frame_size : ℕ
discord_max_frame_size = 1048576

-- What a read gives, and what is left of the stream.
pub data ReadResult : Type 0 where
  frame : ℕ → List ℕ → List ℕ → ReadResult
  short too_large : ReadResult

unfoldable pub write_discord_frame : ℕ → List ℕ → List ℕ
unfolding put_uint32
write_discord_frame opcode body = put_uint32 opcode ++ (put_uint32 (length body) ++ body)

abbrev pub read_body : ℕ → ℕ → List ℕ → ReadResult
read_body opcode size s =
    if ltb discord_max_frame_size size
    then too_large
    else if ltb (length s) size
    then short
    else frame opcode (take size s) (drop size s)

unfoldable pub read_discord_frame : List ℕ → ReadResult
unfolding uint32
read_discord_frame (a ∷ b ∷ c ∷ d ∷ e ∷ f ∷ g ∷ h ∷ s) =
    read_body (uint32 a b c d) (uint32 e f g h) s
read_discord_frame _ = short

-- The value of the bytes that are written for a number.
abbrev put_value : ℕ → ℕ
put_value n = uint32 (n % 256) (n / 256 % 256) (n / 65536 % 256) (n / 16777216 % 256)

uint32-put : (n : ℕ) → n < 4294967296 → put_value n ≡ n
unfolding uint32
uint32-put n h = omega arith

read_body-append :
    (opcode : ℕ) (body rest : List ℕ)
    → read_body opcode (length body) (body ++ rest)
      ≡ (if ltb discord_max_frame_size (length body) then too_large else frame opcode body rest)
read_body-append opcode body rest =
    let long : ltb (length (body ++ rest)) (length body) ≡ false =
      ground (arith, length-append body rest) in
    rw (long, take-length-append body rest, drop-length-append body rest) refl

-- A frame that is written is read back, with what follows it in the stream left, if its body is at most
-- as long as the bound; a longer one is refused. The opcode and the length are of 32 bits.
pub read_discord_frame-write_discord_frame :
    (opcode : ℕ) (body rest : List ℕ)
    → opcode < 4294967296
    → length body < 4294967296
    → read_discord_frame (write_discord_frame opcode body ++ rest)
      ≡ (if ltb discord_max_frame_size (length body) then too_large else frame opcode body rest)
unfolding read_discord_frame write_discord_frame put_uint32
read_discord_frame-write_discord_frame opcode body rest h k =
    ap (λ (n : ℕ). read_body n (put_value (length body)) (body ++ rest)) (uint32-put opcode h)
    ∙ ap (λ (n : ℕ). read_body opcode n (body ++ rest)) (uint32-put (length body) k)
    ∙ read_body-append opcode body rest
