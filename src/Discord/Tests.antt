-- ===== src/Discord/Tests.antt =====
-- Runs of the Discord client's code.
use deej.Prelude.{
  ◌≤◌, ◌++◌, ℕ, ◌≡◌, refl, true, false, List, [], ◌∷◌, none, some, arith, if◌then◌else◌,
}
use deej.Prelude.Text.{Text, ascii, codes, text_eq}
use deej.Discord.Roster.{
  DiscordRoster, VoiceState, to_user, text_less, user_less, insert_user, sort_discord_users,
  find_user, apply_voice_state_event, roster_needs_replay,
}
use deej.Discord.Volume.{
  empty_map, VolumeState, set_volume, unless_sent, take_pending, Flight, begin_flush, finish_flush,
  invalidate_volumes,
}
use deej.Discord.Throttle.{set_volumes, finish_flush_stale}
use deej.Config.Model.{DiscordSettings}
use deej.Discord.Frames.{
  frame, read_discord_frame, write_discord_frame, read_discord_frame-write_discord_frame,
}
use deej.Discord.Replies.{
  DiscordFrame, DiscordConn, Arrival, arrived, read_error, read_loop, due, read_loop-due,
}
use deej.Discord.Auth.{
  DiscordToken, AuthState, authorization_changed, discord_credentials_changed, store_token,
  clear_token, load, set_settings, auth_steps, store_token-unlinked,
}
use deej.Discord.Replay.{roster_needs_replay-apply_voice_state_event}

abbrev output : Text
output = codes "output"

-- Discord has the output at one half.
abbrev linked : VolumeState
linked = record {
  connection = some 7;
  pending = empty_map;
  last_sent = λ k. if text_eq k output then some 50 else none;
  volume_generation = 3;
}

abbrev moves : List (Text × ℕ)
moves = (output, 60) ∷ (codes "input", 10) ∷ (output, 50) ∷ []

abbrev flight : Flight
flight = record { conn = 7; generation = 3; todo = λ k. unless_sent (linked.last_sent k) none }

begun_flight : begin_flush linked ≡ some (flight, linked)
unfolding begin_flush take_pending
begun_flight = refl

finish_flush_stale_example :
    (finish_flush flight empty_map (set_volumes moves (invalidate_volumes linked))
      ≡ set_volumes moves (invalidate_volumes linked))
    × ((take_pending (
            set_volume output 50
              (finish_flush flight empty_map (set_volumes moves (invalidate_volumes linked))))).0
          output
        ≡ some 50)
finish_flush_stale_example =
    finish_flush_stale linked flight linked moves empty_map output 50 7 begun_flight refl

abbrev alone : DiscordRoster
alone = record {
  id = codes "9";
  channel = codes "lounge";
  users = record { id = codes "1"; name = codes "ann" } ∷ [];
}

-- Bob, who has no nickname here.
abbrev state_of_bob : VoiceState
state_of_bob = record {
  nick = [];
  user_id = codes "2";
  username = codes "bob2";
  global_name = codes "Bob";
}

abbrev together : DiscordRoster
together = record alone {
  users =
      record { id = codes "1"; name = codes "ann" }
      ∷ record { id = codes "2"; name = codes "Bob" }
      ∷ [];
}

bob_joins : apply_voice_state_event ascii false state_of_bob alone ≡ some (together, true)
unfolding apply_voice_state_event to_user find_user sort_discord_users insert_user user_less
    text_less text_eq
bob_joins = refl

roster_needs_replay-apply_voice_state_event_example :
    roster_needs_replay (some alone) together ≡ true
roster_needs_replay-apply_voice_state_event_example =
    roster_needs_replay-apply_voice_state_event ascii false true state_of_bob alone together
      bob_joins

read_discord_frame-write_discord_frame_example :
    read_discord_frame (write_discord_frame 1 (b'{' ∷ b'}' ∷ []) ++ 7 ∷ [])
    ≡ frame 1 (b'{' ∷ b'}' ∷ []) (7 ∷ [])
read_discord_frame-write_discord_frame_example =
    read_discord_frame-write_discord_frame 1 (b'{' ∷ b'}' ∷ []) (7 ∷ []) (omega arith) (omega arith)

abbrev reply : DiscordFrame
reply = record { cmd = codes "AUTHORIZE"; nonce = codes "n1"; evt = []; data_text = codes "{}" }

-- One caller waits.
abbrev waiting : DiscordConn
waiting = record {
  pending = λ n. text_eq n (codes "n1");
  replies = [];
  ready = true;
  events = [];
  written = [];
  done = none;
}

abbrev twice : List Arrival
twice = arrived 1 [] (some reply) true ∷ arrived 1 [] (some reply) true ∷ read_error ∷ []

read_loop-due_example : due (codes "n1") (read_loop twice waiting) ≤ 1
unfolding text_eq
read_loop-due_example = read_loop-due (codes "n1") twice waiting

abbrev credentials : DiscordSettings
credentials = record {
  enabled = true;
  client_id = codes "42";
  client_secret = codes "s";
  volume_conversion = true;
}

abbrev unlinked : AuthState
unlinked = record {
  token = none;
  token_file = none;
  auth_generation = 4;
  settings = credentials;
  previous = credentials;
}

abbrev token_a : DiscordToken
token_a = record { client_id = codes "42"; access_token = codes "a"; refresh_token = codes "r" }

store_token-unlinked_example :
    let st' =
      auth_steps
        (load (some token_a) ∷ [])
        (clear_token true (auth_steps (set_settings credentials ∷ []) unlinked)).1 in
    store_token true credentials 4 token_a st' ≡ (some authorization_changed, st')
store_token-unlinked_example =
    store_token-unlinked (set_settings credentials ∷ []) (load (some token_a) ∷ []) true true
      credentials token_a unlinked

stored : (store_token true credentials 4 token_a unlinked).0 ≡ none
unfolding store_token discord_credentials_changed text_eq
stored = refl
