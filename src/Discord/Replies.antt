-- ===== src/Discord/Replies.antt =====
-- internal/integrations/discord/rpc.go: the read loop of a connection. It hands replies to the callers that
-- wait for their nonce, answers pings and passes events on.
use deej.Prelude.{
  ℕ, suc, ◌+◌, ◌≤◌, ◌≡◌, ap, Bool, true, false, ◌&&◌, not, List, [], ◌∷◌, Option, none, some, arith,
  if◌then◌else◌, ◌==◌, Bool-cases, inl, inr,
}
use deej.Prelude.Text.{Text, codes, text_eq, text_eq_iff, trim_space}
use deej.Config.Rules.{is_nil}

pub record DiscordFrame : Type 0 where
  pub cmd : Text
  pub nonce : Text
  pub evt : Text
  pub data_text : Text

pub data ConnError : Type 0 where
  read_failed write_failed : ConnError
  closed_by_discord : Text → ConnError

-- The callers that wait, as a test on their nonces; what was handed over, passed on and written, newest
-- first; and the error that ended the loop.
pub record DiscordConn : Type 0 where
  pub pending : Text → Bool
  pub replies : List DiscordFrame
  pub ready : Bool
  pub events : List (Text × Text)
  pub written : List (ℕ × Text)
  pub done : Option ConnError

abbrev pub op_frame : ℕ
op_frame = 1

abbrev pub op_close : ℕ
op_close = 2

abbrev pub op_ping : ℕ
op_ping = 3

abbrev pub op_pong : ℕ
op_pong = 4

-- A caller begins to wait.
unfoldable pub await : Text → DiscordConn → DiscordConn
await n c = record c { pending = λ j. if text_eq n j then true else c.pending j }

unfoldable pub hand_over : DiscordFrame → DiscordConn → DiscordConn
hand_over f c = record c {
  pending = λ j. if text_eq f.nonce j then false else c.pending j;
  replies = if c.pending f.nonce then f ∷ c.replies else c.replies;
}

abbrev pub pass_on : DiscordFrame → DiscordConn → DiscordConn
pass_on f c =
    if text_eq f.cmd (codes "DISPATCH") && not (is_nil f.evt)
    then record c { events = (f.evt, f.data_text) ∷ c.events }
    else c

-- A frame of JSON; none does not parse.
unfoldable pub handle_json : Option DiscordFrame → DiscordConn → DiscordConn
unfolding hand_over text_eq
handle_json none c = c
handle_json (some f) c =
    if text_eq f.cmd (codes "DISPATCH") && text_eq f.evt (codes "READY")
    then record c { ready = true }
    else if is_nil f.nonce
    then pass_on f c
    else hand_over f c

abbrev pub fail : ConnError → DiscordConn → DiscordConn
fail e c = record c { done = some e }

-- What comes off the pipe: an error, or an opcode with its body, which may be JSON, and whether the pipe
-- takes a write.
pub data Arrival : Type 0 where
  read_error : Arrival
  arrived : ℕ → Text → Option DiscordFrame → Bool → Arrival

-- One round of `readLoop`
unfoldable pub read_round : Arrival → DiscordConn → DiscordConn
unfolding handle_json trim_space
read_round read_error c = fail read_failed c
read_round (arrived opcode body json writable) c =
    if opcode == op_ping
    then (if writable
        then record c { written = (op_pong, body) ∷ c.written }
        else fail write_failed c)
    else if opcode == op_close
    then fail (closed_by_discord (trim_space body)) c
    else if opcode == op_frame
    then handle_json json c
    else c

abbrev pub unless_done : Option ConnError → DiscordConn → DiscordConn → DiscordConn
unless_done none c next = next
unless_done (some e) c next = c

-- `readLoop` over what arrives; it ends at the first error.
unfoldable pub read_loop : List Arrival → DiscordConn → DiscordConn
unfolding read_round
read_loop [] c = c
read_loop (a ∷ more) c = let rest = read_loop more (read_round a c) in unless_done c.done c rest

-- The replies that the callers of a nonce were handed.
abbrev pub count_replies : Text → List DiscordFrame → ℕ
count_replies n [] = 0
count_replies n (f ∷ fs) =
    let rest = count_replies n fs in if text_eq f.nonce n then suc rest else rest

-- Replies handed over and callers that wait, of one nonce.
abbrev pub due : Text → DiscordConn → ℕ
due n c = count_replies n c.replies + (if c.pending n then 1 else 0)

-- A frame hands a reply only to a caller that waits, and takes the caller off.
due-hand_over : (n : Text) (f : DiscordFrame) (c : DiscordConn) → due n (hand_over f c) ≤ due n c
unfolding hand_over
due-hand_over n f c =
    let same : text_eq f.nonce n ≡ true → c.pending f.nonce ≡ c.pending n =
      λ e. ap c.pending ((text_eq_iff f.nonce n).0 e) in
    elim (Bool-cases (text_eq f.nonce n)) [
      | inl e ↦ ground (arith, e, same e)
      | inr e ↦ ground (arith, e)
    ]

due-handle_json :
    (n : Text) (json : Option DiscordFrame) (c : DiscordConn) → due n (handle_json json c) ≤ due n c
unfolding handle_json
due-handle_json n none c = omega arith
due-handle_json n (some f) c = ground (arith, due-hand_over n f c)

due-read_round : (n : Text) (a : Arrival) (c : DiscordConn) → due n (read_round a c) ≤ due n c
unfolding read_round
due-read_round n read_error c = omega arith
due-read_round n (arrived opcode body json writable) c = ground (arith, due-handle_json n json c)

unless_done-due :
    (n : Text) (o : Option ConnError) (c next : DiscordConn)
    → due n next ≤ due n c
    → due n (unless_done o c next) ≤ due n c
unless_done-due n none c next h = h
unless_done-due n (some e) c next h = omega arith

-- Whatever arrives, the callers that wait for a nonce and the replies that were handed over for it
-- do not become more in all: a caller is answered at most once, and no reply goes to a nonce that
-- nobody waits for.
pub read_loop-due :
    (n : Text) (arrivals : List Arrival) (c : DiscordConn) → due n (read_loop arrivals c) ≤ due n c
unfolding read_loop
read_loop-due n [] c = omega arith
read_loop-due n (a ∷ more) c =
    unless_done-due n c.done c _
      (omega (arith, read_loop-due n more (read_round a c), due-read_round n a c))
