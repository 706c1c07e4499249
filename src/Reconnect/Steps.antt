-- ===== src/Reconnect/Steps.antt =====
-- internal/reconnect/reconnect.go. The manager loop as a machine that takes one input at a time:
-- what a callback returned, a timer that ran out, a branch of a `select`, or a call from outside.
-- `none` says that the input cannot come in that state. Connections are numbered in the order in
-- which dials succeed.
use deej.Prelude.{
  ℕ, zero, suc, ◌≡◌, Bool, true, false, List, [], ◌∷◌, Option, none, some, ◌==◌, if◌then◌else◌,
}

-- Where the loop stands. `dialing` is the `select` on the dial, `watching` that on the connection.
pub data Phase : Type 0 where
  not_running checking disabled_wait dialing retry_wait watching : Phase

-- The callbacks that the loop makes, and the waits with the number that it gives to Backoff.
pub data Callback : Type 0 where
  on_up : ℕ → Callback
  on_down : Callback
  close : ℕ → Callback
  wait : ℕ → Callback

pub data Input : Type 0 where
  -- Start, Stop and Reconnect
  start stop reconnect : Input
  -- the loop sees that the stop channel is closed
  stopped : Input
  -- what Enabled said at the top of the loop
  enabled : Bool → Input
  -- the time of a wait is over
  time_over : Input
  dial_failed : Input
  -- the dial succeeded, and what Enabled then said
  dial_done : Bool → Input
  -- a dial that was left behind by Stop ends
  late_failed late_done : Input
  -- Watch of the numbered connection reports a failure
  watch_failed : ℕ → Input
  -- the loop receives from the error channel
  error_received : Input

pub record Reconnector : Type 0 where
  pub phase : Phase
  pub attempt : ℕ
  pub current : Option ℕ
  -- the error channel of this generation, if any, and whether its buffer is full
  pub err_channel : Option Bool
  -- the stop channel has been closed
  pub stopping : Bool
  -- dials in flight that no loop waits for
  pub late : ℕ
  -- connections dialled so far, those that are open, those that were closed
  pub dialled : ℕ
  pub opened : List ℕ
  pub closed : List ℕ
  -- newest first
  pub log : List Callback

unfoldable pub new : Reconnector
new = record {
  phase = not_running;
  attempt = 0;
  current = none;
  err_channel = none;
  stopping = false;
  late = 0;
  dialled = 0;
  opened = [];
  closed = [];
  log = [];
}

unfoldable pub without : ℕ → List ℕ → List ℕ
without c [] = []
without c (d ∷ ds) = let rest = without c ds in if d == c then rest else d ∷ rest

-- A dial succeeds: the next connection is open.
unfoldable pub open_next : Reconnector → Reconnector
open_next r = record r { dialled = suc r.dialled; opened = r.dialled ∷ r.opened }

unfoldable pub close_connection : ℕ → Reconnector → Reconnector
unfolding without
close_connection c r = record r {
  opened = without c r.opened;
  closed = c ∷ r.closed;
  log = close c ∷ r.log;
}

abbrev pub close_current : Option ℕ → Reconnector → Reconnector
close_current none r = r
close_current (some c) r = close_connection c (record r { current = none; err_channel = none })

-- `drop`
unfoldable pub drop : Reconnector → Reconnector
unfolding close_connection
drop r = close_current r.current r

-- The connection is published with a fresh error channel, and OnUp is called.
unfoldable pub adopt : ℕ → Reconnector → Reconnector
adopt c r = record r {
  phase = watching;
  attempt = 0;
  current = some c;
  err_channel = some false;
  log = on_up c ∷ r.log;
}

abbrev pub fill : Option Bool → Option Bool
fill none = none
fill (some b) = some true

abbrev pub is_current : Option ℕ → ℕ → Bool
is_current none c = false
is_current (some d) c = d == c

unfoldable pub begin_wait : Phase → ℕ → Reconnector → Reconnector
begin_wait p n r = record r { phase = p; log = wait n ∷ r.log }

-- The loop returns, and Stop with it.
unfoldable pub end_loop : Reconnector → Reconnector
end_loop r = record r { phase = not_running; stopping = false }

-- A dial in flight is left to end by itself.
unfoldable pub leave_dial : Reconnector → Reconnector
leave_dial r = record r { late = suc r.late }

unfoldable pub lose_connection : Reconnector → Reconnector
unfolding begin_wait drop
lose_connection r =
    let down = record r { log = on_down ∷ r.log } in begin_wait retry_wait r.attempt (drop down)

unfoldable pub dial_result : Bool → Reconnector → Reconnector
unfolding open_next adopt close_connection
dial_result true r = adopt r.dialled (open_next r)
dial_result false r = record (close_connection r.dialled (open_next r)) { phase = checking }

-- What the loop does in each phase.
unfoldable pub run : Phase → Input → Reconnector → Option Reconnector
unfolding begin_wait end_loop leave_dial lose_connection dial_result drop
run checking (enabled true) r = some (record r { phase = dialing })
run checking (enabled false) r = some (begin_wait disabled_wait 0 r)
run disabled_wait time_over r = some (record r { phase = checking })
run disabled_wait stopped r = if r.stopping then some (end_loop r) else none
run dialing stopped r = if r.stopping then some (end_loop (leave_dial r)) else none
run dialing dial_failed r = some (begin_wait retry_wait r.attempt r)
run dialing (dial_done b) r = some (dial_result b r)
run retry_wait time_over r = some (record r { phase = checking; attempt = suc r.attempt })
run retry_wait stopped r = if r.stopping then some (end_loop r) else none
run watching stopped r = if r.stopping then some (end_loop (drop r)) else none
run watching error_received r = elim r.err_channel [
  | none ↦ none
  | some full ↦
      if full then some (lose_connection (record r { err_channel = some false })) else none
]
run _ _ r = none

abbrev pub is_running : Phase → Bool
is_running not_running = false
is_running _ = true

abbrev pub end_late : ℕ → Reconnector → Option Reconnector
end_late zero r = none
end_late (suc n) r = some (record r { late = n })

abbrev pub close_late : Option Reconnector → Option Reconnector
close_late none = none
close_late (some r) = some (close_connection r.dialled (open_next r))

-- One input. Reconnect and Watch come in every state, Start and Stop unless a Stop holds the lifecycle
-- lock until the loop has ended; the rest is the loop's.
unfoldable pub step : Reconnector → Input → Option Reconnector
unfolding run
step r start =
    if r.stopping
    then none
    else some (if is_running r.phase then r else record r { phase = checking; attempt = 0 })
step r stop =
    if r.stopping
    then none
    else some (if is_running r.phase then record r { stopping = true } else r)
step r reconnect = some (record r { err_channel = fill r.err_channel })
step r (watch_failed c) =
    some (if is_current r.current c then record r { err_channel = fill r.err_channel } else r)
step r late_failed = end_late r.late r
step r late_done = close_late (end_late r.late r)
step r i = run r.phase i r

-- A run of the machine from its construction.
pub data Reach : Reconnector → Type 0 where
  begin : Reach new
  next : {r r' : Reconnector} → Reach r → (i : Input) → step r i ≡ some r' → Reach r'
