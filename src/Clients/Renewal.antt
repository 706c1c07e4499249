-- ===== src/Clients/Renewal.antt =====
-- What internal/serial/client.go, internal/integrations/obs/client.go and discord/client.go share: each
-- connection carries the settings that it was dialled with, and is renewed when they are no longer the
-- ones in force. `onUp` and the loop of `setupOnConfigReload` look at that on their own goroutines,
-- so what they do is cut into steps between which anything may happen.
use deej.Prelude.{ℕ, Bool, true, false, Option, none, some, ◌==◌, if◌then◌else◌, ◌≡◌}
use deej.Reconnect.Steps.{Reconnector, new}
use deej.Reconnect.Steps
pub mod Kept
pub mod Noticed
pub mod Renewed

-- A client whose settings are of type A.
pub record Client (A : Type 0) : Type 0 where
  pub reconnector : Reconnector
  -- the settings in force, and whether their change is still to be signalled
  pub settings : A
  pub unannounced : Bool
  -- a signal waits in the channel of `SubscribeToChanges`
  pub signal : Bool
  -- what the dial read, and the settings that each connection carries
  pub dialled_with : A
  pub conn_info : ℕ → A
  -- the connection whose `onUp` is still to look at the settings
  pub up_pending : Option ℕ
  -- the reload loop is at work, with the settings and the connection that it has read so far
  pub reloading : Bool
  pub seen : Option A
  pub picked : Option (Option ℕ)

-- The client with its first settings.
unfoldable pub new_client : {A : Type 0} → A → Client A
new_client a = record {
  reconnector = new;
  settings = a;
  unannounced = false;
  signal = false;
  dialled_with = a;
  conn_info = λ c. a;
  up_pending = none;
  reloading = false;
  seen = none;
  picked = none;
}

pub data ClientInput (A : Type 0) : Type 0 where
  -- an input of the reconnector
  machine : Steps.Input → ClientInput A
  -- the store puts settings in force, and signals that
  change : A → ClientInput A
  announce : ClientInput A
  -- `dial` reads the settings
  dial_reads : ClientInput A
  -- `onUp` looks at the settings
  up_compares : ClientInput A
  -- the reload loop takes a signal, reads the settings and the current connection, in either order, and
  -- compares them
  reload read_values read_current compare : ClientInput A

-- `Reconnect`
unfoldable pub request_reconnect : Reconnector → Reconnector
unfolding Steps.step
request_reconnect r = elim (Steps.step r Steps.reconnect) [ none ↦ r | some r' ↦ r' ]

-- An adopted connection carries what its dial read.
unfoldable pub carry : {A : Type 0} → Steps.Input → ℕ → Client A → Client A
carry (Steps.dial_done true) n c = record c {
  conn_info = λ k. if k == n then c.dialled_with else c.conn_info k;
  up_pending = some n;
}
carry _ n c = c

unfoldable pub after_machine :
    {A : Type 0} → Steps.Input → Client A → Option Reconnector → Option (Client A)
unfolding carry
after_machine i c none = none
after_machine i c (some r) = some (carry i c.reconnector.dialled (record c { reconnector = r }))

module _ {A : Type 0} (same : A → A → Bool) where
  -- A connection with other settings than these is to be renewed.
  unfoldable pub renew_unless : A → ℕ → Client A → Client A
  unfolding request_reconnect
  renew_unless a d c =
      if same a (c.conn_info d)
      then c
      else record c { reconnector = request_reconnect c.reconnector }

  unfoldable pub compare_up : Option ℕ → Client A → Option (Client A)
  unfolding renew_unless
  compare_up none c = none
  compare_up (some d) c = some (renew_unless c.settings d (record c { up_pending = none }))

  -- The end of a round of the reload loop.
  unfoldable pub compare_seen : Option A → Option (Option ℕ) → Client A → Option (Client A)
  unfolding renew_unless
  compare_seen (some a) (some (some d)) c =
      some (renew_unless a d (record c { reloading = false; seen = none; picked = none }))
  compare_seen (some a) (some none) c =
      some (record c { reloading = false; seen = none; picked = none })
  compare_seen _ _ c = none

  -- One input; `none` says that it cannot come.
  unfoldable pub step : Client A → ClientInput A → Option (Client A)
  unfolding after_machine compare_up compare_seen Steps.step
  step c (machine i) = after_machine i c (Steps.step c.reconnector i)
  step c (change a) = some (record c { settings = a; unannounced = true })
  step c announce = some (record c { unannounced = false; signal = true })
  step c dial_reads = some (record c { dialled_with = c.settings })
  step c up_compares = compare_up c.up_pending c
  step c reload =
      if c.signal
      then if c.reloading
        then none
        else some (record c { signal = false; reloading = true; seen = none; picked = none })
      else none
  step c read_values = if c.reloading then some (record c { seen = some c.settings }) else none
  step c read_current =
      if c.reloading then some (record c { picked = some c.reconnector.current }) else none
  step c compare = if c.reloading then compare_seen c.seen c.picked c else none

-- A run of the client from its construction.
pub data Reach {A : Type 0} (same : A → A → Bool) : Client A → Type 0 where
  begin : (a : A) → Reach same (new_client a)
  next :
      {c c' : Client A}
      → Reach same c
      → (i : ClientInput A) → step same c i ≡ some c'
      → Reach same c'
