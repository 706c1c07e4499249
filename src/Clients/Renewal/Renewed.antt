-- ===== src/Clients/Renewal/Renewed.antt =====
-- What a request to reconnect leads to.
use deej.Prelude.{ℕ, Bool, true, false, List, [], ◌∷◌, Option, none, some}
use deej.Reconnect.Steps
use deej.Reconnect.Steps.{Reconnector}
use deej.Clients.Renewal
use deej.Clients.Renewal.{Client, ClientInput, step}

module _ {A : Type 0} (same : A → A → Bool) where
  abbrev bind_all : Option (Client A) → (Client A → Option (Client A)) → Option (Client A)
  bind_all none k = none
  bind_all (some c) k = k c

  abbrev pub run_all : List (ClientInput A) → Client A → Option (Client A)
  run_all [] c = some c
  run_all (i ∷ is) c = bind_all (step same c i) (run_all is)

  -- The loop receives the request, waits, and dials with success.
  abbrev pub renewal : List (ClientInput A)
  renewal =
      ClientInput.machine Steps.error_received
      ∷ ClientInput.machine Steps.time_over
      ∷ ClientInput.machine (Steps.enabled true)
      ∷ ClientInput.dial_reads
      ∷ ClientInput.machine (Steps.dial_done true)
      ∷ []

-- The reconnector behind the loss of its connection `c`.
abbrev lost : ℕ → Reconnector → Reconnector
lost c r = Steps.begin_wait Steps.retry_wait r.attempt (
    Steps.close_current (some c)
      (record r { err_channel = some false; log = Steps.on_down ∷ r.log }))
