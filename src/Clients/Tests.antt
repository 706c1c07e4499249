-- ===== src/Clients/Tests.antt =====
-- Runs of the clients: a connection that is adopted, a change of the settings, and a reload.
use deej.Prelude.{ℕ, ◌≡◌, refl, Bool, true, false, List, [], ◌∷◌, Option, none, some, ◌==◌}
use deej.Reconnect.Steps
use deej.Clients.Renewal.{
  Client, ClientInput, new_client, carry, after_machine, step, compare_up, renew_unless,
}
use deej.Clients.Renewal
use deej.Clients.Renewal.Noticed.{Noticed, Reach-noticed}
use deej.Clients.Serial.{announced, newest, IsAlternating, is_adopted}
use deej.Clients.Serial.Told.{Reach-IsAlternating}

-- Settings that are one number.
abbrev same : ℕ → ℕ → Bool
same a b = a == b

abbrev after_input : Client ℕ → Option (Client ℕ) → Client ℕ
after_input c none = c
after_input c (some d) = d

-- Inputs one after the other; one that cannot come is left out.
abbrev run_inputs : List (ClientInput ℕ) → Client ℕ → Client ℕ
run_inputs [] c = c
run_inputs (i ∷ is) c = run_inputs is (after_input c (step same c i))

Reach-after_input :
    (c : Client ℕ) (i : ClientInput ℕ) (o : Option (Client ℕ))
    → step same c i ≡ o
    → Renewal.Reach same c
    → Renewal.Reach same (after_input c o)
Reach-after_input c i none e r = r
Reach-after_input c i (some d) e r = Renewal.next r i e

Reach-run_inputs :
    (is : List (ClientInput ℕ)) (c : Client ℕ)
    → Renewal.Reach same c
    → Renewal.Reach same (run_inputs is c)
Reach-run_inputs [] c r = r
Reach-run_inputs (i ∷ is) c r =
    Reach-run_inputs is (after_input c (step same c i))
      (Reach-after_input c i (step same c i) refl r)

abbrev connect : List (ClientInput ℕ)
connect =
    ClientInput.machine Steps.start
    ∷ ClientInput.machine (Steps.enabled true)
    ∷ ClientInput.dial_reads
    ∷ ClientInput.machine (Steps.dial_done true)
    ∷ ClientInput.up_compares
    ∷ ClientInput.change 8
    ∷ []

-- The settings have changed under the connection.
abbrev changed : Client ℕ
changed = run_inputs connect (new_client 7)

changed_Reach : Renewal.Reach same changed
changed_Reach = Reach-run_inputs connect (new_client 7) (Renewal.begin 7)

Reach-noticed_example : Noticed same 0 changed
unfolding step after_machine carry Steps.step Steps.run Steps.dial_result Steps.adopt
    Steps.open_next Steps.new new_client compare_up renew_unless
Reach-noticed_example = Reach-noticed same 0 changed_Reach refl refl

-- The reload loop sees that.
abbrev requested : Client ℕ
requested =
    run_inputs
      (ClientInput.announce ∷ ClientInput.reload ∷ ClientInput.read_values
        ∷ ClientInput.read_current ∷ ClientInput.compare ∷ [])
      changed

abbrev connected : Steps.Reconnector
connected = Steps.adopt 0 (Steps.open_next (record Steps.new { phase = Steps.dialing }))

connected_Reach : Steps.Reach connected
unfolding Steps.step Steps.run Steps.dial_result Steps.new Steps.open_next
connected_Reach =
    Steps.next (Steps.next (Steps.next Steps.begin Steps.start refl) (Steps.enabled true) refl)
      (Steps.dial_done true) refl

-- The connection is lost.
abbrev down : Steps.Reconnector
down = Steps.lose_connection (record connected { err_channel = some false })

down_Reach : Steps.Reach down
unfolding Steps.step Steps.run Steps.adopt Steps.open_next Steps.new
down_Reach =
    Steps.next (Steps.next connected_Reach (Steps.watch_failed 0) refl) Steps.error_received refl

Reach-IsAlternating_example :
    let s = announced (λ c. false) down.log in
    IsAlternating s.state_changes × (newest s.state_changes ≡ is_adopted s.adopted down.current)
Reach-IsAlternating_example = Reach-IsAlternating (λ c. false) down_Reach
