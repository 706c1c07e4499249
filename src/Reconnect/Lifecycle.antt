-- ===== src/Reconnect/Lifecycle.antt =====
-- Stopping, reconnecting and retrying.
use deej.Prelude.{
  ℕ, ◌≡◌, refl, ap, Bool, true, false, [], none, some, arith, ltb, if◌then◌else◌, count,
}
use deej.Reconnect.Steps.{
  Phase, not_running, checking, disabled_wait, dialing, retry_wait, watching, stop, stopped,
  enabled, Reconnector, without, drop, begin_wait, end_loop, leave_dial, run, step, Reach, next,
  is_running,
}
use deej.Reconnect.Invariant.{IsSoundFor, IsSound, Reach-IsSound}

-- In every state that can be reached, nothing is left of a loop that has ended: no connection is
-- current or open, and each one that was dialled until then has been closed exactly once.
not_running_clean :
    {r : Reconnector} (c : ℕ)
    → Reach r
    → r.phase ≡ not_running
    → (r.current ≡ none) × (r.opened ≡ []) × (count c r.closed ≡ (if ltb c r.dialled then 1 else 0))
not_running_clean {r} c h e =
    let s = Reach-IsSound h 0 in
    let t = Reach-IsSound h c in (ground arith, ground arith, ground arith)

-- How the loop ends from each phase in which it looks at the stop channel.
abbrev pub ended : Phase → Reconnector → Reconnector
ended dialing r = end_loop (leave_dial r)
ended watching r = end_loop (drop r)
ended _ r = end_loop r

-- The phases in which the loop looks at the stop channel.
abbrev pub sees_stop : Phase → Bool
sees_stop not_running = false
sees_stop checking = false
sees_stop _ = true

run-stopped :
    (p : Phase) (r : Reconnector)
    → sees_stop p ≡ true
    → r.stopping ≡ true
    → run p stopped r ≡ some (ended p r)
unfolding run
run-stopped not_running r k e = absurd (cc)
run-stopped checking r k e = absurd (cc)
run-stopped disabled_wait r k e = ground arith
run-stopped dialing r k e = ground arith
run-stopped retry_wait r k e = ground arith
run-stopped watching r k e = ground arith

ended-clean :
    (p : Phase) (r : Reconnector)
    → r.phase ≡ p
    → IsSoundFor 0 r
    → ((ended p r).phase ≡ not_running) × ((ended p r).opened ≡ []) × ((ended p r).current ≡ none)
unfolding end_loop leave_dial drop without
ended-clean not_running r e s = ground arith
ended-clean checking r e s = ground arith
ended-clean disabled_wait r e s = ground arith
ended-clean dialing r e s = ground arith
ended-clean retry_wait r e s = ground arith
ended-clean watching r e s = ground arith

-- Where the loop waits, dials or watches, it may end as soon as Stop has closed the channel, and
-- leaves no connection open or current.
ends_on_stop :
    (r : Reconnector)
    → IsSound r
    → sees_stop r.phase ≡ true
    → r.stopping ≡ true
    → (r' : Reconnector) × (step r stopped ≡ some r')
      × (r'.phase ≡ not_running)
      × (r'.opened ≡ [])
      × (r'.current ≡ none)
unfolding step
ends_on_stop r s k e =
    let (a, b, c) = ended-clean r.phase r refl (s 0) in
    (ended r.phase r, run-stopped r.phase r k e, a, b, c)

sees-running : (p : Phase) → sees_stop p ≡ true → is_running p ≡ true
sees-running not_running h = absurd (cc)
sees-running checking h = refl
sees-running disabled_wait h = refl
sees-running dialing h = refl
sees-running retry_wait h = refl
sees-running watching h = refl

-- The state behind what Enabled says.
abbrev checked : Bool → Reconnector → Reconnector
checked true r = record r { phase = dialing }
checked false r = begin_wait disabled_wait 0 r

checked-sees : (b : Bool) (r : Reconnector) → sees_stop (checked b r).phase ≡ true
unfolding begin_wait
checked-sees true r = refl
checked-sees false r = refl

checked-stopping : (b : Bool) (r : Reconnector) → (checked b r).stopping ≡ r.stopping
unfolding begin_wait
checked-stopping true r = refl
checked-stopping false r = refl

check_begins :
    (r : Reconnector) (b : Bool) → r.phase ≡ checking → step r (enabled b) ≡ some (checked b r)
unfolding step
check_begins r true e = ground arith
check_begins r false e = ground arith

stop_requested :
    (r : Reconnector)
    → r.stopping ≡ false
    → is_running r.phase ≡ true
    → step r stop ≡ some (record r { stopping = true })
unfolding step
stop_requested r e k = ground arith

-- In every state that can be reached, without a Stop under way, Stop ends a loop that waits, dials or watches: it can end at
-- once, and leaves no connection open or current.
pub stop_ends :
    (r : Reconnector)
    → Reach r
    → r.stopping ≡ false
    → sees_stop r.phase ≡ true
    → (r₁ r' : Reconnector) × (step r stop ≡ some r₁)
      × (step r₁ stopped ≡ some r')
      × (r'.phase ≡ not_running)
      × (r'.opened ≡ [])
      × (r'.current ≡ none)
stop_ends r h free sees =
    let asked = stop_requested r free (sees-running r.phase sees) in
    let sound = Reach-IsSound (next h stop asked) in
    let (r', e, over, shut, lone) = ends_on_stop (record r { stopping = true }) sound sees refl in
    (record r { stopping = true }, r', asked, e, over, shut, lone)

-- In every state that can be reached, without a Stop under way, Stop also ends a loop that stands at its top: it can end
-- after the wait or the dial that follows has begun, whatever Enabled says, and leaves no
-- connection open or current.
stop_ends_from_top :
    (r : Reconnector) (b : Bool)
    → Reach r
    → r.stopping ≡ false
    → r.phase ≡ checking
    → (r₁ r₂ r' : Reconnector) × (step r stop ≡ some r₁)
      × (step r₁ (enabled b) ≡ some r₂)
      × (step r₂ stopped ≡ some r')
      × (r'.phase ≡ not_running)
      × (r'.opened ≡ [])
      × (r'.current ≡ none)
stop_ends_from_top r b h free top =
    let asked = stop_requested r free (ap is_running top) in
    let r₁ = record r { stopping = true } in
    let began = check_begins r₁ b top in
    let sound = Reach-IsSound (next (next h stop asked) (enabled b) began) in
    let (r', e, over, shut, lone) =
      ends_on_stop (checked b r₁) sound (checked-sees b _) (checked-stopping b _) in
    (r₁, checked b r₁, r', asked, began, e, over, shut, lone)
