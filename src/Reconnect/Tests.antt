-- ===== src/Reconnect/Tests.antt =====
-- Runs of the reconnector: a dial that succeeds, and a Stop.
use deej.Prelude.{◌≡◌, refl, true, [], Option, none, some}
use deej.Reconnect.Steps.{
  not_running, checking, dialing, start, stop, stopped, enabled, dial_done, Reconnector, new,
  open_next, drop, adopt, end_loop, dial_result, run, step, Reach, begin, next,
}
use deej.Reconnect.Invariant.{IsSound, Reach-IsSound}
use deej.Reconnect.Contract.{heard, Reach-heard}
use deej.Reconnect.Lifecycle.{stop_ends}

abbrev after : Reconnector → Option Reconnector → Reconnector
after r none = r
after r (some s) = s

abbrev started : Reconnector
started = record new { phase = checking }

abbrev dialing_once : Reconnector
dialing_once = record started { phase = dialing }

abbrev connected : Reconnector
connected = adopt 0 (open_next dialing_once)

started_Reach : Reach started
unfolding step new
started_Reach = next begin start refl

dialing_Reach : Reach dialing_once
unfolding step run
dialing_Reach = next started_Reach (enabled true) refl

connected_Reach : Reach connected
unfolding step run dial_result new open_next
connected_Reach = next dialing_Reach (dial_done true) refl

Reach-IsSound_example : IsSound connected
Reach-IsSound_example = Reach-IsSound connected_Reach

stop_ends_example :
    (r₁ r' : Reconnector) × (step connected stop ≡ some r₁)
    × (step r₁ stopped ≡ some r')
    × (r'.phase ≡ not_running)
    × (r'.opened ≡ [])
    × (r'.current ≡ none)
unfolding adopt open_next new
stop_ends_example = stop_ends connected connected_Reach refl refl

abbrev asked : Reconnector
asked = record connected { stopping = true }

abbrev over : Reconnector
over = end_loop (drop asked)

over_Reach : Reach over
unfolding step run adopt open_next new
over_Reach = next (next connected_Reach stop refl) stopped refl

Reach-heard_example : heard connected.log ≡ some connected.current
Reach-heard_example = Reach-heard connected_Reach
