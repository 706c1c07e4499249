-- ===== src/Reconnect/Contract.antt =====
-- The order in which the loop of internal/reconnect/reconnect.go makes its callbacks.
use deej.Prelude.{
  ℕ, zero, suc, ◌≡◌, refl, true, false, List, [], ◌∷◌, Option, none, some, arith, ◌==◌,
  if◌then◌else◌, Option-cases, inl, inr,
}
use deej.Reconnect.Steps.{
  Phase, checking, disabled_wait, dialing, retry_wait, watching, Callback, on_up, on_down, close,
  wait, Input, start, stop, reconnect, stopped, enabled, time_over, dial_failed, dial_done,
  late_failed, late_done, watch_failed, error_received, Reconnector, new, open_next,
  close_connection, drop, adopt, begin_wait, end_loop, leave_dial, lose_connection, dial_result,
  run, step, Reach, begin, next, end_late, close_late,
}
use deej.Reconnect.Invariant.{IsSoundFor, IsSound, Reach-IsSound}

-- The owner's view of one callback: which connection is up behind it, or none where the callback may not
-- come. A connection comes up while none is; one goes down, and a wait begins, accordingly; a connection
-- that is closed is the one that is up, which then is not, or one that never came up.
unfoldable pub heard_next : Callback → Option ℕ → Option (Option ℕ)
heard_next (on_up c) none = some (some c)
heard_next (on_up c) (some d) = none
heard_next on_down none = none
heard_next on_down (some d) = some (some d)
heard_next (close c) none = some none
heard_next (close c) (some d) = if d == c then some none else some (some d)
heard_next (wait n) none = some none
heard_next (wait n) (some d) = none

abbrev pub heard_after : Callback → Option (Option ℕ) → Option (Option ℕ)
heard_after b none = none
heard_after b (some up) = heard_next b up

-- The same of callbacks, newest first.
unfoldable pub heard : List Callback → Option (Option ℕ)
unfolding heard_next
heard [] = some none
heard (b ∷ bs) = heard_after b (heard bs)

-- A fresh number is not that of the current connection.
fresh-current :
    (r : Reconnector) (c : ℕ) → IsSoundFor c r → r.current ≡ some c → (c == r.dialled) ≡ false
fresh-current r c s e = ground arith

heard-close_fresh :
    (r : Reconnector)
    → IsSound r
    → heard r.log ≡ some r.current
    → heard (close r.dialled ∷ r.log) ≡ some r.current
unfolding heard heard_next
heard-close_fresh r s h = elim (Option-cases r.current) [
  | inl e ↦ ground arith
  | inr (c, e) ↦ ground (arith, fresh-current r c (s c) e)
]

heard-run :
    (p : Phase) (i : Input) (r : Reconnector) {r' : Reconnector}
    → r.phase ≡ p
    → run p i r ≡ some r'
    → IsSound r
    → heard r.log ≡ some r.current
    → heard r'.log ≡ some r'.current
unfolding run begin_wait end_loop leave_dial lose_connection dial_result drop adopt close_connection
    open_next heard heard_next
heard-run checking (enabled true) r e k s h = let here = s 0 in ground arith
heard-run checking (enabled false) r e k s h = let here = s 0 in ground arith
heard-run disabled_wait time_over r e k s h = let here = s 0 in ground arith
heard-run disabled_wait stopped r e k s h = let here = s 0 in ground arith
heard-run dialing stopped r e k s h = let here = s 0 in ground arith
heard-run dialing dial_failed r e k s h = let here = s 0 in ground arith
heard-run dialing (dial_done true) r e k s h = let here = s 0 in ground arith
heard-run dialing (dial_done false) r e k s h =
    let here = s 0 in ground (arith, heard-close_fresh r s h)
heard-run retry_wait time_over r e k s h = let here = s 0 in ground arith
heard-run retry_wait stopped r e k s h = let here = s 0 in ground arith
heard-run watching stopped r e k s h = let here = s 0 in ground arith
heard-run watching error_received r e k s h = let here = s 0 in ground arith
heard-run _ _ r e k s h = absurd (cc)

heard-close_late :
    (n : ℕ) (r : Reconnector) {r' : Reconnector}
    → close_late (end_late n r) ≡ some r'
    → IsSound r
    → heard r.log ≡ some r.current
    → heard r'.log ≡ some r'.current
unfolding close_connection open_next
heard-close_late zero r k s h = absurd (cc)
heard-close_late (suc n) r k s h = ground (arith, heard-close_fresh r s h)

heard-end_late :
    (n : ℕ) (r : Reconnector) {r' : Reconnector}
    → end_late n r ≡ some r'
    → heard r.log ≡ some r.current
    → heard r'.log ≡ some r'.current
heard-end_late zero r k h = absurd (cc)
heard-end_late (suc n) r k h = ground arith

heard-step :
    (r : Reconnector) (i : Input) {r' : Reconnector}
    → step r i ≡ some r'
    → IsSound r
    → heard r.log ≡ some r.current
    → heard r'.log ≡ some r'.current
unfolding step
heard-step r start k s h = ground arith
heard-step r stop k s h = ground arith
heard-step r reconnect k s h = ground arith
heard-step r (watch_failed d) k s h = ground arith
heard-step r late_failed k s h = heard-end_late r.late r k h
heard-step r late_done k s h = heard-close_late r.late r k s h
heard-step r i k s h = heard-run r.phase i r refl k s h

-- After any inputs the callbacks came in an order that their owner can rely on, and the connection that
-- is up by them is the current one: OnUp comes only while none is up, OnDown only while one is, a wait
-- only while none is, and a Close is of the one that is up or of one that never came up.
pub Reach-heard : {r : Reconnector} → Reach r → heard r.log ≡ some r.current
unfolding new heard
Reach-heard begin = refl
Reach-heard (next h i e) = heard-step _ i e (Reach-IsSound h) (Reach-heard h)
