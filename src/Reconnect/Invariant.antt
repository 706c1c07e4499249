-- ===== src/Reconnect/Invariant.antt =====
-- What holds of the reconnector after any inputs: at most one connection is open, and every other
-- one that was dialled has been closed, once.
use deej.Prelude.{
  ℕ, zero, suc, ◌+◌, ◌≡◌, refl, Bool, true, false, List, [], ◌∷◌, Option, none, some, arith, ◌==◌,
  ltb, if◌then◌else◌, count,
}
use deej.Reconnect.Steps.{
  Phase, not_running, checking, disabled_wait, dialing, retry_wait, watching, Input, start, stop,
  reconnect, stopped, enabled, time_over, dial_failed, dial_done, late_failed, late_done,
  watch_failed, error_received, Reconnector, new, without, open_next, close_connection, run, step,
  Reach, begin, next, end_late, close_late,
}

abbrev pub has {ℓ} : {A : Type ℓ} → Option A → Bool
has none = false
has (some a) = true

abbrev pub listed : Option ℕ → List ℕ
listed none = []
listed (some c) = c ∷ []

abbrev pub is_watching : Phase → Bool
is_watching watching = true
is_watching _ = false

-- The invariant as it concerns the connection of number `c`.
pub record IsSoundFor (c : ℕ) (r : Reconnector) : Type 0 where
  -- the open connections are the current one, if there is one
  pub one_open : r.opened ≡ listed r.current
  pub with_channel : has r.err_channel ≡ has r.current
  pub while_watching : has r.current ≡ is_watching r.phase
  -- a dialled connection is open or was closed, once; no other number was ever a connection
  pub accounted : count c r.closed + count c r.opened ≡ (if ltb c r.dialled then 1 else 0)
  pub stop_pending : r.phase ≡ not_running → r.stopping ≡ false

abbrev pub IsSound : Reconnector → Type 0
IsSound r = (c : ℕ) → IsSoundFor c r

new-IsSoundFor : (c : ℕ) → IsSoundFor c new
unfolding new
new-IsSoundFor c = ground arith

run-IsSoundFor :
    (c : ℕ) (p : Phase) (i : Input) (r : Reconnector) {r' : Reconnector}
    → r.phase ≡ p
    → run p i r ≡ some r'
    → IsSoundFor c r
    → IsSoundFor c r'
unfolding run without
run-IsSoundFor c checking (enabled true) r e h s = ground arith
run-IsSoundFor c checking (enabled false) r e h s = ground arith
run-IsSoundFor c disabled_wait time_over r e h s = ground arith
run-IsSoundFor c disabled_wait stopped r e h s = ground arith
run-IsSoundFor c dialing stopped r e h s = ground arith
run-IsSoundFor c dialing dial_failed r e h s = ground arith
run-IsSoundFor c dialing (dial_done true) r e h s = ground arith
run-IsSoundFor c dialing (dial_done false) r e h s = ground arith
run-IsSoundFor c retry_wait time_over r e h s = ground arith
run-IsSoundFor c retry_wait stopped r e h s = ground arith
run-IsSoundFor c watching stopped r e h s = ground arith
run-IsSoundFor c watching error_received r e h s = ground arith
run-IsSoundFor c _ _ r e h s = absurd (cc)

end_late-IsSoundFor :
    (c n : ℕ) (r : Reconnector) {r' : Reconnector}
    → end_late n r ≡ some r'
    → IsSoundFor c r
    → IsSoundFor c r'
end_late-IsSoundFor c zero r h s = absurd (cc)
end_late-IsSoundFor c (suc n) r h s = ground arith

count-without :
    (d c : ℕ) (ds : List ℕ) → count c (without d ds) ≡ (if d == c then 0 else count c ds)
unfolding without
count-without d c [] = ground arith
count-without d c (x ∷ ds) = ground (arith, count-without d c ds)

-- The next connection is not the current one.
without-dialled :
    (r : Reconnector)
    → IsSoundFor r.dialled r
    → without r.dialled (r.dialled ∷ r.opened) ≡ listed r.current
unfolding without
without-dialled r s = ground arith

close_late-IsSoundFor :
    (c n : ℕ) (r : Reconnector) {r' : Reconnector}
    → close_late (end_late n r) ≡ some r'
    → IsSound r
    → IsSoundFor c r'
unfolding close_connection open_next
close_late-IsSoundFor c zero r h s = absurd (cc)
close_late-IsSoundFor c (suc n) r h s =
    let here = s c in
    ground
      (arith, without-dialled r (s r.dialled), count-without r.dialled c (r.dialled ∷ r.opened))

pub step-IsSoundFor :
    (c : ℕ) (r : Reconnector) (i : Input) {r' : Reconnector}
    → step r i ≡ some r'
    → IsSound r
    → IsSoundFor c r'
unfolding step
step-IsSoundFor c r start h s = let here = s c in ground arith
step-IsSoundFor c r stop h s = let here = s c in ground arith
step-IsSoundFor c r reconnect h s = let here = s c in ground arith
step-IsSoundFor c r (watch_failed d) h s = let here = s c in ground arith
step-IsSoundFor c r late_failed h s = end_late-IsSoundFor c r.late r h (s c)
step-IsSoundFor c r late_done h s = close_late-IsSoundFor c r.late r h s
step-IsSoundFor c r i h s = run-IsSoundFor c r.phase i r refl h (s c)

-- After any inputs there is a current connection, with an error channel, exactly while the loop
-- watches; it is the only open one; every other connection that was dialled has been closed
-- exactly once; and no stop is pending once the loop has ended.
pub Reach-IsSound : {r : Reconnector} → Reach r → IsSound r
Reach-IsSound begin c = new-IsSoundFor c
Reach-IsSound (next {r} h i e) c = step-IsSoundFor c r i e (Reach-IsSound h)
