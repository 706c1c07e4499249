-- ===== src/Clients/Renewal/Kept.antt =====
-- What the steps of the reconnector do to the current connection and to a request to reconnect.
use deej.Prelude.{ℕ, zero, suc, ◌≡◌, refl, Bool, true, false, some, arith}
use deej.Reconnect.Steps
use deej.Reconnect.Steps.{Reconnector, Phase}
use deej.Reconnect.Invariant.{IsSoundFor, IsSound}
use deej.Clients.Renewal.{request_reconnect}

abbrev pub succeeds : Steps.Input → Bool
succeeds (Steps.dial_done true) = true
succeeds _ = false

-- What an input other than a successful dial does, where it leaves a current connection: the
-- connection was current before, and a request to reconnect is not lost.
abbrev pub Kept : ℕ → Reconnector → Reconnector → Type 0
Kept c r r' = (r.current ≡ some c) × (r.err_channel ≡ some true → r'.err_channel ≡ some true)

run-Kept :
    (c : ℕ) (p : Phase) (i : Steps.Input) (r : Reconnector) {r' : Reconnector}
    → Steps.run p i r ≡ some r'
    → succeeds i ≡ false
    → r'.current ≡ some c
    → IsSoundFor c r
    → Kept c r r'
unfolding Steps.run Steps.begin_wait Steps.end_loop Steps.leave_dial Steps.lose_connection
    Steps.dial_result Steps.drop Steps.close_connection Steps.open_next
run-Kept c Steps.checking (Steps.enabled true) r e n h s = ground arith
run-Kept c Steps.checking (Steps.enabled false) r e n h s = ground arith
run-Kept c Steps.disabled_wait Steps.time_over r e n h s = ground arith
run-Kept c Steps.disabled_wait Steps.stopped r e n h s = ground arith
run-Kept c Steps.dialing Steps.stopped r e n h s = ground arith
run-Kept c Steps.dialing Steps.dial_failed r e n h s = ground arith
run-Kept c Steps.dialing (Steps.dial_done true) r e n h s = absurd (cc n)
run-Kept c Steps.dialing (Steps.dial_done false) r e n h s = ground arith
run-Kept c Steps.retry_wait Steps.time_over r e n h s = ground arith
run-Kept c Steps.retry_wait Steps.stopped r e n h s = ground arith
run-Kept c Steps.watching Steps.stopped r e n h s = ground arith
run-Kept c Steps.watching Steps.error_received r e n h s = ground arith
run-Kept c _ _ r e n h s = absurd (cc)

end_late-Kept :
    (c n : ℕ) (r : Reconnector) {r' : Reconnector}
    → Steps.end_late n r ≡ some r'
    → r'.current ≡ some c
    → Kept c r r'
end_late-Kept c zero r e h = absurd (cc)
end_late-Kept c (suc n) r e h = ground arith

close_late-Kept :
    (c n : ℕ) (r : Reconnector) {r' : Reconnector}
    → Steps.close_late (Steps.end_late n r) ≡ some r'
    → r'.current ≡ some c
    → Kept c r r'
unfolding Steps.close_connection Steps.open_next
close_late-Kept c zero r e h = absurd (cc)
close_late-Kept c (suc n) r e h = ground arith

pub step-Kept :
    (c : ℕ) (i : Steps.Input) (r : Reconnector) {r' : Reconnector}
    → Steps.step r i ≡ some r'
    → succeeds i ≡ false
    → r'.current ≡ some c
    → IsSoundFor c r
    → Kept c r r'
unfolding Steps.step
step-Kept c Steps.start r e n h s = ground arith
step-Kept c Steps.stop r e n h s = ground arith
step-Kept c Steps.reconnect r e n h s = ground arith
step-Kept c (Steps.watch_failed d) r e n h s = ground arith
step-Kept c Steps.late_failed r e n h s = end_late-Kept c r.late r e h
step-Kept c Steps.late_done r e n h s = close_late-Kept c r.late r e h
step-Kept c i r e n h s = run-Kept c r.phase i r e n h s

-- A dial that succeeds leaves the connection that it made.
pub run-dial_done :
    (p : Phase) (r : Reconnector) {r' : Reconnector}
    → Steps.run p (Steps.dial_done true) r ≡ some r'
    → r'.current ≡ some r.dialled
unfolding Steps.run Steps.dial_result Steps.adopt Steps.open_next
run-dial_done Steps.dialing r e = ground arith
run-dial_done _ r e = absurd (cc)

-- A request to reconnect a current connection is heard.
pub request-heard :
    (c : ℕ) (r : Reconnector)
    → r.current ≡ some c
    → IsSoundFor c r
    → (request_reconnect r).err_channel ≡ some true
unfolding request_reconnect Steps.step
request-heard c r h s = ground arith

pub request-current : (r : Reconnector) → (request_reconnect r).current ≡ r.current
unfolding request_reconnect Steps.step
request-current r = refl

pub request-IsSound : (r : Reconnector) → IsSound r → IsSound (request_reconnect r)
unfolding request_reconnect Steps.step
request-IsSound r s c = let here = s c in ground arith
