-- ===== src/Config/Watch/Debounced.antt =====
-- The loop of internal/config/watch.go reloads once for each burst of changes.
use deej.Prelude.{
  ℕ, ◌≡◌, refl, ap, sym, ◌∙◌, subst, Bool, true, false, List, [], ◌∷◌, Option, none, some, arith,
  if◌then◌else◌, ◌≤◌, ◌+◌, leb→le, le→leb, Bool-cases, inl, inr,
}
use deej.Prelude.Text.{Text, Unicode}
use deej.Config.Watch.{
  Entry, Watcher, WatchInput, watch_debounce_delay, begin_watch, is_due, is_relevant, end_watch,
  watch_round, watch_step, watch_file, IsQuiet, IsDebounced, settled,
}

-- When the timer fires, by the log.
abbrev timer_of : List Entry → Option ℕ
timer_of [] = none
timer_of (Entry.changed e ∷ l) = some (e + watch_debounce_delay)
timer_of (Entry.reloaded t ∷ l) = none

abbrev IsRecent : ℕ → List Entry → Type 0
IsRecent now [] = Unit {0}
IsRecent now (Entry.changed e ∷ l) = e ≤ now
IsRecent now (Entry.reloaded t ∷ l) = Unit {0}

abbrev IsSound : Watcher → Type 0
IsSound w =
    IsDebounced w.log × ((w.running ≡ true → w.debounce ≡ timer_of w.log) × IsRecent w.now w.log)

IsRecent-later : (now n : ℕ) (l : List Entry) → IsRecent now l → IsRecent (now + n) l
IsRecent-later now n [] h = tt
IsRecent-later now n (Entry.changed e ∷ l) h = omega (arith, h)
IsRecent-later now n (Entry.reloaded t ∷ l) h = tt

-- A timer that is due was armed by a change that is old enough.
is_due-IsQuiet : (now : ℕ) (l : List Entry) → is_due (timer_of l) now ≡ true → IsQuiet now l
unfolding is_due
is_due-IsQuiet now [] h = absurd (cc h)
is_due-IsQuiet now (Entry.changed e ∷ l) h = leb→le (e + watch_debounce_delay) now h
is_due-IsQuiet now (Entry.reloaded t ∷ l) h = absurd (cc h)

end_watch-IsSound : (w : Watcher) → IsSound w → IsSound (end_watch w)
unfolding end_watch
end_watch-IsSound w h = (h.0, (λ r. absurd (cc r), h.1.1))

watch_round-IsSound :
    (u : Unicode) (clean : Text → Text) (path : Text) (i : WatchInput) (w : Watcher)
    → w.running ≡ true
    → IsSound w
    → IsSound (watch_round u clean path i w)
unfolding watch_round
watch_round-IsSound u clean path (WatchInput.passes n) w r h =
    (h.0, (h.1.0, IsRecent-later w.now n w.log h.1.1))
watch_round-IsSound u clean path (WatchInput.file_event name op) w r h =
    elim (Bool-cases (is_relevant u clean path name op)) [
      | inl q ↦ rw q (h.0, (λ s. refl, omega arith))
      | inr q ↦ rw q h
    ]
watch_round-IsSound u clean path WatchInput.events_closed w r h = end_watch-IsSound w h
watch_round-IsSound u clean path WatchInput.watch_error w r h = h
watch_round-IsSound u clean path WatchInput.errors_closed w r h = end_watch-IsSound w h
watch_round-IsSound u clean path WatchInput.tick w r h =
    elim (Bool-cases (is_due w.debounce w.now)) [
      | inl q ↦ rw q (
        (
          is_due-IsQuiet w.now w.log (ap (λ (o : Option ℕ). is_due o w.now) (sym (h.1.0 r)) ∙ q),
          h.0,
        ),
        (λ s. refl, tt),
      )
      | inr q ↦ rw q h
    ]
watch_round-IsSound u clean path WatchInput.stop_watcher w r h = end_watch-IsSound w h

watch_step-IsSound :
    (u : Unicode) (clean : Text → Text) (path : Text) (i : WatchInput) (w : Watcher)
    → IsSound w
    → IsSound (watch_step u clean path i w)
unfolding watch_step
watch_step-IsSound u clean path i w h = elim (Bool-cases w.running) [
  | inl q ↦
      subst (λ (b : Bool). IsSound (if b then watch_round u clean path i w else w)) (sym q)
        (watch_round-IsSound u clean path i w q h)
  | inr q ↦ subst (λ (b : Bool). IsSound (if b then watch_round u clean path i w else w)) (sym q) h
]

watch_file-IsSound :
    (u : Unicode) (clean : Text → Text) (path : Text) (is : List WatchInput) (w : Watcher)
    → IsSound w
    → IsSound (watch_file u clean path is w)
unfolding watch_file
watch_file-IsSound u clean path [] w h = h
watch_file-IsSound u clean path (i ∷ is) w h =
    watch_file-IsSound u clean path is (watch_step u clean path i w)
      (watch_step-IsSound u clean path i w h)

abbrev pub and_tick : List WatchInput
and_tick = WatchInput.passes watch_debounce_delay ∷ WatchInput.tick ∷ []

tick-settled :
    (u : Unicode) (clean : Text → Text) (path : Text) (now : ℕ) (l : List Entry)
    → IsRecent now l
    → (watch_file u clean path and_tick
        (record { running = true; now = now; debounce = timer_of l; log = l })).log
      ≡ settled (now + watch_debounce_delay) l
unfolding watch_file watch_step watch_round is_due
tick-settled u clean path now [] h = refl
tick-settled u clean path now (Entry.changed e ∷ l) h =
    rw (le→leb (e + watch_debounce_delay) (now + watch_debounce_delay) (omega (arith, h))) refl
tick-settled u clean path now (Entry.reloaded t ∷ l) h = refl

and_tick-settled :
    (u : Unicode) (clean : Text → Text) (path : Text) (running : Bool) (now : ℕ) (o : Option ℕ)
    (l : List Entry)
    → IsSound (record { running = running; now = now; debounce = o; log = l })
    → (watch_file u clean path and_tick
        (record { running = running; now = now; debounce = o; log = l })).log
      ≡ (if running then settled (now + watch_debounce_delay) l else l)
unfolding watch_file watch_step
and_tick-settled u clean path true now o l h =
    ap
      (λ (x : Option ℕ).
        (watch_file u clean path and_tick
          (record { running = true; now = now; debounce = x; log = l })).log)
      (h.1.0 refl)
    ∙ tick-settled u clean path now l h.1.1
and_tick-settled u clean path false now o l h = refl

-- After any events, ticks and errors, each reload of the file answers a change that came right before it in the
-- log and at least the delay earlier, so a burst of changes is one reload; and if then the delay passes and the
-- timer is read, a change without a reload gets one, unless the loop has ended.
pub watch_file-settled :
    (u : Unicode) (clean : Text → Text) (path : Text) (is : List WatchInput) (n : ℕ)
    → let w = watch_file u clean path is (begin_watch n) in
      IsDebounced w.log
      × ((watch_file u clean path and_tick w).log
          ≡ (if w.running then settled (w.now + watch_debounce_delay) w.log else w.log))
watch_file-settled u clean path is n =
    let w = watch_file u clean path is (begin_watch n) in
    let sound = watch_file-IsSound u clean path is (begin_watch n) (tt, ((λ r. refl), tt)) in
    (sound.0, and_tick-settled u clean path w.running w.now w.debounce w.log sound)
