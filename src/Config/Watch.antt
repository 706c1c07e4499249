-- ===== src/Config/Watch.antt =====
-- internal/config/watch.go: the loop of WatchConfigFileChanges, which waits until the file has been left alone
-- before it reloads. Time is in milliseconds; an input is a branch of the select, or time that goes by.
use deej.Prelude.{
  ℕ, ◌≡◌, refl, ap, sym, ◌∙◌, Bool, true, false, ◌||◌, ◌&&◌, List, [], ◌∷◌, Option, none, some,
  arith, if◌then◌else◌, ◌≤◌, ◌+◌, leb, leb→le, Bool-cases, inl, inr,
}
use deej.Prelude.Text.{Text, Unicode, equal_fold}
pub mod Debounced

-- fsnotify.Op, a bit for each.
pub record Op : Type 0 where
  pub create : Bool
  pub write : Bool
  pub remove : Bool
  pub rename : Bool
  pub chmod : Bool

abbrev pub watch_debounce_delay : ℕ
watch_debounce_delay = 250

-- What the loop did: it armed the timer for a change of the file, or called handleConfigFileChange.
pub data Entry : Type 0 where
  changed reloaded : ℕ → Entry

-- The state of the loop; `debounce` is when the timer will fire, if it is armed, and the log is newest first.
pub record Watcher : Type 0 where
  pub running : Bool
  pub now : ℕ
  pub debounce : Option ℕ
  pub log : List Entry

pub data WatchInput : Type 0 where
  passes : ℕ → WatchInput
  file_event : Text → Op → WatchInput
  events_closed watch_error errors_closed tick stop_watcher : WatchInput

abbrev pub begin_watch : ℕ → Watcher
begin_watch n = record { running = true; now = n; debounce = none; log = [] }

-- Whether the channel of the timer is ready. A tick that was not taken before a Reset is gone with it.
unfoldable pub is_due : Option ℕ → ℕ → Bool
is_due none now = false
is_due (some t) now = leb t now

-- Whether an event is for the configuration file and changes it; `clean` is filepath.Clean.
unfoldable pub is_relevant : Unicode → (Text → Text) → Text → Text → Op → Bool
unfolding equal_fold
is_relevant u clean path name op =
    equal_fold u (clean name) (clean path) && (op.write || op.create || op.rename)

-- The return of the loop, which stops the timer.
unfoldable pub end_watch : Watcher → Watcher
end_watch w = record w { running = false; debounce = none }

-- One round of the select.
unfoldable pub watch_round : Unicode → (Text → Text) → Text → WatchInput → Watcher → Watcher
unfolding is_due is_relevant end_watch
watch_round u clean path (WatchInput.passes n) w = record w { now = w.now + n }
watch_round u clean path (WatchInput.file_event name op) w =
    if is_relevant u clean path name op
    then record w {
      debounce = some (w.now + watch_debounce_delay);
      log = Entry.changed w.now ∷ w.log;
    }
    else w
watch_round u clean path WatchInput.events_closed w = end_watch w
watch_round u clean path WatchInput.watch_error w = w
watch_round u clean path WatchInput.errors_closed w = end_watch w
watch_round u clean path WatchInput.tick w =
    if is_due w.debounce w.now
    then record w { debounce = none; log = Entry.reloaded w.now ∷ w.log }
    else w
watch_round u clean path WatchInput.stop_watcher w = end_watch w

unfoldable pub watch_step : Unicode → (Text → Text) → Text → WatchInput → Watcher → Watcher
unfolding watch_round
watch_step u clean path i w = if w.running then watch_round u clean path i w else w

-- `WatchConfigFileChanges` over its inputs.
unfoldable pub watch_file : Unicode → (Text → Text) → Text → List WatchInput → Watcher → Watcher
unfolding watch_step
watch_file u clean path [] w = w
watch_file u clean path (i ∷ is) w = watch_file u clean path is (watch_step u clean path i w)

-- A reload at a time answers a change right before it in the log, which is older by the delay at least.
abbrev pub IsQuiet : ℕ → List Entry → Type 0
IsQuiet t [] = ⊥
IsQuiet t (Entry.changed e ∷ l) = e + watch_debounce_delay ≤ t
IsQuiet t (Entry.reloaded e ∷ l) = ⊥

abbrev pub IsDebounced : List Entry → Type 0
IsDebounced [] = Unit {0}
IsDebounced (Entry.changed e ∷ l) = IsDebounced l
IsDebounced (Entry.reloaded t ∷ l) = IsQuiet t l × IsDebounced l

-- The log with the reload at a time of a change that has none yet.
abbrev pub settled : ℕ → List Entry → List Entry
settled t [] = []
settled t (Entry.changed e ∷ l) = Entry.reloaded t ∷ Entry.changed e ∷ l
settled t (Entry.reloaded e ∷ l) = Entry.reloaded e ∷ l
