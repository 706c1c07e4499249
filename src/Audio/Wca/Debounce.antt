-- ===== src/Audio/Wca/Debounce.antt =====
-- The filter of the many calls that Windows makes for one change of a default device.
use deej.Prelude.{ℕ, true, false, some}
use deej.Audio.Wca.{Finder, Job}
use deej.Audio.Wca.Callbacks.{dispatch_work}

abbrev changed : ℕ → Finder → Finder
changed now g = dispatch_work (Job.refresh true false) (record g { last_output_change = some now })
