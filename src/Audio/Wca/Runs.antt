-- ===== src/Audio/Wca/Runs.antt =====
-- The mixer has the sessions of the finder for Windows after any inputs, and each session is released
-- once.
use deej.Prelude.{
  ℕ, ◌+◌, ◌≡◌, Bool, true, ◌&&◌, ◌||◌, not, List, [], ◌∷◌, ◌++◌, Option, none, some, ◌==◌,
  if◌then◌else◌, count, length, subst, if_both, ltb,
}
use deej.Prelude.Text.{Unicode}
use deej.Mixer.Sessions.{Attributes}
use deej.Audio.Delivery.{IsDelivered, releases, reach, IsInStep-nil}
use deej.Audio.Session.{attributes_of_bases}
use deej.Audio.Com.{Com}
use deej.Audio.Wca.{Finder, Job, WorkerState, new_session_finder, live}
use deej.Audio.Wca.Worker.{initialize_all_device_managers}
use deej.Audio.Wca.Callbacks.{
  dispatch_work, device_work_chan_size, DataFlow, too_soon, is_output_flow, is_input_flow,
  default_device_changed, start, begin_worker, end_worker, is_working, is_idle, Input, take_job,
  step, Reach, device_state_active, audio_session_state_expired,
}
use deej.Audio.Wca.Invariant.{IsSound}
use deej.Audio.Wca.Additions.{cleanup-IsSound}
use deej.Audio.Wca.Steps.{
  initialize_all_device_managers-IsSound, refresh_masters-IsSound, run_job-IsSound,
}

module _ (a : Attributes) (mapped : ℕ → Bool) where
  abbrev pub Sound : Finder → Type 0
  Sound f = IsSound a mapped [] f

  abbrev IfAny : Option Finder → Type 0
  IfAny none = Unit {0}
  IfAny (some f) = Sound f

  -- What stands outside the maps does not count.
  outside-IsSound :
      (f : Finder) (started released : Bool) (worker : WorkerState) (output input : Option ℕ)
      (jobs : List Job)
      → Sound f
      → Sound (record f {
        started = started;
        released = released;
        worker = worker;
        last_output_change = output;
        last_input_change = input;
        work_chan = jobs;
      })
  outside-IsSound f started released worker output input jobs h = record {
    in_step = h.in_step;
    ids = h.ids;
    devices = h.devices;
  }

  dispatch_work-IsSound : (j : Job) (f : Finder) → Sound f → Sound (dispatch_work j f)
  unfolding dispatch_work
  dispatch_work-IsSound j f h =
      if_both Sound (ltb (length f.work_chan) device_work_chan_size)
        (outside-IsSound f f.started f.released f.worker f.last_output_change f.last_input_change
          (f.work_chan ++ j ∷ []) h)
        h

  default_device_changed-IsSound :
      (flow : DataFlow) (now : ℕ) (f : Finder) → Sound f → Sound (default_device_changed flow now f)
  unfolding default_device_changed
  default_device_changed-IsSound flow now f h =
      if_both Sound (output || input) (dispatch_work-IsSound (Job.refresh output input) g kept) kept
    where
      output : Bool
      output = is_output_flow flow && not (too_soon f.last_output_change now)

      input : Bool
      input = is_input_flow flow && not (too_soon f.last_input_change now)

      g : Finder
      g = record f {
        last_output_change = if output then some now else f.last_output_change;
        last_input_change = if input then some now else f.last_input_change;
      }

      kept : Sound g
      kept = record { in_step = h.in_step; ids = h.ids; devices = h.devices }

  start-IsSound : (f : Finder) → Sound f → Sound (start f).1
  unfolding start
  start-IsSound f h =
      if_both (λ (o : Bool × Finder). Sound o.1) f.released h
        (if_both (λ (o : Bool × Finder). Sound o.1) f.started h
          (outside-IsSound f true f.released f.worker f.last_output_change f.last_input_change
            f.work_chan h))

  at_worker : (w : WorkerState) (f : Finder) → Sound f → Sound (record f { worker = w })
  at_worker w f h =
      outside-IsSound f f.started f.released w f.last_output_change f.last_input_change f.work_chan
        h

  begin_worker-IsSound :
      (u : Unicode) (api : Com) (b : Bool) (f : Finder) → Sound f → Sound (begin_worker u api b f)
  unfolding begin_worker
  begin_worker-IsSound u api b f h =
      let w : Finder = record f { worker = WorkerState.working } in
      if_both Sound b
        (refresh_masters-IsSound a mapped api true true
          (initialize_all_device_managers u api api.endpoints w)
          (initialize_all_device_managers-IsSound a mapped u api api.endpoints w
            (at_worker WorkerState.working f h)))
        (cleanup-IsSound a mapped (record f { worker = WorkerState.ended })
          (at_worker WorkerState.ended f h))

  end_worker-IsSound : (f : Finder) → Sound f → Sound (end_worker f)
  unfolding end_worker
  end_worker-IsSound f h =
      cleanup-IsSound a mapped (record f { worker = WorkerState.ended })
        (at_worker WorkerState.ended f h)

  take_job-IfAny :
      (u : Unicode) (api : Com) (js : List Job) (f : Finder) → Sound f → IfAny (take_job u api js f)
  unfolding take_job
  take_job-IfAny u api [] f h = tt
  take_job-IfAny u api (j ∷ js) f h =
      run_job-IsSound a mapped u api j (record f { work_chan = js })
        (outside-IsSound f f.started f.released f.worker f.last_output_change f.last_input_change js
          h)

  step-IfAny : (u : Unicode) (f : Finder) (i : Input) → Sound f → IfAny (step u f i)
  unfolding step
  step-IfAny u f Input.call_start h = start-IsSound f h
  step-IfAny u f Input.call_release h =
      outside-IsSound f f.started true f.worker f.last_output_change f.last_input_change f.work_chan
        h
  step-IfAny u f (Input.worker_begins api b) h =
      if_both IfAny (f.started && is_idle f.worker) (begin_worker-IsSound u api b f h) tt
  step-IfAny u f (Input.work api) h =
      if_both IfAny (is_working f.worker) (take_job-IfAny u api f.work_chan f h) tt
  step-IfAny u f Input.worker_ends h =
      if_both IfAny (f.released && is_working f.worker) (end_worker-IsSound f h) tt
  step-IfAny u f (Input.session_created device c) h =
      dispatch_work-IsSound (Job.add_session device c) f h
  step-IfAny u f (Input.session_state id state) h =
      if_both Sound (state == audio_session_state_expired)
        (dispatch_work-IsSound (Job.remove_tracked id) f h) h
  step-IfAny u f (Input.session_disconnected id) h =
      dispatch_work-IsSound (Job.remove_tracked id) f h
  step-IfAny u f (Input.default_device flow now) h = default_device_changed-IsSound flow now f h
  step-IfAny u f (Input.device_added id) h = dispatch_work-IsSound (Job.add_device id) f h
  step-IfAny u f (Input.device_removed id) h = dispatch_work-IsSound (Job.remove_device id) f h
  step-IfAny u f (Input.device_state id state) h =
      dispatch_work-IsSound
        (if state == device_state_active then Job.add_device id else Job.remove_device id) f h

  pub Reach-IsSound : (u : Unicode) {f : Finder} → Reach u f → Sound f
  unfolding new_session_finder
  Reach-IsSound u Reach.begin = record { in_step = IsInStep-nil a mapped; ids = tt; devices = tt }
  Reach-IsSound u (Reach.next {f} {f'} r i e) = subst IfAny e (step-IfAny u f i (Reach-IsSound u r))

-- After any inputs, in any order, the mixer that took the events of the finder has each session as often
-- as the finder holds it; no session was announced that the mixer had, none was removed that it had
-- not, none was released while it had it; and of the sessions made, each is held or was released
-- once, and not both.
pub Reach-matched :
    (u : Unicode) (mapped : ℕ → Bool) {f : Finder}
    → Reach u f
    → let a = attributes_of_bases u f.made in
      IsDelivered a mapped f.log
      × ((t : ℕ) → reach a mapped t f.log ≡ count t (live f))
      × ((t : ℕ) → count t (live f) + releases t f.log ≡ (if ltb t (length f.made) then 1 else 0))
Reach-matched u mapped {f} r =
    let h = (Reach-IsSound (attributes_of_bases u f.made) mapped u r).in_step in
    (h.delivered, h.reaches, h.owned)
