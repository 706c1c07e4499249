-- ===== src/Audio/Pulse/Steps.antt =====
-- Each input keeps what holds of the finder.
use deej.Prelude.{
  ℕ, refl, Bool, true, false, List, [], ◌∷◌, ◌++◌, Option, none, some, length, Bool-cases, if_both,
  inl, inr, ltb,
}
use deej.Prelude.Text.{Text, codes, text_eq}
use deej.Mixer.Sessions.{Attributes}
use deej.Audio.Session.{new_pa_session, new_named_master_session}
use deej.Audio.Server.{SinkInputInfo, DeviceInfo, Facility, EventType, Reply}
use deej.Audio.Pulse.{
  Job, text_or_empty, description_of, as_device, session_name, Op, Finder, clear_sessions,
  put_sink_input, put_sink, put_source, find_index,
}
use deej.Audio.Pulse.Worker.{
  dispatch_work, pa_work_chan_size, handle_subscribe_event, start, begin_release, end_release,
  operations_of, follow, perform, take_job, work_on, Input, step,
}
use deej.Audio.Pulse.Invariant.{IsSound, clear_sessions-IsSound}
use deej.Audio.Pulse.Operations.{
  replace_master_sink-IsSound, replace_master_source-IsSound, insert_sink_input-IsSound,
  insert_sink-IsSound, insert_source-IsSound, remove_sink_input_at-IsSound, remove_sink_at-IsSound,
  remove_source_at-IsSound,
}

module _ (a : Attributes) (mapped : ℕ → Bool) where
  put_sink_input-IsSound :
      (i : SinkInputInfo) (c : Option ℕ) (n : Option Text) (f : Finder)
      → IsSound a mapped f
      → IsSound a mapped (put_sink_input i c n f)
  unfolding put_sink_input new_pa_session
  put_sink_input-IsSound i none n f h = h
  put_sink_input-IsSound i (some c) none f h = h
  put_sink_input-IsSound i (some c) (some n) f h =
      insert_sink_input-IsSound a mapped
        (new_pa_session c i.index i.channels n (text_or_empty i.application_name))
        (find_index i.index f.sink_inputs) f refl h

  put_sink-IsSound :
      (d : DeviceInfo) (c : Option ℕ) (f : Finder)
      → IsSound a mapped f
      → IsSound a mapped (put_sink d c f)
  unfolding put_sink new_named_master_session
  put_sink-IsSound d none f h = h
  put_sink-IsSound d (some c) f h =
      insert_sink-IsSound a mapped
        (as_device (new_named_master_session c d.index d.channels true (description_of d)))
        (find_index d.index f.named_sinks) f refl h

  put_source-IsSound :
      (d : DeviceInfo) (c : Option ℕ) (f : Finder)
      → IsSound a mapped f
      → IsSound a mapped (put_source d c f)
  unfolding put_source new_named_master_session
  put_source-IsSound d none f h = h
  put_source-IsSound d (some c) f h = elim (Bool-cases (text_eq d.monitor_source_name [])) [
    | inr e ↦ rw e h
    | inl e ↦ rw e (
        insert_source-IsSound a mapped
          (as_device (
            new_named_master_session c d.index d.channels false
              (description_of d ++ codes " (input)")))
          (find_index d.index f.named_sources) f refl h)
  ]

  -- What stands outside the maps does not count.
  IsSound-outside :
      (f : Finder) (started released worker : Bool) (current : Option ℕ) (jobs : List Job)
      (ops : List Op)
      → IsSound a mapped f
      → IsSound a mapped (record f {
        started = started;
        released = released;
        worker = worker;
        current = current;
        work_chan = jobs;
        running = ops;
      })
  IsSound-outside f started released worker current jobs ops h = record {
    in_step = h.in_step;
    inputs_indexed = h.inputs_indexed;
    sinks_indexed = h.sinks_indexed;
    sources_indexed = h.sources_indexed;
  }

  perform-IsSound : (o : Op) (f : Finder) → IsSound a mapped f → IsSound a mapped (perform o f)
  unfolding perform
  perform-IsSound (Op.set_master_sink c d) f h = replace_master_sink-IsSound a mapped c d f h
  perform-IsSound (Op.set_master_source c d) f h = replace_master_source-IsSound a mapped c d f h
  perform-IsSound (Op.add_sink_input_from_info i) f h =
      put_sink_input-IsSound i f.current (session_name i) f h
  perform-IsSound (Op.add_sink_from_info d) f h = put_sink-IsSound d f.current f h
  perform-IsSound (Op.add_source_from_info d) f h = put_source-IsSound d f.current f h
  perform-IsSound (Op.remove_sink_input i) f h =
      remove_sink_input_at-IsSound a mapped i (find_index i f.sink_inputs) f refl h
  perform-IsSound (Op.remove_sink i) f h =
      remove_sink_at-IsSound a mapped i (find_index i f.named_sinks) f refl h
  perform-IsSound (Op.remove_source i) f h =
      remove_source_at-IsSound a mapped i (find_index i f.named_sources) f refl h
  perform-IsSound Op.refresh_master_sink f h = h
  perform-IsSound Op.refresh_master_source f h = h
  perform-IsSound Op.enumerate_existing_sessions f h = h
  perform-IsSound Op.enumerate_existing_sinks f h = h
  perform-IsSound Op.enumerate_existing_sources f h = h
  perform-IsSound (Op.add_sink_input i) f h = h
  perform-IsSound (Op.add_sink i) f h = h
  perform-IsSound (Op.add_source i) f h = h

  abbrev pub IfAny : Option Finder → Type 0
  IfAny none = Unit {0}
  IfAny (some f) = IsSound a mapped f

  dispatch_work-IsSound :
      (j : Job) (f : Finder) → IsSound a mapped f → IsSound a mapped (dispatch_work j f)
  unfolding dispatch_work
  dispatch_work-IsSound j f h = elim (Bool-cases (ltb (length f.work_chan) pa_work_chan_size)) [
    | inl e ↦ rw e (
        IsSound-outside f f.started f.released f.worker f.current (f.work_chan ++ j ∷ []) f.running
          h)
    | inr e ↦ rw e h
  ]

  handle_subscribe_event-IsSound :
      (x : Facility) (e : EventType) (i : ℕ) (f : Finder)
      → IsSound a mapped f
      → IsSound a mapped (handle_subscribe_event x e i f)
  unfolding handle_subscribe_event
  handle_subscribe_event-IsSound Facility.event_sink_sink_input e i f h =
      dispatch_work-IsSound (Job.sink_input_event e i) f h
  handle_subscribe_event-IsSound Facility.event_server e i f h =
      dispatch_work-IsSound Job.refresh_master f h
  handle_subscribe_event-IsSound Facility.event_sink e i f h =
      dispatch_work-IsSound (Job.sink_event e i) f h
  handle_subscribe_event-IsSound Facility.event_source e i f h =
      dispatch_work-IsSound (Job.source_event e i) f h
  handle_subscribe_event-IsSound Facility.other_facility e i f h = h

  start-IsSound : (f : Finder) → IsSound a mapped f → IsSound a mapped (start f).1
  unfolding start
  start-IsSound f h =
      if_both (λ (o : Bool × Finder). IsSound a mapped o.1) f.released h
        (if_both (λ (o : Bool × Finder). IsSound a mapped o.1) f.started h
          (IsSound-outside f true f.released true f.current f.work_chan f.running h))

  take_job-IfAny :
      (js : List Job) (os : List Op) (f : Finder) → IsSound a mapped f → IfAny (take_job js os f)
  unfolding take_job
  take_job-IfAny [] os f h = tt
  take_job-IfAny (j ∷ js) (o ∷ os) f h = tt
  take_job-IfAny (j ∷ js) [] f h =
      IsSound-outside f f.started f.released f.worker f.current js (operations_of j) h

  work_on-IfAny :
      (os : List Op) (r : Reply) (f : Finder) → IsSound a mapped f → IfAny (work_on os r f)
  unfolding work_on
  work_on-IfAny [] r f h = tt
  work_on-IfAny (o ∷ os) r f h =
      let rest = follow o f.current r ++ os in
      perform-IsSound o (record f { running = rest })
        (IsSound-outside f f.started f.released f.worker f.current f.work_chan rest h)

  end_release-IfAny : (f : Finder) → IsSound a mapped f → IfAny (end_release f)
  unfolding end_release
  end_release-IfAny f h = if_both IfAny f.released (ended f.running) tt
    where
      done : Finder
      done = record f { worker = false }

      ended : (os : List Op) → IfAny (elim os [ [] ↦ some (clear_sessions done) | _ ↦ none ])
      ended [] =
          clear_sessions-IsSound a mapped done
            (IsSound-outside f f.started f.released false f.current f.work_chan f.running h)
      ended (o ∷ os) = tt

  pub step-IfAny : (f : Finder) (i : Input) → IsSound a mapped f → IfAny (step f i)
  unfolding step begin_release
  step-IfAny f Input.call_start h = start-IsSound f h
  step-IfAny f Input.call_release h =
      if_both (IsSound a mapped) f.released h
        (IsSound-outside f f.started true f.worker none f.work_chan f.running h)
  step-IfAny f Input.release_ends h = end_release-IfAny f h
  step-IfAny f (Input.up c) h =
      dispatch_work-IsSound Job.initial_sync (record f { current = some c })
        (IsSound-outside f f.started f.released f.worker (some c) f.work_chan f.running h)
  step-IfAny f Input.down h = clear_sessions-IsSound a mapped f h
  step-IfAny f Input.lost h =
      IsSound-outside f f.started f.released f.worker none f.work_chan f.running h
  step-IfAny f (Input.event x e i) h = handle_subscribe_event-IsSound x e i f h
  step-IfAny f Input.take h = if_both IfAny f.worker (take_job-IfAny f.work_chan f.running f h) tt
  step-IfAny f (Input.work r) h = work_on-IfAny f.running r f h
