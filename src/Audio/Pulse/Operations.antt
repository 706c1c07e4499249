-- ===== src/Audio/Pulse/Operations.antt =====
-- Each change of the maps of the finder keeps what holds of it.
use deej.Prelude.{ℕ, ◌≡◌, Bool, true, false, ◌∷◌, Option, none, some, arith, length}
use deej.Mixer.Sessions.{Attributes}
use deej.Audio.Session.{PaSession, new_master_session}
use deej.Audio.Server.{DeviceInfo}
use deej.Audio.Pulse.{
  Finder, live, announce, remove, remove_old, replace_master_sink, replace_master_source,
  insert_sink_input, insert_sink, insert_source, remove_sink_input_at, remove_sink_at,
  remove_source_at, find_index, delete_index,
}
use deej.Audio.Pulse.Maps.{delete_index-IsIndexed, count-delete_index}
use deej.Audio.Pulse.Invariant.{count-live, IsSound, Holds-replace, Holds-announce, Holds-remove}

module _ (a : Attributes) (mapped : ℕ → Bool) where
  pub replace_master_sink-IsSound :
      (c : ℕ) (d : DeviceInfo) (f : Finder)
      → IsSound a mapped f
      → IsSound a mapped (replace_master_sink c d f)
  unfolding replace_master_sink announce remove_old
  replace_master_sink-IsSound c d f h =
      let g : Finder = record f { master_sink = some (length f.made) } in
      let rest : Finder = record f { master_sink = none } in
      record {
        in_step =
            Holds-replace a mapped (new_master_session c d.index d.channels true) f.master_sink
              (live f) (live g) (live rest) g
              (λ t. omega (arith, count-live t f, count-live t rest))
              (λ t. ground (arith, count-live t g, count-live t rest)) h.in_step;
        inputs_indexed = h.inputs_indexed;
        sinks_indexed = h.sinks_indexed;
        sources_indexed = h.sources_indexed;
      }

  pub replace_master_source-IsSound :
      (c : ℕ) (d : DeviceInfo) (f : Finder)
      → IsSound a mapped f
      → IsSound a mapped (replace_master_source c d f)
  unfolding replace_master_source announce remove_old
  replace_master_source-IsSound c d f h =
      let g : Finder = record f { master_source = some (length f.made) } in
      let rest : Finder = record f { master_source = none } in
      record {
        in_step =
            Holds-replace a mapped (new_master_session c d.index d.channels false) f.master_source
              (live f) (live g) (live rest) g
              (λ t. omega (arith, count-live t f, count-live t rest))
              (λ t. ground (arith, count-live t g, count-live t rest)) h.in_step;
        inputs_indexed = h.inputs_indexed;
        sinks_indexed = h.sinks_indexed;
        sources_indexed = h.sources_indexed;
      }

  pub insert_sink_input-IsSound :
      (s : PaSession) (o : Option ℕ) (f : Finder)
      → find_index s.index f.sink_inputs ≡ o
      → IsSound a mapped f
      → IsSound a mapped (insert_sink_input s o f)
  unfolding insert_sink_input announce
  insert_sink_input-IsSound s (some old) f e h = h
  insert_sink_input-IsSound s none f e h =
      let g : Finder = record f { sink_inputs = (s.index, length f.made) ∷ f.sink_inputs } in
      record {
        in_step =
            Holds-announce a mapped s (live f) (live g) g
              (λ t. ground (arith, count-live t f, count-live t g)) h.in_step;
        inputs_indexed = (e, h.inputs_indexed);
        sinks_indexed = h.sinks_indexed;
        sources_indexed = h.sources_indexed;
      }

  pub insert_sink-IsSound :
      (s : PaSession) (o : Option ℕ) (f : Finder)
      → find_index s.index f.named_sinks ≡ o
      → IsSound a mapped f
      → IsSound a mapped (insert_sink s o f)
  unfolding insert_sink announce
  insert_sink-IsSound s (some old) f e h = h
  insert_sink-IsSound s none f e h =
      let g : Finder = record f { named_sinks = (s.index, length f.made) ∷ f.named_sinks } in
      record {
        in_step =
            Holds-announce a mapped s (live f) (live g) g
              (λ t. ground (arith, count-live t f, count-live t g)) h.in_step;
        inputs_indexed = h.inputs_indexed;
        sinks_indexed = (e, h.sinks_indexed);
        sources_indexed = h.sources_indexed;
      }

  pub insert_source-IsSound :
      (s : PaSession) (o : Option ℕ) (f : Finder)
      → find_index s.index f.named_sources ≡ o
      → IsSound a mapped f
      → IsSound a mapped (insert_source s o f)
  unfolding insert_source announce
  insert_source-IsSound s (some old) f e h = h
  insert_source-IsSound s none f e h =
      let g : Finder = record f { named_sources = (s.index, length f.made) ∷ f.named_sources } in
      record {
        in_step =
            Holds-announce a mapped s (live f) (live g) g
              (λ t. ground (arith, count-live t f, count-live t g)) h.in_step;
        inputs_indexed = h.inputs_indexed;
        sinks_indexed = h.sinks_indexed;
        sources_indexed = (e, h.sources_indexed);
      }

  pub remove_sink_input_at-IsSound :
      (i : ℕ) (o : Option ℕ) (f : Finder)
      → find_index i f.sink_inputs ≡ o
      → IsSound a mapped f
      → IsSound a mapped (remove_sink_input_at i o f)
  unfolding remove_sink_input_at remove
  remove_sink_input_at-IsSound i none f e h = h
  remove_sink_input_at-IsSound i (some s) f e h =
      let g : Finder = record f { sink_inputs = delete_index i f.sink_inputs } in
      record {
        in_step =
            Holds-remove a mapped s (live f) (live g) g
              (λ t. omega (
                arith,
                count-live t f,
                count-live t g,
                count-delete_index i s t f.sink_inputs h.inputs_indexed e,
              ))
              h.in_step;
        inputs_indexed = delete_index-IsIndexed i f.sink_inputs h.inputs_indexed;
        sinks_indexed = h.sinks_indexed;
        sources_indexed = h.sources_indexed;
      }

  pub remove_sink_at-IsSound :
      (i : ℕ) (o : Option ℕ) (f : Finder)
      → find_index i f.named_sinks ≡ o
      → IsSound a mapped f
      → IsSound a mapped (remove_sink_at i o f)
  unfolding remove_sink_at remove
  remove_sink_at-IsSound i none f e h = h
  remove_sink_at-IsSound i (some s) f e h =
      let g : Finder = record f { named_sinks = delete_index i f.named_sinks } in
      record {
        in_step =
            Holds-remove a mapped s (live f) (live g) g
              (λ t. omega (
                arith,
                count-live t f,
                count-live t g,
                count-delete_index i s t f.named_sinks h.sinks_indexed e,
              ))
              h.in_step;
        inputs_indexed = h.inputs_indexed;
        sinks_indexed = delete_index-IsIndexed i f.named_sinks h.sinks_indexed;
        sources_indexed = h.sources_indexed;
      }

  pub remove_source_at-IsSound :
      (i : ℕ) (o : Option ℕ) (f : Finder)
      → find_index i f.named_sources ≡ o
      → IsSound a mapped f
      → IsSound a mapped (remove_source_at i o f)
  unfolding remove_source_at remove
  remove_source_at-IsSound i none f e h = h
  remove_source_at-IsSound i (some s) f e h =
      let g : Finder = record f { named_sources = delete_index i f.named_sources } in
      record {
        in_step =
            Holds-remove a mapped s (live f) (live g) g
              (λ t. omega (
                arith,
                count-live t f,
                count-live t g,
                count-delete_index i s t f.named_sources h.sources_indexed e,
              ))
              h.in_step;
        inputs_indexed = h.inputs_indexed;
        sinks_indexed = h.sinks_indexed;
        sources_indexed = delete_index-IsIndexed i f.named_sources h.sources_indexed;
      }
