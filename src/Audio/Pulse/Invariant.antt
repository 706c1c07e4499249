-- ===== src/Audio/Pulse/Invariant.antt =====
-- What holds of the finder between two operations, and how the changes of one session keep it.
use deej.Prelude.{
  ℕ, suc, ◌+◌, ◌≡◌, Bool, List, [], ◌∷◌, ◌++◌, Option, none, arith, ◌==◌, count, count-append,
  length, length-append, subst,
}
use deej.Mixer.Sessions.{Attributes, added}
use deej.Mixer.Counts.{one_if}
use deej.Audio.Delivery.{
  notify, retire_all, IsInStep, IsInStep-order, IsInStep-added, IsInStep-retire,
  IsInStep-retire_all,
}
use deej.Audio.Session.{PaSession}
use deej.Audio.Pulse.{
  Finder, live, sessions_in, option_list, announce, remove, remove_old, clear_sessions,
}
use deej.Audio.Pulse.Maps.{IsIndexed}

count-five :
    (t : ℕ) (vs ws xs ys zs : List ℕ)
    → count t (vs ++ ws ++ xs ++ ys ++ zs)
      ≡ count t vs + count t ws + count t xs + count t ys + count t zs
count-five t vs ws xs ys zs = omega (
  arith,
  count-append t vs ws,
  count-append t (vs ++ ws) xs,
  count-append t (vs ++ ws ++ xs) ys,
  count-append t (vs ++ ws ++ xs ++ ys) zs,
)

-- The sessions of a finder by their number.
pub count-live :
    (t : ℕ) (f : Finder)
    → count t (live f)
      ≡ count t (sessions_in f.sink_inputs)
        + count t (sessions_in f.named_sinks)
        + count t (sessions_in f.named_sources)
        + count t (option_list f.master_sink)
        + count t (option_list f.master_source)
count-live t f =
    count-five t (sessions_in f.sink_inputs) (sessions_in f.named_sinks)
      (sessions_in f.named_sources) (option_list f.master_sink) (option_list f.master_source)

module _ (a : Attributes) (mapped : ℕ → Bool) where
  -- The finder in step with the mixer, for a list of sessions that may not be its own for a moment.
  abbrev pub Holds : List ℕ → Finder → Type 0
  Holds ss f = IsInStep a mapped ss (length f.made) f.log

  -- The mixer has the sessions of the finder, and no index stands twice in a map.
  pub record IsSound (f : Finder) : Type 0 where
    pub in_step : IsInStep a mapped (live f) (length f.made) f.log
    pub inputs_indexed : IsIndexed f.sink_inputs
    pub sinks_indexed : IsIndexed f.named_sinks
    pub sources_indexed : IsIndexed f.named_sources

  -- A session `s` takes the place of an old one, if there is one.
  pub Holds-replace :
      (s : PaSession) (o : Option ℕ) (xs ys others : List ℕ) (f : Finder)
      → ((t : ℕ) → count t xs ≡ count t (option_list o) + count t others)
      → ((t : ℕ) → count t ys ≡ one_if (length f.made == t) + count t others)
      → Holds xs f
      → Holds ys (announce s (remove_old o f))
  unfolding announce remove_old
  Holds-replace s o xs ys others f e e' h =
      let n = length f.made in
      let l = retire_all (option_list o) f.log in
      let retired = IsInStep-retire_all a mapped (option_list o) others n f.log (
        IsInStep-order a mapped xs (option_list o ++ others) n f.log
          (λ t. omega (arith, e t, count-append t (option_list o) others)) h) in
      subst (λ (m : ℕ). IsInStep a mapped ys m (notify (added n) ∷ l))
        (omega (arith, length-append f.made (s ∷ [])))
        (IsInStep-order a mapped (n ∷ others) ys (suc n) (notify (added n) ∷ l)
          (λ t. ground (arith, e' t)) (IsInStep-added a mapped others n l retired))

  pub Holds-announce :
      (s : PaSession) (xs ys : List ℕ) (f : Finder)
      → ((t : ℕ) → count t ys ≡ one_if (length f.made == t) + count t xs)
      → Holds xs f
      → Holds ys (announce s f)
  unfolding announce remove_old
  Holds-announce s xs ys f e h = Holds-replace s none xs ys xs f (λ t. omega arith) e h

  pub Holds-remove :
      (s : ℕ) (xs ys : List ℕ) (f : Finder)
      → ((t : ℕ) → count t xs ≡ one_if (s == t) + count t ys)
      → Holds xs f
      → Holds ys (remove s f)
  unfolding remove
  Holds-remove s xs ys f e h =
      IsInStep-retire a mapped s ys (length f.made) f.log
        (IsInStep-order a mapped xs (s ∷ ys) (length f.made) f.log (λ t. ground (arith, e t)) h)

  pub clear_sessions-IsSound : (f : Finder) → IsSound f → IsSound (clear_sessions f)
  unfolding clear_sessions
  clear_sessions-IsSound f h = record {
    in_step = IsInStep-retire_all a mapped (live f) [] (length f.made) f.log (
        IsInStep-order a mapped (live f) (live f ++ []) (length f.made) f.log
          (λ t. omega (arith, count-append t (live f) [])) h.in_step);
    inputs_indexed = tt;
    sinks_indexed = tt;
    sources_indexed = tt;
  }
