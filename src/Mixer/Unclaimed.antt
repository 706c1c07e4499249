-- ===== src/Mixer/Unclaimed.antt =====
-- The unmapped list through session events and reloads: no session in it counts as mapped.
use deej.Prelude.{
  ℕ, ◌≡◌, sym, ◌∙◌, Bool, false, List, [], ◌∷◌, ◌++◌, ◌==◌, All, Bool-cases, inl, inr,
}
use deej.Prelude.Text.{Unicode}
use deej.Config.Model.{SliderMappings}
use deej.Mixer.Sessions.{
  Attributes, MixerState, sessions_of, reject, remove_first, refresh_unmapped, SessionEvent, added,
  removed, removed_nil, handle_session_event,
}
use deej.Mixer.Targets.{Foreground, session_mapped}
use deej.Mixer.Mapped.{session_mapped-names_key}
use deej.Mixer.Routing.{Unclaimed}

abbrev Rejected : (ℕ → Bool) → List ℕ → Type 0
Rejected test = All (λ s. test s ≡ false)

reject-Rejected : (test : ℕ → Bool) (ss : List ℕ) → Rejected test (reject test ss)
unfolding reject
reject-Rejected test [] = tt
reject-Rejected test (s ∷ ss) = elim (Bool-cases (test s)) [
  | inl e ↦ rw e (reject-Rejected test ss)
  | inr e ↦ rw e (e, reject-Rejected test ss)
]

Rejected-append :
    (test : ℕ → Bool) (ss : List ℕ) (s : ℕ)
    → Rejected test ss
    → test s ≡ false
    → Rejected test (ss ++ s ∷ [])
Rejected-append test [] s h e = (e, tt)
Rejected-append test (t ∷ ss) s h e = (h.0, Rejected-append test ss s h.1 e)

Rejected-remove_first :
    (test : ℕ → Bool) (s : ℕ) (ss : List ℕ) → Rejected test ss → Rejected test (remove_first s ss)
unfolding remove_first
Rejected-remove_first test s [] h = tt
Rejected-remove_first test s (t ∷ ss) h = elim (Bool-cases (t == s)) [
  | inl e ↦ rw e h.1
  | inr e ↦ rw e (h.0, Rejected-remove_first test s ss h.1)
]

Rejected-mono :
    (f g : ℕ → Bool) (ss : List ℕ) → ((s : ℕ) → f s ≡ g s) → Rejected f ss → Rejected g ss
Rejected-mono f g [] e h = tt
Rejected-mono f g (s ∷ ss) e h = (sym (e s) ∙ h.0, Rejected-mono f g ss e h.1)

module _ (u : Unicode) (a : Attributes) (fg : Foreground) (mapping : SliderMappings) where
  -- The state has no part in it.
  mapped_anywhere :
      (st st' : MixerState) (s : ℕ)
      → session_mapped u a fg mapping st s ≡ session_mapped u a fg mapping st' s
  mapped_anywhere st st' s =
      session_mapped-names_key u a fg mapping st s
      ∙ sym (session_mapped-names_key u a fg mapping st' s)

  handled-Rejected :
      (st : MixerState) (e : SessionEvent) (test : ℕ → Bool)
      → Rejected test st.unmapped
      → Rejected test (handle_session_event a test st e).unmapped
  unfolding handle_session_event
  handled-Rejected st (added s) test h = elim (Bool-cases (test s)) [
    | inl e ↦ rw e h
    | inr e ↦ rw e (Rejected-append test st.unmapped s h e)
  ]
  handled-Rejected st (removed s) test h = Rejected-remove_first test s st.unmapped h
  handled-Rejected st removed_nil test h = h

  -- A reload of the mapping, from any state, puts the mapped sessions out of the unmapped list.
  pub refresh_unmapped-Unclaimed :
      (st : MixerState)
      → Unclaimed u a fg mapping (refresh_unmapped (session_mapped u a fg mapping st) st)
  unfolding refresh_unmapped
  refresh_unmapped-Unclaimed st =
      Rejected-mono _ _ _ (λ s. mapped_anywhere st _ s)
        (reject-Rejected (session_mapped u a fg mapping st) (sessions_of st.sessions))

  -- If no session of the unmapped list counts as mapped, so it is behind every session event.
  pub handle_session_event-Unclaimed :
      (st : MixerState) (e : SessionEvent)
      → Unclaimed u a fg mapping st
      → Unclaimed u a fg mapping (handle_session_event a (session_mapped u a fg mapping st) st e)
  handle_session_event-Unclaimed st e h =
      Rejected-mono _ _ _ (λ s. mapped_anywhere st _ s)
        (handled-Rejected st e (session_mapped u a fg mapping st) h)
