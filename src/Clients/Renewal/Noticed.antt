-- ===== src/Clients/Renewal/Noticed.antt =====
-- A connection with settings that are no longer in force does not go unnoticed.
use deej.Prelude.{
  ℕ, ◌≡◌, refl, ap, sym, ◌∙◌, subst, ◌⊎◌, inl, inr, Bool, true, false, Option, none, some,
  if◌then◌else◌, if_both,
}
use deej.Reconnect.Steps
use deej.Reconnect.Steps.{Reconnector, Phase}
use deej.Reconnect.Invariant.{IsSoundFor}
use deej.Reconnect.Invariant
use deej.Clients.Renewal
use deej.Clients.Renewal.{
  Client, ClientInput, new_client, request_reconnect, carry, after_machine, renew_unless,
  compare_up, compare_seen, step,
}
use deej.Clients.Renewal.Kept.{
  succeeds, Kept, step-Kept, run-dial_done, request-heard, request-current, request-IsSound,
}

module _ {A : Type 0} (same : A → A → Bool) where
  -- The settings that the reload loop has read so far are the ones in force.
  abbrev Unread : Option A → A → Type 0
  Unread none a = Unit {0}
  Unread (some b) a = b ≡ a

  abbrev Unpicked : Option (Option ℕ) → Option ℕ → Type 0
  Unpicked none o = Unit {0}
  Unpicked (some p) o = p ≡ o

  -- Who will see that the connection is to be renewed, unless that is requested already.
  pub data Noticed (c : ℕ) (st : Client A) : Type 0 where
    to_announce : st.unannounced ≡ true → Noticed c st
    signalled : st.signal ≡ true → Noticed c st
    to_compare : st.up_pending ≡ some c → Noticed c st
    requested : st.reconnector.err_channel ≡ some true → Noticed c st
    at_work :
        st.reloading ≡ true
        → Unread st.seen st.settings
        → Unpicked st.picked (some c)
        → Noticed c st

  pub record IsNoticing (st : Client A) : Type 0 where
    pub sound : Invariant.IsSound st.reconnector
    pub noticed :
        (c : ℕ)
        → st.reconnector.current ≡ some c
        → same st.settings (st.conn_info c) ≡ false
        → Noticed c st

  abbrev IfAny : Option (Client A) → Type 0
  IfAny none = Unit {0}
  IfAny (some st) = IsNoticing st

  -- A connection that was compared with the settings that are in force, or that `Unread` will show.
  renew_unless-IsNoticing :
      (a : A) (d : ℕ) (st : Client A)
      → Invariant.IsSound st.reconnector
      → ((c : ℕ)
          → st.reconnector.current ≡ some c
          → same st.settings (st.conn_info c) ≡ false
          → Noticed c st ⊎ ((c ≡ d) × (a ≡ st.settings)))
      → IsNoticing (renew_unless same a d st)
  unfolding renew_unless
  renew_unless-IsNoticing a d st s h = compared (same a (st.conn_info d)) refl
    where
      again : Reconnector
      again = request_reconnect st.reconnector

      compared :
          (b : Bool)
          → same a (st.conn_info d) ≡ b
          → IsNoticing (if b then st else record st { reconnector = again })
      compared true e = record {
        sound = s;
        noticed = λ c cur stale. elim (h c cur stale) [
          | inl n ↦ n
          | inr (q, q') ↦ absurd (cc (stale, e, q', ap st.conn_info q))
        ];
      }
      compared false e = record {
        sound = request-IsSound st.reconnector s;
        noticed = λ c cur stale.
            requested
              (request-heard c st.reconnector (sym (request-current st.reconnector) ∙ cur) (s c));
      }

  compare_up-IfAny :
      (o : Option ℕ) (st : Client A)
      → st.up_pending ≡ o
      → IsNoticing st
      → IfAny (compare_up same o st)
  unfolding compare_up
  compare_up-IfAny none st e h = tt
  compare_up-IfAny (some d) st e h =
      renew_unless-IsNoticing st.settings d (record st { up_pending = none }) h.sound
        (λ c cur stale. moved c (h.noticed c cur stale))
    where
      moved :
          (c : ℕ)
          → Noticed c st
          → Noticed c (record st { up_pending = none }) ⊎ ((c ≡ d) × (st.settings ≡ st.settings))
      moved c (to_announce x) = inl (to_announce x)
      moved c (signalled x) = inl (signalled x)
      moved c (to_compare x) = inr (cc (x, e), refl)
      moved c (requested x) = inl (requested x)
      moved c (at_work x y z) = inl (at_work x y z)

  compare_seen-IfAny :
      (o : Option A) (p : Option (Option ℕ)) (st : Client A)
      → st.seen ≡ o
      → st.picked ≡ p
      → IsNoticing st
      → IfAny (compare_seen same o p st)
  unfolding compare_seen
  compare_seen-IfAny none p st e e' h = tt
  compare_seen-IfAny (some a) none st e e' h = tt
  compare_seen-IfAny (some a) (some none) st e e' h = record {
    sound = h.sound;
    noticed = λ c cur stale. moved c (h.noticed c cur stale);
  }
    where
      moved :
          (c : ℕ)
          → Noticed c st
          → Noticed c (record st { reloading = false; seen = none; picked = none })
      moved c (to_announce x) = to_announce x
      moved c (signalled x) = signalled x
      moved c (to_compare x) = to_compare x
      moved c (requested x) = requested x
      moved c (at_work x y z) =
          absurd (cc (subst (λ (q : Option (Option ℕ)). Unpicked q (some c)) e' z))
  compare_seen-IfAny (some a) (some (some d)) st e e' h =
      renew_unless-IsNoticing a d (record st { reloading = false; seen = none; picked = none })
        h.sound (λ c cur stale. moved c (h.noticed c cur stale))
    where
      moved :
          (c : ℕ)
          → Noticed c st
          → Noticed c (record st { reloading = false; seen = none; picked = none })
            ⊎ ((c ≡ d) × (a ≡ st.settings))
      moved c (to_announce x) = inl (to_announce x)
      moved c (signalled x) = inl (signalled x)
      moved c (to_compare x) = inl (to_compare x)
      moved c (requested x) = inl (requested x)
      moved c (at_work x y z) = inr (
        cc (subst (λ (q : Option (Option ℕ)). Unpicked q (some c)) e' z),
        subst (λ (q : Option A). Unread q st.settings) e y,
      )

  -- The machine's own inputs, but for a dial that succeeds.
  kept-IsNoticing :
      (i : Steps.Input) (st : Client A) (r : Reconnector)
      → Steps.step st.reconnector i ≡ some r
      → succeeds i ≡ false
      → IsNoticing st
      → IsNoticing (record st { reconnector = r })
  kept-IsNoticing i st r e n h = record {
    sound = λ c. Invariant.step-IsSoundFor c st.reconnector i e h.sound;
    noticed = λ c cur stale.
        let k = step-Kept c i st.reconnector e n cur (h.sound c) in
        moved c k (h.noticed c k.0 stale);
  }
    where
      moved :
          (c : ℕ)
          → Kept c st.reconnector r
          → Noticed c st
          → Noticed c (record st { reconnector = r })
      moved c k (to_announce x) = to_announce x
      moved c k (signalled x) = signalled x
      moved c k (to_compare x) = to_compare x
      moved c k (requested x) = requested (k.1 x)
      moved c k (at_work x y z) = at_work x y z

  after_machine-IfAny :
      (i : Steps.Input) (st : Client A) (o : Option Reconnector)
      → Steps.step st.reconnector i ≡ o
      → IsNoticing st
      → IfAny (after_machine i st o)
  unfolding after_machine carry Steps.step
  after_machine-IfAny i st none e h = tt
  after_machine-IfAny (Steps.dial_done true) st (some r) e h = record {
    sound = λ c. Invariant.step-IsSoundFor c st.reconnector (Steps.dial_done true) e h.sound;
    noticed =
        λ c cur stale. to_compare (sym (run-dial_done st.reconnector.phase st.reconnector e) ∙ cur);
  }
  after_machine-IfAny i st (some r) e h = kept-IsNoticing i st r e refl h

  -- The reload loop reads something, or a dial does.
  read-Noticed :
      (c : ℕ) (st : Client A) (w : A) (o : Option A) (p : Option (Option ℕ))
      → (Unread st.seen st.settings → Unread o st.settings)
      → (Unpicked st.picked (some c) → Unpicked p (some c))
      → Noticed c st
      → Noticed c (record st { dialled_with = w; seen = o; picked = p })
  read-Noticed c st w o p f g (to_announce x) = to_announce x
  read-Noticed c st w o p f g (signalled x) = signalled x
  read-Noticed c st w o p f g (to_compare x) = to_compare x
  read-Noticed c st w o p f g (requested x) = requested x
  read-Noticed c st w o p f g (at_work x y z) = at_work x (f y) (g z)

  pub step-IfAny : (st : Client A) (i : ClientInput A) → IsNoticing st → IfAny (step same st i)
  unfolding step
  step-IfAny st (ClientInput.machine i) h =
      after_machine-IfAny i st (Steps.step st.reconnector i) refl h
  step-IfAny st (ClientInput.change a) h = record {
    sound = h.sound;
    noticed = λ c cur stale. to_announce refl;
  }
  step-IfAny st ClientInput.announce h = record {
    sound = h.sound;
    noticed = λ c cur stale. signalled refl;
  }
  step-IfAny st ClientInput.dial_reads h = record {
    sound = h.sound;
    noticed = λ c cur stale.
        read-Noticed c st st.settings st.seen st.picked (λ x. x) (λ x. x) (h.noticed c cur stale);
  }
  step-IfAny st ClientInput.up_compares h = compare_up-IfAny st.up_pending st refl h
  step-IfAny st ClientInput.reload h =
      if_both IfAny st.signal
        (if_both IfAny st.reloading tt
          (record { sound = h.sound; noticed = λ c cur stale. at_work refl tt tt }))
        tt
  step-IfAny st ClientInput.read_values h =
      if_both IfAny st.reloading
        (record {
          sound = h.sound;
          noticed = λ c cur stale.
              read-Noticed c st st.dialled_with (some st.settings) st.picked (λ x. refl) (λ x. x)
                (h.noticed c cur stale);
        })
        tt
  step-IfAny st ClientInput.read_current h =
      if_both IfAny st.reloading
        (record {
          sound = h.sound;
          noticed = λ c cur stale.
              read-Noticed c st st.dialled_with st.seen (some st.reconnector.current) (λ x. x)
                (λ x. cur) (h.noticed c cur stale);
        })
        tt
  step-IfAny st ClientInput.compare h =
      if_both IfAny st.reloading (compare_seen-IfAny st.seen st.picked st refl refl h) tt

  pub Reach-IsNoticing : {st : Client A} → Renewal.Reach same st → IsNoticing st
  unfolding new_client Steps.new
  Reach-IsNoticing (Renewal.begin a) = record {
    sound = Invariant.Reach-IsSound Steps.begin;
    noticed = λ c cur stale. absurd (nothing_current c cur);
  }
    where
      nothing_current : (c : ℕ) → Steps.new.current ≡ some c → ⊥
      nothing_current c cur = cc cur
  Reach-IsNoticing (Renewal.next {c = st} r i e) =
      subst IfAny e (step-IfAny st i (Reach-IsNoticing r))

-- After any inputs: when the current connection carries settings that are not the same as those in force,
-- then their change is still to be signalled, or a signal waits, or onUp is still to compare that
-- connection, or the reload loop is at work with the settings in force and that connection as far
-- as it has read, or a reconnect has been requested.
pub Reach-noticed :
    {A : Type 0} (same : A → A → Bool) {st : Client A} (c : ℕ)
    → Renewal.Reach same st
    → st.reconnector.current ≡ some c
    → same st.settings (st.conn_info c) ≡ false
    → Noticed same c st
Reach-noticed same c r = (Reach-IsNoticing same r).noticed c
