-- ===== src/Clients/Serial/Told.antt =====
-- The consumers of state changes hear connected and disconnected in turn.
use deej.Prelude.{
  ℕ, ◌≡◌, refl, ap, sym, ◌∙◌, subst, Bool, true, false, not, List, [], ◌∷◌, Option, none, some,
  ◌==◌, ==_iff, if◌then◌else◌, Bool-cases, inl, inr,
}
use deej.Reconnect.Steps.{Reconnector, Callback, Reach}
use deej.Reconnect.Contract.{heard, heard_next, heard_after, Reach-heard}
use deej.Clients.Serial.{
  Announced, set_adopted, announce_callback, announced, newest, IsAlternating, is_adopted,
}

record IsTold (up : Option ℕ) (s : Announced) : Type 0 where
  alternating : IsAlternating s.state_changes
  told : newest s.state_changes ≡ is_adopted s.adopted up
  only_up : (c : ℕ) → s.adopted c ≡ true → up ≡ some c

some-inj : {A : Type 0} {x y : A} → some x ≡ some y → x ≡ y
some-inj e = cc

not_adopted : (s : Announced) (c : ℕ) → IsTold none s → s.adopted c ≡ false
not_adopted s c h = elim (Bool-cases (s.adopted c)) [
  | inl e ↦ absurd (cc (h.only_up c e))
  | inr e ↦ e
]

up-IsTold :
    (c : ℕ) (s : Announced) (b : Bool)
    → IsTold none s
    → IsTold (some c) (
        if b then s else record {
          adopted = set_adopted c true s.adopted;
          state_changes = true ∷ s.state_changes;
        })
unfolding set_adopted
up-IsTold c s true h = record {
  alternating = h.alternating;
  told = h.told ∙ sym (not_adopted s c h);
  only_up = λ k e. absurd (cc (h.only_up k e));
}
up-IsTold c s false h = record {
  alternating = (ap not (sym h.told), h.alternating);
  told = rw ((==_iff c c).1 refl) refl;
  only_up = λ k e. only k e;
}
  where
    only : (k : ℕ) → (if k == c then true else s.adopted k) ≡ true → some c ≡ some k
    only k e = elim (Bool-cases (k == c)) [
      | inl q ↦ ap some (sym ((==_iff k c).0 q))
      | inr q ↦
          absurd
            (cc (h.only_up k (subst (λ (b : Bool). (if b then true else s.adopted k) ≡ true) q e)))
    ]

down-IsTold :
    (c : ℕ) (up : Option ℕ) (s : Announced) (b : Bool)
    → s.adopted c ≡ b
    → (if b then up ≡ some c else Unit {0})
    → IsTold up s
    → IsTold (if b then none else up) (
        if b
        then record {
          adopted = set_adopted c false s.adopted;
          state_changes = false ∷ s.state_changes;
        }
        else s)
unfolding set_adopted
down-IsTold c up s false e q h = h
down-IsTold c up s true e q h = record {
  alternating = (ap not (sym (h.told ∙ ap (is_adopted s.adopted) q ∙ e)), h.alternating);
  told = refl;
  only_up = λ k a. absurd (none_else k a);
}
  where
    none_else : (k : ℕ) → (if k == c then false else s.adopted k) ≡ true → ⊥
    none_else k a = elim (Bool-cases (k == c)) [
      | inl r ↦ cc (subst (λ (b : Bool). (if b then false else s.adopted k) ≡ true) r a)
      | inr r ↦
          let k_up =
            h.only_up k (subst (λ (b : Bool). (if b then false else s.adopted k) ≡ true) r a) in
          cc (r, (==_iff k c).1 (some-inj (sym k_up ∙ q)))
    ]

not_up-IsTold :
    (c d : ℕ) (s : Announced) → d ≡ c → s.adopted c ≡ false → IsTold (some d) s → IsTold none s
not_up-IsTold c d s q e h = record {
  alternating = h.alternating;
  told = h.told ∙ ap s.adopted q ∙ e;
  only_up = λ k a. absurd (cc (a, e, ap s.adopted (some-inj (h.only_up k a)), ap s.adopted q));
}

closed-IsTold :
    (renewed : ℕ → Bool) (c d : ℕ) (s : Announced) (q b : Bool) {up' : Option ℕ}
    → (d == c) ≡ q
    → s.adopted c ≡ b
    → (if q then some none else some (some d)) ≡ some up'
    → IsTold (some d) s
    → IsTold up' (
        if b
        then record {
          adopted = set_adopted c false s.adopted;
          state_changes = false ∷ s.state_changes;
        }
        else s)
closed-IsTold renewed c d s true true e a u h =
    subst
      (λ (o : Option ℕ). IsTold o (record {
        adopted = set_adopted c false s.adopted;
        state_changes = false ∷ s.state_changes;
      }))
      (some-inj u) (down-IsTold c (some d) s true a (ap some ((==_iff d c).0 e)) h)
closed-IsTold renewed c d s true false e a u h =
    subst (λ (o : Option ℕ). IsTold o s) (some-inj u) (not_up-IsTold c d s ((==_iff d c).0 e) a h)
closed-IsTold renewed c d s false true e a u h =
    absurd (cc (e, (==_iff d c).1 (some-inj (h.only_up c a))))
closed-IsTold renewed c d s false false e a u h =
    subst (λ (o : Option ℕ). IsTold o s) (some-inj u) h

callback-IsTold :
    (renewed : ℕ → Bool) (b : Callback) (up : Option ℕ) {up' : Option ℕ} (s : Announced)
    → heard_next b up ≡ some up'
    → IsTold up s
    → IsTold up' (announce_callback renewed b s)
unfolding heard_next announce_callback set_adopted
callback-IsTold renewed (Callback.on_up c) none s e h =
    subst (λ (o : Option ℕ). IsTold o (announce_callback renewed (Callback.on_up c) s)) (some-inj e)
      (up-IsTold c s (renewed c) h)
callback-IsTold renewed (Callback.on_up c) (some d) s e h = absurd (cc e)
callback-IsTold renewed Callback.on_down none s e h = absurd (cc e)
callback-IsTold renewed Callback.on_down (some d) s e h =
    subst (λ (o : Option ℕ). IsTold o s) (some-inj e) h
callback-IsTold renewed (Callback.close c) none s e h =
    subst (λ (o : Option ℕ). IsTold o (announce_callback renewed (Callback.close c) s)) (some-inj e)
      (rw (not_adopted s c h) h)
callback-IsTold renewed (Callback.close c) (some d) s e h =
    closed-IsTold renewed c d s (d == c) (s.adopted c) refl refl e h
callback-IsTold renewed (Callback.wait n) none s e h =
    subst (λ (o : Option ℕ). IsTold o s) (some-inj e) h
callback-IsTold renewed (Callback.wait n) (some d) s e h = absurd (cc e)

log-IsTold :
    (renewed : ℕ → Bool) (bs : List Callback) {up : Option ℕ}
    → heard bs ≡ some up
    → IsTold up (announced renewed bs)
unfolding heard announced
log-IsTold renewed [] {up} e =
    subst (λ (o : Option ℕ). IsTold o (announced renewed [])) (some-inj e)
      (record { alternating = tt; told = refl; only_up = λ c a. absurd (cc a) })
log-IsTold renewed (b ∷ bs) {up} e = after (λ o q. log-IsTold renewed bs q) (heard bs) refl e
  where
    after :
        ((o : Option ℕ) → heard bs ≡ some o → IsTold o (announced renewed bs))
        → (o : Option (Option ℕ)) → heard bs ≡ o
        → heard_after b o ≡ some up
        → IsTold up (announced renewed (b ∷ bs))
    after ih none q e = absurd (cc e)
    after ih (some before) q e =
        callback-IsTold renewed b before (announced renewed bs) e (ih before q)

-- After any inputs of the reconnector, whichever connections onUp found with changed settings: the
-- consumers of state changes heard connected and disconnected in turn, the first one connected, and the
-- last one says connected exactly while there is a current connection that onUp announced.
pub Reach-IsAlternating :
    (renewed : ℕ → Bool) {r : Reconnector}
    → Reach r
    → let s = announced renewed r.log in
      IsAlternating s.state_changes × (newest s.state_changes ≡ is_adopted s.adopted r.current)
Reach-IsAlternating renewed {r} h =
    let t = log-IsTold renewed r.log (Reach-heard h) in (t.alternating, t.told)
