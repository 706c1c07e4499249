-- ===== src/Audio/Wca/Removal.antt =====
-- Which sessions stay tracked when a device is removed: those of other devices.
use deej.Prelude.{
  ◌≡◌, refl, sym, ◌∙◌, ◌⊎◌, inl, inr, Bool, true, false, ◌||◌, List, [], ◌∷◌, ◌++◌, Option, none,
  some, if◌then◌else◌, All, Bool-cases, subst,
}
use deej.Prelude.Text.{Text, codes, text_eq, text_eq_iff, text_eq_self, contains, has_prefix}
use deej.Audio.Wca.{
  Tracked, DeviceManager, Finder, find_tracked, delete_tracked, delete_manager, remove_found,
  remove_session, remove_sessions, sessions_of_device, remove_manager, remove_old,
}

pub All-map :
    {A : Type 0} {P Q : A → Type 0} (xs : List A) → ((x : A) → P x → Q x) → All P xs → All Q xs
All-map [] f h = tt
All-map (x ∷ xs) f h = (f x h.0, All-map xs f h.1)

pub All-zip :
    {A : Type 0} {P Q R : A → Type 0} (xs : List A)
    → ((x : A) → P x → Q x → R x)
    → All P xs
    → All Q xs
    → All R xs
All-zip [] f p q = tt
All-zip (x ∷ xs) f p q = (f x p.0 q.0, All-zip xs f p.1 q.1)

or_true : (b : Bool) {c : Bool} → c ≡ true → (b || c) ≡ true
or_true true e = refl
or_true false e = e

module _ (P : Tracked → Type 0) where
  delete_tracked-All : (id : Text) (ts : List Tracked) → All P ts → All P (delete_tracked id ts)
  unfolding delete_tracked
  delete_tracked-All id [] h = tt
  delete_tracked-All id (t ∷ ts) h = elim (Bool-cases (text_eq t.id id)) [
    | inl e ↦ rw e (delete_tracked-All id ts h.1)
    | inr e ↦ rw e (h.0, delete_tracked-All id ts h.1)
  ]

  remove_found-All :
      (id : Text) (o : Option Tracked) (f : Finder)
      → All P f.tracked
      → All P (remove_found id o f).tracked
  unfolding remove_found
  remove_found-All id none f h = h
  remove_found-All id (some t) f h = delete_tracked-All id f.tracked h

  pub remove_sessions-All :
      (ids : List Text) (f : Finder) → All P f.tracked → All P (remove_sessions ids f).tracked
  unfolding remove_sessions remove_session
  remove_sessions-All [] f h = h
  remove_sessions-All (id ∷ ids) f h =
      remove_sessions-All ids (remove_session id f)
        (remove_found-All id (find_tracked id f.tracked) f h)

-- Removed ids are gone.
delete_tracked-other :
    (id : Text) (ts : List Tracked) → All (λ t. text_eq t.id id ≡ false) (delete_tracked id ts)
unfolding delete_tracked
delete_tracked-other id [] = tt
delete_tracked-other id (t ∷ ts) = elim (Bool-cases (text_eq t.id id)) [
  | inl e ↦ rw e (delete_tracked-other id ts)
  | inr e ↦ rw e (e, delete_tracked-other id ts)
]

find_tracked-other :
    (id : Text) (ts : List Tracked)
    → find_tracked id ts ≡ none
    → All (λ t. text_eq t.id id ≡ false) ts
unfolding find_tracked
find_tracked-other id [] h = tt
find_tracked-other id (t ∷ ts) h =
    (not_found (text_eq t.id id) h, find_tracked-other id ts (not_later (text_eq t.id id) h))
  where
    not_found : (b : Bool) → (if b then some t else find_tracked id ts) ≡ none → b ≡ false
    not_found true h = absurd (cc h)
    not_found false h = refl

    not_later :
        (b : Bool) → (if b then some t else find_tracked id ts) ≡ none → find_tracked id ts ≡ none
    not_later true h = absurd (cc h)
    not_later false h = h

remove_session-other :
    (id : Text) (f : Finder) → All (λ t. text_eq t.id id ≡ false) (remove_session id f).tracked
unfolding remove_session remove_found
remove_session-other id f = found (find_tracked id f.tracked) refl
  where
    found :
        (o : Option Tracked)
        → find_tracked id f.tracked ≡ o
        → All (λ t. text_eq t.id id ≡ false) (remove_found id o f).tracked
    found none e = find_tracked-other id f.tracked e
    found (some t) e = delete_tracked-other id f.tracked

module _ (device : Text) where
  abbrev pub NoneOf : Tracked → Type 0
  NoneOf t = has_prefix (device ++ codes "_") t.id ≡ false

  -- A session of the device has its id on the list.
  abbrev Listed : List Text → Tracked → Type 0
  Listed ids t = (contains ids t.id ≡ true) ⊎ NoneOf t

  Listed-tail :
      (id : Text) (ids : List Text) (t : Tracked)
      → Listed (id ∷ ids) t
      → text_eq t.id id ≡ false
      → Listed ids t
  unfolding contains
  Listed-tail id ids t (inr h) e = inr h
  Listed-tail id ids t (inl h) e = elim (Bool-cases (text_eq id t.id)) [
    | inl q ↦ absurd (cc (e, (text_eq_iff t.id id).1 (sym ((text_eq_iff id t.id).0 q))))
    | inr q ↦ inl (subst (λ (b : Bool). (b || contains ids t.id) ≡ true) q h)
  ]

  remove_sessions-NoneOf :
      (ids : List Text) (f : Finder)
      → All (Listed ids) f.tracked
      → All NoneOf (remove_sessions ids f).tracked
  unfolding remove_sessions contains
  remove_sessions-NoneOf [] f h = All-map f.tracked none_listed h
    where
      none_listed : (t : Tracked) → Listed [] t → NoneOf t
      none_listed t (inl e) = absurd (cc e)
      none_listed t (inr e) = e
  remove_sessions-NoneOf (id ∷ ids) f h =
      let g = remove_session id f in
      remove_sessions-NoneOf ids g (
        All-zip g.tracked (Listed-tail id ids)
          (remove_sessions-All (Listed (id ∷ ids)) (id ∷ []) f h) (remove_session-other id f))

  sessions_of_device-Listed : (ts : List Tracked) → All (Listed (sessions_of_device device ts)) ts
  unfolding sessions_of_device contains
  sessions_of_device-Listed [] = tt
  sessions_of_device-Listed (t ∷ ts) =
      listed (has_prefix (device ++ codes "_") t.id) refl (sessions_of_device-Listed ts)
    where
      rest : List Text
      rest = sessions_of_device device ts

      later : (x : Tracked) → Listed rest x → Listed (t.id ∷ rest) x
      later x (inl h) = inl (or_true (text_eq t.id x.id) h)
      later x (inr h) = inr h

      listed :
          (b : Bool)
          → has_prefix (device ++ codes "_") t.id ≡ b
          → All (Listed rest) ts
          → All (Listed (if b then t.id ∷ rest else rest)) (t ∷ ts)
      listed true e h = (inl (rw (text_eq_self t.id) refl), All-map ts later h)
      listed false e h = (inr e, h)

  -- After the removal of a device no session of it is tracked.
  pub remove_manager-NoneOf :
      (d : DeviceManager) (f : Finder) → All NoneOf (remove_manager device (some d) f).tracked
  unfolding remove_manager remove_old
  remove_manager-NoneOf d f =
      remove_sessions-NoneOf (sessions_of_device device f.tracked)
        (record f { managers = delete_manager device f.managers })
        (sessions_of_device-Listed f.tracked)

pub remove_sessions-managers :
    (ids : List Text) (f : Finder) → (remove_sessions ids f).managers ≡ f.managers
unfolding remove_sessions remove_session remove_found
remove_sessions-managers [] f = refl
remove_sessions-managers (id ∷ ids) f =
    remove_sessions-managers ids (remove_session id f) ∙ removed (find_tracked id f.tracked)
  where
    removed : (o : Option Tracked) → (remove_found id o f).managers ≡ f.managers
    removed none = refl
    removed (some t) = refl
