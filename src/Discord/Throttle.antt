-- ===== src/Discord/Throttle.antt =====
-- What the throttle sends: the newest value of a target, once, and again when Discord may have
-- lost it.
use deej.Prelude.{
  ℕ, ◌≡◌, refl, ap, sym, ◌∙◌, Bool, true, false, List, [], ◌∷◌, Option, none, some, arith,
  if◌then◌else◌, ◌==◌, ==_iff, Bool-cases, inl, inr,
}
use deej.Prelude.Text.{Text, Unicode, text_eq, text_eq_self}
use deej.Discord.Roster.{DiscordRoster}
use deej.Discord.Volume.{
  VolumeMap, VolumeState, set_volume, has_value, unless_sent, take_pending, Request, Flight,
  begin_flush, sent_of, send_value, first_of, copy_onto, is_conn, if_accepted, finish_flush,
  invalidate_volumes, send,
}

-- The last value that is given for a key, if any is.
abbrev pub newest : Text → List (Text × ℕ) → Option ℕ → Option ℕ
newest k [] before = before
newest k ((j, v) ∷ moves) before = newest k moves (if text_eq k j then some v else before)

abbrev pub set_volumes : List (Text × ℕ) → VolumeState → VolumeState
set_volumes [] st = st
set_volumes ((j, v) ∷ moves) st = set_volumes moves (set_volume j v st)

set_volume-connection :
    (j : Text) (v : ℕ) (st : VolumeState) {c : ℕ}
    → st.connection ≡ some c
    → (set_volume j v st).connection ≡ some c
unfolding set_volume
set_volume-connection j v st e = rw e

set_volume-pending :
    (k j : Text) (v : ℕ) (st : VolumeState) {c : ℕ}
    → st.connection ≡ some c
    → ((set_volume j v st).pending k ≡ (if text_eq k j then some v else st.pending k))
      × ((set_volume j v st).last_sent k ≡ st.last_sent k)
unfolding set_volume
set_volume-pending k j v st e = rw e (refl, refl)

-- The next flush sends, of the values that came for a target while there is a connection, the last
-- one, and not even that one if Discord has it.
set_volumes-newest :
    (k : Text) (moves : List (Text × ℕ)) (st : VolumeState) (c : ℕ)
    → st.connection ≡ some c
    → (take_pending (set_volumes moves st)).0 k
      ≡ unless_sent (st.last_sent k) (newest k moves (st.pending k))
unfolding take_pending
set_volumes-newest k [] st c e = refl
set_volumes-newest k ((j, v) ∷ moves) st c e =
    let (p, q) = set_volume-pending k j v st e in
    set_volumes-newest k moves (set_volume j v st) c (set_volume-connection j v st e)
    ∙ ap (λ (l : Option ℕ). unless_sent l (newest k moves ((set_volume j v st).pending k))) q
    ∙ ap (λ (o : Option ℕ). unless_sent (st.last_sent k) (newest k moves o)) p

==_self : (n : ℕ) → (n == n) ≡ true
==_self n = (==_iff n n).1 refl

-- What there is to send for a key once one value came.
todo-set_volume :
    (k : Text) (p : ℕ) (st : VolumeState) (c : ℕ)
    → st.connection ≡ some c
    → (take_pending (set_volume k p st)).0 k ≡ unless_sent (st.last_sent k) (some p)
unfolding take_pending
todo-set_volume k p st c e =
    let (a, b) = set_volume-pending k k p st e in
    ap (λ (l : Option ℕ). unless_sent l ((set_volume k p st).pending k)) b
    ∙ ap (unless_sent (st.last_sent k))
        (a ∙ ap (λ (b : Bool). if b then some p else st.pending k) (text_eq_self k))

-- Whether Discord has been told a value, by a request that it took.
abbrev pub is_told : Option ℕ → Bool
is_told none = false
is_told (some v) = true

unless_told :
    (last : Option ℕ) (p : ℕ) (accepts : Request → Bool) (r : Option Request)
    → has_value last p ≡ false
    → unless_sent (first_of (if_accepted accepts p r) last) (some p)
      ≡ (if is_told (if_accepted accepts p r) then none else some p)
unless_told last p accepts none h = rw h
unless_told last p accepts (some r) h = elim (Bool-cases (accepts r)) [
  | inl e ↦ rw (e, ==_self p)
  | inr e ↦ rw (e, h)
]

begin_flush-connected :
    (st : VolumeState) (c : ℕ)
    → st.connection ≡ some c
    → begin_flush st
      ≡ some (
        record { conn = c; generation = st.volume_generation; todo = (take_pending st).0 },
        (take_pending st).1,
      )
unfolding begin_flush
begin_flush-connected st c e = rw e

-- A flush with nothing in between puts what was sent over what Discord had.
finish_flush-same :
    (st : VolumeState) (c : ℕ) (todo sent : VolumeMap)
    → st.connection ≡ some c
    → finish_flush (record { conn = c; generation = st.volume_generation; todo = todo }) sent st
      ≡ record st { last_sent = copy_onto st.last_sent sent }
unfolding finish_flush
finish_flush-same st c todo sent e = rw (e, ==_self c, ==_self st.volume_generation)

-- While there is a connection, a whole flush of a value that is new to Discord, with nothing in
-- between: if Discord takes the value, the same value is not sent again; if there is no request
-- for it or Discord refuses it, it is.
flush_again :
    (u : Unicode) (r : Option DiscordRoster) (convert : Bool) (accepts : Request → Bool) (k : Text)
    (p c : ℕ) (st : VolumeState)
    → st.connection ≡ some c
    → has_value (st.last_sent k) p ≡ false
    → (f : Flight) × (st₁ : VolumeState) × (begin_flush (set_volume k p st) ≡ some (f, st₁))
      × (f.todo k ≡ some p)
      × ((take_pending (set_volume k p (finish_flush f (sent_of u r convert accepts f) st₁))).0 k
          ≡ (if is_told (if_accepted accepts p (send u r convert k p)) then none else some p))
unfolding sent_of take_pending
flush_again u r convert accepts k p c st e h =
    let st' = set_volume k p st in
    let on = set_volume-connection k p st e in
    let f : Flight = record {
      conn = c;
      generation = st'.volume_generation;
      todo = (take_pending st').0;
    } in
    let st₁ = (take_pending st').1 in
    let todo : f.todo k ≡ some p = todo-set_volume k p st c e ∙ rw h in
    let sent = sent_of u r convert accepts f in
    let done : VolumeState = record st₁ { last_sent = copy_onto st₁.last_sent sent } in
    let told : done.last_sent k
        ≡ first_of (if_accepted accepts p (send u r convert k p)) (st.last_sent k) =
      ap (λ (o : Option ℕ). first_of (send_value u r convert accepts k o) (st'.last_sent k)) todo
      ∙ ap (first_of (if_accepted accepts p (send u r convert k p)))
          (set_volume-pending k k p st e).1 in
    (
      f,
      st₁,
      begin_flush-connected st' c on,
      todo,
      ap (λ (x : VolumeState). (take_pending (set_volume k p x)).0 k)
            (finish_flush-same st₁ c (take_pending st').0 sent on)
          ∙ todo-set_volume k p done c on
          ∙ ap (λ (o : Option ℕ). unless_sent o (some p)) told
          ∙ unless_told (st.last_sent k) p accepts (send u r convert k p) h,
    )

set_volume-frame :
    (k j : Text) (v : ℕ) (st : VolumeState)
    → ((set_volume j v st).connection ≡ st.connection)
      × ((set_volume j v st).last_sent k ≡ st.last_sent k)
      × ((set_volume j v st).volume_generation ≡ st.volume_generation)
unfolding set_volume
set_volume-frame k j v st = ground arith

set_volumes-frame :
    (k : Text) (moves : List (Text × ℕ)) (st : VolumeState)
    → ((set_volumes moves st).connection ≡ st.connection)
      × ((set_volumes moves st).last_sent k ≡ st.last_sent k)
      × ((set_volumes moves st).volume_generation ≡ st.volume_generation)
unfolding set_volume
set_volumes-frame k [] st = (refl, refl, refl)
set_volumes-frame k ((j, v) ∷ moves) st =
    let (a, b, g) = set_volume-frame k j v st in
    let (a', b', g') = set_volumes-frame k moves (set_volume j v st) in (a' ∙ a, b' ∙ b, g' ∙ g)

-- A flush of another generation marks nothing.
finish_flush-other :
    (f : Flight) (sent : VolumeMap) (st : VolumeState)
    → (f.generation == st.volume_generation) ≡ false
    → finish_flush f sent st ≡ st
unfolding finish_flush
finish_flush-other f sent st e = elim (Bool-cases (is_conn st.connection f.conn)) [
  | inl a ↦ rw (a, e)
  | inr a ↦ rw a
]

begun : {a b : Flight × VolumeState} → some a ≡ some b → a.0 ≡ b.0
begun e = cc

left_by : {a b : Flight × VolumeState} → some a ≡ some b → a.1 ≡ b.1
left_by e = cc

-- A flush that began, while there was a connection, before the volumes were invalidated marks
-- nothing as sent, whatever values came since and whatever Discord took, and the next value of any
-- target is then sent.
pub finish_flush_stale :
    (st : VolumeState) (f : Flight) (st₁ : VolumeState) (moves : List (Text × ℕ)) (sent : VolumeMap)
    (k : Text) (p c : ℕ)
    → begin_flush st ≡ some (f, st₁)
    → st.connection ≡ some c
    → let st₂ = set_volumes moves (invalidate_volumes st₁) in
      (finish_flush f sent st₂ ≡ st₂)
      × ((take_pending (set_volume k p (finish_flush f sent st₂))).0 k ≡ some p)
unfolding invalidate_volumes take_pending
finish_flush_stale st f st₁ moves sent k p c e on =
    let both = sym (begin_flush-connected st c on) ∙ e in
    let st₂ = set_volumes moves (invalidate_volumes st₁) in
    let (linked, unsent, next) = set_volumes-frame k moves (invalidate_volumes st₁) in
    let old : f.generation ≡ st.volume_generation =
      sym (ap (λ (x : Flight). x.generation) (begun both)) in
    let same : st₁.volume_generation ≡ st.volume_generation =
      sym (ap (λ (x : VolumeState). x.volume_generation) (left_by both)) in
    let on₁ : st₁.connection ≡ some c =
      sym (ap (λ (x : VolumeState). x.connection) (left_by both)) ∙ on in
    let stays = finish_flush-other f sent st₂ (ground (arith, old, same, next)) in
    (
      stays,
      ap (λ (x : VolumeState). (take_pending (set_volume k p x)).0 k) stays
          ∙ todo-set_volume k p st₂ c (linked ∙ on₁)
          ∙ ap (λ (o : Option ℕ). unless_sent o (some p)) unsent,
    )
