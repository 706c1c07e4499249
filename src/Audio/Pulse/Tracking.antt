-- ===== src/Audio/Pulse/Tracking.antt =====
-- What an enumeration of the sink inputs leaves in the map.
use deej.Prelude.{
  ℕ, ◌≡◌, refl, ap, sym, ◌∙◌, ◌⊎◌, inl, inr, List, [], ◌∷◌, Option, none, some, ◌==◌, ==_iff,
  length, All, Bool-cases,
}
use deej.Prelude.Text.{Text}
use deej.Audio.Session.{PaSession, new_pa_session}
use deej.Audio.Server.{SinkInputInfo}
use deej.Audio.Pulse.{
  Finder, Op, find_index, insert_sink_input, put_sink_input, session_name, text_or_empty, announce,
}
use deej.Audio.Pulse.Worker.{perform}

-- The loop of `enumerateExistingSessions`, when nothing comes between its rounds.
unfoldable pub add_all : List SinkInputInfo → Finder → Finder
unfolding perform
add_all [] f = f
add_all (i ∷ is) f = add_all is (perform (Op.add_sink_input_from_info i) f)

-- The index finds a session.
abbrev pub IsTracked : ℕ → Finder → Type 0
IsTracked i f = (s : ℕ) × (find_index i f.sink_inputs ≡ some s)

insert-current :
    (s : PaSession) (o : Option ℕ) (f : Finder) → (insert_sink_input s o f).current ≡ f.current
unfolding insert_sink_input announce
insert-current s none f = refl
insert-current s (some t) f = refl

put-current :
    (i : SinkInputInfo) (c : Option ℕ) (n : Option Text) (f : Finder)
    → (put_sink_input i c n f).current ≡ f.current
unfolding put_sink_input
put-current i none n f = refl
put-current i (some c) none f = refl
put-current i (some c) (some n) f =
    insert-current (new_pa_session c i.index i.channels n (text_or_empty i.application_name))
      (find_index i.index f.sink_inputs) f

insert-kept :
    (s : PaSession) (o : Option ℕ) (f : Finder) (j t : ℕ)
    → find_index s.index f.sink_inputs ≡ o
    → find_index j f.sink_inputs ≡ some t
    → find_index j (insert_sink_input s o f).sink_inputs ≡ some t
unfolding insert_sink_input announce find_index
insert-kept s (some u) f j t e h = h
insert-kept s none f j t e h = elim (Bool-cases (s.index == j)) [
  | inl same ↦ absurd (cc (e, h, ap (λ x. find_index x f.sink_inputs) ((==_iff s.index j).0 same)))
  | inr other ↦ rw other h
]

put-kept :
    (i : SinkInputInfo) (c : Option ℕ) (n : Option Text) (f : Finder) (j t : ℕ)
    → find_index j f.sink_inputs ≡ some t
    → find_index j (put_sink_input i c n f).sink_inputs ≡ some t
unfolding put_sink_input new_pa_session
put-kept i none n f j t h = h
put-kept i (some c) none f j t h = h
put-kept i (some c) (some n) f j t h =
    insert-kept (new_pa_session c i.index i.channels n (text_or_empty i.application_name))
      (find_index i.index f.sink_inputs) f j t refl h

insert-IsTracked :
    (s : PaSession) (o : Option ℕ) (f : Finder)
    → find_index s.index f.sink_inputs ≡ o
    → IsTracked s.index (insert_sink_input s o f)
unfolding insert_sink_input announce find_index
insert-IsTracked s (some u) f e = (u, e)
insert-IsTracked s none f e = (length f.made, rw ((==_iff s.index s.index).1 refl) refl)

-- Nothing more is to be done for a sink input.
abbrev IsSettled : SinkInputInfo → Finder → Type 0
IsSettled i f = (f.current ≡ none) ⊎ ((session_name i ≡ none) ⊎ IsTracked i.index f)

put-IsSettled :
    (i : SinkInputInfo) (c : Option ℕ) (n : Option Text) (f : Finder)
    → c ≡ f.current
    → n ≡ session_name i
    → IsSettled i (put_sink_input i c n f)
unfolding put_sink_input new_pa_session
put-IsSettled i none n f e e' = inl (sym e)
put-IsSettled i (some c) none f e e' = inr (inl (sym e'))
put-IsSettled i (some c) (some n) f e e' = inr (
    inr (
      insert-IsTracked (new_pa_session c i.index i.channels n (text_or_empty i.application_name))
        (find_index i.index f.sink_inputs) f refl))

settled-put :
    (i : SinkInputInfo) (c : Option ℕ) (n : Option Text) (f : Finder)
    → c ≡ f.current
    → n ≡ session_name i
    → IsSettled i f
    → put_sink_input i c n f ≡ f
unfolding put_sink_input insert_sink_input
settled-put i none n f e e' h = refl
settled-put i (some c) none f e e' h = refl
settled-put i (some c) (some n) f e e' (inl h) = absurd (cc)
settled-put i (some c) (some n) f e e' (inr (inl h)) = absurd (cc)
settled-put i (some c) (some n) f e e' (inr (inr (s, h))) =
    ap
      (λ o.
        insert_sink_input (new_pa_session c i.index i.channels n (text_or_empty i.application_name))
          o f)
      h

IsSettled-perform :
    (i j : SinkInputInfo) (f : Finder)
    → IsSettled i f
    → IsSettled i (perform (Op.add_sink_input_from_info j) f)
unfolding perform
IsSettled-perform i j f (inl h) = inl (put-current j f.current (session_name j) f ∙ h)
IsSettled-perform i j f (inr (inl h)) = inr (inl h)
IsSettled-perform i j f (inr (inr (s, h))) =
    inr (inr (s, put-kept j f.current (session_name j) f i.index s h))

IsSettled-add_all :
    (i : SinkInputInfo) (is : List SinkInputInfo) (f : Finder)
    → IsSettled i f
    → IsSettled i (add_all is f)
unfolding add_all
IsSettled-add_all i [] f h = h
IsSettled-add_all i (j ∷ is) f h =
    IsSettled-add_all i is (perform (Op.add_sink_input_from_info j) f) (IsSettled-perform i j f h)

add_all-IsSettled :
    (is : List SinkInputInfo) (f : Finder) → All (λ i. IsSettled i (add_all is f)) is
unfolding add_all perform
add_all-IsSettled [] f = tt
add_all-IsSettled (i ∷ is) f =
    let f' = perform (Op.add_sink_input_from_info i) f in
    (
      IsSettled-add_all i is f' (put-IsSettled i f.current (session_name i) f refl refl),
      add_all-IsSettled is f',
    )

settled-add_all :
    (is : List SinkInputInfo) (f : Finder) → All (λ i. IsSettled i f) is → add_all is f ≡ f
unfolding add_all perform
settled-add_all [] f h = refl
settled-add_all (i ∷ is) f h =
    ap (add_all is) (settled-put i f.current (session_name i) f refl refl h.0)
    ∙ settled-add_all is f h.1

-- A list of sink inputs that is enumerated a second time, with nothing in between, changes nothing: no
-- session is made, announced or released.
pub add_all_again :
    (is : List SinkInputInfo) (f : Finder) → add_all is (add_all is f) ≡ add_all is f
add_all_again is f = settled-add_all is (add_all is f) (add_all-IsSettled is f)
