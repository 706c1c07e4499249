-- ===== src/Mixer/Moves.antt =====
-- A whole slider move (internal/mixer/targets.go) on a slider whose targets are programs.
use deej.Prelude.{
  ℕ, ◌≡◌, refl, ap, ◌∙◌, Bool, false, ◌&&◌, ◌||◌, List, [], ◌∷◌, some, arith, if◌then◌else◌, All,
}
use deej.Prelude.Int.{pos}
use deej.Prelude.Text.{Text, Unicode, text_eq, to_lower, has_prefix}
use deej.Config.Model.{SliderMappings}
use deej.Config.Entries.{get}
use deej.Mixer.Sessions.{Attributes, SessionMap, MixerState, sessions_of, find_sessions}
use deej.Mixer.Counts.{IsKeyed}
use deej.Mixer.Targets.{
  special_prefix, Foreground, Backend, Integrations, Action, or_none, set_session_volumes,
  move_target, move_targets, handle_slider_move,
}
use deej.Mixer.Volumes.{stands_in, set_volumes-accepts, set_session_volumes-volume}
use deej.Mixer.Routing.{move_target_sessions}

-- Each target is without the special prefix, whatever its case.
abbrev pub ArePlain : Unicode → List Text → Type 0
ArePlain u = All (λ t. has_prefix special_prefix (to_lower u t) ≡ false)

-- The key is one of the targets in lower case.
abbrev pub names_any : Unicode → List Text → Text → Bool
names_any u [] k = false
names_any u (t ∷ ts) k = text_eq k (to_lower u t) || names_any u ts k

set_session_volumes-accepts :
    (m : SessionMap) (target : Text) (v : ℕ) (b : Backend)
    → (set_session_volumes m target v b).1.accepts ≡ b.accepts
unfolding set_session_volumes
set_session_volumes-accepts m target v b =
    set_volumes-accepts v (or_none (find_sessions m target)) b

-- What a first target leaves to the others.
merge_tests :
    (now later known taken : Bool) (v old new : ℕ)
    → new ≡ (if now && known && taken then v else old)
    → (if later && known && taken then v else new)
      ≡ (if (now || later) && known && taken then v else old)
merge_tests now later known taken v old new e = ground arith

module _ (u : Unicode) (a : Attributes) (fg : Foreground) (i : Integrations) (st : MixerState)
    (v t : ℕ) where
  abbrev moved : List Text → Backend → ℕ
  moved ts b =
      if names_any u ts (a.key t) && stands_in t (sessions_of st.sessions) && b.accepts t
      then v
      else b.volume t

  abbrev set_by : Text → Backend → ℕ
  set_by target b =
      if text_eq (a.key t) (to_lower u target)
        && stands_in t (sessions_of st.sessions)
        && b.accepts t
      then v
      else b.volume t

  moved-cons :
      (target : Text) (ts : List Text) (b b' : Backend)
      → b'.accepts t ≡ b.accepts t
      → b'.volume t ≡ set_by target b
      → moved ts b' ≡ moved (target ∷ ts) b
  moved-cons target ts b b' e f =
      ap
        (λ (x : Bool).
          if names_any u ts (a.key t) && stands_in t (sessions_of st.sessions) && x
          then v
          else b'.volume t)
        e
      ∙ merge_tests (text_eq (a.key t) (to_lower u target)) (names_any u ts (a.key t))
          (stands_in t (sessions_of st.sessions)) (b.accepts t) v (b.volume t) (b'.volume t) f

  move_targets-volume :
      (ts : List Text) (b : Backend)
      → IsKeyed a st.sessions
      → ArePlain u ts
      → (move_targets u a fg i st ts v b).1.volume t ≡ moved ts b
  unfolding move_targets
  move_targets-volume [] b k h = refl
  move_targets-volume (target ∷ ts) b k (plain, h) =
      let b' = (move_target u a fg i st target v b).1 in
      let first : move_target u a fg i st target v b
          ≡ set_session_volumes st.sessions (to_lower u target) v b =
        move_target_sessions u a fg i st target v b plain in
      let taken : b'.accepts t ≡ b.accepts t =
        ap (λ (r : List Action × Backend). r.1.accepts t) first
        ∙ ap (λ (f : ℕ → Bool). f t)
            (set_session_volumes-accepts st.sessions (to_lower u target) v b) in
      let now : b'.volume t ≡ set_by target b =
        ap (λ (r : List Action × Backend). r.1.volume t) first
        ∙ set_session_volumes-volume a st.sessions (to_lower u target) v b t k in
      move_targets-volume ts b' k h ∙ moved-cons target ts b b' taken now

  -- In a keyed map, a move of a slider that the mapping has, and whose targets are all plain, sets
  -- exactly the sessions of the map that have one of the targets, whatever its case, as their key
  -- and take the volume; every other session keeps its volume.
  pub handle_slider_move-volume :
      (mapping : SliderMappings) (slider : ℕ) (ts : List Text) (b : Backend)
      → get mapping (pos slider) ≡ some ts
      → IsKeyed a st.sessions
      → ArePlain u ts
      → (handle_slider_move u a fg i mapping st slider v b).1.volume t ≡ (
          if names_any u ts (a.key t) && stands_in t (sessions_of st.sessions) && b.accepts t
          then v
          else b.volume t)
  unfolding handle_slider_move
  handle_slider_move-volume mapping slider ts b e k h =
      rw (e, handle_slider_move) (move_targets-volume ts b k h)
