-- ===== src/Mixer/Routing.antt =====
-- Where the targets of a slider lead: to the integrations, to the sessions with the target as key,
-- or to the sessions that no slider names.
use deej.Prelude.{
  ℕ, ◌≡◌, refl, ap, true, false, List, [], ◌∷◌, none, some, arith, if◌then◌else◌, All, Bool-cases,
  Option-cases, inl, inr, drop,
}
use mathlib.Core.List.{append-nil}
use deej.Prelude.Text.{
  Text, Unicode, codes, text_eq, text_eq_iff, contains, to_lower, has_prefix, cut_prefix,
  cut_prefix-eq,
}
use deej.Config.Model.{SliderMappings}
use deej.Mixer.Sessions.{Attributes, MixerState}
use deej.Mixer.Targets.{
  special_prefix, obs_prefix, Foreground, Action, Backend, Integrations, any_entry, special_names,
  session_mapped, resolve_target, discord_target_key, apply_special_target, move_target, set_all,
  set_session_volumes,
}
use deej.Mixer.Mapped.{names_key}

-- Every target of an integration starts with the prefix of the special targets.
has_prefix-obs : (s : Text) → has_prefix special_prefix s ≡ false → has_prefix obs_prefix s ≡ false
unfolding cut_prefix
has_prefix-obs s h = ground arith

text_eq-plain :
    (s t : Text)
    → has_prefix special_prefix t ≡ true
    → has_prefix special_prefix s ≡ false
    → text_eq s t ≡ false
text_eq-plain s t h k = elim (Bool-cases (text_eq s t)) [
  | inl e ↦ absurd (cc (ap (has_prefix special_prefix) ((text_eq_iff s t).0 e)))
  | inr e ↦ e
]

cut_prefix-discord :
    (s : Text) → has_prefix special_prefix s ≡ false → cut_prefix (codes "deej.discord:") s ≡ none
unfolding cut_prefix
cut_prefix-discord s h = ground arith

discord_target_key-plain :
    (u : Unicode) (target : Text)
    → has_prefix special_prefix (to_lower u target) ≡ false
    → discord_target_key u target ≡ none
unfolding discord_target_key
discord_target_key-plain u target h = rw (
  text_eq-plain (to_lower u target) (codes "deej.discord.input") (unfold cut_prefix in refl) h,
  text_eq-plain (to_lower u target) (codes "deej.discord.output") (unfold cut_prefix in refl) h,
  cut_prefix-discord (to_lower u target) h,
)

discord_target_key-obs :
    (u : Unicode) (target : Text) {k : Text}
    → discord_target_key u target ≡ some k
    → has_prefix obs_prefix (to_lower u target) ≡ false
unfolding discord_target_key cut_prefix
discord_target_key-obs u target h =
    let lower = to_lower u target in
    elim (Bool-cases (text_eq lower (codes "deej.discord.input"))) [
      | inl e ↦ ap (has_prefix obs_prefix) ((text_eq_iff lower _).0 e)
      | inr e ↦ elim (Bool-cases (text_eq lower (codes "deej.discord.output"))) [
        | inl f ↦ ap (has_prefix obs_prefix) ((text_eq_iff lower _).0 f)
        | inr f ↦ elim (Option-cases (cut_prefix (codes "deej.discord:") lower)) [
          | inl g ↦ absurd (cc (rw (e, f, g, discord_target_key) at h))
          | inr (r, g) ↦ ap (has_prefix obs_prefix) (cut_prefix-eq (codes "deej.discord:") lower g)
        ]
      ]
    ]

resolve_target-plain :
    (u : Unicode) (a : Attributes) (fg : Foreground) (st : MixerState) (target : Text)
    → has_prefix special_prefix (to_lower u target) ≡ false
    → resolve_target u a fg st target ≡ to_lower u target ∷ []
unfolding resolve_target
resolve_target-plain u a fg st target h = rw h

-- A target of OBS, whatever its case, reaches the input that it names, spelled as it is written,
-- if OBS is connected, and no session.
move_target_obs :
    (u : Unicode) (a : Attributes) (fg : Foreground) (i : Integrations) (st : MixerState)
    (target : Text) (v : ℕ) (b : Backend)
    → has_prefix obs_prefix (to_lower u target) ≡ true
    → move_target u a fg i st target v b
      ≡ ((if i.obs_connected then Action.set_obs (drop 9 target) v ∷ [] else []), b)
unfolding move_target apply_special_target set_all
move_target_obs u a fg i st target v b h = rw h

-- A target of Discord reaches Discord, if there is one, under its key, and no session.
move_target_discord :
    (u : Unicode) (a : Attributes) (fg : Foreground) (i : Integrations) (st : MixerState)
    (target : Text) (k : Text) (v : ℕ) (b : Backend)
    → discord_target_key u target ≡ some k
    → move_target u a fg i st target v b
      ≡ ((if i.discord_present then Action.set_discord k v ∷ [] else []), b)
unfolding move_target apply_special_target set_all
move_target_discord u a fg i st target k v b h = rw (discord_target_key-obs u target h, h)

-- A target without the special prefix sets the sessions that have it, in lower case, as their key,
-- and reaches no integration.
pub move_target_sessions :
    (u : Unicode) (a : Attributes) (fg : Foreground) (i : Integrations) (st : MixerState)
    (target : Text) (v : ℕ) (b : Backend)
    → has_prefix special_prefix (to_lower u target) ≡ false
    → move_target u a fg i st target v b ≡ set_session_volumes st.sessions (to_lower u target) v b
unfolding move_target apply_special_target set_all
move_target_sessions u a fg i st target v b h =
    let lower = to_lower u target in
    rw
      (
        has_prefix-obs lower h,
        discord_target_key-plain u target h,
        resolve_target-plain u a fg st target h,
      )
      (ap (λ (x : List Action). (x, (set_session_volumes st.sessions lower v b).1))
        (append-nil (set_session_volumes st.sessions lower v b).0))

-- No session of the unmapped list counts as mapped.
abbrev pub Unclaimed : Unicode → Attributes → Foreground → SliderMappings → MixerState → Type 0
Unclaimed u a fg mapping st = All (λ s. session_mapped u a fg mapping st s ≡ false) st.unmapped

-- The key is no plain target of the mapping and none of the special sessions.
abbrev pub IsFree : Unicode → SliderMappings → Text → Type 0
IsFree u mapping k =
    (any_entry (names_key u k) mapping ≡ false) × (contains special_names k ≡ false)
