-- ===== src/Mixer/Targets.antt =====
-- internal/mixer/targets.go: what a target of the configuration stands for, and what a slider move
-- does.
use deej.Prelude.{
  ℕ, Bool, true, false, ◌||◌, List, [], ◌∷◌, ◌++◌, map, Option, none, some, ◌==◌, if◌then◌else◌,
  drop,
}
use deej.Prelude.Int.{pos}
use deej.Prelude.Text.{
  Text, Unicode, codes, text_eq, contains, to_lower, trim_space, cut_prefix, has_prefix,
  trim_prefix,
}
use deej.Config.Model.{SliderMappings}
use deej.Config.Entries.{get}
use deej.Mixer.Sessions.{Attributes, MixerState, SessionMap, find_sessions}

abbrev pub special_prefix : Text
special_prefix = codes "deej."

abbrev pub obs_prefix : Text
obs_prefix = codes "deej.obs:"

-- The active window's process names, of the platform: the argument asks for a full-screen window,
-- and none is an error.
abbrev pub Foreground : Type 0
Foreground = Bool → Option (List Text)

-- `uniqueStrings`, behind the texts seen so far
unfoldable pub unique_from : List Text → List Text → List Text
unfolding contains
unique_from seen [] = []
unique_from seen (t ∷ ts) =
    let skipped = unique_from seen ts in
    let kept = t ∷ unique_from (t ∷ seen) ts in if contains seen t then skipped else kept

unfoldable pub unique_strings : List Text → List Text
unfolding unique_from
unique_strings ts = unique_from [] ts

abbrev pub window_targets : Unicode → Option (List Text) → List Text
window_targets u none = []
window_targets u (some names) = unique_strings (map (to_lower u) names)

-- `applyTargetTransform`
unfoldable pub apply_target_transform :
    Unicode → Attributes → Foreground → MixerState → Text → List Text
unfolding unique_strings text_eq
apply_target_transform u a foreground st name =
    if text_eq name (codes "current.fullscreen")
    then window_targets u (foreground true)
    else if text_eq name (codes "current")
    then window_targets u (foreground false)
    else if text_eq name (codes "unmapped")
    then map a.key st.unmapped
    else []

-- `resolveTarget`
unfoldable pub resolve_target : Unicode → Attributes → Foreground → MixerState → Text → List Text
unfolding apply_target_transform cut_prefix
resolve_target u a foreground st target =
    let lower = to_lower u target in
    if has_prefix special_prefix lower
    then apply_target_transform u a foreground st (trim_prefix special_prefix lower)
    else lower ∷ []

abbrev pub first_is : Text → List Text → Bool
first_is k [] = false
first_is k (t ∷ ts) = text_eq t k

-- A target of the mapping is the key itself; special targets are ignored.
unfoldable pub target_is : Unicode → Attributes → Foreground → MixerState → Text → Text → Bool
unfolding resolve_target
target_is u a foreground st k target =
    let lower = to_lower u target in
    if has_prefix special_prefix lower
    then false
    else first_is k (resolve_target u a foreground st lower)

unfoldable pub any_target : (Text → Bool) → List Text → Bool
any_target test [] = false
any_target test (t ∷ ts) = test t || any_target test ts

unfoldable pub any_entry : (Text → Bool) → SliderMappings → Bool
unfolding any_target
any_entry test [] = false
any_entry test (e ∷ es) = any_target test e.targets || any_entry test es

abbrev pub special_names : List Text
special_names = codes "master" ∷ codes "system" ∷ codes "mic" ∷ []

-- `sessionMapped`
unfoldable pub session_mapped :
    Unicode → Attributes → Foreground → SliderMappings → MixerState → ℕ → Bool
unfolding target_is any_entry contains
session_mapped u a foreground mapping st s =
    contains special_names (a.key s)
    || (a.is_device s || any_entry (target_is u a foreground st (a.key s)) mapping)

-- `DiscordTargetKey`
unfoldable pub discord_target_key : Unicode → Text → Option Text
unfolding text_eq cut_prefix trim_space
discord_target_key u target =
    let lower = to_lower u target in
    if text_eq lower (codes "deej.discord.input")
    then some (codes "input")
    else if text_eq lower (codes "deej.discord.output")
    then some (codes "output")
    else elim (cut_prefix (codes "deej.discord:") lower) [
      | none ↦ none
      | some name ↦ some (codes "user:" ++ trim_space name)
    ]

-- What the mixer tells the integrations and the sessions.
pub data Action : Type 0 where
  set_obs set_discord : Text → ℕ → Action
  set_session : ℕ → ℕ → Action

-- The audio system: the volume that each session has, and whether it takes a new one.
pub record Backend : Type 0 where
  pub volume : ℕ → ℕ
  pub accepts : ℕ → Bool

abbrev pub changed : (ℕ → ℕ) → ℕ → ℕ → ℕ → ℕ
changed f s v t = if t == s then v else f t

-- The loop of `setSessionVolumes`: a refused volume is only logged.
unfoldable pub set_volumes : ℕ → List ℕ → Backend → List Action × Backend
set_volumes v [] b = ([], b)
set_volumes v (s ∷ ss) b =
    let untouched = set_volumes v ss b in
    let set =
      set_volumes v ss (if b.accepts s then record b { volume = changed b.volume s v } else b) in
    if b.volume s == v then untouched else (set_session s v ∷ set.0, set.1)

abbrev pub or_none : Option (List ℕ) → List ℕ
or_none none = []
or_none (some ss) = ss

-- `setSessionVolumes`
unfoldable pub set_session_volumes : SessionMap → Text → ℕ → Backend → List Action × Backend
unfolding set_volumes find_sessions
set_session_volumes m target v b = set_volumes v (or_none (find_sessions m target)) b

unfoldable pub set_all : SessionMap → ℕ → List Text → Backend → List Action × Backend
unfolding set_session_volumes
set_all m v [] b = ([], b)
set_all m v (t ∷ ts) b =
    let (now, b') = set_session_volumes m t v b in
    let (later, b'') = set_all m v ts b' in (now ++ later, b'')

-- Whether OBS is connected, and whether there is a Discord integration.
pub record Integrations : Type 0 where
  pub obs_connected : Bool
  pub discord_present : Bool

-- `applySpecialTargetAction`: none leaves the target to the audio sessions. The prefix of OBS is
-- ASCII, so cutting it off the original text takes as many characters as it has.
unfoldable pub apply_special_target : Unicode → Integrations → Text → ℕ → Option (List Action)
unfolding cut_prefix discord_target_key
apply_special_target u i target v =
    if has_prefix obs_prefix (to_lower u target)
    then some (if i.obs_connected then set_obs (drop 9 target) v ∷ [] else [])
    else elim (discord_target_key u target) [
      | none ↦ none
      | some k ↦ some (if i.discord_present then set_discord k v ∷ [] else [])
    ]

abbrev pub or_sessions :
    Option (List Action) → Backend → List Action × Backend → List Action × Backend
or_sessions none b r = r
or_sessions (some actions) b r = (actions, b)

-- One target of the loop of `handleSliderMoveEvent`.
unfoldable pub move_target :
    Unicode
    → Attributes
    → Foreground
    → Integrations
    → MixerState
    → Text
    → ℕ
    → Backend
    → List Action × Backend
unfolding apply_special_target resolve_target set_all
move_target u a foreground i st target v b =
    or_sessions (apply_special_target u i target v) b
      (set_all st.sessions v (resolve_target u a foreground st target) b)

unfoldable pub move_targets :
    Unicode
    → Attributes
    → Foreground
    → Integrations
    → MixerState
    → List Text
    → ℕ
    → Backend
    → List Action × Backend
unfolding move_target
move_targets u a foreground i st [] v b = ([], b)
move_targets u a foreground i st (t ∷ ts) v b =
    let (now, b') = move_target u a foreground i st t v b in
    let (later, b'') = move_targets u a foreground i st ts v b' in (now ++ later, b'')

-- `handleSliderMoveEvent`: a slider that is not mapped is ignored.
unfoldable pub handle_slider_move :
    Unicode
    → Attributes
    → Foreground
    → Integrations
    → SliderMappings
    → MixerState
    → ℕ
    → ℕ
    → Backend
    → List Action × Backend
unfolding move_targets get
handle_slider_move u a foreground i mapping st slider v b = elim (get mapping (pos slider)) [
  | none ↦ ([], b)
  | some targets ↦ move_targets u a foreground i st targets v b
]
