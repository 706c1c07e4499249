-- ===== src/Config/Rules.antt =====
-- internal/config/normalize.go: the one rule set behind saves and loads. A message that the source
-- formats is a constructor with the values in it.
use deej.Prelude.{
  ℕ, suc, ◌+◌, Bool, true, false, ◌&&◌, ◌||◌, not, List, [], ◌∷◌, ◌++◌, map, Option, none, some,
  if◌then◌else◌, leb, length,
}
use deej.Prelude.Int.{ℤ, pos, ltb_ℤ}
use deej.Prelude.Text.{Text, codes, Unicode, text_eq, contains, to_lower, equal_fold, trim_space}
use deej.Prelude.Strconv.{split, itoa, all_digits}
use deej.Config.Model.{
  ComSettings, ObsSettings, DiscordSettings, Profile, Settings, default_com, default_profile_name,
  default_settings,
}
use deej.Config.Hex.{canonical}
use deej.Config.Entries.{MappingProblem, normalized}

pub data Problem : Type 0 where
  empty_port : Problem
  bad_baud_rate : ℤ → Problem
  bad_vid : Text → Problem
  bad_pid : Text → Problem
  bad_noise_reduction : Text → Problem
  bad_language : Text → Problem
  bad_obs_port : ℤ → Problem
  empty_client_id : Problem
  bad_client_id : Text → Problem
  empty_client_secret : Problem
  unnamed_profile : ℕ → Text → Problem
  duplicate_profile : Text → Problem
  bad_hotkey : Text → Text → Problem
  duplicate_hotkey : Text → Text → Problem
  in_mapping : Text → MappingProblem → Problem
  unknown_active_profile : Text → Problem

abbrev pub note_if : Bool → Problem → List Problem
note_if true p = p ∷ []
note_if false p = []

abbrev pub valid_noise_reduction_levels : List Text
valid_noise_reduction_levels = [] ∷ codes "low" ∷ codes "default" ∷ codes "high" ∷ codes "none" ∷ []

abbrev pub valid_languages : List Text
valid_languages = codes "auto" ∷ codes "en" ∷ codes "ru" ∷ []

unfoldable pub find_profile_name : Unicode → List Profile → Text → Option Text
unfolding equal_fold
find_profile_name u [] name = none
find_profile_name u (p ∷ ps) name =
    if equal_fold u p.name name then some p.name else find_profile_name u ps name

unfoldable pub normalize_com : Unicode → ComSettings → ComSettings × List Problem
unfolding canonical
normalize_com u c =
    let no_port = text_eq c.port [] in
    let no_rate = not (ltb_ℤ (pos 0) c.baud_rate) in
    let (vid, vid_ok) = canonical u c.vid default_com.vid in
    let (pid, pid_ok) = canonical u c.pid default_com.pid in
    (
      record {
        port = if no_port then default_com.port else c.port;
        baud_rate = if no_rate then default_com.baud_rate else c.baud_rate;
        vid = vid;
        pid = pid;
      },
      note_if no_port empty_port
          ++ (note_if no_rate (bad_baud_rate c.baud_rate)
              ++ (note_if (not vid_ok) (bad_vid c.vid) ++ note_if (not pid_ok) (bad_pid c.pid))),
    )

-- A value outside the list of valid ones is replaced.
unfoldable pub normalize_choice : List Text → Text → (Text → Problem) → Text → Text × List Problem
unfolding contains
normalize_choice valid def problem t = if contains valid t then (t, []) else (def, problem t ∷ [])

unfoldable pub normalize_obs : ObsSettings → ObsSettings × List Problem
normalize_obs o =
    let bad_port = ltb_ℤ o.port (pos 1) || ltb_ℤ (pos 65535) o.port in
    (
      record o {
        port = if bad_port then default_settings.obs.port else o.port;
        host = if text_eq o.host [] then default_settings.obs.host else o.host;
      },
      note_if bad_port (bad_obs_port o.port),
    )

-- `isDigits`
unfoldable pub is_digits : Text → Bool
is_digits t = not (text_eq t []) && all_digits t

-- The client id that stays, and what is reported of it.
unfoldable pub check_client_id : Text → Text × List Problem
unfolding is_digits
check_client_id t =
    if text_eq t []
    then (t, empty_client_id ∷ [])
    else if not (is_digits t)
    then ([], bad_client_id t ∷ [])
    else (t, [])

abbrev pub is_nil {ℓ} : {A : Type ℓ} → List A → Bool
is_nil [] = true
is_nil (x ∷ xs) = false

unfoldable pub normalize_discord : DiscordSettings → DiscordSettings × List Problem
unfolding check_client_id
normalize_discord d =
    let id = trim_space d.client_id in
    let secret = trim_space d.client_secret in
    let (kept, id_problems) = check_client_id id in
    let problems = id_problems ++ note_if (text_eq secret []) empty_client_secret in
    if d.enabled
    then (
      record d { enabled = is_nil problems; client_id = kept; client_secret = secret },
      problems,
    )
    else (record d { client_id = id; client_secret = secret }, [])

abbrev pub valid_hotkey_modifiers : List Text
valid_hotkey_modifiers =
    codes "cmdorctrl"
    ∷ codes "cmd"
    ∷ codes "command"
    ∷ codes "ctrl"
    ∷ codes "optionoralt"
    ∷ codes "alt"
    ∷ codes "option"
    ∷ codes "shift"
    ∷ codes "super"
    ∷ []

-- Modifiers, then a key that is not blank.
unfoldable pub valid_components : Unicode → List Text → Bool
unfolding contains
valid_components u [] = false
valid_components u (key ∷ []) = not (text_eq (trim_space key) [])
valid_components u (m ∷ c ∷ cs) =
    contains valid_hotkey_modifiers (to_lower u (trim_space m)) && valid_components u (c ∷ cs)

unfoldable pub valid_hotkey : Unicode → Text → Bool
unfolding valid_components split
valid_hotkey u hotkey =
    let components = split b'+' hotkey in leb 2 (length components) && valid_components u components

-- The name of the profile at index `i`: its own, or a generated one.
unfoldable pub profile_name : ℕ → Text → Text × List Problem
profile_name i name =
    let generated = codes "profile " ++ itoa (i + 1) in
    if text_eq name [] then (generated, unnamed_profile (i + 1) generated ∷ []) else (name, [])

-- The hotkey that stays, what is reported of it, and the hotkeys seen behind it.
pub record HotkeyCheck : Type 0 where
  pub kept : Text
  pub problems : List Problem
  pub seen : List Text

unfoldable pub check_hotkey : Unicode → Text → List Text → Text → HotkeyCheck
unfolding valid_hotkey contains
check_hotkey u name seen hotkey =
    if text_eq hotkey []
    then record { kept = []; problems = []; seen = seen }
    else if not (valid_hotkey u hotkey)
    then record { kept = []; problems = bad_hotkey name hotkey ∷ []; seen = seen }
    else if contains seen (to_lower u hotkey)
    then record { kept = []; problems = duplicate_hotkey hotkey name ∷ []; seen = seen }
    else record { kept = hotkey; problems = []; seen = to_lower u hotkey ∷ seen }

abbrev pub with_problems {ℓ} : {A : Type ℓ} → List Problem → A × List Problem → A × List Problem
with_problems qs (a, ps) = (a, qs ++ ps)

abbrev pub cons_profile :
    Profile → List Problem → List Profile × List Problem → List Profile × List Problem
cons_profile p qs (ps, rs) = (p ∷ ps, qs ++ rs)

-- The loop over the profiles from index `i` on, behind the names and hotkeys seen so far.
unfoldable pub normalize_profile_list :
    Unicode → ℕ → List Text → List Text → List Profile → List Profile × List Problem
normalize_profile_list u i names hotkeys [] = ([], [])
normalize_profile_list u i names hotkeys (p ∷ ps) =
    let named = profile_name i (trim_space p.name) in
    let name = named.0 in
    let hotkey = check_hotkey u name hotkeys (trim_space p.hotkey) in
    let mapping = normalized p.slider_mapping in
    let skipped = normalize_profile_list u (suc i) names hotkeys ps in
    let kept = normalize_profile_list u (suc i) (to_lower u name ∷ names) hotkey.seen ps in
    if contains names (to_lower u name)
    then with_problems (named.1 ++ duplicate_profile name ∷ []) skipped
    else cons_profile (record { name = name; hotkey = hotkey.kept; slider_mapping = mapping.0 })
        (named.1 ++ (hotkey.problems ++ map (in_mapping name) mapping.1)) kept

-- There is always a profile.
abbrev pub or_default_profile : List Profile → List Profile
or_default_profile [] =
    record { name = default_profile_name; hotkey = []; slider_mapping = [] } ∷ []
or_default_profile (p ∷ ps) = p ∷ ps

abbrev pub first_name : List Profile → Text
first_name [] = []
first_name (p ∷ ps) = p.name

abbrev pub resolve_active : List Profile → Text → Option Text → Text × List Problem
resolve_active ps name (some resolved) = (resolved, [])
resolve_active ps name none =
    (first_name ps, note_if (not (text_eq name [])) (unknown_active_profile name))

unfoldable pub normalize_active : Unicode → List Profile → Text → Text × List Problem
unfolding find_profile_name
normalize_active u ps active =
    let name = trim_space active in resolve_active ps name (find_profile_name u ps name)

-- `normalize`
unfoldable pub normalize : Unicode → Settings → Settings × List Problem
normalize u s =
    let serial = normalize_com u s.com_settings in
    let noise =
      normalize_choice valid_noise_reduction_levels [] bad_noise_reduction s.noise_reduction in
    let language =
      normalize_choice valid_languages default_settings.language bad_language s.language in
    let obs = normalize_obs s.obs in
    let discord = normalize_discord s.discord in
    let listed = normalize_profile_list u 0 [] [] s.profiles in
    let profiles = or_default_profile listed.0 in
    let active = normalize_active u profiles s.active_profile in
    (
      record s {
        active_profile = active.0;
        profiles = profiles;
        com_settings = serial.0;
        noise_reduction = noise.0;
        language = language.0;
        obs = obs.0;
        discord = discord.0;
      },
      serial.1 ++ (noise.1 ++ (language.1 ++ (obs.1 ++ (discord.1 ++ (listed.1 ++ active.1))))),
    )
