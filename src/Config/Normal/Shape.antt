-- ===== src/Config/Normal/Shape.antt =====
-- What normalised settings look like, part by part.
use deej.Prelude.{◌≡◌, ◌⊎◌, ◌<◌, true, false, List, [], ◌∷◌, some, if◌then◌else◌, length}
use deej.Prelude.Int.{pos, ltb_ℤ}
use deej.Prelude.Text.{Text, Unicode, text_eq, contains, to_lower, trim_space}
use deej.Config.Model.{ComSettings, ObsSettings, DiscordSettings, Profile, Settings}
use deej.Config.Hex.{IsWord}
use deej.Config.Mapping.{IsCanonical}
use deej.Config.Rules.{
  valid_noise_reduction_levels, valid_languages, is_digits, valid_hotkey, find_profile_name,
}

abbrev pub NonEmpty : Text → Type 0
NonEmpty t = text_eq t [] ≡ false

abbrev pub IsTrimmed : Text → Type 0
IsTrimmed t = trim_space t ≡ t

pub record IsNormalCom (c : ComSettings) : Type 0 where
  pub named : NonEmpty c.port
  pub positive : ltb_ℤ (pos 0) c.baud_rate ≡ true
  pub vid_word : IsWord c.vid
  pub pid_word : IsWord c.pid

pub record IsNormalObs (o : ObsSettings) : Type 0 where
  pub port_low : ltb_ℤ o.port (pos 1) ≡ false
  pub port_high : ltb_ℤ (pos 65535) o.port ≡ false
  pub hosted : NonEmpty o.host

-- Discord is enabled only with a numeric client id and a secret.
pub record IsNormalDiscord (d : DiscordSettings) : Type 0 where
  pub id_trimmed : IsTrimmed d.client_id
  pub secret_trimmed : IsTrimmed d.client_secret
  pub id_digits : d.enabled ≡ true → is_digits d.client_id ≡ true
  pub secret_given : d.enabled ≡ true → NonEmpty d.client_secret

-- A hotkey is absent, or is valid and none of those before it.
abbrev pub IsNormalHotkey : Unicode → List Text → Text → Type 0
IsNormalHotkey u seen hotkey =
    IsTrimmed hotkey
    × ((hotkey ≡ [])
        ⊎ (NonEmpty hotkey
            × (valid_hotkey u hotkey ≡ true)
            × (contains seen (to_lower u hotkey) ≡ false)))

abbrev pub hotkeys_after : Unicode → List Text → Text → List Text
hotkeys_after u seen hotkey = if text_eq hotkey [] then seen else to_lower u hotkey ∷ seen

-- A profile behind those that have the given names and hotkeys, in lower case.
pub record IsNormalProfile (u : Unicode) (names hotkeys : List Text) (p : Profile) : Type 0 where
  pub name_trimmed : IsTrimmed p.name
  pub name_given : NonEmpty p.name
  pub name_new : contains names (to_lower u p.name) ≡ false
  pub hotkey_normal : IsNormalHotkey u hotkeys p.hotkey
  pub mapping_canonical : IsCanonical p.slider_mapping

-- Names and hotkeys are distinct along the list, whatever their case.
abbrev pub AreNormalProfiles : Unicode → List Text → List Text → List Profile → Type 0
AreNormalProfiles u names hotkeys [] = Unit {0}
AreNormalProfiles u names hotkeys (p ∷ ps) =
    IsNormalProfile u names hotkeys p
    × AreNormalProfiles u (to_lower u p.name ∷ names) (hotkeys_after u hotkeys p.hotkey) ps

pub record IsNormal (u : Unicode) (s : Settings) : Type 0 where
  pub com_normal : IsNormalCom s.com_settings
  pub noise_valid : contains valid_noise_reduction_levels s.noise_reduction ≡ true
  pub language_valid : contains valid_languages s.language ≡ true
  pub obs_normal : IsNormalObs s.obs
  pub discord_normal : IsNormalDiscord s.discord
  pub profiles_normal : AreNormalProfiles u [] [] s.profiles
  pub some_profile : 0 < length s.profiles
  pub active_resolved : find_profile_name u s.profiles s.active_profile ≡ some s.active_profile
