-- ===== src/Config/Normal/Sections.antt =====
-- The parts of the settings that stand by themselves: serial port, OBS, Discord, choices.
use deej.Prelude.{◌≡◌, refl, true, List, [], arith}
use deej.Prelude.Text.{Text, Unicode, text_eq, contains, trim_space_idem, trim_space-nil}
use deej.Config.Model.{ComSettings, ObsSettings, DiscordSettings, default_com}
use deej.Config.Hex.{IsWord, format_hex, canonical-IsWord, canonical_of_IsWord}
use deej.Config.Rules.{Problem, normalize_com, normalize_choice, normalize_obs, normalize_discord}
use deej.Config.Normal.Shape.{IsNormalCom, IsNormalObs, IsNormalDiscord}

vid_default : IsWord default_com.vid
vid_default = (0x1A86, omega arith, unfold format_hex in refl)

pid_default : IsWord default_com.pid
pid_default = (0x7523, omega arith, unfold format_hex in refl)

pub normalize_com-IsNormalCom : (u : Unicode) (c : ComSettings) → IsNormalCom (normalize_com u c).0
unfolding normalize_com text_eq
normalize_com-IsNormalCom u c = record {
  named = ground arith;
  positive = ground arith;
  vid_word = canonical-IsWord u c.vid _ vid_default;
  pid_word = canonical-IsWord u c.pid _ pid_default;
}

pub normalize_com_of_IsNormalCom :
    (u : Unicode) (c : ComSettings) → IsNormalCom c → normalize_com u c ≡ (c, [])
unfolding normalize_com
normalize_com_of_IsNormalCom u c h = rw (
  h.named,
  h.positive,
  canonical_of_IsWord u c.vid default_com.vid h.vid_word,
  canonical_of_IsWord u c.pid default_com.pid h.pid_word,
)

pub normalize_choice-contains :
    (valid : List Text) (def : Text) (problem : Text → Problem) (t : Text)
    → contains valid def ≡ true
    → contains valid (normalize_choice valid def problem t).0 ≡ true
unfolding normalize_choice
normalize_choice-contains valid def problem t h = ground arith

pub normalize_choice_of_contains :
    (valid : List Text) (def : Text) (problem : Text → Problem) (t : Text)
    → contains valid t ≡ true
    → normalize_choice valid def problem t ≡ (t, [])
unfolding normalize_choice
normalize_choice_of_contains valid def problem t h = rw h

pub normalize_obs-IsNormalObs : (o : ObsSettings) → IsNormalObs (normalize_obs o).0
unfolding normalize_obs text_eq
normalize_obs-IsNormalObs o = ground arith

pub normalize_obs_of_IsNormalObs : (o : ObsSettings) → IsNormalObs o → normalize_obs o ≡ (o, [])
unfolding normalize_obs
normalize_obs_of_IsNormalObs o h = rw (h.port_low, h.port_high, h.hosted)

pub normalize_discord-IsNormalDiscord :
    (d : DiscordSettings) → IsNormalDiscord (normalize_discord d).0
unfolding normalize_discord
normalize_discord-IsNormalDiscord d =
    ground (arith, trim_space_idem d.client_id, trim_space_idem d.client_secret, trim_space-nil)

pub normalize_discord_of_IsNormalDiscord :
    (d : DiscordSettings) → IsNormalDiscord d → normalize_discord d ≡ (d, [])
unfolding normalize_discord
normalize_discord_of_IsNormalDiscord d h = ground arith
