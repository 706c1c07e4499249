-- ===== src/Mixer/Tests.antt =====
-- Runs of the mixer with two programs, one of which a slider names.
use deej.Prelude.{◌≡◌, refl, true, false, [], ◌∷◌, none, arith, ◌==◌, if◌then◌else◌, count, ◌↔◌}
use deej.Prelude.Int.{pos}
use deej.Prelude.Text.{Text, ascii, codes, text_eq, cut_prefix}
use deej.Config.Model.{SliderMappings}
use deej.Mixer.Sessions.{
  Attributes, MixerState, sessions_of, handle_session_removed, added, handle_session_event,
}
use deej.Mixer.Targets.{Foreground, session_mapped, Backend, Integrations}
use deej.Mixer.Counts.{IsKeyed}
use deej.Mixer.Consistency.{IsConsistent, removed_unreachable}
use deej.Mixer.Mapped.{IsMapped, session_mapped_iff}
use deej.Mixer.Routing.{Unclaimed}
use deej.Config.Entries.{get}
use deej.Mixer.Targets.{handle_slider_move}
use deej.Mixer.Moves.{handle_slider_move-volume}
use deej.Mixer.Unclaimed.{handle_session_event-Unclaimed}

abbrev browser : Text
browser = codes "chrome.exe"

abbrev player : Text
player = codes "spotify.exe"

-- Session 2 is the player, every other one the browser.
abbrev programs : Attributes
programs = record {
  key = λ s. if s == 2 then player else browser;
  display_name = λ s. [];
  is_device = λ s. false;
  is_input = λ s. false;
}

abbrev both : MixerState
both = record {
  sessions = (browser, 1 ∷ []) ∷ (player, 2 ∷ []) ∷ [];
  unmapped = 2 ∷ [];
  count_changed = false;
}

abbrev mapping : SliderMappings
mapping =
    record { slider = pos 0; targets = codes "Chrome.exe" ∷ [] }
    ∷ record { slider = pos 1; targets = codes "deej.unmapped" ∷ [] }
    ∷ []

abbrev no_window : Foreground
no_window = λ full_screen. none

abbrev silent : Backend
silent = record { volume = λ s. 0; accepts = λ s. true }

abbrev all_present : Integrations
all_present = record { obs_connected = true; discord_present = true }

both-IsKeyed : IsKeyed programs both.sessions
unfolding text_eq
both-IsKeyed = ((refl, tt), omega arith, (refl, tt), ((refl, tt), omega arith, tt, tt))

both-IsConsistent : IsConsistent programs both
both-IsConsistent = record {
  keyed = both-IsKeyed;
  once = λ t. ground arith;
  tracked = λ t. ground arith;
}

removed_unreachable_example :
    (count 2 (sessions_of (handle_session_removed programs both 2).sessions) ≡ 0)
    × (count 2 (handle_session_removed programs both 2).unmapped ≡ 0)
removed_unreachable_example = removed_unreachable programs both 2 2 both-IsConsistent

session_mapped_iff_example :
    (session_mapped ascii programs no_window mapping both 1 ≡ true)
    ↔ IsMapped ascii programs mapping 1
session_mapped_iff_example = session_mapped_iff ascii programs no_window mapping both 1

both-Unclaimed : Unclaimed ascii programs no_window mapping both
unfolding session_mapped
both-Unclaimed = (refl, tt)

handle_session_event-Unclaimed_example : Unclaimed ascii programs no_window mapping (
    handle_session_event programs
      (session_mapped ascii programs no_window mapping both)
      both
      (added 3))
handle_session_event-Unclaimed_example =
    handle_session_event-Unclaimed ascii programs no_window mapping both (added 3) both-Unclaimed

handle_slider_move-volume_example :
    (handle_slider_move ascii programs no_window all_present mapping both 0 40 silent).1.volume 1
    ≡ 40
unfolding get cut_prefix text_eq
handle_slider_move-volume_example =
    handle_slider_move-volume ascii programs no_window all_present both 40 1 mapping 0
      (codes "Chrome.exe" ∷ []) silent refl both-IsKeyed (refl, tt)
