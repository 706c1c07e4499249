-- ===== src/Discord/Events.antt =====
-- internal/integrations/discord/roster.go: what the event loop does with voice events and re-reads, on the
-- roster, the subscriptions and the volumes.
use deej.Prelude.{
  ℕ, ◌≡◌, refl, ap, ◌∙◌, Bool, true, false, ◌&&◌, ◌||◌, List, [], ◌∷◌, Option, none, some,
  if◌then◌else◌, Bool-cases, inl, inr,
}
use deej.Prelude.Text.{Text, Unicode, text_eq}
use deej.Discord.Roster.{
  User, DiscordRoster, VoiceState, same_user, apply_voice_state_event, Change, roster_needs_replay,
}
use deej.Discord.Volume.{
  VolumeState, is_conn, take_pending, unless_sent, put_all, replay_mapped_slider_values,
  invalidate_volumes,
}

-- The current connection is that of the volumes. `roster_changed` says that a signal waits for the
-- settings window.
pub record EventState : Type 0 where
  pub roster : Option DiscordRoster
  pub roster_changed : Bool
  pub subscribed_conn : Option ℕ
  pub subscribed_channel : Text
  pub volumes : VolumeState

-- Everything that a slider is mapped to is sent again.
unfoldable pub send_again : Unicode → List (Text × ℕ) → VolumeState → VolumeState
unfolding replay_mapped_slider_values invalidate_volumes
send_again u values v = replay_mapped_slider_values u values (invalidate_volumes v)

abbrev pub with_change : Unicode → List (Text × ℕ) → Change → EventState → EventState
with_change u values none st = st
with_change u values (some (r, joined)) st = record st {
  roster = some r;
  roster_changed = true;
  volumes = if joined then send_again u values st.volumes else st.volumes;
}

abbrev pub change_of : Unicode → Bool → VoiceState → Option DiscordRoster → Change
change_of u deleted s none = none
change_of u deleted s (some r) = apply_voice_state_event u deleted s r

-- `applyVoiceStateEvent` as a whole, with the values that `currentVolumes` gives
unfoldable pub on_voice_state :
    Unicode → List (Text × ℕ) → Bool → VoiceState → EventState → EventState
unfolding send_again
on_voice_state u values deleted s st = with_change u values (change_of u deleted s st.roster) st

abbrev pub has_roster : Option DiscordRoster → Bool
has_roster none = false
has_roster (some r) = true

unfoldable pub same_users : List User → List User → Bool
unfolding text_eq
same_users [] [] = true
same_users (a ∷ bs) (c ∷ ds) = same_user a c && same_users bs ds
same_users _ _ = false

-- The window need not hear of a roster with the same channel and members.
abbrev pub same_view : Option DiscordRoster → DiscordRoster → Bool
same_view none r = false
same_view (some old) r = text_eq old.channel r.channel && same_users old.users r.users

-- There is no connection.
abbrev pub disconnected : EventState → EventState
disconnected st = record st {
  roster = none;
  roster_changed = has_roster st.roster || st.roster_changed;
  subscribed_conn = none;
  subscribed_channel = [];
}

abbrev pub subscribe_conn : ℕ → EventState → EventState
subscribe_conn c st =
    if is_conn st.subscribed_conn c
    then st
    else record st { subscribed_conn = some c; subscribed_channel = [] }

-- The roster of a re-read, and whether the subscriptions moved with it.
abbrev pub accept_roster :
    Unicode → List (Text × ℕ) → Bool → DiscordRoster → EventState → EventState
accept_roster u values moved r st = record st {
  roster = some r;
  roster_changed = if same_view st.roster r then st.roster_changed else true;
  subscribed_channel =
      if text_eq r.id st.subscribed_channel
      then st.subscribed_channel
      else if moved
      then r.id
      else st.subscribed_channel;
  volumes =
      if roster_needs_replay st.roster r
      then send_again u values st.volumes
      else replay_mapped_slider_values u values st.volumes;
}

abbrev pub with_read :
    Unicode → List (Text × ℕ) → Bool → Bool → Option DiscordRoster → EventState → EventState
with_read u values moved still none st = st
with_read u values moved still (some r) st = if still then accept_roster u values moved r st else st

abbrev pub reconcile_on :
    Unicode
    → List (Text × ℕ)
    → Bool
    → Bool
    → Option DiscordRoster
    → Option ℕ
    → EventState
    → EventState
reconcile_on u values moved still read none st = disconnected st
reconcile_on u values moved still read (some c) st =
    with_read u values moved still read (subscribe_conn c st)

-- `reconcileRoster`: what was read of the channel, and whether the connection is still current then
unfoldable pub reconcile_roster :
    Unicode → List (Text × ℕ) → Bool → Bool → Option DiscordRoster → EventState → EventState
unfolding send_again replay_mapped_slider_values same_users roster_needs_replay text_eq
reconcile_roster u values moved still read st =
    reconcile_on u values moved still read st.volumes.connection st

unsent : (o : Option ℕ) → unless_sent none o ≡ o
unsent none = refl
unsent (some p) = refl

-- Nothing that is pending is left out of the next flush.
send_again-todo :
    (u : Unicode) (values : List (Text × ℕ)) (v : VolumeState) (k : Text)
    → (take_pending (send_again u values v)).0 k ≡ put_all u values v.pending k
unfolding send_again replay_mapped_slider_values invalidate_volumes take_pending
send_again-todo u values v k = unsent (put_all u values v.pending k)

replay-todo :
    (u : Unicode) (values : List (Text × ℕ)) (v : VolumeState) (k : Text)
    → (take_pending (replay_mapped_slider_values u values v)).0 k
      ≡ unless_sent (v.last_sent k) (put_all u values v.pending k)
unfolding replay_mapped_slider_values take_pending
replay-todo u values v k = refl

with_change-todo :
    (u : Unicode) (values : List (Text × ℕ)) (joined : Bool) (r : DiscordRoster) (st : EventState)
    (k : Text)
    → (take_pending (with_change u values (some (r, joined)) st).volumes).0 k ≡ (
        if joined
        then put_all u values st.volumes.pending k
        else unless_sent (st.volumes.last_sent k) (st.volumes.pending k))
unfolding take_pending
with_change-todo u values true r st k = send_again-todo u values st.volumes k
with_change-todo u values false r st k = refl

-- An event that changes the roster is kept in it. If the user joined by it, the next flush sends the value
-- of every mapped slider, and what else is pending, whatever was sent before; otherwise the next flush is
-- as before.
on_voice_state-todo :
    (u : Unicode) (values : List (Text × ℕ)) (deleted joined : Bool) (s : VoiceState)
    (st : EventState) (r r' : DiscordRoster) (k : Text)
    → st.roster ≡ some r
    → apply_voice_state_event u deleted s r ≡ some (r', joined)
    → ((on_voice_state u values deleted s st).roster ≡ some r')
      × ((take_pending (on_voice_state u values deleted s st).volumes).0 k ≡ (
          if joined
          then put_all u values st.volumes.pending k
          else unless_sent (st.volumes.last_sent k) (st.volumes.pending k)))
unfolding on_voice_state
on_voice_state-todo u values deleted joined s st r r' k e f =
    let changed : change_of u deleted s st.roster ≡ some (r', joined) =
      ap (change_of u deleted s) e ∙ f in
    (
      ap (λ (c : Change). (with_change u values c st).roster) changed,
      ap (λ (c : Change). (take_pending (with_change u values c st).volumes).0 k) changed
          ∙ with_change-todo u values joined r' st k,
    )

subscribe_conn-frame :
    (c : ℕ) (st : EventState)
    → ((subscribe_conn c st).roster ≡ st.roster) × ((subscribe_conn c st).volumes ≡ st.volumes)
subscribe_conn-frame c st = elim (Bool-cases (is_conn st.subscribed_conn c)) [
  | inl e ↦ rw e (refl, refl)
  | inr e ↦ rw e (refl, refl)
]

-- The next flush behind a re-read of the channel.
abbrev todo_after :
    Unicode → List (Text × ℕ) → Text → DiscordRoster → Option DiscordRoster → VolumeState → Option ℕ
todo_after u values k r old v =
    if roster_needs_replay old r
    then put_all u values v.pending k
    else unless_sent (v.last_sent k) (put_all u values v.pending k)

accept_roster-todo :
    (u : Unicode) (values : List (Text × ℕ)) (moved : Bool) (r : DiscordRoster) (st : EventState)
    (k : Text)
    → (take_pending (accept_roster u values moved r st).volumes).0 k
      ≡ todo_after u values k r st.roster st.volumes
accept_roster-todo u values moved r st k = elim (Bool-cases (roster_needs_replay st.roster r)) [
  | inl e ↦ rw e (send_again-todo u values st.volumes k)
  | inr e ↦ rw e (replay-todo u values st.volumes k)
]

-- A re-read of the channel on a connection that is still current then puts the roster in place. If the
-- rosters say so, the next flush sends the value of every mapped slider, whatever was sent before; otherwise it
-- leaves out what Discord has.
reconcile_roster-todo :
    (u : Unicode) (values : List (Text × ℕ)) (moved : Bool) (r : DiscordRoster) (st : EventState)
    (c : ℕ) (k : Text)
    → st.volumes.connection ≡ some c
    → let st' = reconcile_roster u values moved true (some r) st in
      (st'.roster ≡ some r)
      × ((take_pending st'.volumes).0 k ≡ (
          if roster_needs_replay st.roster r
          then put_all u values st.volumes.pending k
          else unless_sent (st.volumes.last_sent k) (put_all u values st.volumes.pending k)))
unfolding reconcile_roster
reconcile_roster-todo u values moved r st c k e =
    let (same_roster, same_volumes) = subscribe_conn-frame c st in
    let on : reconcile_roster u values moved true (some r) st
        ≡ accept_roster u values moved r (subscribe_conn c st) =
      ap (λ (o : Option ℕ). reconcile_on u values moved true (some r) o st) e in
    (
      ap (λ (x : EventState). x.roster) on,
      ap (λ (x : EventState). (take_pending x.volumes).0 k) on
          ∙ accept_roster-todo u values moved r (subscribe_conn c st) k
          ∙ ap
              (λ (o : Option DiscordRoster).
                todo_after u values k r o (subscribe_conn c st).volumes)
              same_roster
          ∙ ap (todo_after u values k r st.roster) same_volumes,
    )
