-- ===== src/Discord/Roster.antt =====
-- internal/integrations/discord/roster.go and `resolveUser` of volume.go: the members of the
-- current voice channel. JSON is read by the caller; a voice state is what it says of a member.
use deej.Prelude.{
  Bool, true, false, ◌&&◌, ◌||◌, List, [], ◌∷◌, ◌++◌, Option, none, some, if◌then◌else◌, ltb, ◌==◌,
}
use deej.Prelude.Text.{Text, Unicode, text_eq, to_lower, equal_fold}
use deej.Config.Rules.{is_digits, is_nil}

pub record User : Type 0 where
  pub id : Text
  pub name : Text

pub record DiscordRoster : Type 0 where
  pub id : Text
  pub channel : Text
  pub users : List User

pub record VoiceState : Type 0 where
  pub nick : Text
  pub user_id : Text
  pub username : Text
  pub global_name : Text

-- `cmp.Or` of two
abbrev pub or_else : Text → Text → Text
or_else [] t = t
or_else (c ∷ s) t = c ∷ s

unfoldable pub to_user : VoiceState → User
to_user s = record { id = s.user_id; name = or_else s.nick (or_else s.global_name s.username) }

-- `cmp.Compare` on texts, as whether the first comes strictly before the second. Bytes of UTF-8
-- stand in the order of their code points.
unfoldable pub text_less : Text → Text → Bool
text_less [] [] = false
text_less [] (d ∷ t) = true
text_less (c ∷ s) [] = false
text_less (c ∷ s) (d ∷ t) = let rest = text_less s t in ltb c d || (c == d && rest)

-- The order of `sortDiscordUsers`.
unfoldable pub user_less : Unicode → User → User → Bool
unfolding text_less text_eq
user_less u a b =
    let s = to_lower u a.name in
    let t = to_lower u b.name in text_less s t || (text_eq s t && text_less a.id b.id)

unfoldable pub insert_user : Unicode → User → List User → List User
unfolding user_less
insert_user u a [] = a ∷ []
insert_user u a (b ∷ bs) =
    let rest = insert_user u a bs in if user_less u b a then b ∷ rest else a ∷ b ∷ bs

unfoldable pub sort_discord_users : Unicode → List User → List User
unfolding insert_user
sort_discord_users u [] = []
sort_discord_users u (a ∷ bs) = insert_user u a (sort_discord_users u bs)

unfoldable pub find_user : List User → Text → Option User
unfolding text_eq
find_user [] id = none
find_user (a ∷ bs) id = let rest = find_user bs id in if text_eq a.id id then some a else rest

-- `slices.Delete` at the first member of the id
unfoldable pub delete_user : Text → List User → List User
unfolding text_eq
delete_user id [] = []
delete_user id (a ∷ bs) = let rest = delete_user id bs in if text_eq a.id id then bs else a ∷ rest

-- `users[index] = user` at the first member of its id
unfoldable pub replace_user : User → List User → List User
unfolding text_eq
replace_user a [] = []
replace_user a (b ∷ bs) =
    let rest = replace_user a bs in if text_eq b.id a.id then a ∷ bs else b ∷ rest

abbrev pub same_user : User → User → Bool
same_user a b = text_eq a.id b.id && text_eq a.name b.name

-- What an event makes of the roster, and whether the user has joined by it; `none` where the
-- handler returns without a change.
abbrev pub Change : Type 0
Change = Option (DiscordRoster × Bool)

abbrev pub with_users : DiscordRoster → List User → Bool → Change
with_users r users joined = some (record r { users = users }, joined)

abbrev pub delete_member : Unicode → User → DiscordRoster → Option User → Change
delete_member u a r none = none
delete_member u a r (some b) = with_users r (sort_discord_users u (delete_user a.id r.users)) false

abbrev pub put_member : Unicode → User → DiscordRoster → Option User → Change
put_member u a r none = with_users r (sort_discord_users u (r.users ++ a ∷ [])) true
put_member u a r (some b) =
    if same_user b a
    then none
    else with_users r (sort_discord_users u (replace_user a r.users)) false

-- `applyVoiceStateEvent`, where the Boolean says that the event is VOICE_STATE_DELETE. Behind a
-- join the handler invalidates the volumes and replays the sliders.
unfoldable pub apply_voice_state_event : Unicode → Bool → VoiceState → DiscordRoster → Change
unfolding to_user sort_discord_users find_user delete_user replace_user
apply_voice_state_event u deleted s r =
    let a = to_user s in
    let member = find_user r.users a.id in
    if is_nil s.user_id
    then none
    else if deleted
    then delete_member u a r member
    else put_member u a r member

abbrev pub is_member : Option User → Bool
is_member none = false
is_member (some a) = true

unfoldable pub any_new : List User → List User → Bool
unfolding find_user
any_new old [] = false
any_new old (a ∷ bs) =
    let rest = any_new old bs in if is_member (find_user old a.id) then rest else true

unfoldable pub roster_needs_replay : Option DiscordRoster → DiscordRoster → Bool
unfolding any_new text_eq
roster_needs_replay none r = true
roster_needs_replay (some old) r =
    let fresh = any_new old.users r.users in if text_eq old.id r.id then fresh else true

unfoldable pub find_name : Unicode → List User → Text → Option Text
unfolding equal_fold
find_name u [] name = none
find_name u (a ∷ bs) name =
    let rest = find_name u bs name in if equal_fold u a.name name then some a.id else rest

abbrev pub find_in : Unicode → Option DiscordRoster → Text → Option Text
find_in u none name = none
find_in u (some r) name = find_name u r.users name

-- An all-digit name is an id.
unfoldable pub resolve_user : Unicode → Option DiscordRoster → Text → Option Text
unfolding find_name is_digits
resolve_user u r name = if is_digits name then some name else find_in u r name
