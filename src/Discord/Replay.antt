-- ===== src/Discord/Replay.antt =====
-- When the volumes of members are sent again: what an event reports as a join, and what the
-- comparison of two rosters finds (internal/integrations/discord/roster.go).
use deej.Prelude.{
  ◌≡◌, refl, ap, ◌∙◌, subst, Bool, true, false, List, [], ◌∷◌, ◌++◌, Option, none, some, arith,
  if◌then◌else◌, Bool-cases, inl, inr,
}
use deej.Prelude.Text.{Text, Unicode, text_eq_self}
use deej.Config.Rules.{is_nil}
use deej.Discord.Roster.{
  User, DiscordRoster, VoiceState, to_user, insert_user, sort_discord_users, find_user, delete_user,
  replace_user, same_user, Change, delete_member, put_member, apply_voice_state_event, is_member,
  any_new, roster_needs_replay,
}

any_new-insert_user :
    (u : Unicode) (old : List User) (a : User) (bs : List User)
    → any_new old (insert_user u a bs) ≡ any_new old (a ∷ bs)
unfolding insert_user any_new
any_new-insert_user u old a [] = refl
any_new-insert_user u old a (b ∷ bs) = ground (arith, any_new-insert_user u old a bs)

any_new-sort :
    (u : Unicode) (old bs : List User) → any_new old (sort_discord_users u bs) ≡ any_new old bs
unfolding sort_discord_users any_new
any_new-sort u old [] = refl
any_new-sort u old (a ∷ bs) =
    any_new-insert_user u old a (sort_discord_users u bs)
    ∙ ap (λ (x : Bool). if is_member (find_user old a.id) then x else true) (any_new-sort u old bs)

any_new-append : (old bs : List User) (a : User) → any_new old (bs ++ a ∷ []) ≡ any_new old (a ∷ bs)
unfolding any_new
any_new-append old [] a = refl
any_new-append old (b ∷ bs) a = ground (arith, any_new-append old bs a)

-- Who was known stays known among more.
any_new-cons :
    (c : User) (old bs : List User) → any_new old bs ≡ false → any_new (c ∷ old) bs ≡ false
unfolding any_new find_user
any_new-cons c old [] h = refl
any_new-cons c old (b ∷ bs) h = ground (arith, any_new-cons c old bs)

any_new_self : (bs : List User) → any_new bs bs ≡ false
unfolding any_new find_user
any_new_self [] = refl
any_new_self (a ∷ bs) = rw (text_eq_self a.id) (any_new-cons a bs bs (any_new_self bs))

any_new-delete_user :
    (old : List User) (id : Text) (bs : List User)
    → any_new old bs ≡ false
    → any_new old (delete_user id bs) ≡ false
unfolding any_new delete_user
any_new-delete_user old id [] h = refl
any_new-delete_user old id (b ∷ bs) h = ground (arith, any_new-delete_user old id bs)

any_new-replace_user :
    (old : List User) (a : User) (bs : List User)
    → is_member (find_user old a.id) ≡ true
    → any_new old bs ≡ false
    → any_new old (replace_user a bs) ≡ false
unfolding any_new replace_user
any_new-replace_user old a [] m h = refl
any_new-replace_user old a (b ∷ bs) m h = ground (arith, any_new-replace_user old a bs)

-- The comparison finds what the change says.
abbrev Agrees : DiscordRoster → Change → Type 0
Agrees old none = Unit {0}
Agrees old (some (r, joined)) = roster_needs_replay (some old) r ≡ joined

same_channel :
    (old : DiscordRoster) (users : List User)
    → roster_needs_replay (some old) (record old { users = users }) ≡ any_new old.users users
unfolding roster_needs_replay
same_channel old users = rw (text_eq_self old.id)

delete_member-Agrees :
    (u : Unicode) (a : User) (r : DiscordRoster) (o : Option User)
    → Agrees r (delete_member u a r o)
delete_member-Agrees u a r none = tt
delete_member-Agrees u a r (some b) =
    same_channel r (sort_discord_users u (delete_user a.id r.users))
    ∙ any_new-sort u r.users (delete_user a.id r.users)
    ∙ any_new-delete_user r.users a.id r.users (any_new_self r.users)

put_member-Agrees :
    (u : Unicode) (a : User) (r : DiscordRoster) (o : Option User)
    → find_user r.users a.id ≡ o
    → Agrees r (put_member u a r o)
unfolding any_new
put_member-Agrees u a r none e =
    same_channel r (sort_discord_users u (r.users ++ a ∷ []))
    ∙ any_new-sort u r.users (r.users ++ a ∷ [])
    ∙ any_new-append r.users r.users a
    ∙ ap (λ (o : Option User). if is_member o then any_new r.users r.users else true) e
put_member-Agrees u a r (some b) e = elim (Bool-cases (same_user b a)) [
  | inl f ↦ rw f tt
  | inr f ↦ rw f (
      same_channel r (sort_discord_users u (replace_user a r.users))
      ∙ any_new-sort u r.users (replace_user a r.users)
      ∙ any_new-replace_user r.users a r.users (ap is_member e) (any_new_self r.users))
]

change-Agrees :
    (u : Unicode) (deleted : Bool) (a : User) (r : DiscordRoster)
    → Agrees r (
        if deleted
        then delete_member u a r (find_user r.users a.id)
        else put_member u a r (find_user r.users a.id))
change-Agrees u true a r = delete_member-Agrees u a r _
change-Agrees u false a r = put_member-Agrees u a r _ refl

event-Agrees :
    (u : Unicode) (deleted : Bool) (s : VoiceState) (r : DiscordRoster)
    → Agrees r (apply_voice_state_event u deleted s r)
unfolding apply_voice_state_event to_user
event-Agrees u deleted s r = elim (Bool-cases (is_nil s.user_id)) [
  | inl e ↦ rw e tt
  | inr e ↦ rw e (change-Agrees u deleted (to_user s) r)
]

-- An event that changes the roster reports a join exactly when the comparison that a re-read of
-- the channel makes would find, from the roster before to the one behind it, that volumes are to
-- be sent again.
pub roster_needs_replay-apply_voice_state_event :
    (u : Unicode) (deleted joined : Bool) (s : VoiceState) (r r' : DiscordRoster)
    → apply_voice_state_event u deleted s r ≡ some (r', joined)
    → roster_needs_replay (some r) r' ≡ joined
roster_needs_replay-apply_voice_state_event u deleted joined s r r' e =
    subst (Agrees r) e (event-Agrees u deleted s r)
