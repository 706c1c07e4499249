-- ===== src/Discord/Members.antt =====
-- The roster under voice events: who is a member, once each, in the order that the settings window
-- shows.
use deej.Prelude.{
  ℕ, suc, ◌≤◌, ◌≡◌, refl, ap, subst, Bool, true, false, List, [], ◌∷◌, ◌++◌, Option, none, some,
  arith, if◌then◌else◌, Bool-cases, inl, inr,
}
use deej.Prelude.Text.{Text, Unicode, text_eq, text_eq_iff}
use deej.Config.Rules.{is_nil}
use deej.Discord.Roster.{
  User, DiscordRoster, VoiceState, to_user, insert_user, sort_discord_users, find_user, delete_user,
  replace_user, same_user, Change, delete_member, put_member, apply_voice_state_event,
}

-- How often an id stands in a roster.
abbrev pub count_id : Text → List User → ℕ
count_id id [] = 0
count_id id (a ∷ bs) = let rest = count_id id bs in if text_eq a.id id then suc rest else rest

count_id-insert_user :
    (u : Unicode) (j : Text) (a : User) (bs : List User)
    → count_id j (insert_user u a bs) ≡ count_id j (a ∷ bs)
unfolding insert_user
count_id-insert_user u j a [] = refl
count_id-insert_user u j a (b ∷ bs) = ground (arith, count_id-insert_user u j a bs)

count_id-sort :
    (u : Unicode) (j : Text) (bs : List User) → count_id j (sort_discord_users u bs) ≡ count_id j bs
unfolding sort_discord_users
count_id-sort u j [] = refl
count_id-sort u j (a ∷ bs) =
    ground (arith, count_id-insert_user u j a (sort_discord_users u bs), count_id-sort u j bs)

count_id-append :
    (j : Text) (bs : List User) (a : User) → count_id j (bs ++ a ∷ []) ≡ count_id j (a ∷ bs)
count_id-append j [] a = refl
count_id-append j (b ∷ bs) a = ground (arith, count_id-append j bs a)

-- Equal ids meet the same tests.
text_eq-same : (s t j : Text) → text_eq s t ≡ true → text_eq s j ≡ text_eq t j
text_eq-same s t j e = ap (λ (x : Text). text_eq x j) ((text_eq_iff s t).0 e)

count_id-absent : (j : Text) (bs : List User) → find_user bs j ≡ none → count_id j bs ≡ 0
unfolding find_user
count_id-absent j [] e = refl
count_id-absent j (a ∷ bs) e = ground (arith, count_id-absent j bs)

count_id-present :
    (j : Text) (bs : List User) (b : User) → find_user bs j ≡ some b → 1 ≤ count_id j bs
unfolding find_user
count_id-present j [] b e = absurd (cc)
count_id-present j (a ∷ bs) b e = ground (arith, count_id-present j bs b)

count_id-delete_user :
    (j id : Text) (bs : List User) (b : User)
    → find_user bs id ≡ some b
    → (if text_eq id j
        then suc (count_id j (delete_user id bs))
        else count_id j (delete_user id bs))
      ≡ count_id j bs
unfolding find_user delete_user
count_id-delete_user j id [] b e = absurd (cc)
count_id-delete_user j id (a ∷ bs) b e = elim (Bool-cases (text_eq a.id id)) [
  | inl f ↦ rw (f, text_eq-same a.id id j f) refl
  | inr f ↦ ground (arith, count_id-delete_user j id bs b)
]

count_id-replace_user :
    (j : Text) (a : User) (bs : List User) → count_id j (replace_user a bs) ≡ count_id j bs
unfolding replace_user
count_id-replace_user j a [] = refl
count_id-replace_user j a (b ∷ bs) = elim (Bool-cases (text_eq b.id a.id)) [
  | inl f ↦ rw (f, text_eq-same b.id a.id j f) refl
  | inr f ↦ rw f (ground (arith, count_id-replace_user j a bs))
]

absent_at :
    (id j : Text) (bs : List User)
    → find_user bs id ≡ none
    → text_eq id j ≡ true
    → count_id j bs ≡ 0
absent_at id j bs e f =
    subst (λ (x : Text). count_id x bs ≡ 0) ((text_eq_iff id j).0 f) (count_id-absent id bs e)

present_at :
    (id j : Text) (bs : List User) (b : User)
    → find_user bs id ≡ some b
    → text_eq id j ≡ true
    → 1 ≤ count_id j bs
present_at id j bs b e f =
    subst (λ (x : Text). 1 ≤ count_id x bs) ((text_eq_iff id j).0 f) (count_id-present id bs b e)

-- How the members stand behind an event.
abbrev Counted : Text → Bool → Text → List User → Change → Type 0
Counted id deleted j old none = Unit {0}
Counted id deleted j old (some (r, joined)) =
    count_id j r.users ≡ (if text_eq id j then (if deleted then 0 else 1) else count_id j old)

delete_member-Counted :
    (u : Unicode) (a : User) (r : DiscordRoster) (j : Text)
    → count_id j r.users ≤ 1
    → (o : Option User) → find_user r.users a.id ≡ o
    → Counted a.id true j r.users (delete_member u a r o)
delete_member-Counted u a r j once none e = tt
delete_member-Counted u a r j once (some b) e =
    ground
      (arith, count_id-sort u j (delete_user a.id r.users), count_id-delete_user j a.id r.users b e)

put_member-Counted :
    (u : Unicode) (a : User) (r : DiscordRoster) (j : Text)
    → count_id j r.users ≤ 1
    → (o : Option User) → find_user r.users a.id ≡ o
    → Counted a.id false j r.users (put_member u a r o)
put_member-Counted u a r j once none e = ground (
  arith,
  count_id-sort u j (r.users ++ a ∷ []),
  count_id-append j r.users a,
  absent_at a.id j r.users e,
)
put_member-Counted u a r j once (some b) e = elim (Bool-cases (same_user b a)) [
  | inl f ↦ rw f tt
  | inr f ↦ rw f (
      ground (
        arith,
        count_id-sort u j (replace_user a r.users),
        count_id-replace_user j a r.users,
        present_at a.id j r.users b e,
      ))
]

change-Counted :
    (u : Unicode) (deleted : Bool) (a : User) (r : DiscordRoster) (j : Text)
    → count_id j r.users ≤ 1
    → Counted a.id deleted j r.users (
        if deleted
        then delete_member u a r (find_user r.users a.id)
        else put_member u a r (find_user r.users a.id))
change-Counted u true a r j once = delete_member-Counted u a r j once _ refl
change-Counted u false a r j once = put_member-Counted u a r j once _ refl

event-Counted :
    (u : Unicode) (deleted : Bool) (s : VoiceState) (r : DiscordRoster) (j : Text)
    → count_id j r.users ≤ 1
    → Counted s.user_id deleted j r.users (apply_voice_state_event u deleted s r)
unfolding apply_voice_state_event to_user
event-Counted u deleted s r j once = elim (Bool-cases (is_nil s.user_id)) [
  | inl e ↦ rw e tt
  | inr e ↦ rw e (change-Counted u deleted (to_user s) r j once)
]

-- Where no id stands in the roster twice, an event that changes it leaves its user there once, or
-- not at all if it says that the user left, and every other id as often as before.
apply_voice_state_event-count_id :
    (u : Unicode) (deleted joined : Bool) (s : VoiceState) (r r' : DiscordRoster) (j : Text)
    → count_id j r.users ≤ 1
    → apply_voice_state_event u deleted s r ≡ some (r', joined)
    → count_id j r'.users
      ≡ (if text_eq s.user_id j then (if deleted then 0 else 1) else count_id j r.users)
apply_voice_state_event-count_id u deleted joined s r r' j once e =
    subst (Counted s.user_id deleted j r.users) e (event-Counted u deleted s r j once)
