-- ===== src/Discord/Keys.antt =====
-- The keys by which internal/mixer/targets.go and internal/integrations/discord/volume.go name a
-- Discord target.
use deej.Prelude.{
  ℕ, ◌≡◌, refl, ap, ◌∙◌, subst, Bool, true, false, ◌&&◌, [], ◌∷◌, ◌++◌, Option, none, some, arith,
  if◌then◌else◌, ltb, All, Bool-cases, Option-cases, inl, inr,
}
use deej.Prelude.Text.{
  Text, Unicode, codes, text_eq, to_lower, cut_prefix, cut_prefix-eq, trim_left, trim_right,
  cons_trimmed, trim_space, trim_space_idem, is_space,
}
use deej.Mixer.Targets.{discord_target_key}
use deej.Discord.Volume.{
  input_target, output_target, user_target_prefix, local_key, local_target_key,
}

-- Text that lower-casing keeps.
abbrev Lowered : Unicode → Text → Type 0
Lowered u s = All (λ c. u.lower c ≡ c) s

to_lower-Lowered : (u : Unicode) (s : Text) → Lowered u s → to_lower u s ≡ s
to_lower-Lowered u [] h = refl
to_lower-Lowered u (c ∷ s) h = rw (h.0, to_lower-Lowered u s h.1)

Lowered-to_lower : (u : Unicode) (s : Text) → Lowered u (to_lower u s)
Lowered-to_lower u [] = tt
Lowered-to_lower u (c ∷ s) = (u.lower_idem c, Lowered-to_lower u s)

Lowered-append : (u : Unicode) (s t : Text) → Lowered u s → Lowered u t → Lowered u (s ++ t)
Lowered-append u [] t h k = k
Lowered-append u (c ∷ s) t h k = (h.0, Lowered-append u s t h.1 k)

Lowered-rest : (u : Unicode) (s t : Text) → Lowered u (s ++ t) → Lowered u t
Lowered-rest u [] t h = h
Lowered-rest u (c ∷ s) t h = Lowered-rest u s t h.1

Lowered-trim_left : (u : Unicode) (s : Text) → Lowered u s → Lowered u (trim_left s)
unfolding trim_left
Lowered-trim_left u [] h = tt
Lowered-trim_left u (c ∷ s) h = elim (Bool-cases (is_space c)) [
  | inl e ↦ rw e (Lowered-trim_left u s h.1)
  | inr e ↦ rw e h
]

Lowered-cons_trimmed :
    (u : Unicode) (c : ℕ) (s : Text) → u.lower c ≡ c → Lowered u s → Lowered u (cons_trimmed c s)
Lowered-cons_trimmed u c [] h k = elim (Bool-cases (is_space c)) [
  | inl e ↦ rw e tt
  | inr e ↦ rw e (h, tt)
]
Lowered-cons_trimmed u c (d ∷ s) h k = (h, k)

Lowered-trim_right : (u : Unicode) (s : Text) → Lowered u s → Lowered u (trim_right s)
unfolding trim_right
Lowered-trim_right u [] h = tt
Lowered-trim_right u (c ∷ s) h =
    Lowered-cons_trimmed u c (trim_right s) h.0 (Lowered-trim_right u s h.1)

Lowered-trim_space : (u : Unicode) (s : Text) → Lowered u s → Lowered u (trim_space s)
unfolding trim_space
Lowered-trim_space u s h = Lowered-trim_right u (trim_left s) (Lowered-trim_left u s h)

-- ASCII without capitals.
abbrev small : Text → Bool
small [] = true
small (c ∷ s) =
    let rest = small s in
    if ltb c 128 then (if ltb 64 c && ltb c 91 then false else rest) else false

small-rest : (c : ℕ) (s : Text) → small (c ∷ s) ≡ true → small s ≡ true
small-rest c s h = ground arith

small-Lowered : (u : Unicode) (s : Text) → small s ≡ true → Lowered u s
small-Lowered u [] h = tt
small-Lowered u (c ∷ s) h = (ground (arith, u.lower_ascii c), small-Lowered u s (small-rest c s h))

-- A text without capitals is its own key, or that of the lower-case text.
local_target_key-Lowered :
    (u : Unicode) (s : Text) → Lowered u s → local_target_key u s ≡ local_key s
unfolding local_target_key
local_target_key-Lowered u s h = ap local_key (to_lower-Lowered u s h)

local-input : (u : Unicode) → local_target_key u input_target ≡ some input_target
unfolding local_key text_eq
local-input u = local_target_key-Lowered u input_target (small-Lowered u input_target refl)

local-output : (u : Unicode) → local_target_key u output_target ≡ some output_target
unfolding local_key text_eq
local-output u = local_target_key-Lowered u output_target (small-Lowered u output_target refl)

local_key-user :
    (name : Text)
    → local_key (user_target_prefix ++ name) ≡ some (user_target_prefix ++ trim_space name)
unfolding local_key text_eq cut_prefix
local_key-user name = refl

local-user :
    (u : Unicode) (s : Text)
    → Lowered u s
    → local_target_key u (user_target_prefix ++ trim_space s)
      ≡ some (user_target_prefix ++ trim_space s)
local-user u s h =
    let lowered =
      Lowered-append u user_target_prefix (trim_space s) (small-Lowered u user_target_prefix refl)
        (Lowered-trim_space u s h) in
    local_target_key-Lowered u (user_target_prefix ++ trim_space s) lowered
    ∙ local_key-user (trim_space s)
    ∙ ap (λ (n : Text). some (user_target_prefix ++ n)) (trim_space_idem s)

abbrev Accepted : Unicode → Text → Type 0
Accepted u k = local_target_key u k ≡ some k

abbrev AllAccepted : Unicode → Option Text → Type 0
AllAccepted u none = Unit {0}
AllAccepted u (some k) = Accepted u k

discord-user :
    (u : Unicode) (lower : Text)
    → Lowered u lower
    → AllAccepted u (elim (cut_prefix (codes "deej.discord:") lower) [
      | none ↦ none
      | some name ↦ some (user_target_prefix ++ trim_space name)
    ])
discord-user u lower h = elim (Option-cases (cut_prefix (codes "deej.discord:") lower)) [
  | inl e ↦ rw e tt
  | inr (r, e) ↦ rw e (
      local-user u r (
        Lowered-rest u (codes "deej.discord:") r
          (subst (Lowered u) (cut_prefix-eq (codes "deej.discord:") lower e) h)))
]

discord_target_key-Accepted :
    (u : Unicode) (target : Text) → AllAccepted u (discord_target_key u target)
unfolding discord_target_key
discord_target_key-Accepted u target =
    let lower = to_lower u target in
    elim (Bool-cases (text_eq lower (codes "deej.discord.input"))) [
      | inl e ↦ rw e (local-input u)
      | inr e ↦ elim (Bool-cases (text_eq lower (codes "deej.discord.output"))) [
        | inl f ↦ rw (e, f) (local-output u)
        | inr f ↦ rw (e, f) (discord-user u lower (Lowered-to_lower u target))
      ]
    ]

-- The key that the mixer makes of a target is one that the Discord client takes as it is.
pub local_target_key-discord_target_key :
    (u : Unicode) (target k : Text)
    → discord_target_key u target ≡ some k
    → local_target_key u k ≡ some k
local_target_key-discord_target_key u target k h =
    subst (AllAccepted u) h (discord_target_key-Accepted u target)
