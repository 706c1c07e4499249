-- ===== src/Clients/Serial.antt =====
-- internal/serial/client.go: what the consumers of the serial client hear of its connections. The
-- reconnector's callbacks are `onUp`, `onDown` and `close`.
use deej.Prelude.{
  ℕ, ◌≡◌, refl, ap, sym, ◌∙◌, subst, Bool, true, false, not, List, [], ◌∷◌, Option, none, some,
  arith, ◌==◌, ==_iff, if◌then◌else◌, Bool-cases, inl, inr,
}
use deej.Prelude.Text.{Text}
use deej.Config.Model.{ComSettings}
use deej.Reconnect.Steps.{Reconnector, Callback, Reach}
use deej.Reconnect.Contract.{heard, heard_next, heard_after, Reach-heard}
use deej.Clients.Renewal.{Client}
pub mod Told

-- What is kept for the consumers: which connections were adopted, and the state changes that
-- `sendStateChangeEvent` has sent, newest first.
pub record Announced : Type 0 where
  pub adopted : ℕ → Bool
  pub state_changes : List Bool

unfoldable pub set_adopted : ℕ → Bool → (ℕ → Bool) → ℕ → Bool
set_adopted c b f k = if k == c then b else f k

-- One callback. `renewed` says of which connections `onUp` found the settings changed.
unfoldable pub announce_callback : (ℕ → Bool) → Callback → Announced → Announced
unfolding set_adopted
announce_callback renewed (Callback.on_up c) s =
    if renewed c
    then s
    else record { adopted = set_adopted c true s.adopted; state_changes = true ∷ s.state_changes }
announce_callback renewed Callback.on_down s = s
announce_callback renewed (Callback.close c) s =
    if s.adopted c
    then record { adopted = set_adopted c false s.adopted; state_changes = false ∷ s.state_changes }
    else s
announce_callback renewed (Callback.wait n) s = s

-- The callbacks of a log, newest first.
unfoldable pub announced : (ℕ → Bool) → List Callback → Announced
unfolding announce_callback
announced renewed [] = record { adopted = λ c. false; state_changes = [] }
announced renewed (b ∷ bs) = announce_callback renewed b (announced renewed bs)

-- `GetState`
unfoldable pub get_state : Client ComSettings → Bool
get_state c = elim c.reconnector.current [ none ↦ false | some d ↦ true ]

-- `CurrentComPort`, where `resolved` is the port that each connection was opened on.
unfoldable pub current_com_port : (ℕ → Text) → Client ComSettings → Text
current_com_port resolved c = elim c.reconnector.current [
  | none ↦ c.settings.port
  | some d ↦ resolved d
]

-- What the newest state change says; before the first it is disconnected.
abbrev pub newest : List Bool → Bool
newest [] = false
newest (b ∷ bs) = b

-- The state changes say connected and disconnected in turn, the first one connected.
abbrev pub IsAlternating : List Bool → Type 0
IsAlternating [] = Unit {0}
IsAlternating (b ∷ bs) = (b ≡ not (newest bs)) × IsAlternating bs

abbrev pub is_adopted : (ℕ → Bool) → Option ℕ → Bool
is_adopted f none = false
is_adopted f (some c) = f c
