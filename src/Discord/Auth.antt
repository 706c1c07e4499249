-- ===== src/Discord/Auth.antt =====
-- internal/integrations/discord/auth.go, and of client.go the reload of the configuration: the stored token
-- and the generation that tells a request for a token whether it still counts. HTTP, the clock and the
-- file are parameters: what was parsed, whether a token has expired, whether the file takes the change.
use deej.Prelude.{
  ℕ, suc, ◌≤◌, ◌<◌, ◌≡◌, refl, Bool, true, false, ◌||◌, not, List, [], ◌∷◌, Option, none, some,
  arith, if◌then◌else◌, ◌==◌,
}
use deej.Prelude.Text.{Text, text_eq}
use deej.Config.Model.{DiscordSettings}
use deej.Config.Rules.{is_nil}

pub record DiscordToken : Type 0 where
  pub client_id : Text
  pub access_token : Text
  pub refresh_token : Text

pub data AuthError : Type 0 where
  authorization_changed no_credentials link_again write_token remove_token refresh_failed :
      AuthError

-- The token in memory has the generation at which it was put there, which stands for its pointer. The
-- settings are those in force, and those that the reload loop saw last.
pub record AuthState : Type 0 where
  pub token : Option (ℕ × DiscordToken)
  pub token_file : Option DiscordToken
  pub auth_generation : ℕ
  pub settings : DiscordSettings
  pub previous : DiscordSettings

abbrev pub AuthOutcome : Type 0
AuthOutcome = Option AuthError × AuthState

unfoldable pub discord_credentials_changed : DiscordSettings → DiscordSettings → Bool
unfolding text_eq
discord_credentials_changed before after =
    not (text_eq before.client_id after.client_id)
    || not (text_eq before.client_secret after.client_secret)

abbrev pub put_token : DiscordToken → AuthState → AuthState
put_token t st = record st {
  token = some (st.auth_generation, t);
  auth_generation = suc st.auth_generation;
}

-- `loadToken`, with what the file holds, if it can be read and parsed
unfoldable pub load_token : Option DiscordToken → AuthState → AuthState
unfolding text_eq
load_token none st = st
load_token (some t) st =
    if is_nil t.access_token || not (text_eq t.client_id st.settings.client_id)
    then st
    else put_token t st

unfoldable pub store_token : Bool → DiscordSettings → ℕ → DiscordToken → AuthState → AuthOutcome
unfolding discord_credentials_changed
store_token writable cfg generation t st =
    if not (generation == st.auth_generation) || discord_credentials_changed cfg st.settings
    then (some authorization_changed, st)
    else if writable
    then (none, record (put_token t st) { token_file = some t })
    else (some write_token, st)

-- `clearToken`
unfoldable pub clear_token : Bool → AuthState → AuthOutcome
clear_token removable st =
    let cleared = record st { auth_generation = suc st.auth_generation; token = none } in
    if removable then (none, record cleared { token_file = none }) else (some remove_token, cleared)

-- How `Link` begins: the settings and the generation that its request for a token carries.
unfoldable pub begin_link : AuthState → Option (DiscordSettings × ℕ)
begin_link st =
    if is_nil st.settings.client_id || is_nil st.settings.client_secret
    then none
    else some (st.settings, st.auth_generation)

abbrev pub same_token : Option (ℕ × DiscordToken) → ℕ → Bool
same_token none n = false
same_token (some (m, t)) n = m == n

-- How `ensureFreshToken` begins, for the token put at a generation: an error, a token that is still good,
-- or the generation for the refresh.
pub data Freshness : Type 0 where
  stale : AuthError → Freshness
  still_good : Freshness
  refresh : ℕ → Freshness

unfoldable pub begin_refresh : Bool → DiscordSettings → ℕ → DiscordToken → AuthState → Freshness
unfolding discord_credentials_changed
begin_refresh expired cfg n t st =
    if not (same_token st.token n) || discord_credentials_changed cfg st.settings
    then stale authorization_changed
    else if not expired
    then still_good
    else if is_nil t.refresh_token
    then stale link_again
    else refresh st.auth_generation

-- The reload loop: other credentials forget the token.
unfoldable pub on_settings_reload : Bool → AuthState → AuthState
unfolding discord_credentials_changed clear_token
on_settings_reload removable st =
    let cleared = (clear_token removable st).1 in
    let st' = if discord_credentials_changed st.previous st.settings then cleared else st in
    record st' { previous = st.settings }

-- What happens to the token and the settings.
pub data AuthStep : Type 0 where
  unlink : Bool → AuthStep
  load : Option DiscordToken → AuthStep
  store : Bool → DiscordSettings → ℕ → DiscordToken → AuthStep
  set_settings : DiscordSettings → AuthStep
  reload : Bool → AuthStep

unfoldable pub auth_step : AuthStep → AuthState → AuthState
unfolding clear_token load_token store_token on_settings_reload
auth_step (unlink removable) st = (clear_token removable st).1
auth_step (load t) st = load_token t st
auth_step (store writable cfg n t) st = (store_token writable cfg n t st).1
auth_step (set_settings d) st = record st { settings = d }
auth_step (reload removable) st = on_settings_reload removable st

abbrev pub auth_steps : List AuthStep → AuthState → AuthState
auth_steps [] st = st
auth_steps (s ∷ steps) st = auth_steps steps (auth_step s st)

auth_step-generation :
    (s : AuthStep) (st : AuthState) → st.auth_generation ≤ (auth_step s st).auth_generation
unfolding auth_step clear_token load_token store_token on_settings_reload
auth_step-generation (unlink removable) st = ground arith
auth_step-generation (load none) st = omega arith
auth_step-generation (load (some t)) st = ground arith
auth_step-generation (store writable cfg n t) st = ground arith
auth_step-generation (set_settings d) st = omega arith
auth_step-generation (reload removable) st = ground arith

auth_steps-generation :
    (steps : List AuthStep) (st : AuthState)
    → st.auth_generation ≤ (auth_steps steps st).auth_generation
auth_steps-generation [] st = omega arith
auth_steps-generation (s ∷ steps) st =
    omega (arith, auth_step-generation s st, auth_steps-generation steps (auth_step s st))

clear_token-generation :
    (removable : Bool) (st : AuthState)
    → (clear_token removable st).1.auth_generation ≡ suc st.auth_generation
unfolding clear_token
clear_token-generation true st = refl
clear_token-generation false st = refl

store_token-old :
    (writable : Bool) (cfg : DiscordSettings) (n : ℕ) (t : DiscordToken) (st : AuthState)
    → n < st.auth_generation
    → store_token writable cfg n t st ≡ (some authorization_changed, st)
unfolding store_token
store_token-old writable cfg n t st h =
    let other : (n == st.auth_generation) ≡ false = ground arith in rw other

-- A request for a token that began before an Unlink never brings a token back: whatever happens before
-- the Unlink and behind it, its token is refused and the state stays as it is.
pub store_token-unlinked :
    (before after : List AuthStep) (removable writable : Bool) (cfg : DiscordSettings)
    (t : DiscordToken) (st : AuthState)
    → let st' = auth_steps after (clear_token removable (auth_steps before st)).1 in
      store_token writable cfg st.auth_generation t st' ≡ (some authorization_changed, st')
store_token-unlinked before after removable writable cfg t st =
    let mid = auth_steps before st in
    let st' = auth_steps after (clear_token removable mid).1 in
    store_token-old writable cfg st.auth_generation t st' (
      omega (
        arith,
        auth_steps-generation before st,
        clear_token-generation removable mid,
        auth_steps-generation after (clear_token removable mid).1,
      ))

store_token-stored :
    (writable : Bool) (cfg : DiscordSettings) (n : ℕ) (t : DiscordToken) (st : AuthState)
    → (store_token writable cfg n t st).0 ≡ none
    → (n ≡ st.auth_generation) × ((store_token writable cfg n t st).1.auth_generation ≡ suc n)
unfolding store_token
store_token-stored writable cfg n t st h = ground arith

-- Of the requests that carry one generation at most one stores its token: behind one that did, whatever
-- happens then, every other is refused and the state stays as it is.
store_token_once :
    (steps : List AuthStep) (writable writable' : Bool) (cfg cfg' : DiscordSettings) (n : ℕ)
    (t t' : DiscordToken) (st : AuthState)
    → (store_token writable cfg n t st).0 ≡ none
    → let st' = auth_steps steps (store_token writable cfg n t st).1 in
      store_token writable' cfg' n t' st' ≡ (some authorization_changed, st')
store_token_once steps writable writable' cfg cfg' n t t' st h =
    let stored = (store_token writable cfg n t st).1 in
    let (same, up) = store_token-stored writable cfg n t st h in
    store_token-old writable' cfg' n t' (auth_steps steps stored)
      (omega (arith, up, auth_steps-generation steps stored))
