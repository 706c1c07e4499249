-- ===== src/Config/Store/Equal.antt =====
-- The comparison of settings that internal/config/watch.go makes by reflect.DeepEqual. An empty
-- list and an absent one, which it tells apart, are one list here.
use deej.Prelude.{◌≡◌, refl, Bool, true, false, ◌&&◌, List, [], ◌∷◌}
use deej.Prelude.Int.{ℤ, eqb_ℤ, eqb_ℤ_iff}
use deej.Prelude.Text.{text_eq, text_eq_self}
use deej.Config.Model.{
  ComSettings, ObsSettings, DiscordSettings, SliderMappingEntry, Profile, Settings,
}

abbrev bool_eq : Bool → Bool → Bool
bool_eq true b = b
bool_eq false true = false
bool_eq false false = true

unfoldable list_eq : {A : Type 0} → (A → A → Bool) → List A → List A → Bool
list_eq eq [] [] = true
list_eq eq (x ∷ xs) (y ∷ ys) = eq x y && list_eq eq xs ys
list_eq eq _ _ = false

abbrev pub com_eq : ComSettings → ComSettings → Bool
com_eq a b =
    text_eq a.port b.port
    && (eqb_ℤ a.baud_rate b.baud_rate && (text_eq a.vid b.vid && text_eq a.pid b.pid))

abbrev pub obs_eq : ObsSettings → ObsSettings → Bool
obs_eq a b =
    bool_eq a.enabled b.enabled
    && (text_eq a.host b.host
        && (eqb_ℤ a.port b.port
            && (text_eq a.password b.password && bool_eq a.volume_conversion b.volume_conversion)))

abbrev pub discord_eq : DiscordSettings → DiscordSettings → Bool
discord_eq a b =
    bool_eq a.enabled b.enabled
    && (text_eq a.client_id b.client_id
        && (text_eq a.client_secret b.client_secret
            && bool_eq a.volume_conversion b.volume_conversion))

abbrev entry_eq : SliderMappingEntry → SliderMappingEntry → Bool
entry_eq a b = eqb_ℤ a.slider b.slider && list_eq text_eq a.targets b.targets

abbrev profile_eq : Profile → Profile → Bool
profile_eq a b =
    text_eq a.name b.name
    && (text_eq a.hotkey b.hotkey && list_eq entry_eq a.slider_mapping b.slider_mapping)

unfoldable pub settings_eq : Settings → Settings → Bool
unfolding list_eq
settings_eq a b =
    text_eq a.active_profile b.active_profile
    && (list_eq profile_eq a.profiles b.profiles
        && (bool_eq a.invert_sliders b.invert_sliders
            && (com_eq a.com_settings b.com_settings
                && (text_eq a.noise_reduction b.noise_reduction
                    && (text_eq a.language b.language
                        && (obs_eq a.obs b.obs && discord_eq a.discord b.discord))))))

bool_eq_self : (b : Bool) → bool_eq b b ≡ true
bool_eq_self true = refl
bool_eq_self false = refl

list_eq_self :
    {A : Type 0} (eq : A → A → Bool)
    → ((a : A) → eq a a ≡ true)
    → (xs : List A) → list_eq eq xs xs ≡ true
unfolding list_eq
list_eq_self eq h [] = refl
list_eq_self eq h (x ∷ xs) = rw (h x, list_eq_self eq h xs)

eqb_ℤ_self : (n : ℤ) → eqb_ℤ n n ≡ true
eqb_ℤ_self n = (eqb_ℤ_iff n n).1 refl

entry_eq_self : (e : SliderMappingEntry) → entry_eq e e ≡ true
entry_eq_self e = rw (eqb_ℤ_self e.slider, list_eq_self text_eq text_eq_self e.targets)

profile_eq_self : (p : Profile) → profile_eq p p ≡ true
profile_eq_self p = rw (
  text_eq_self p.name,
  text_eq_self p.hotkey,
  list_eq_self entry_eq entry_eq_self p.slider_mapping,
)

-- The same settings compare equal.
pub settings_eq_self : (s : Settings) → settings_eq s s ≡ true
unfolding settings_eq
settings_eq_self s =
    let c = s.com_settings in
    let o = s.obs in
    let d = s.discord in
    rw (
      text_eq_self s.active_profile,
      list_eq_self profile_eq profile_eq_self s.profiles,
      bool_eq_self s.invert_sliders,
      text_eq_self c.port,
      eqb_ℤ_self c.baud_rate,
      text_eq_self c.vid,
      text_eq_self c.pid,
      text_eq_self s.noise_reduction,
      text_eq_self s.language,
      bool_eq_self o.enabled,
      text_eq_self o.host,
      eqb_ℤ_self o.port,
      text_eq_self o.password,
      bool_eq_self o.volume_conversion,
      bool_eq_self d.enabled,
      text_eq_self d.client_id,
      text_eq_self d.client_secret,
      bool_eq_self d.volume_conversion,
    )
