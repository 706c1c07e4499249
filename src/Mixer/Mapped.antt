-- ===== src/Mixer/Mapped.antt =====
-- Which sessions count as mapped, said by the mapping alone, and what the unmapped target leads to.
use mathlib.Core.List.{Memᴰ}
use deej.Prelude.{
  ℕ, ◌≡◌, fun_ext, ◌↔◌, refl, ap, sym, ◌∙◌, Bool, true, ◌||◌, ◌&&◌, not, List, [], ◌∷◌, arith,
  Bool-cases, inl, inr,
}
use deej.Prelude.Text.{Text, Unicode, text_eq, contains, to_lower, to_lower_idem, has_prefix}
use deej.Config.Model.{SliderMappingEntry, SliderMappings}
use deej.Mixer.Sessions.{Attributes, MixerState}
use deej.Mixer.Targets.{
  special_prefix, Foreground, target_is, any_target, any_entry, special_names, session_mapped,
  resolve_target,
}

-- The target is the key itself, whatever its case, and no special target.
abbrev pub names_key : Unicode → Text → Text → Bool
names_key u k target =
    not (has_prefix special_prefix (to_lower u target)) && text_eq (to_lower u target) k

target_is-names_key :
    (u : Unicode) (a : Attributes) (fg : Foreground) (st : MixerState) (k target : Text)
    → target_is u a fg st k target ≡ names_key u k target
unfolding target_is resolve_target
target_is-names_key u a fg st k target =
    elim (Bool-cases (has_prefix special_prefix (to_lower u target))) [
      | inl e ↦ rw (to_lower_idem u target) (rw e)
      | inr e ↦ rw (to_lower_idem u target) (rw e)
    ]

-- Why a session counts as mapped.
pub data IsMapped (u : Unicode) (a : Attributes) (mapping : SliderMappings) (s : ℕ) : Type 0 where
  special : contains special_names (a.key s) ≡ true → IsMapped u a mapping s
  device : a.is_device s ≡ true → IsMapped u a mapping s
  named :
      (e : SliderMappingEntry) (target : Text)
      → Memᴰ e mapping
      → Memᴰ target e.targets
      → names_key u (a.key s) target ≡ true
      → IsMapped u a mapping s

any_target-Memᴰ :
    (test : Text → Bool) (ts : List Text)
    → any_target test ts ≡ true
    → (t : Text) × Memᴰ t ts × (test t ≡ true)
unfolding any_target
any_target-Memᴰ test [] h = absurd (cc)
any_target-Memᴰ test (t ∷ ts) h = elim (Bool-cases (test t)) [
  | inl e ↦ (t, Memᴰ.head refl, e)
  | inr e ↦ let (r, m, p) = any_target-Memᴰ test ts (rw (e, ◌||◌) at h) in (r, Memᴰ.tail m, p)
]

any_entry-Memᴰ :
    (test : Text → Bool) (es : SliderMappings)
    → any_entry test es ≡ true
    → (e : SliderMappingEntry) × (t : Text) × Memᴰ e es × Memᴰ t e.targets × (test t ≡ true)
unfolding any_entry
any_entry-Memᴰ test [] h = absurd (cc)
any_entry-Memᴰ test (e ∷ es) h = elim (Bool-cases (any_target test e.targets)) [
  | inl p ↦ let (t, m, q) = any_target-Memᴰ test e.targets p in (e, t, Memᴰ.head refl, m, q)
  | inr p ↦
      let (d, t, m, n, q) = any_entry-Memᴰ test es (rw (p, ◌||◌) at h) in (d, t, Memᴰ.tail m, n, q)
]

Memᴰ-any_target :
    (test : Text → Bool) (ts : List Text) {t : Text}
    → Memᴰ t ts
    → test t ≡ true
    → any_target test ts ≡ true
unfolding any_target
Memᴰ-any_target test [] m h = elim m [ ]
Memᴰ-any_target test (x ∷ ts) (Memᴰ.head e) h = ground (arith, ap test e)
Memᴰ-any_target test (x ∷ ts) (Memᴰ.tail m) h = ground (arith, Memᴰ-any_target test ts m h)

Memᴰ-any_entry :
    (test : Text → Bool) (es : SliderMappings) {e : SliderMappingEntry}
    → Memᴰ e es
    → any_target test e.targets ≡ true
    → any_entry test es ≡ true
unfolding any_entry
Memᴰ-any_entry test [] m h = elim m [ ]
Memᴰ-any_entry test (x ∷ es) (Memᴰ.head e) h =
    ground (arith, ap (λ (d : SliderMappingEntry). any_target test d.targets) e)
Memᴰ-any_entry test (x ∷ es) (Memᴰ.tail m) h = ground (arith, Memᴰ-any_entry test es m h)

pub session_mapped-names_key :
    (u : Unicode) (a : Attributes) (fg : Foreground) (mapping : SliderMappings) (st : MixerState)
    (s : ℕ)
    → session_mapped u a fg mapping st s
      ≡ contains special_names (a.key s)
        || (a.is_device s || any_entry (names_key u (a.key s)) mapping)
unfolding session_mapped
session_mapped-names_key u a fg mapping st s =
    ap
      (λ (test : Text → Bool).
        contains special_names (a.key s) || (a.is_device s || any_entry test mapping))
      (fun_ext (target_is-names_key u a fg st (a.key s)))

abbrev counts_as_mapped : Unicode → Attributes → SliderMappings → ℕ → Bool
counts_as_mapped u a mapping s =
    contains special_names (a.key s) || (a.is_device s || any_entry (names_key u (a.key s)) mapping)

counts-IsMapped :
    (u : Unicode) (a : Attributes) (mapping : SliderMappings) (s : ℕ)
    → counts_as_mapped u a mapping s ≡ true
    → IsMapped u a mapping s
counts-IsMapped u a mapping s h = elim (Bool-cases (contains special_names (a.key s))) [
  | inl e ↦ IsMapped.special e
  | inr e ↦ elim (Bool-cases (a.is_device s)) [
    | inl d ↦ IsMapped.device d
    | inr d ↦
        let (entry, target, m, n, p) =
          any_entry-Memᴰ (names_key u (a.key s)) mapping (rw (e, d, ◌||◌) at h) in
        IsMapped.named entry target m n p
  ]
]

IsMapped-counts :
    (u : Unicode) (a : Attributes) (mapping : SliderMappings) (s : ℕ)
    → IsMapped u a mapping s
    → counts_as_mapped u a mapping s ≡ true
IsMapped-counts u a mapping s (IsMapped.special e) = ground arith
IsMapped-counts u a mapping s (IsMapped.device e) = ground arith
IsMapped-counts u a mapping s (IsMapped.named entry target m n p) =
    ground (
      arith,
      Memᴰ-any_entry (names_key u (a.key s)) mapping m (Memᴰ-any_target _ entry.targets n p),
    )

-- A session counts as mapped exactly when it is one of the special ones, a device, or the plain
-- target, whatever its case, of some entry of the mapping; the windows and sessions at hand do not
-- matter.
pub session_mapped_iff :
    (u : Unicode) (a : Attributes) (fg : Foreground) (mapping : SliderMappings) (st : MixerState)
    (s : ℕ)
    → (session_mapped u a fg mapping st s ≡ true) ↔ IsMapped u a mapping s
session_mapped_iff u a fg mapping st s = (
  λ h. counts-IsMapped u a mapping s (sym (session_mapped-names_key u a fg mapping st s) ∙ h),
  λ m. session_mapped-names_key u a fg mapping st s ∙ IsMapped-counts u a mapping s m,
)
