-- ===== src/Audio/Wca/Cleanup.antt =====
-- What the cleanup of the worker leaves: nothing, where each tracked session is one of a known device.
use deej.Prelude.{
  ℕ, ◌≡◌, refl, ap, sym, ◌∙◌, Bool, true, false, ◌||◌, List, [], ◌∷◌, ◌++◌, map, Option, none, some,
  arith, if◌then◌else◌, count, length, ltb, All, subst,
}
use deej.Prelude.Text.{Text, codes, text_eq_self, has_prefix, Unicode}
use deej.Audio.Delivery.{reach, releases}
use deej.Audio.Session.{attributes_of_bases}
use deej.Audio.Wca.{
  Tracked, DeviceManager, Finder, live, find_manager, delete_manager, sessions_of_device,
  remove_manager, remove_old, remove_device_manager, remove_device_managers, cleanup,
}
use deej.Audio.Wca.Maps.{AreManagers, delete_manager-none}
use deej.Audio.Wca.Callbacks.{Reach}
use deej.Audio.Wca.Additions.{cleanup-IsSound}
use deej.Audio.Wca.Runs.{Reach-IsSound}
use deej.Audio.Wca.Removal.{
  All-zip, remove_sessions-All, remove_sessions-managers, remove_manager-NoneOf,
}

-- The session is one of a device with one of the ids.
unfoldable pub is_of_devices : List Text → Tracked → Bool
is_of_devices [] t = false
is_of_devices (id ∷ ids) t = has_prefix (id ++ codes "_") t.id || is_of_devices ids t

-- The finder has neither devices nor tracked sessions.
abbrev IsBare : Finder → Type 0
IsBare f = (f.managers ≡ []) × (f.tracked ≡ [])

All-none : (ts : List Tracked) → All (λ t. is_of_devices [] t ≡ true) ts → ts ≡ []
unfolding is_of_devices
All-none [] h = refl
All-none (t ∷ ts) h = absurd (cc h.0)

find_manager-head :
    (d : DeviceManager) (ds : List DeviceManager) → find_manager d.id (d ∷ ds) ≡ some d
unfolding find_manager
find_manager-head d ds = rw (text_eq_self d.id) refl

delete_manager-head :
    (d : DeviceManager) (ds : List DeviceManager)
    → find_manager d.id ds ≡ none
    → delete_manager d.id (d ∷ ds) ≡ ds
unfolding delete_manager
delete_manager-head d ds h = rw (text_eq_self d.id) (delete_manager-none d.id ds h)

remove_manager-managers :
    (id : Text) (d : DeviceManager) (f : Finder)
    → (remove_manager id (some d) f).managers ≡ delete_manager id f.managers
unfolding remove_manager remove_old
remove_manager-managers id d f =
    remove_sessions-managers (sessions_of_device id f.tracked)
      (record f { managers = delete_manager id f.managers })

remove_manager-All :
    (P : Tracked → Type 0) (id : Text) (d : DeviceManager) (f : Finder)
    → All P f.tracked
    → All P (remove_manager id (some d) f).tracked
unfolding remove_manager remove_old
remove_manager-All P id d f h =
    remove_sessions-All P (sessions_of_device id f.tracked)
      (record f { managers = delete_manager id f.managers }) h

remove_device_managers-IsBare :
    (ds : List DeviceManager) (f : Finder)
    → f.managers ≡ ds
    → AreManagers ds
    → All (λ t. is_of_devices (map (λ d. d.id) ds) t ≡ true) f.tracked
    → IsBare (remove_device_managers (map (λ d. d.id) ds) f)
unfolding remove_device_managers remove_device_manager is_of_devices
remove_device_managers-IsBare [] f e m h = (e, All-none f.tracked h)
remove_device_managers-IsBare (d ∷ ds) f e m h =
    let g = remove_manager d.id (some d) f in
    let found : remove_device_manager d.id f ≡ g =
      ap (λ (o : Option DeviceManager). remove_manager d.id o f)
        (ap (find_manager d.id) e ∙ find_manager-head d ds) in
    let managers : g.managers ≡ ds =
      remove_manager-managers d.id d f
      ∙ ap (delete_manager d.id) e
      ∙ delete_manager-head d ds m.0 in
    let kept =
      All-zip g.tracked others
        (remove_manager-All (λ t. is_of_devices (map (λ d. d.id) (d ∷ ds)) t ≡ true) d.id d f h)
        (remove_manager-NoneOf d.id d f) in
    subst (λ (x : Finder). IsBare (remove_device_managers (map (λ d. d.id) ds) x)) (sym found)
      (remove_device_managers-IsBare ds g managers m.1 kept)
  where
    others :
        (t : Tracked)
        → is_of_devices (map (λ d. d.id) (d ∷ ds)) t ≡ true
        → has_prefix (d.id ++ codes "_") t.id ≡ false
        → is_of_devices (map (λ d. d.id) ds) t ≡ true
    others t p q = subst (λ (b : Bool). (b || is_of_devices (map (λ d. d.id) ds) t) ≡ true) q p

-- When the worker cleans up after any inputs, and the id of each tracked session begins with that of a
-- device that has a manager, the finder holds no session any more, the mixer has none, and every session
-- that was made has been released exactly once.
pub cleanup-live :
    (u : Unicode) (mapped : ℕ → Bool) {f : Finder}
    → Reach u f
    → All (λ t. is_of_devices (map (λ d. d.id) f.managers) t ≡ true) f.tracked
    → let g = cleanup f in
      (live g ≡ [])
      × ((t : ℕ)
          → (reach (attributes_of_bases u g.made) mapped t g.log ≡ 0)
            × (releases t g.log ≡ (if ltb t (length g.made) then 1 else 0)))
unfolding cleanup remove_old
cleanup-live u mapped {f} r h =
    let a = attributes_of_bases u (cleanup f).made in
    let sound = Reach-IsSound a mapped u r in
    let bare = remove_device_managers-IsBare f.managers f refl sound.devices h in
    let none_left : live (cleanup f) ≡ [] = rw (bare.0, bare.1) refl in
    let step = (cleanup-IsSound a mapped f sound).in_step in
    (
      none_left,
      λ t. (
        omega (arith, step.reaches t, ap (count t) none_left),
        omega (arith, step.owned t, ap (count t) none_left),
      ),
    )
