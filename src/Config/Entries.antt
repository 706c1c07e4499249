-- ===== src/Config/Entries.antt =====
-- internal/config/mapping.go: the operations on a slider mapping. slices.SortFunc is an insertion
-- sort; the sliders that it orders are distinct.
use deej.Prelude.{
  ℕ, Bool, false, ◌||◌, List, [], ◌∷◌, Option, none, some, if◌then◌else◌, length, ◌+◌,
}
use deej.Prelude.Int.{ℤ, eqb_ℤ, is_neg, ltb_ℤ}
use deej.Prelude.Text.{Text, text_eq}
use deej.Config.Model.{SliderMappingEntry, SliderMappings, Profile, Settings}

-- `Get`
unfoldable pub get : SliderMappings → ℤ → Option (List Text)
get [] slider = none
get (e ∷ es) slider = if eqb_ℤ e.slider slider then some e.targets else get es slider

-- What `normalized` reports.
pub data MappingProblem : Type 0 where
  negative_index : ℤ → MappingProblem
  duplicate_index : ℤ → MappingProblem

unfoldable pub contains_slider : List ℤ → ℤ → Bool
contains_slider [] slider = false
contains_slider (s ∷ ss) slider = eqb_ℤ s slider || contains_slider ss slider

-- `slices.DeleteFunc(targets, t == "")`
unfoldable pub drop_empty : List Text → List Text
unfolding text_eq
drop_empty [] = []
drop_empty (t ∷ ts) = let rest = drop_empty ts in if text_eq t [] then rest else t ∷ rest

abbrev pub report {ℓ κ} : {A : Type ℓ} {P : Type κ} → P → A × List P → A × List P
report p (a, ps) = (a, p ∷ ps)

-- An entry left with no targets is dropped.
abbrev pub keep_entry :
    ℤ → List Text → SliderMappings × List MappingProblem → SliderMappings × List MappingProblem
keep_entry slider [] r = r
keep_entry slider (t ∷ ts) (m, ps) = (record { slider = slider; targets = t ∷ ts } ∷ m, ps)

-- The loop of `normalized`, behind the slider indexes seen so far.
unfoldable pub collect : List ℤ → SliderMappings → SliderMappings × List MappingProblem
unfolding contains_slider drop_empty
collect seen [] = ([], [])
collect seen (e ∷ es) =
    let skipped = collect seen es in
    let kept = collect (e.slider ∷ seen) es in
    if is_neg e.slider
    then report (negative_index e.slider) skipped
    else if contains_slider seen e.slider
    then report (duplicate_index e.slider) skipped
    else keep_entry e.slider (drop_empty e.targets) kept

unfoldable pub insert_entry : SliderMappingEntry → SliderMappings → SliderMappings
insert_entry e [] = e ∷ []
insert_entry e (d ∷ ds) = if ltb_ℤ d.slider e.slider then d ∷ insert_entry e ds else e ∷ d ∷ ds

unfoldable pub sort_entries : SliderMappings → SliderMappings
unfolding insert_entry
sort_entries [] = []
sort_entries (e ∷ es) = insert_entry e (sort_entries es)

-- `normalized`
unfoldable pub normalized : SliderMappings → SliderMappings × List MappingProblem
unfolding collect sort_entries
normalized m = let r = collect [] m in (sort_entries r.0, r.1)

unfoldable pub find_active : List Profile → Text → Option SliderMappings
unfolding text_eq
find_active [] name = none
find_active (p ∷ ps) name =
    if text_eq p.name name then some p.slider_mapping else find_active ps name

abbrev first_mapping : List Profile → SliderMappings
first_mapping [] = []
first_mapping (p ∷ ps) = p.slider_mapping

abbrev or_mapping : Option SliderMappings → SliderMappings → SliderMappings
or_mapping none m = m
or_mapping (some m) n = m

-- `ActiveMapping`; the nil mapping is the empty one.
unfoldable pub active_mapping : Settings → SliderMappings
unfolding find_active
active_mapping s = or_mapping (find_active s.profiles s.active_profile) (first_mapping s.profiles)

-- The number that `String` prints.
unfoldable pub target_count : SliderMappings → ℕ
target_count [] = 0
target_count (e ∷ es) = length e.targets + target_count es
