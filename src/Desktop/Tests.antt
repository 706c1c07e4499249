-- ===== src/Desktop/Tests.antt =====
-- The icon of a program with two processes, of which the first hides its file.
use deej.Prelude.{ℕ, ◌≡◌, refl, true, [], ◌∷◌, List, none, some, ◌==◌, if◌then◌else◌}
use deej.Prelude.Text.{Text, codes, ascii}
use deej.Desktop.Icons.{
  Platform, IconCache, get_process_icons, icons_of, icon_now, IsUpToDate,
  get_process_icons-icon_now,
}

abbrev pids : Text → List ℕ
pids k = 3 ∷ 4 ∷ []

abbrev machine : Platform
machine = record {
  icons_supported = true;
  pids_by_name = some pids;
  image_path = λ pid. if pid == 4 then some (codes "/bin/player") else none;
  file_icon = λ path. some (codes "data");
}

abbrev no_icons : IconCache
no_icons k = none

get_process_icons-icon_now_example :
    let result = get_process_icons ascii machine (codes "Player" ∷ []) no_icons in
    ((n : Text) → result.0 n ≡ icons_of ascii (icon_now machine pids) (codes "Player" ∷ []) n)
    × IsUpToDate machine pids result.1
get_process_icons-icon_now_example =
    get_process_icons-icon_now ascii machine pids (codes "Player" ∷ []) no_icons refl refl
      (λ k icon e. absurd (cc e))
