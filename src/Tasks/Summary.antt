-- ===== src/Tasks/Summary.antt =====
-- apps/web/src/components/task-summary-panel.tsx: what a reviewer checks.
pub mod Diff
pub mod Order
pub mod Panel
pub mod Listed
use lgtm.Prelude.{
  ℕ, ◌+◌, Bool, true, false, not, ◌&&◌, ◌||◌, Option, none, some, List, [], ◌∷◌, Text, text,
  text_eq, split, leb, ◌==◌, if◌then◌else◌, drop,
}
use lgtm.Prelude.Sort.{sort}
use lgtm.Types.{Finding, blocking, warning, Severity, ValidationResult, TaskStatus, queued, running}

-- `s.startsWith(prefix)`
unfoldable pub starts_with : Text → Text → Bool
starts_with [] s = true
starts_with (a ∷ prefix) [] = false
starts_with (a ∷ prefix) (b ∷ s) = a == b && starts_with prefix s

-- `/^[+-]/`
abbrev pub diff_line : Text → Bool
diff_line [] = false
diff_line (c ∷ _) = c == b'+' || c == b'-'

-- `/^(\+\+\+|---)/`
abbrev pub diff_file_header : Text → Bool
diff_file_header (a ∷ b ∷ c ∷ _) =
    (a == b'+' && b == b'+' && c == b'+') || (a == b'-' && b == b'-' && c == b'-')
diff_file_header _ = false

abbrev pub is_added : Text → Bool
is_added [] = false
is_added (c ∷ _) = c == b'+'

-- `added` and `removed`
pub record Stat : Type 0 where
  pub added : ℕ
  pub removed : ℕ

-- one round of the loop
unfoldable pub count_line : Stat → Text → Stat
count_line s line =
    if not (diff_line line) || diff_file_header line
    then s
    else if is_added line
    then record s { added = s.added + 1 }
    else record s { removed = s.removed + 1 }

unfoldable pub count_lines : Stat → List Text → Stat
unfolding count_line
count_lines s [] = s
count_lines s (line ∷ lines) = count_lines (count_line s line) lines

unfoldable pub diff_stat : Text → Stat
unfolding count_lines
diff_stat diff = count_lines (record { added = 0; removed = 0 }) (split b'\n' diff)

abbrev pub is_blocking : Severity → Bool
is_blocking blocking = true
is_blocking warning = false

abbrev pub as_bit : Bool → ℕ
as_bit true = 1
as_bit false = 0

-- `Number(b.severity === "blocking") - Number(a.severity === "blocking")` is not positive
abbrev pub finding_le : Finding → Finding → Bool
finding_le a b = leb (as_bit (is_blocking b.severity)) (as_bit (is_blocking a.severity))

unfoldable pub sort_findings : List Finding → List Finding
sort_findings findings = sort finding_le findings

-- `Number(a.ok) - Number(b.ok)` is not positive
abbrev pub check_le : ValidationResult → ValidationResult → Bool
check_le a b = leb (as_bit a.ok) (as_bit b.ok)

unfoldable pub sort_checks : List ValidationResult → List ValidationResult
sort_checks checks = sort check_le checks

-- `url.replace(/^https?:\/\//, "")`
unfoldable pub strip_protocol : Text → Text
unfolding starts_with
strip_protocol url =
    if starts_with (text "https://") url
    then drop 8 url
    else if starts_with (text "http://") url
    then drop 7 url
    else url

-- `url.replace(/\.git$/, "")`
unfoldable pub strip_dot_git : Text → Text
strip_dot_git [] = []
strip_dot_git (c ∷ s) =
    let rest = strip_dot_git s in if text_eq (c ∷ s) (text ".git") then [] else c ∷ rest

-- the label of a repository, and the address it links to if it has one on the web
unfoldable pub repository_value : Text → Text × Option Text
unfolding starts_with strip_protocol strip_dot_git
repository_value url = (
  strip_dot_git (strip_protocol url),
  if starts_with (text "http") url then some (strip_dot_git url) else none,
)

-- what stands in place of an empty diff: whether the run has still to finish
unfoldable pub is_pending : TaskStatus → Bool
is_pending queued = true
is_pending running = true
is_pending _ = false
