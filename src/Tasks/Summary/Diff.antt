-- ===== src/Tasks/Summary/Diff.antt =====
-- `DiffStat` of apps/web/src/components/task-summary-panel.tsx.
use lgtm.Prelude.{
  ℕ, suc, ◌+◌, ◌≡◌, ◌↔◌, Bool, false, not, ◌&&◌, List, [], ◌∷◌, Text, split, ◌==◌, length, keep,
  arith, if◌then◌else◌,
}
use lgtm.Tasks.Summary.{
  Stat, diff_line, diff_file_header, is_added, count_line, count_lines, diff_stat,
}

-- a line that counts as added, or as removed
abbrev pub counts_added : Text → Bool
counts_added line = is_added line && not (diff_file_header line)

abbrev pub counts_removed : Text → Bool
counts_removed line = diff_line line && not (is_added line) && not (diff_file_header line)

count_line-counts :
    (s : Stat) (line : Text)
    → ((count_line s line).added ≡ s.added + (if counts_added line then 1 else 0))
      × ((count_line s line).removed ≡ s.removed + (if counts_removed line then 1 else 0))
unfolding count_line
count_line-counts s [] = ground arith
count_line-counts s (a ∷ []) = ground arith
count_line-counts s (a ∷ b ∷ []) = ground arith
count_line-counts s (a ∷ b ∷ c ∷ rest) = ground arith

length-keep-cons :
    (p : Text → Bool) (line : Text) (lines : List Text)
    → length (keep p (line ∷ lines)) ≡ (if p line then 1 else 0) + length (keep p lines)
length-keep-cons p line lines = ground arith

count_lines-keep :
    (s : Stat) (lines : List Text)
    → ((count_lines s lines).added ≡ s.added + length (keep counts_added lines))
      × ((count_lines s lines).removed ≡ s.removed + length (keep counts_removed lines))
unfolding count_lines
count_lines-keep s [] = ground arith
count_lines-keep s (line ∷ lines) =
    let (added, removed) = count_line-counts s line in
    let (added', removed') = count_lines-keep (count_line s line) lines in
    (
      omega (arith, length-keep-cons counts_added line lines),
      omega (arith, length-keep-cons counts_removed line lines),
    )

-- The statistics are the numbers of lines of the diff that begin with a plus, or with a minus,
-- and not with three of them.
pub diff_stat-keep :
    (diff : Text)
    → ((diff_stat diff).added ≡ length (keep counts_added (split b'\n' diff)))
      × ((diff_stat diff).removed ≡ length (keep counts_removed (split b'\n' diff)))
unfolding diff_stat
diff_stat-keep diff =
    ground (arith, count_lines-keep (record { added = 0; removed = 0 }) (split b'\n' diff))

abbrev pub twice_led : ℕ → Text → Bool
twice_led c (a ∷ b ∷ _) = a == c && b == c
twice_led c _ = false

-- The line of a diff that adds the source line `x` is counted exactly if `x` does not begin with
-- two plus signs, and the line that removes it exactly if `x` does not begin with two minus
-- signs: such a changed line is taken for the header of a file.
pub count_line-misses :
    (s : Stat) (x : Text)
    → (((count_line s (b'+' ∷ x)).added ≡ suc s.added) ↔ (twice_led b'+' x ≡ false))
      × (((count_line s (b'-' ∷ x)).removed ≡ suc s.removed) ↔ (twice_led b'-' x ≡ false))
unfolding count_line
count_line-misses s [] = ground arith
count_line-misses s (a ∷ []) = ground arith
count_line-misses s (a ∷ b ∷ x) = ground arith
