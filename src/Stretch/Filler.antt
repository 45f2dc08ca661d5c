-- ===== src/Stretch/Filler.antt =====
-- `filler` of apps/web/src/lib/lgtm/debug.ts. `draw n k` is the n-th `Math.floor(Math.random() * k)`,
-- and `digits` a random number's digits in base 36.
pub mod Sizes
use lgtm.Prelude.{
  ℕ, zero, suc, ◌+◌, Option, none, some, List, [], ◌∷◌, ◌++◌, Text, text, split, join, length,
  get_elem?,
}

abbrev pub words : List Text
words = split b' ' (
    text
      "retry semantics identical regression endpoint swallowed orchestrator worktree runner checkpoint escalate diff review merged conflicted rollback transcript")

abbrev pub min_words : ℕ
min_words = 20

abbrev pub extra_words : ℕ
extra_words = 60

abbrev pub min_repeats : ℕ
min_repeats = 4

abbrev pub extra_repeats : ℕ
extra_repeats = 6

-- how `join` writes an element that may be undefined
abbrev pub or_blank : Option Text → Text
or_blank none = []
or_blank (some s) = s

-- `s.repeat(n)`
unfoldable pub repeated : ℕ → Text → Text
repeated zero s = []
repeated (suc n) s = s ++ repeated n s

module _ (draw : ℕ → ℕ → ℕ) where
  -- as many words, from the n-th draw on
  unfoldable pub pick_words : ℕ → ℕ → List Text
  pick_words zero n = []
  pick_words (suc k) n = or_blank (get_elem? words (draw n (length words))) ∷ pick_words k (suc n)

  unfoldable pub word_count : ℕ → ℕ
  word_count n = min_words + draw n extra_words

  unfoldable pub sentence : ℕ → Text
  unfolding pick_words word_count
  sentence n = join (text " ") (pick_words (word_count n) (suc n))

  -- the draw after those of the sentence
  abbrev pub after_sentence : ℕ → ℕ
  after_sentence n = suc n + (min_words + draw n extra_words)

  unfoldable pub filler : (ℕ → Text) → ℕ → Text
  filler digits n =
      sentence n
      ++ text " "
      ++ repeated (min_repeats + draw (after_sentence n) extra_repeats) (digits n)
