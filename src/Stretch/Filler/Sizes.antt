-- ===== src/Stretch/Filler/Sizes.antt =====
-- How long a filler is (apps/web/src/lib/lgtm/debug.ts).
use lgtm.Prelude.{
  ℕ, zero, suc, ◌+◌, ◌*◌, ◌≤◌, ◌<◌, ◌≡◌, refl, List, [], ◌∷◌, ◌++◌, Text, text, split, join, length,
  length-append, get_elem?, All, arith,
}
use lgtm.Stretch.Filler.{
  min_repeats, extra_repeats, words, or_blank, repeated, pick_words, word_count, sentence,
  after_sentence, filler,
}

length-repeated : (n : ℕ) (s : Text) → length (repeated n s) ≡ n * length s
unfolding repeated
length-repeated zero s = omega arith
length-repeated (suc n) s = omega (arith, length-append s (repeated n s), length-repeated n s)

-- the units of a list of words, with one more for each
abbrev total : List Text → ℕ
total [] = 0
total (w ∷ ws) = length w + 1 + total ws

length-join :
    (sep : Text) (ws : List Text)
    → length sep ≡ 1
    → 0 < total ws
    → length (join sep ws) + 1 ≡ total ws
unfolding join
length-join sep [] one h = absurd (omega (arith, h))
length-join sep (w ∷ []) one h = omega arith
length-join sep (w ∷ v ∷ ws) one h =
    let rest = length-join sep (v ∷ ws) one (omega arith) in
    let joins : length (join sep (w ∷ v ∷ ws)) ≡ length (w ++ sep ++ join sep (v ∷ ws)) = refl in
    omega
      (arith, one, joins, length-append (w ++ sep) (join sep (v ∷ ws)), length-append w sep, rest)

space-length : length (text " ") ≡ 1
unfolding text
space-length = refl

words_some : 0 < length words
unfolding split text
words_some = omega arith

abbrev IsWord : Text → Type 0
IsWord w = (4 ≤ length w) × (length w ≤ 12)

words-AreWords : All IsWord words
unfolding text split
words-AreWords = ground arith

get_elem?-All :
    (ws : List Text) (i : ℕ) → i < length ws → All IsWord ws → IsWord (or_blank (get_elem? ws i))
get_elem?-All [] i h a = absurd (omega (arith, h))
get_elem?-All (w ∷ ws) zero h a = a.0
get_elem?-All (w ∷ ws) (suc i) h a = get_elem?-All ws i (omega (arith, h)) a.1

module _ (draw : ℕ → ℕ → ℕ) (in_range : (n k : ℕ) → 0 < k → draw n k < k) where
  total-pick_words :
      (k n : ℕ) → (k * 5 ≤ total (pick_words draw k n)) × (total (pick_words draw k n) ≤ k * 13)
  unfolding pick_words
  total-pick_words zero n = omega arith
  total-pick_words (suc k) n =
      let word : IsWord (or_blank (get_elem? words (draw n (length words)))) =
        get_elem?-All words (draw n (length words)) (in_range n (length words) words_some)
          words-AreWords in
      omega (arith, word, total-pick_words k (suc n))

  length-sentence : (n : ℕ) → (99 ≤ length (sentence draw n)) × (length (sentence draw n) ≤ 1026)
  unfolding sentence word_count pick_words
  length-sentence n =
      let range = in_range n 60 (omega arith) in
      let sizes = total-pick_words (20 + draw n 60) (suc n) in
      let joined =
        length-join (text " ") (pick_words draw (20 + draw n 60) (suc n)) space-length
          (omega (arith, sizes)) in
      omega (arith, range, sizes, joined)

  -- With draws below their bounds: a filler has a sentence of 99 to 1026 units, a blank, and then one
  -- word of four to nine times the random digits.
  pub length-filler :
      (digits : ℕ → Text) (n : ℕ)
      → let long = length (filler draw digits n) in
        let d = length (digits n) in (100 + 4 * d ≤ long) × (long ≤ 1027 + 9 * d)
  unfolding filler
  length-filler digits n =
      let times = min_repeats + draw (after_sentence draw n) extra_repeats in
      let range = in_range (after_sentence draw n) extra_repeats (omega arith) in
      let tail = repeated times (digits n) in
      grind (
        arith,
        range,
        length-sentence n,
        space-length,
        length-append (sentence draw n ++ text " ") tail,
        length-append (sentence draw n) (text " "),
        length-repeated times (digits n),
      )
