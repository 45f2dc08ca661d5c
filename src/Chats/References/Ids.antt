-- ===== src/Chats/References/Ids.antt =====
-- What `referencesIn` (apps/web/src/components/answer-references.tsx) finds, by the runs of word
-- characters of a text.
use lgtm.Prelude.{
  ℕ, zero, suc, ◌≡◌, refl, sym, ap, ◌∙◌, Bool, true, false, ◌&&◌, ◌||◌, List, [], ◌∷◌, Text, ◌++◌,
  keep-append, text_eq, text_eq_iff, keep, take, any, glue, if◌then◌else◌, Bool-cases, inl, inr,
  arith,
}
use lgtm.Types.{RunnerStatus, Task, Todo}
use lgtm.Chats.References.{
  Referenced, is_word, is_hex, starts_hex, match_ids, is_break, split_words, has, includes,
  references_in,
}

-- the runs of word characters of a text, and nothing between two characters that are none: the
-- first run, and those behind it
abbrev pub first_run : Text → Text
first_run [] = []
first_run (c ∷ s) = if is_word c then c ∷ first_run s else []

abbrev pub later_runs : Text → List Text
later_runs [] = []
later_runs (c ∷ s) = let later = later_runs s in if is_word c then later else first_run s ∷ later

abbrev pub runs : Text → List Text
runs s = first_run s ∷ later_runs s

-- eight hexadecimal digits
abbrev is_hex_of : ℕ → Text → Bool
is_hex_of zero [] = true
is_hex_of zero (_ ∷ _) = false
is_hex_of (suc n) [] = false
is_hex_of (suc n) (c ∷ s) = is_hex c && is_hex_of n s

abbrev pub is_short_id : Text → Bool
is_short_id s = is_hex_of 8 s

is_hex-is_word : (c : ℕ) → is_hex c ≡ true → is_word c ≡ true
is_hex-is_word c h = ground arith

starts_hex-first_run : (n : ℕ) (s : Text) → starts_hex n s ≡ is_hex_of n (first_run s)
unfolding starts_hex
starts_hex-first_run zero [] = refl
starts_hex-first_run (suc n) [] = refl
starts_hex-first_run zero (c ∷ s) = elim (Bool-cases (is_word c)) [
  | inl word ↦ rw word refl
  | inr other ↦ rw other refl
]
starts_hex-first_run (suc n) (c ∷ s) = elim (Bool-cases (is_word c)) [
  | inl word ↦ rw word (ap (λ b. is_hex c && b) (starts_hex-first_run n s))
  | inr other ↦
      let e : is_hex c ≡ false = ground (arith, is_hex-is_word c, other) in rw (other, e) refl
]

take-first_run : (n : ℕ) (s : Text) → is_hex_of n (first_run s) ≡ true → take n s ≡ first_run s
take-first_run zero [] h = refl
take-first_run (suc n) [] h = refl
take-first_run zero (c ∷ s) h = elim (Bool-cases (is_word c)) [
  | inl word ↦ let k : false ≡ true = rw word at h in cc
  | inr other ↦ rw other refl
]
take-first_run (suc n) (c ∷ s) h = elim (Bool-cases (is_word c)) [
  | inl word ↦
      let k : is_hex_of n (first_run s) ≡ true = ground (arith, h, word) in
      rw word (ap (λ t. c ∷ t) (take-first_run n s k))
  | inr other ↦ ground (arith, h, other)
]

-- the runs behind a place, by whether a run goes on there
abbrev runs_behind : Bool → Text → List Text
runs_behind true s = later_runs s
runs_behind false s = runs s

match_ids-keep :
    (behind_word : Bool) (s : Text)
    → match_ids behind_word s ≡ keep is_short_id (runs_behind behind_word s)
unfolding match_ids
match_ids-keep true [] = refl
match_ids-keep false [] = refl
match_ids-keep true (c ∷ s) = elim (Bool-cases (is_word c)) [
  | inl word ↦ rw word (match_ids-keep true s)
  | inr other ↦ rw other (match_ids-keep false s)
]
match_ids-keep false (c ∷ s) = elim (Bool-cases (is_word c)) [
  | inl word ↦
      let begins : starts_hex 8 (c ∷ s) ≡ is_hex_of 8 (first_run (c ∷ s)) =
        starts_hex-first_run 8 (c ∷ s) in
      elim (Bool-cases (is_hex_of 8 (first_run (c ∷ s)))) [
        | inl short ↦
            let t : take 8 (c ∷ s) ≡ c ∷ first_run s =
              take-first_run 8 (c ∷ s) short ∙ rw word refl in
            ground (arith, match_ids-keep true s, begins, short, t, word)
        | inr long ↦ ground (arith, match_ids-keep true s, begins, long, word)
      ]
  | inr other ↦
      let e : is_hex c ≡ false = ground (arith, is_hex-is_word c, other) in
      let out : starts_hex 8 (c ∷ s) ≡ false = unfold starts_hex in rw e refl in
      rw (other, out) (match_ids-keep false s)
]

-- The words that a text is split into hold no break.
split_words-unbroken :
    (behind_break : Bool) (s : Text) → any (any is_break) (split_words behind_break s) ≡ false
unfolding split_words
split_words-unbroken behind_break [] = refl
split_words-unbroken behind_break (c ∷ s) = elim (Bool-cases (is_break c)) [
  | inl break ↦ ground (arith, break, split_words-unbroken true s)
  | inr inside ↦ rw inside (glued c (split_words false s) inside (split_words-unbroken false s))
]
  where
    glued :
        (d : ℕ) (words : List Text)
        → is_break d ≡ false
        → any (any is_break) words ≡ false
        → any (any is_break) (glue d words) ≡ false
    glued d [] h k = ground (arith, h)
    glued d (word ∷ words) h k = ground (arith, h, k)

has-unbroken :
    (words : List Text) (name : Text)
    → any (any is_break) words ≡ false
    → any is_break name ≡ true
    → has words name ≡ false
unfolding has
has-unbroken [] name h k = refl
has-unbroken (word ∷ words) name h k = elim (Bool-cases (text_eq word name)) [
  | inl same ↦
      let e : word ≡ name = (text_eq_iff word name).0 same in
      let b : any is_break word ≡ true = ap (any is_break) e ∙ k in ground (arith, h, b)
  | inr other ↦ rw other (has-unbroken words name (ground (arith, h)) k)
]

-- The tasks that an answer refers to are those of which the first eight characters of the id are,
-- in the text, a whole run of word characters made of hexadecimal digits; the todos are those and
-- the ones whose display id is a part of the text.
pub references_in-runs :
    (text : Text) (all : Referenced)
    → let ids = keep is_short_id (runs text) in
      let found = references_in text all in
      (found.tasks ≡ keep (λ (task : Task). has ids (take 8 task.id)) all.tasks)
      × (found.todos
          ≡ keep
              (λ (todo : Todo). has ids (take 8 todo.id) || includes text todo.display_id)
              all.todos)
unfolding references_in
references_in-runs text all =
    let e = match_ids-keep false text in
    (
      ap (λ ids. keep (λ (task : Task). has ids (take 8 task.id)) all.tasks) e,
      ap
          (λ ids.
            keep (λ (todo : Todo). has ids (take 8 todo.id) || includes text todo.display_id)
              all.todos)
          e,
    )

-- A runner with a character in its name that is neither one of a word nor a hyphen, such as a
-- space, is referred to by no answer, also where the answer quotes the name.
pub references_in-broken_name :
    (text : Text) (all : Referenced) (runner : RunnerStatus) (before after : List RunnerStatus)
    → any is_break runner.info.name ≡ true
    → all.runners ≡ before ++ runner ∷ after
    → (references_in text all).runners
      ≡ (references_in text (record all { runners = before ++ after })).runners
unfolding references_in
references_in-broken_name text all runner before after broken e =
    let p = λ (r : RunnerStatus). has (split_words false text) r.info.name in
    let out : p runner ≡ false =
      has-unbroken (split_words false text) runner.info.name (split_words-unbroken false text)
        broken in
    ap (keep p) e
    ∙ keep-append p before (runner ∷ after)
    ∙ rw out (sym (keep-append p before after))
