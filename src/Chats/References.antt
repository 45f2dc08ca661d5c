-- ===== src/Chats/References.antt =====
-- `referencesIn` of apps/web/src/components/answer-references.tsx: the records that an answer
-- names. The two regular expressions are run by hand over the code units of the text.
pub mod Ids
use lgtm.Prelude.{
  ℕ, zero, suc, Bool, true, false, not, ◌&&◌, ◌||◌, List, [], ◌∷◌, Text, text_eq, keep, take, glue,
  leb, ◌==◌, if◌then◌else◌,
}
use lgtm.Types.{RunnerStatus, Task, Todo}

pub record Referenced : Type 0 where
  pub runners : List RunnerStatus
  pub tasks : List Task
  pub todos : List Todo

-- `\w`
abbrev pub is_word : ℕ → Bool
is_word c =
    (leb b'0' c && leb c b'9')
    || (leb b'A' c && leb c b'Z')
    || c == b'_'
    || (leb b'a' c && leb c b'z')

-- `[0-9a-f]`
abbrev pub is_hex : ℕ → Bool
is_hex c = (leb b'0' c && leb c b'9') || (leb b'a' c && leb c b'f')

abbrev starts_word : Text → Bool
starts_word [] = false
starts_word (c ∷ s) = is_word c

-- `[0-9a-f]{n}\b` at the start of a text, behind a character of a word unless `n` is 0
unfoldable pub starts_hex : ℕ → Text → Bool
starts_hex zero s = not (starts_word s)
starts_hex (suc n) [] = false
starts_hex (suc n) (c ∷ s) = is_hex c && starts_hex n s

-- `text.match(SHORT_ID)`, from a place whose character in front is one of a word or not. No match
-- begins inside another one, whose characters are all those of a word.
unfoldable pub match_ids : Bool → Text → List Text
unfolding starts_hex
match_ids behind_word [] = []
match_ids behind_word (c ∷ s) =
    let later = match_ids (is_word c) s in
    if not behind_word && starts_hex 8 (c ∷ s) then take 8 (c ∷ s) ∷ later else later

-- `[^\w-]`
abbrev pub is_break : ℕ → Bool
is_break c = not (is_word c || c == b'-')

-- `text.split(WORD_BREAK)`; the flag says that the character in front is a break
unfoldable pub split_words : Bool → Text → List Text
split_words behind_break [] = [] ∷ []
split_words behind_break (c ∷ s) =
    let rest = split_words (is_break c) s in
    if is_break c then (if behind_break then rest else [] ∷ rest) else glue c rest

-- `set.has(text)`
unfoldable pub has : List Text → Text → Bool
has [] s = false
has (x ∷ xs) s = text_eq x s || has xs s

unfoldable pub starts_with : Text → Text → Bool
starts_with s [] = true
starts_with [] (_ ∷ _) = false
starts_with (a ∷ s) (b ∷ t) = a == b && starts_with s t

-- `text.includes(part)`
unfoldable pub includes : Text → Text → Bool
unfolding starts_with
includes [] part = starts_with [] part
includes (c ∷ s) part = starts_with (c ∷ s) part || includes s part

unfoldable pub references_in : Text → Referenced → Referenced
unfolding match_ids split_words has includes
references_in text all =
    let ids = match_ids false text in
    let words = split_words false text in
    record {
      runners = keep (λ (runner : RunnerStatus). has words runner.info.name) all.runners;
      tasks = keep (λ (task : Task). has ids (take 8 task.id)) all.tasks;
      todos =
          keep (λ (todo : Todo). has ids (take 8 todo.id) || includes text todo.display_id)
            all.todos;
    }
