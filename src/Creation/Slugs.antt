-- ===== src/Creation/Slugs.antt =====
-- The spelling of the names of new skills (apps/web/src/routes/skills.tsx): lower-case letters,
-- digits and single hyphens, none of them at an end.
use lgtm.Prelude.{
  ℕ, zero, suc, ◌≡◌, refl, sym, ap, ◌∙◌, Bool, true, false, not, ◌&&◌, ◌||◌, some, List, [], ◌∷◌,
  ◌++◌, Text, text, decimal, decimal_fuel, leb, ltb, length, ◌==◌, All, append_assoc, append-nil,
  ◌-◌, ◌+◌, ◌/◌, ◌%◌, Bool-cases, inl, inr, if◌then◌else◌, arith,
}
use lgtm.Types.{Skill}
use lgtm.Creation.{Moment, zeros, pad, base_name, numbered, free_name}
use lgtm.Creation.Digits.{IsDigit, is_digit, decimal-IsDigit, pad-IsDigit}
use lgtm.Creation.Names.{candidate, free_name_total}

abbrev is_word : ℕ → Bool
is_word c = is_digit c || (leb b'a' c && leb c b'z')

-- the flag says that a word has to begin here
unfoldable pub is_slug_from : Bool → Text → Bool
is_slug_from begins [] = not begins
is_slug_from begins (c ∷ s) =
    let rest = is_slug_from (c == b'-') s in
    if c == b'-' then not begins && rest else is_word c && rest

abbrev pub is_slug : Text → Bool
is_slug s = is_slug_from true s

abbrev is_written : Text → Bool
is_written [] = false
is_written (_ ∷ _) = true

-- digits inside a word change nothing, and they begin one
is_slug_from-digits :
    (begins : Bool) (ds s : Text)
    → All IsDigit ds
    → is_slug_from begins (ds ++ s) ≡ is_slug_from (begins && not (is_written ds)) s
unfolding is_slug_from
is_slug_from-digits true [] s h = refl
is_slug_from-digits false [] s h = refl
is_slug_from-digits begins (d ∷ ds) s h = ground (arith, h.0, is_slug_from-digits false ds s h.1)

is_written-append : (s : Text) (c : ℕ) (t : Text) → is_written (s ++ c ∷ t) ≡ true
is_written-append [] c t = refl
is_written-append (a ∷ s) c t = refl

ends_written : (s t : Text) → is_written t ≡ true → is_written (s ++ t) ≡ true
ends_written [] t h = h
ends_written (a ∷ s) t h = refl

decimal-is_written : (n : ℕ) → is_written (decimal n) ≡ true
unfolding decimal decimal_fuel
decimal-is_written n = elim (Bool-cases (ltb n 10)) [
  | inl small ↦ rw small refl
  | inr large ↦ rw large (is_written-append (decimal_fuel n (n / 10)) (48 + n % 10) [])
]

-- a number written out begins a word, or goes on with one
after_decimal :
    (begins : Bool) (n : ℕ) (s : Text) → is_slug_from begins (decimal n ++ s) ≡ is_slug_from false s
after_decimal begins n s =
    ground
      (arith, is_slug_from-digits begins (decimal n) s (decimal-IsDigit n), decimal-is_written n)

after_pad :
    (begins : Bool) (n : ℕ) (s : Text) → is_slug_from begins (pad n ++ s) ≡ is_slug_from false s
after_pad begins n s =
    let written : is_written (pad n) ≡ true =
      unfold pad in
      ends_written (zeros (2 - length (decimal n))) (decimal n) (decimal-is_written n) in
    ground (arith, is_slug_from-digits begins (pad n) s (pad-IsDigit n), written)

after_prefix : (s : Text) → is_slug (text "new-skill-" ++ s) ≡ is_slug_from true s
unfolding is_slug_from text
after_prefix s = refl

after_dash : (s : Text) → is_slug_from false (text "-" ++ s) ≡ is_slug_from true s
unfolding is_slug_from text
after_dash s = refl

after_base : (now : Moment) (s : Text) → is_slug (base_name now ++ s) ≡ is_slug_from false s
unfolding base_name
after_base now s = simp (append_assoc, after_prefix, after_pad, after_dash)

candidate-is_slug : (now : Moment) (k : ℕ) → is_slug (candidate (base_name now) k) ≡ true
unfolding is_slug_from
candidate-is_slug now zero = ap is_slug (sym (append-nil (base_name now))) ∙ after_base now []
candidate-is_slug now (suc k) =
    unfold numbered in
    after_base now (b'-' ∷ decimal (k + 2))
    ∙ ap (is_slug_from true) (sym (append-nil (decimal (k + 2))))
    ∙ after_decimal true (k + 2) []

-- The name of a new skill is made of words of lower-case letters and digits with single hyphens
-- between them, as the specification of skills has it, whatever the clock says.
pub free_name-is_slug :
    (skills : List Skill) (now : Moment) (name : Text)
    → free_name skills now ≡ some name
    → is_slug name ≡ true
free_name-is_slug skills now name e =
    let (found, given, free) = free_name_total skills now in
    let same : found ≡ name = ground (arith, given, e) in
    ap is_slug (sym same ∙ free.1.1) ∙ candidate-is_slug now free.1.0
