-- ===== src/Prelude/Texts.antt =====
-- JavaScript strings as lists of UTF-16 code units, with the methods of `String.prototype` that
-- the web app calls. Every literal of the app lies in the basic plane, one unit to a character.
use Prim.Native.Char.{code}
use Prim.Native.Nat.{ℕ, zero, suc, ◌+◌, ◌/◌, ◌%◌, ◌<◌}
use Prim.Native.String.{String}
use mathlib.Core.Path.{◌≡◌, refl, sym, ap, ap₂, ◌∙◌}
use mathlib.Core.Logic.{◌↔◌, inl, inr}
use mathlib.Core.Bool.{Bool, true, false, ◌&&◌, ◌||◌}
use mathlib.Core.List.{List, [], ◌∷◌, ◌++◌, reverse}
use native.Mathlib.Omega.{arith}
use lgtm.Prelude.Tests.{ltb, leb, ◌==◌, if◌then◌else◌, ==_iff, Bool-cases}

abbrev pub Text : Type 0
Text = List ℕ

-- a literal of the source
unfoldable pub text : String → Text
text String.[] = []
text (String.◌∷◌ c s) = code c ∷ text s

-- `a === b`
unfoldable pub text_eq : Text → Text → Bool
text_eq [] [] = true
text_eq (a ∷ x) (b ∷ y) = a == b && text_eq x y
text_eq _ _ = false

-- JavaScript's `!s`: a text is falsy when it is empty
abbrev pub is_empty : Text → Bool
is_empty [] = true
is_empty (_ ∷ _) = false

-- WhiteSpace and LineTerminator of the language, which `trim` removes and `\s` matches
unfoldable pub is_space : ℕ → Bool
is_space c =
    (leb 9 c && leb c 13)
    || c == 32
    || c == 160
    || c == 0x1680
    || (leb 0x2000 c && leb c 0x200a)
    || c == 0x2028
    || c == 0x2029
    || c == 0x202f
    || c == 0x205f
    || c == 0x3000
    || c == 0xfeff

unfoldable pub trim_start : Text → Text
unfolding is_space
trim_start [] = []
trim_start (c ∷ s) = let rest = trim_start s in if is_space c then rest else c ∷ s

unfoldable pub trim_end : Text → Text
unfolding trim_start
trim_end s = reverse (trim_start (reverse s))

unfoldable pub trim : Text → Text
unfolding trim_end
trim s = trim_end (trim_start s)

-- the head of a text in front of its first line, and the rest of the lines
abbrev pub glue : ℕ → List Text → List Text
glue c [] = (c ∷ []) ∷ []
glue c (line ∷ lines) = (c ∷ line) ∷ lines

-- `s.split(c)` for a separator of one unit
unfoldable pub split : ℕ → Text → List Text
split sep [] = [] ∷ []
split sep (c ∷ s) = let rest = split sep s in if c == sep then [] ∷ rest else glue c rest

-- `parts.join(sep)`
unfoldable pub join : Text → List Text → Text
join sep [] = []
join sep (x ∷ []) = x
join sep (x ∷ y ∷ rest) = x ++ sep ++ join sep (y ∷ rest)

unfoldable pub decimal_fuel : ℕ → ℕ → Text
decimal_fuel zero n = []
decimal_fuel (suc f) n =
    let more = decimal_fuel f (n / 10) ++ (48 + n % 10) ∷ [] in
    if ltb n 10 then (48 + n) ∷ [] else more

-- `${n}` of a natural number; a number has fewer digits than `n + 1`
unfoldable pub decimal : ℕ → Text
unfolding decimal_fuel
decimal n = decimal_fuel (suc n) n

-- More fuel than the number changes nothing: fuel above it is enough.
pub decimal_fuel_enough : (f g n : ℕ) → n < f → n < g → decimal_fuel f n ≡ decimal_fuel g n
unfolding decimal_fuel
decimal_fuel_enough zero g n h k = ground (arith, h)
decimal_fuel_enough (suc f) zero n h k = ground (arith, k)
decimal_fuel_enough (suc f) (suc g) n h k = ground (arith, h, k, decimal_fuel_enough f g (n / 10))

pub text_eq_iff : (x y : Text) → (text_eq x y ≡ true) ↔ (x ≡ y)
unfolding text_eq
text_eq_iff [] [] = ground arith
text_eq_iff [] (b ∷ y) = ground arith
text_eq_iff (a ∷ x) [] = ground arith
text_eq_iff (a ∷ x) (b ∷ y) = ground (arith, text_eq_iff x y)

pub text_eq_refl : (x : Text) → text_eq x x ≡ true
text_eq_refl x = (text_eq_iff x x).1 refl

join-glue : (sep : Text) (c : ℕ) (lines : List Text) → join sep (glue c lines) ≡ c ∷ join sep lines
unfolding join
join-glue sep c [] = refl
join-glue sep c (x ∷ []) = refl
join-glue sep c (x ∷ y ∷ rest) = refl

-- Splitting yields at least one line.
pub split-cons : (sep : ℕ) (s : Text) → (l : Text) × (ls : List Text) × (split sep s ≡ l ∷ ls)
unfolding split
split-cons sep [] = ([], [], refl)
split-cons sep (c ∷ s) =
    let (l, ls, e) = split-cons sep s in
    elim (Bool-cases (c == sep)) [
      | inl same ↦ ([], split sep s, rw same)
      | inr other ↦ (c ∷ l, ls, rw (other, e))
    ]

join-empty :
    (sep : ℕ) {lines : List Text} (l : Text) (ls : List Text)
    → lines ≡ l ∷ ls
    → join (sep ∷ []) ([] ∷ lines) ≡ sep ∷ join (sep ∷ []) lines
unfolding join
join-empty sep l ls e = rw e

-- Joining by the separator undoes splitting.
pub join-split : (sep : ℕ) (s : Text) → join (sep ∷ []) (split sep s) ≡ s
unfolding split
join-split sep [] = unfold join in refl
join-split sep (c ∷ s) =
    let (l, ls, e) = split-cons sep s in
    let ih = join-split sep s in
    elim (Bool-cases (c == sep)) [
      | inl same ↦
          rw same (join-empty sep l ls e ∙ ap₂ (λ a t. a ∷ t) (sym ((==_iff c sep).0 same)) ih)
      | inr other ↦ rw other (join-glue (sep ∷ []) c _ ∙ ap (λ t. c ∷ t) ih)
    ]
