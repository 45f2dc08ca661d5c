-- ===== src/Creation/Digits.antt =====
-- Numbers written out in decimal (`String(n)` in apps/web/src/routes/skills.tsx and
-- apps/web/src/routes/scratchpads.tsx).
use lgtm.Prelude.{
  ℕ, zero, suc, ◌+◌, ◌-◌, ◌*◌, ◌/◌, ◌%◌, ◌<◌, ◌≡◌, refl, sym, ap, ◌∙◌, Bool, true, ◌&&◌, [], ◌∷◌,
  ◌++◌, Text, decimal, decimal_fuel, decimal_fuel_enough, ltb, leb, All, All-append, Bool-cases,
  inl, inr, arith,
}
use lgtm.Creation.{pad, zeros}

-- the number that a text of digits stands for, behind the digits read
abbrev value : ℕ → Text → ℕ
value acc [] = acc
value acc (c ∷ s) = value (acc * 10 + (c - 48)) s

value-append : (acc : ℕ) (s t : Text) → value acc (s ++ t) ≡ value (value acc s) t
value-append acc [] t = refl
value-append acc (c ∷ s) t = value-append (acc * 10 + (c - 48)) s t

value-decimal_fuel : (f n : ℕ) → n < f → value 0 (decimal_fuel f n) ≡ n
unfolding decimal_fuel
value-decimal_fuel zero n h = elim h [ ]
value-decimal_fuel (suc f) n h = elim (Bool-cases (ltb n 10)) [
  | inl small ↦ rw small (omega arith)
  | inr large ↦
      let less : n / 10 < f = ground (arith, large) in
      let ih = value-decimal_fuel f (n / 10) less in
      rw (large, value-append 0 (decimal_fuel f (n / 10)) ((48 + n % 10) ∷ []), ih) (omega arith)
]

-- Different numbers are written differently.
pub decimal_injective : (m n : ℕ) → decimal m ≡ decimal n → m ≡ n
unfolding decimal
decimal_injective m n e =
    sym (value-decimal_fuel (suc m) m (omega arith))
    ∙ ap (value 0) e
    ∙ value-decimal_fuel (suc n) n (omega arith)

abbrev pub is_digit : ℕ → Bool
is_digit c = leb b'0' c && leb c b'9'

abbrev pub IsDigit : ℕ → Type 0
IsDigit c = is_digit c ≡ true

decimal_fuel-IsDigit : (f n : ℕ) → All IsDigit (decimal_fuel f n)
unfolding decimal_fuel
decimal_fuel-IsDigit zero n = tt
decimal_fuel-IsDigit (suc f) n = elim (Bool-cases (ltb n 10)) [
  | inl small ↦ rw small (ground (arith, small), tt)
  | inr large ↦ rw large (
      All-append IsDigit (decimal_fuel f (n / 10)) _ (decimal_fuel-IsDigit f (n / 10))
        (ground arith, tt))
]

pub decimal-IsDigit : (n : ℕ) → All IsDigit (decimal n)
unfolding decimal
decimal-IsDigit n = decimal_fuel-IsDigit (suc n) n

zeros-IsDigit : (n : ℕ) → All IsDigit (zeros n)
zeros-IsDigit zero = tt
zeros-IsDigit (suc n) = (refl, zeros-IsDigit n)

pub pad-IsDigit : (n : ℕ) → All IsDigit (pad n)
unfolding pad
pad-IsDigit n = All-append IsDigit (zeros _) (decimal n) (zeros-IsDigit _) (decimal-IsDigit n)

-- A number of at most two digits is padded to two.
pub pad_two : (n : ℕ) → n < 100 → pad n ≡ (48 + n / 10) ∷ (48 + n % 10) ∷ []
unfolding pad decimal decimal_fuel
pad_two n h = elim (Bool-cases (ltb n 10)) [
  | inl small ↦ rw small (
      let e : 48 ≡ 48 + n / 10 = ground (arith, small) in
      let k : 48 + n ≡ 48 + n % 10 = ground (arith, small) in cc)
  | inr large ↦
      let e : decimal_fuel n (n / 10) ≡ decimal_fuel 10 (n / 10) =
        decimal_fuel_enough n 10 (n / 10) (ground (arith, large)) (omega arith) in
      let lt : ltb (n / 10) 10 ≡ true = ground arith in
      let s : decimal_fuel 10 (n / 10) ≡ (48 + n / 10) ∷ [] = rw lt in rw (large, e, s)
]
