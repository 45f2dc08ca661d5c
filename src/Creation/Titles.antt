-- ===== src/Creation/Titles.antt =====
-- The titles of new scratchpads (apps/web/src/routes/scratchpads.tsx) in the order of texts.
use lgtm.Prelude.{
  ℕ, ◌+◌, ◌<◌, ◌≡◌, refl, Bool, true, false, [], ◌∷◌, ◌++◌, append_assoc, Text, text, ltb, ◌==◌,
  if◌then◌else◌, arith,
}
use lgtm.Creation.{Moment, pad, default_title}
use lgtm.Creation.Digits.{pad_two}

-- `a < b` for texts: by their first different code units
unfoldable pub text_lt : Text → Text → Bool
text_lt _ [] = false
text_lt [] (_ ∷ _) = true
text_lt (a ∷ s) (b ∷ t) = let rest = text_lt s t in if a == b then rest else ltb a b

-- whether one moment of a year is before another one of it
abbrev pub earlier : Moment → Moment → Bool
earlier a b =
    if a.month == b.month
    then (if a.date == b.date
        then (if a.hours == b.hours then ltb a.minutes b.minutes else ltb a.hours b.hours)
        else ltb a.date b.date)
    else ltb a.month b.month

-- what the getters of a `Date` return
pub record IsMoment (now : Moment) : Type 0 where
  pub month_in_year : now.month < 12
  pub date_in_month : now.date < 32
  pub hours_in_day : now.hours < 24
  pub minutes_in_hour : now.minutes < 60

pair_lt :
    (m n : ℕ) (s t : Text)
    → m < 100
    → n < 100
    → text_lt (pad m ++ s) (pad n ++ t) ≡ (if m == n then text_lt s t else ltb m n)
pair_lt m n s t h k = rw (pad_two m h, pad_two n k) (unfold text_lt in ground (arith, h, k))

same_lt : (c : ℕ) (s t : Text) → text_lt (c ∷ s) (c ∷ t) ≡ text_lt s t
unfolding text_lt
same_lt c s t = ground arith

not_lt_self : (s : Text) → text_lt s s ≡ false
unfolding text_lt
not_lt_self [] = refl
not_lt_self (c ∷ s) = ground (arith, not_lt_self s)

dash_lt : (s t : Text) → text_lt (text "-" ++ s) (text "-" ++ t) ≡ text_lt s t
unfolding text
dash_lt s t = same_lt b'-' s t

-- Of two scratchpads made in one year, the title of one is before the title of the other in the
-- order of texts exactly if its minute is before the other's.
pub default_title-order :
    (a b : Moment)
    → IsMoment a
    → IsMoment b
    → text_lt (default_title a) (default_title b) ≡ earlier a b
unfolding default_title
default_title-order a b h k =
    let end = text " Scratchpad" in
    let by_minutes : text_lt (pad a.minutes ++ end) (pad b.minutes ++ end)
        ≡ (if a.minutes == b.minutes then text_lt end end else ltb a.minutes b.minutes) =
      pair_lt a.minutes b.minutes end end (omega arith) (omega arith) in
    let by_hours : (s t : Text)
        → text_lt (pad a.hours ++ s) (pad b.hours ++ t)
          ≡ (if a.hours == b.hours then text_lt s t else ltb a.hours b.hours) =
      λ s t. pair_lt a.hours b.hours s t (omega arith) (omega arith) in
    let by_date : (s t : Text)
        → text_lt (pad a.date ++ s) (pad b.date ++ t)
          ≡ (if a.date == b.date then text_lt s t else ltb a.date b.date) =
      λ s t. pair_lt a.date b.date s t (omega arith) (omega arith) in
    let by_month : (s t : Text)
        → text_lt (pad (a.month + 1) ++ s) (pad (b.month + 1) ++ t)
          ≡ (if a.month + 1 == b.month + 1 then text_lt s t else ltb (a.month + 1) (b.month + 1)) =
      λ s t. pair_lt (a.month + 1) (b.month + 1) s t (omega arith) (omega arith) in
    simp (append_assoc, dash_lt, by_month, by_date, by_hours, by_minutes, not_lt_self)
      (ground arith)
