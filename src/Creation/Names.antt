-- ===== src/Creation/Names.antt =====
-- The loop of `freeName` (apps/web/src/routes/skills.tsx) ends: its names differ from one another,
-- so the names that are taken cannot be all of them.
use mathlib.Core.List.{append_cancel_left}
use lgtm.Prelude.{
  ℕ, zero, suc, ◌+◌, ◌<◌, ◌≤◌, ◌≡◌, ◌≢◌, refl, sym, ap, ◌∙◌, true, false, Option, some, List, [],
  ◌∷◌, ◌++◌, Text, text_eq, text_eq_iff, decimal, length, length-append, if◌then◌else◌, Bool-cases,
  inl, inr, arith,
}
use lgtm.Types.{Skill}
use lgtm.Creation.{Moment, has, taken_names, base_name, numbered, free_from, free_name}
use lgtm.Creation.Digits.{decimal_injective}

-- the names in the order in which they are tried
abbrev pub candidate : Text → ℕ → Text
candidate base zero = base
candidate base (suc k) = numbered base (k + 2)

suffix_ne_nil : (base s : Text) (c : ℕ) → base ≢ base ++ c ∷ s
suffix_ne_nil base s c e =
    let l : length base ≡ length (base ++ c ∷ s) = ap length e in
    omega (arith, length-append base (c ∷ s))

cons_injective : (a : ℕ) (s t : Text) → a ∷ s ≡ a ∷ t → s ≡ t
cons_injective a s t e = ground arith

numbered_injective : (base : Text) (m n : ℕ) → numbered base m ≡ numbered base n → m ≡ n
unfolding numbered
numbered_injective base m n e =
    decimal_injective m n
      (cons_injective b'-' (decimal m) (decimal n) (append_cancel_left base _ _ e))

candidate_lt : (base : Text) (j k : ℕ) → j < k → candidate base j ≢ candidate base k
candidate_lt base j zero h e = elim h [ ]
candidate_lt base zero (suc k) h e = unfold numbered in suffix_ne_nil base _ _ e
candidate_lt base (suc j) (suc k) h e =
    let same : j + 2 ≡ k + 2 = numbered_injective base (j + 2) (k + 2) e in absurd (omega arith)

-- the names taken without one of them
abbrev without : Text → List Text → List Text
without x [] = []
without x (t ∷ taken) = let rest = without x taken in if text_eq t x then rest else t ∷ rest

has-without : (x y : Text) (taken : List Text) → x ≢ y → has (without x taken) y ≡ has taken y
unfolding has
has-without x y [] ne = refl
has-without x y (t ∷ taken) ne =
    ground (arith, has-without x y taken ne, text_eq_iff t x, text_eq_iff t y, ne)

length-without_le : (x : Text) (taken : List Text) → length (without x taken) ≤ length taken
length-without_le x [] = omega arith
length-without_le x (t ∷ taken) = ground (arith, length-without_le x taken)

length-without :
    (x : Text) (taken : List Text) → has taken x ≡ true → length (without x taken) < length taken
unfolding has
length-without x [] h = cc
length-without x (t ∷ taken) h = ground (arith, length-without x taken, length-without_le x taken)

-- the loop, by the number of the name that it tries
abbrev tries : ℕ → Text → List Text → ℕ → Option Text
tries f base taken k = free_from f base taken (k + 2) (candidate base k)

tries-suc :
    (f : ℕ) (base : Text) (taken : List Text) (k : ℕ)
    → tries (suc f) base taken k ≡ (
        if has taken (candidate base k)
        then tries f base taken (suc k)
        else some (candidate base k))
unfolding free_from
tries-suc f base taken k =
    let e : k + 2 + 1 ≡ suc k + 2 = omega arith in
    ap
      (λ n.
        if has taken (candidate base k)
        then free_from f base taken n (candidate base (suc k))
        else some (candidate base k))
      e

tries-without :
    (f : ℕ) (base x : Text) (taken : List Text) (k : ℕ)
    → ((j : ℕ) → k ≤ j → x ≢ candidate base j)
    → tries f base (without x taken) k ≡ tries f base taken k
tries-without zero base x taken k older = unfold free_from in refl
tries-without (suc f) base x taken k older =
    let ih = tries-without f base x taken (suc k) (λ j h. older j (omega arith)) in
    tries-suc f base (without x taken) k
    ∙ rw (has-without x (candidate base k) taken (older k (omega arith)), ih) refl
    ∙ sym (tries-suc f base taken k)

-- a name that is not taken, among the names that are tried
abbrev pub IsFree : Text → List Text → Text → Type 0
IsFree base taken name = (has taken name ≡ false) × ((k : ℕ) × (name ≡ candidate base k))

tries_total :
    (f : ℕ) (base : Text) (taken : List Text) (k : ℕ)
    → length taken < f
    → (name : Text) × (tries f base taken k ≡ some name)
tries_total zero base taken k h = elim h [ ]
tries_total (suc f) base taken k h =
    let x = candidate base k in
    elim (Bool-cases (has taken x)) [
      | inr free ↦ (x, tries-suc f base taken k ∙ rw free refl)
      | inl held ↦
          let fewer : length (without x taken) < f = omega (arith, length-without x taken held) in
          let (name, found) = tries_total f base (without x taken) (suc k) fewer in
          (
            name,
            tries-suc f base taken k
                ∙ rw held (
                    sym (
                      tries-without f base x taken (suc k)
                        (λ j le. candidate_lt base k j (omega arith)))
                    ∙ found),
          )
    ]

tries-IsFree :
    (f : ℕ) (base : Text) (taken : List Text) (k : ℕ) (name : Text)
    → tries f base taken k ≡ some name
    → IsFree base taken name
tries-IsFree zero base taken k name e = unfold free_from in cc
tries-IsFree (suc f) base taken k name e = elim (Bool-cases (has taken (candidate base k))) [
  | inl held ↦
      let e' : tries f base taken (suc k) ≡ some name =
        ground (arith, tries-suc f base taken k, held, e) in
      tries-IsFree f base taken (suc k) name e'
  | inr free ↦
      let same : candidate base k ≡ name = ground (arith, tries-suc f base taken k, free, e) in
      (ap (has taken) (sym same) ∙ free, (k, sym same))
]

-- Whatever skills there are and whenever it is asked, the loop over the names ends with a name:
-- one that no skill for every repository has, and that is the name of the minute, alone or with a
-- counter from 2 on behind it.
pub free_name_total :
    (skills : List Skill) (now : Moment)
    → (name : Text) × (free_name skills now ≡ some name)
      × IsFree (base_name now) (taken_names skills) name
unfolding free_name
free_name_total skills now =
    let taken = taken_names skills in
    let base = base_name now in
    let (name, found) = tries_total (suc (length taken)) base taken 0 (omega arith) in
    (name, found, tries-IsFree (suc (length taken)) base taken 0 name found)
