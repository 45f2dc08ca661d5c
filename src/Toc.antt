-- ===== src/Toc.antt =====
-- apps/web/src/components/editor-toc.tsx: the outline beside a document. Lengths and coordinates are
-- what the browser measures: a type that the definitions take, with the comparisons and the sums
-- that the code makes.
pub mod Depths
pub mod Visible
pub mod Path
pub mod Lit
pub mod Scroller
pub mod Drawing
mod Tests
use lgtm.Prelude.{
  ℕ, zero, suc, ◌-◌, ◌+◌, Bool, ◌&&◌, Option, none, some, List, [], ◌∷◌, ◌++◌, map, length,
  get_elem?, max, min, leb, ◌==◌, if◌then◌else◌,
}
use lgtm.Editor.{EditorHeading}

-- where the line runs for each depth
abbrev pub line_x : List ℕ
line_x = 1 ∷ 13 ∷ 25 ∷ []

-- `Math.min(...levels)` of the levels behind the first
abbrev pub least : ℕ → List EditorHeading → ℕ
least m [] = m
least m (h ∷ headings) = least (min m h.level) headings

-- an empty list has no shallowest heading, and nothing is then made of it
unfoldable pub shallowest : List EditorHeading → ℕ
shallowest [] = 0
shallowest (h ∷ headings) = least h.level headings

-- no level is less than the shallowest
unfoldable pub depths : List EditorHeading → List ℕ
unfolding shallowest
depths headings =
    map (λ (h : EditorHeading). min (h.level - shallowest headings) (length line_x - 1)) headings

pub record Range : Type 0 where
  pub first : ℕ
  pub last : ℕ

-- `update` of `useVisibleHeadings`: `le` and `lt` compare a top with the reading line and with the
-- bottom edge
module _ {C : Type 0} (le lt : C → C → Bool) where
  -- the loop over the headings, from the one at `i` on
  unfoldable pub measure : C → C → ℕ → Range → List C → Range
  measure line bottom i r [] = r
  measure line bottom i r (top ∷ tops) =
      measure line bottom (suc i)
        (record {
          first = if le top line then i else r.first;
          last = if lt top bottom then i else r.last;
        })
        tops

  unfoldable pub update : C → C → List C → Range → Range
  unfolding measure
  update line bottom tops current =
      let r = measure line bottom 0 (record { first = 0; last = 0 }) tops in
      if current.first == r.first && current.last == r.last
      then current
      else record { first = r.first; last = max r.first r.last }

-- whether the row of a heading is lit
abbrev pub is_active : Range → ℕ → Bool
is_active visible i = leb visible.first i && leb i visible.last

pub record Segment (C : Type 0) : Type 0 where
  pub bottom : C
  pub top : C
  pub x : C

-- the arithmetic of coordinates: (a + b) / 2, a + n, a - n and a === b
pub record Plane (C : Type 0) : Type 0 where
  pub halfway : C → C → C
  pub after : C → ℕ → C
  pub before : C → ℕ → C
  pub same : C → C → Bool

-- the commands of a path: M, C and L
pub data Command (C : Type 0) : Type 0 where
  move line : C → C → Command C
  curve : C → C → C → C → C → C → Command C

abbrev pub half_bend : ℕ
half_bend = 5

abbrev pub dot : ℕ
dot = 2

module _ {C : Type 0} (plane : Plane C) where
  abbrev pub middle : Segment C → C
  middle s = plane.halfway s.top s.bottom

  -- how the line comes to a row from the one before it
  unfoldable pub arrival : Option (Segment C) → Segment C → List (Command C)
  arrival none s = move s.x (plane.after (middle s) dot) ∷ []
  arrival (some p) s =
      if plane.same p.x s.x
      then []
      else curve p.x s.top s.x s.top s.x (plane.after s.top half_bend) ∷ []

  -- where the line leaves a row, given the rows behind it
  unfoldable pub end_of : Segment C → List (Segment C) → C
  end_of s [] = plane.before (middle s) dot
  end_of s (next ∷ _) = if plane.same next.x s.x then s.bottom else plane.before s.bottom half_bend

  -- the loop over the first rows, behind the row before them
  unfoldable pub path_from : Option (Segment C) → List (Segment C) → ℕ → List (Command C)
  unfolding arrival end_of
  path_from previous [] count = []
  path_from previous (s ∷ rest) zero = []
  path_from previous (s ∷ rest) (suc count) =
      arrival previous s ++ line s.x (end_of s rest) ∷ path_from (some s) rest count

  unfoldable pub line_path : List (Segment C) → ℕ → List (Command C)
  unfolding path_from
  line_path segments count = path_from none segments count

abbrev or_zero : Option ℕ → ℕ
or_zero none = 0
or_zero (some n) = n

-- the stretch of the line that is lit: where it begins, and where it ends; `ends` has how far along
-- the line each row ends, in any unit, for at least one row
unfoldable pub lit_from : List ℕ → Range → ℕ
lit_from ends visible =
    let first = min visible.first (length ends - 1) in
    if first == 0 then 0 else or_zero (get_elem? ends (first - 1))

unfoldable pub lit_to : List ℕ → Range → ℕ
lit_to ends visible = or_zero (get_elem? ends (min visible.last (length ends - 1)))
