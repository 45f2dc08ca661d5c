-- ===== src/Toc/Drawing.antt =====
-- The line that the outline draws beside its rows (apps/web/src/components/editor-toc.tsx): the
-- dash, and the dots at its ends. Lengths along the line are whole numbers of some unit.
use lgtm.Prelude.{
  ℕ, zero, suc, ◌+◌, ◌-◌, ◌≤◌, ◌≡◌, ◌≢◌, refl, Bool, Option, none, some, List, [], ◌∷◌, Text,
  length, get_elem?, last_or, min, ◌==◌, if◌then◌else◌, arith,
}
use lgtm.Editor.{EditorHeading}
use lgtm.Toc.{
  line_x, depths, Range, is_active, Segment, lit_from, lit_to, Plane, Command, line_path,
}

abbrev text_gap : ℕ
text_gap = 12

abbrev line_width : ℕ
line_width = last_or 0 line_x + 3

-- a row of the outline
pub record TocRow : Type 0 where
  pub label : Text
  -- `aria-current`
  pub active : Bool
  pub padding_left : ℕ

abbrev or_origin : Option ℕ → ℕ
or_origin none = 0
or_origin (some x) = x

abbrev rows_from : Range → ℕ → List EditorHeading → List ℕ → List TocRow
rows_from visible i (heading ∷ headings) (depth ∷ ds) =
    record {
      label = heading.content;
      active = is_active visible i;
      padding_left = or_origin (get_elem? line_x depth) + text_gap;
    }
    ∷ rows_from visible (suc i) headings ds
rows_from visible i _ _ = []

unfoldable pub rows : Range → List EditorHeading → List TocRow
unfolding depths
rows visible headings = rows_from visible 0 headings (depths headings)

-- the layout effect: the rows as they were laid out, top and bottom, each with the depth of its
-- heading
unfoldable pub segments_of : List (ℕ × ℕ) → List ℕ → List (Segment ℕ)
segments_of ((top, height) ∷ boxes) (depth ∷ ds) =
    record { bottom = top + height; top = top; x = or_origin (get_elem? line_x depth) }
    ∷ segments_of boxes ds
segments_of _ _ = []

-- `rowEnds`: the lengths of the paths through the first rows
unfoldable pub row_ends : Plane ℕ → (List (Command ℕ) → ℕ) → List (Segment ℕ) → ℕ → List ℕ
unfolding line_path
row_ends plane total_length segments zero = []
row_ends plane total_length segments (suc left) =
    total_length (line_path plane segments (length segments - left))
    ∷ row_ends plane total_length segments left

pub record Drawing : Type 0 where
  -- the dash, the line that is left, and where the dash begins
  pub dash : ℕ
  pub total : ℕ
  pub offset : ℕ
  -- whether the dots at the two ends are lit
  pub first_lit : Bool
  pub last_lit : Bool

-- what is drawn, where the rows and their ends have both been measured
unfoldable pub drawing : List (Segment ℕ) → List ℕ → Range → Option Drawing
unfolding lit_from lit_to
drawing [] ends visible = none
drawing (s ∷ segments) ends visible =
    let n = length segments in
    if length ends == suc n
    then some (record {
      dash = lit_to ends visible - lit_from ends visible;
      total = last_or 0 ends;
      offset = lit_from ends visible;
      first_lit = min visible.first n == 0;
      last_lit = min visible.last n == n;
    })
    else none

-- Where the range is of rows that are there, the first dot is lit exactly when the first row is
-- active, and the last dot exactly when the last row is.
pub dots-is_active :
    (s : Segment ℕ) (segments : List (Segment ℕ)) (ends : List ℕ) (visible : Range) (d : Drawing)
    → visible.first ≤ visible.last
    → visible.last ≤ length segments
    → drawing (s ∷ segments) ends visible ≡ some d
    → (d.first_lit ≡ is_active visible 0) × (d.last_lit ≡ is_active visible (length segments))
unfolding drawing
dots-is_active s segments ends visible d h k e = ground (arith, h, k, e)

length-row_ends :
    (plane : Plane ℕ) (total_length : List (Command ℕ) → ℕ) (segments : List (Segment ℕ)) (n : ℕ)
    → length (row_ends plane total_length segments n) ≡ n
unfolding row_ends
length-row_ends plane total_length segments zero = refl
length-row_ends plane total_length segments (suc n) =
    omega (arith, length-row_ends plane total_length segments n)

-- Once the rows are laid out, the line is drawn as soon as there is a row.
drawing-row_ends :
    (plane : Plane ℕ) (total_length : List (Command ℕ) → ℕ) (s : Segment ℕ)
    (segments : List (Segment ℕ)) (visible : Range)
    → let all = s ∷ segments in
      drawing all (row_ends plane total_length all (length all)) visible ≢ none
unfolding drawing
drawing-row_ends plane total_length s segments visible h =
    let all = s ∷ segments in ground (arith, length-row_ends plane total_length all (length all), h)
