-- ===== src/Transcript/Grouping/Runs.antt =====
-- The rows of `groupActivity` (apps/web/src/components/task-transcript.tsx).
use mathlib.Core.List.{map-append}
use lgtm.Prelude.{
  ◌≤◌, ◌≡◌, refl, sym, ◌∙◌, ap, List, [], ◌∷◌, ◌++◌, map, append_assoc, append-nil, length,
  length-append, Bool, true, false, arith, All,
}
use lgtm.Transcript.Items.{Item, tool, Grouped, single, activity}
use lgtm.Transcript.Grouping.{grouped_with, push_grouped, group_from, group_activity}

-- the items that a row stands for
abbrev pub items_of : Grouped → List Item
items_of (single item) = item ∷ []
items_of (activity at tools) = map tool tools

abbrev pub ungroup : List Grouped → List Item
ungroup [] = []
ungroup (g ∷ gs) = items_of g ++ ungroup gs

abbrev pub is_work : Grouped → Bool
is_work (activity _ _) = true
is_work (single (tool _)) = true
is_work (single _) = false

-- the first of the rows behind `g` is not tool work, if `g` is
abbrev pub Follows : Grouped → List Grouped → Type 0
Follows g [] = Unit
Follows g (h ∷ gs) = is_work g ≡ true → is_work h ≡ false

-- no two neighbours are both tool work
abbrev pub Separated : List Grouped → Type 0
Separated [] = Unit
Separated (g ∷ gs) = Follows g gs × Separated gs

-- an activity stands for two pieces of work at least, and has the time of the first
abbrev pub IsRun : Grouped → Type 0
IsRun (single _) = Unit
IsRun (activity at []) = ⊥
IsRun (activity at (t ∷ ts)) = (at ≡ t.at) × (1 ≤ length ts)

grouped_with-ungroup :
    (last : Grouped) (item : Item) → ungroup (grouped_with last item) ≡ items_of last ++ item ∷ []
unfolding grouped_with
grouped_with-ungroup (activity at tools) (tool t) =
    append-nil (map tool (tools ++ t ∷ [])) ∙ map-append tool tools (t ∷ [])
grouped_with-ungroup (single (tool t₀)) (tool t) = refl
grouped_with-ungroup last item = refl

push_grouped-ungroup :
    (gs : List Grouped) (item : Item) → ungroup (push_grouped gs item) ≡ ungroup gs ++ item ∷ []
unfolding push_grouped
push_grouped-ungroup [] item = refl
push_grouped-ungroup (last ∷ []) item =
    grouped_with-ungroup last item ∙ ap (λ l. l ++ item ∷ []) (sym (append-nil (items_of last)))
push_grouped-ungroup (x ∷ y ∷ rest) item =
    ap (λ l. items_of x ++ l) (push_grouped-ungroup (y ∷ rest) item)
    ∙ sym (append_assoc (items_of x) (ungroup (y ∷ rest)) (item ∷ []))

group_from-ungroup :
    (gs : List Grouped) (items : List Item) → ungroup (group_from gs items) ≡ ungroup gs ++ items
unfolding group_from
group_from-ungroup gs [] = sym (append-nil (ungroup gs))
group_from-ungroup gs (item ∷ items) =
    group_from-ungroup (push_grouped gs item) items
    ∙ ap (λ l. l ++ items) (push_grouped-ungroup gs item)
    ∙ append_assoc (ungroup gs) (item ∷ []) items

-- Listing the rows of the groups gives back the items: grouping drops, repeats and reorders none.
pub ungroup-group_activity : (items : List Item) → ungroup (group_activity items) ≡ items
unfolding group_activity
ungroup-group_activity items = group_from-ungroup [] items

grouped_with-Separated : (last : Grouped) (item : Item) → Separated (grouped_with last item)
unfolding grouped_with
grouped_with-Separated (activity at tools) (tool t) = (tt, tt)
grouped_with-Separated (single (tool t₀)) (tool t) = (tt, tt)
grouped_with-Separated last item = ground arith

grouped_with-Follows :
    (g last : Grouped) (item : Item) → Follows g (last ∷ []) → Follows g (grouped_with last item)
unfolding grouped_with
grouped_with-Follows g (activity at tools) (tool t) f = f
grouped_with-Follows g (single (tool t₀)) (tool t) f = f
grouped_with-Follows g last item f = f

push_grouped-Follows :
    (g y : Grouped) (rest : List Grouped) (item : Item)
    → Follows g (y ∷ rest)
    → Follows g (push_grouped (y ∷ rest) item)
unfolding push_grouped
push_grouped-Follows g y [] item f = grouped_with-Follows g y item f
push_grouped-Follows g y (z ∷ rest) item f = f

push_grouped-Separated :
    (gs : List Grouped) (item : Item) → Separated gs → Separated (push_grouped gs item)
unfolding push_grouped
push_grouped-Separated [] item s = (tt, tt)
push_grouped-Separated (last ∷ []) item s = grouped_with-Separated last item
push_grouped-Separated (x ∷ y ∷ rest) item s =
    (push_grouped-Follows x y rest item s.0, push_grouped-Separated (y ∷ rest) item s.1)

grouped_with-All : (last : Grouped) (item : Item) → IsRun last → All IsRun (grouped_with last item)
unfolding grouped_with
grouped_with-All (activity at (t₀ ∷ ts)) (tool t) h =
    ((h.0, omega (arith, length-append ts (t ∷ []))), tt)
grouped_with-All (activity at []) (tool t) h = absurd h
grouped_with-All (single (tool t₀)) (tool t) h = ((refl, omega arith), tt)
grouped_with-All last item h = (h, (tt, tt))

push_grouped-All :
    (gs : List Grouped) (item : Item) → All IsRun gs → All IsRun (push_grouped gs item)
unfolding push_grouped
push_grouped-All [] item h = (tt, tt)
push_grouped-All (last ∷ []) item h = grouped_with-All last item h.0
push_grouped-All (x ∷ y ∷ rest) item h = (h.0, push_grouped-All (y ∷ rest) item h.1)

group_from-IsGrouped :
    (gs : List Grouped) (items : List Item)
    → Separated gs × All IsRun gs
    → Separated (group_from gs items) × All IsRun (group_from gs items)
unfolding group_from
group_from-IsGrouped gs [] h = h
group_from-IsGrouped gs (item ∷ items) h =
    group_from-IsGrouped (push_grouped gs item) items
      (push_grouped-Separated gs item h.0, push_grouped-All gs item h.1)

-- Of the grouped rows no two neighbours are tool work, and every activity row stands for at least
-- two pieces of work and has the time of the first.
pub group_activity-Separated :
    (items : List Item) → Separated (group_activity items) × All IsRun (group_activity items)
unfolding group_activity
group_activity-Separated items = group_from-IsGrouped [] items (tt, tt)
