-- ===== src/Stretch/Tests.antt =====
-- A page that is stretched (apps/web/src/lib/lgtm/debug.ts).
use lgtm.Prelude.{ℕ, ◌≡◌, refl, true, false, none, List, [], ◌∷◌, Text, text}
use lgtm.Stretch.{
  TextNode, settled, settled_at, fill_at, replace, stretch, deliver, stretch_dom, StretchEvent,
  rendered_text, rendered_nodes, step, run,
}
use lgtm.Stretch.Covers.{stretched}

abbrev node_of : Text → TextNode
node_of value = record { value = value; exempt = false; own = none }

abbrev labels : List TextNode
labels = node_of (text "Tasks") ∷ node_of (text "Todos") ∷ []

-- React writes a label anew and adds one
abbrev renders : List StretchEvent
renders = rendered_text 0 (text "Runs") ∷ rendered_nodes (node_of (text "New") ∷ []) ∷ []

abbrev fill : ℕ → Text
fill n = text "filler"

still-observed : (run fill renders (stretch_dom fill labels)).observed ≡ true
unfolding run step stretch_dom stretch replace fill_at settled_at settled
still-observed = refl

stretched_example :
    let s = deliver fill (run fill renders (stretch_dom fill labels)) in
    ((j : ℕ) → settled_at j s.nodes ≡ true) × (deliver fill s ≡ record s { records = [] })
stretched_example = stretched fill labels renders still-observed
