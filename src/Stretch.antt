-- ===== src/Stretch.antt =====
-- apps/web/src/lib/lgtm/debug.ts: the debugging aid that replaces every text on the page by filler
-- and keeps doing so as React renders. A text node is its place in the list of those that ever
-- stood under the root, with its entry of the map `own`; the observer's records wait until they
-- are delivered. What `Math.random` gives is an argument.
pub mod Covers
pub mod Settles
pub mod Filler
mod Tests
use lgtm.Prelude.{
  ℕ, zero, suc, ◌+◌, Bool, true, false, ◌||◌, Option, none, some, List, [], ◌∷◌, ◌++◌, Text,
  text_eq, trim, is_empty, length, if◌then◌else◌,
}

pub record TextNode : Type 0 where
  pub value : Text
  -- whether it stands in a script, a style or an editor
  pub exempt : Bool
  -- `own.get(text)`
  pub own : Option Text

abbrev pub owns : Option Text → Text → Bool
owns none value = false
owns (some filler) value = text_eq filler value

-- whether `replace` returns early
unfoldable pub settled : TextNode → Bool
settled node = is_empty (trim node.value) || owns node.own node.value || node.exempt

abbrev pub filled : Text → TextNode → TextNode
filled next node = record node { value = next; own = some next }

-- `replace` of the node at a place, when the filler is `next`
unfoldable pub fill_at : ℕ → Text → List TextNode → List TextNode
unfolding settled
fill_at i next [] = []
fill_at zero next (node ∷ nodes) = (if settled node then node else filled next node) ∷ nodes
fill_at (suc i) next (node ∷ nodes) = node ∷ fill_at i next nodes

-- whether `replace` would return early for the node at a place, or there is none
unfoldable pub settled_at : ℕ → List TextNode → Bool
unfolding settled
settled_at i [] = true
settled_at zero (node ∷ nodes) = settled node
settled_at (suc i) (node ∷ nodes) = settled_at i nodes

pub data MutationRecord : Type 0 where
  character_data : ℕ → MutationRecord
  -- the text nodes under the nodes that were added
  child_list : List ℕ → MutationRecord

pub record Page : Type 0 where
  pub nodes : List TextNode
  pub observed : Bool
  pub records : List MutationRecord
  -- how many fillers were made
  pub drawn : ℕ

abbrev pub noted : Bool → MutationRecord → List MutationRecord → List MutationRecord
noted observed r records = if observed then records ++ r ∷ [] else records

-- the text nodes that a callback of the observer goes through
abbrev pub targets : List MutationRecord → List ℕ
targets [] = []
targets (character_data i ∷ rs) = i ∷ targets rs
targets (child_list is ∷ rs) = is ++ targets rs

-- the n-th result of `filler()`
module _ (fill : ℕ → Text) where
  unfoldable pub replace : ℕ → Page → Page
  unfolding fill_at settled_at
  replace i s = if settled_at i s.nodes then s else record s {
    nodes = fill_at i (fill s.drawn) s.nodes;
    records = noted s.observed (character_data i) s.records;
    drawn = suc s.drawn;
  }

  -- `stretch` of the text nodes under a node
  unfoldable pub stretch : List ℕ → Page → Page
  unfolding replace
  stretch [] s = s
  stretch (i ∷ is) s = stretch is (replace i s)

  -- the callback of the observer
  unfoldable pub deliver : Page → Page
  unfolding stretch
  deliver s = stretch (targets s.records) (record s { records = [] })

abbrev pub count_from : ℕ → List TextNode → List ℕ
count_from i [] = []
count_from i (_ ∷ nodes) = i ∷ count_from (suc i) nodes

-- `stretchDom`, which observes the page only once it has replaced its texts
unfoldable pub stretch_dom : (ℕ → Text) → List TextNode → Page
unfolding stretch
stretch_dom fill nodes =
    let page : Page = record { nodes = nodes; observed = false; records = []; drawn = 0 } in
    record (stretch fill (count_from 0 nodes) page) { observed = true }

-- what React writes: a text, and new nodes
abbrev pub put_at : ℕ → Text → List TextNode → List TextNode
put_at i value [] = []
put_at zero value (node ∷ nodes) = record node { value = value } ∷ nodes
put_at (suc i) value (node ∷ nodes) = node ∷ put_at i value nodes

pub data StretchEvent : Type 0 where
  rendered_text : ℕ → Text → StretchEvent
  rendered_nodes : List TextNode → StretchEvent
  delivered : StretchEvent
  disconnected : StretchEvent

unfoldable pub step : (ℕ → Text) → StretchEvent → Page → Page
unfolding deliver
step fill (rendered_text i value) s = record s {
  nodes = put_at i value s.nodes;
  records = noted s.observed (character_data i) s.records;
}
step fill (rendered_nodes added) s = record s {
  nodes = s.nodes ++ added;
  records = noted s.observed (child_list (count_from (length s.nodes) added)) s.records;
}
step fill delivered s = if s.observed then deliver fill s else s
step fill disconnected s = record s { observed = false; records = [] }

unfoldable pub run : (ℕ → Text) → List StretchEvent → Page → Page
unfolding step
run fill [] s = s
run fill (e ∷ es) s = run fill es (step fill e s)
