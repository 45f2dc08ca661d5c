-- ===== src/Editor.antt =====
-- apps/web/src/components/markdown-editor.tsx: the debounced editor and the list of headings that
-- it reports. The refs of the component are a record. Tiptap gives the markdown text and the
-- heading nodes of the document at every update; both come in with the event.
pub mod Laws
pub mod Outline
mod Tests
use lgtm.Prelude.{
  ℕ, Bool, true, false, Option, none, some, List, [], ◌∷◌, ◌++◌, map, length, Text, text, text_eq,
  decimal, join, if◌then◌else◌,
}

pub record EditorHeading : Type 0 where
  pub index : ℕ
  pub level : ℕ
  pub content : Text

-- a heading node of the ProseMirror document: its level and its text
pub record HeadingNode : Type 0 where
  pub level : ℕ
  pub content : Text

pub record Editor : Type 0 where
  -- whether the debounce timer is running
  pub timer : Bool
  pub pending : Text
  pub emitted : Text
  pub heading_sig : Option Text

-- what the callbacks of the editor's owner receive
pub data Output : Type 0 where
  on_markdown : Text → Output
  on_headings : List EditorHeading → Output

pub data Event : Type 0 where
  create : List HeadingNode → Event
  update : Text → List HeadingNode → Event
  blur timeout unmount : Event

unfoldable pub mount : Text → Editor
mount value = record { timer = false; pending = value; emitted = value; heading_sig = none }

unfoldable pub flush : Editor → Editor × List Output
flush s =
    if text_eq s.pending s.emitted
    then (record s { timer = false }, [])
    else (record s { timer = false; emitted = s.pending }, on_markdown s.pending ∷ [])

-- the loop of `readHeadings`: a heading's index is the number of headings in front of it
unfoldable pub read_headings_from : List EditorHeading → List HeadingNode → List EditorHeading
read_headings_from headings [] = headings
read_headings_from headings (node ∷ nodes) =
    read_headings_from
      (headings
        ++ record { index = length headings; level = node.level; content = node.content } ∷ [])
      nodes

unfoldable pub read_headings : List HeadingNode → List EditorHeading
unfolding read_headings_from
read_headings nodes = read_headings_from [] nodes

unfoldable pub signature : List EditorHeading → Text
signature headings = join (text "\n") (map (λ h. decimal h.level ++ text ":" ++ h.content) headings)

-- `sig === headingSig.current`, where the ref may hold null
abbrev pub is_current : Option Text → Text → Bool
is_current none sig = false
is_current (some old) sig = text_eq sig old

-- for an owner that listens to headings
unfoldable pub sync_headings : List HeadingNode → Editor → Editor × List Output
sync_headings nodes s =
    let headings = read_headings nodes in
    let sig = signature headings in
    if is_current s.heading_sig sig
    then (s, [])
    else (record s { heading_sig = some sig }, on_headings headings ∷ [])

unfoldable pub on_update : Text → List HeadingNode → Editor → Editor × List Output
unfolding sync_headings
on_update content nodes s =
    let (s', out) = sync_headings nodes (record s { pending = content }) in
    (record s' { timer = true }, out)

-- the timer's callback runs only while the timer does
unfoldable pub on_timeout : Editor → Editor × List Output
unfolding flush
on_timeout s = if s.timer then flush s else (s, [])

unfoldable pub step : Event → Editor → Editor × List Output
unfolding sync_headings on_update flush on_timeout
step (create nodes) s = sync_headings nodes s
step (update content nodes) s = on_update content nodes s
step blur s = flush s
step timeout s = on_timeout s
step unmount s = flush s

unfoldable pub run : List Event → Editor → Editor × List Output
run [] s = (s, [])
run (e ∷ es) s = let (s', out) = step e s in let (s'', later) = run es s' in (s'', out ++ later)
