-- ===== src/Transcript/Items.antt =====
-- apps/web/src/components/task-transcript.tsx: the rows of the transcript, before and after tool
-- work is grouped.
use lgtm.Prelude.{ℕ, Bool, true, false, Option, List, Text}

pub data Tone : Type 0 where
  muted good warn bad : Tone

pub data Tool : Type 0 where
  command file : Tool

-- the two glyphs and the two bodies that a tool row can have
pub data Icon : Type 0 where
  terminal_icon code_icon : Icon

pub data Body : Type 0 where
  span file_path : Text → Body

pub record ToolItem : Type 0 where
  pub at : ℕ
  pub tool : Tool
  pub icon : Icon
  pub body : Body
  pub lines : List Text

pub data Item : Type 0 where
  user : ℕ → Option Text → Text → Item
  agent : ℕ → Text → Item
  tool : ToolItem → Item
  output : ℕ → List Text → Item
  permission : ℕ → Text → Text → Item
  -- time, text, tone, and whether it is a run boundary
  marker_row : ℕ → Text → Tone → Bool → Item

pub data Grouped : Type 0 where
  single : Item → Grouped
  activity : ℕ → List ToolItem → Grouped

unfoldable pub marker : ℕ → Text → Tone → Item
marker at content tone = marker_row at content tone false

unfoldable pub boundary : ℕ → Text → Tone → Item
boundary at content tone = marker_row at content tone true
