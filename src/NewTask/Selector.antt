-- ===== src/NewTask/Selector.antt =====
-- The selector of the model (apps/web/src/components/model-selector.tsx): the preview with its
-- slider and its bars, and the fade under a list that goes on. Heights are whole pixels.
pub mod Slider
use lgtm.Prelude.{
  ℕ, zero, suc, ◌+◌, Bool, true, false, Option, none, some, List, [], ◌∷◌, Text, text, text_eq,
  get_elem?, ltb,
}
use lgtm.Types.{ReasoningEffort, low, medium, high}
use lgtm.NewTask.Efforts.{Configurations, lookup}
use lgtm.NewTask.Models.{LlmModel, Provider, anthropic, openai}

-- `REASONING_LEVELS`
abbrev pub reasoning_levels : List ReasoningEffort
reasoning_levels = low ∷ medium ∷ high ∷ []

-- `REASONING_LEVELS.indexOf(effort)`
abbrev pub effort_index : ReasoningEffort → ℕ
effort_index low = 0
effort_index medium = 1
effort_index high = 2

abbrev told : Text → Option ReasoningEffort → Option (Text × ReasoningEffort)
told value none = none
told value (some level) = some (value, level)

-- `handleReasoningChange`: what the owner is told when the slider comes to a place
unfoldable pub handle_reasoning_change : LlmModel → ℕ → Option (Text × ReasoningEffort)
handle_reasoning_change model place = told model.value (get_elem? reasoning_levels place)

-- `configurations[model.value] ?? "medium"`
abbrev or_default : Option ReasoningEffort → ReasoningEffort
or_default none = medium
or_default (some effort) = effort

unfoldable pub shown_effort : Configurations → LlmModel → ReasoningEffort
shown_effort configurations model = or_default (lookup model.value configurations)

abbrev pub bar_segments : ℕ
bar_segments = 10

-- `BAR_SEGMENTS.map((segment, index) => index < value)`, with that many segments left
unfoldable pub segments_from : ℕ → ℕ → ℕ → List Bool
segments_from index zero value = []
segments_from index (suc left) value = ltb index value ∷ segments_from (suc index) left value

-- the segments of a bar, and whether each is filled
unfoldable pub metric_bar : ℕ → List Bool
unfolding segments_from
metric_bar value = segments_from 0 bar_segments value

-- `metricSegmentClass`
abbrev pub metric_segment_class : Provider → Bool → Text
metric_segment_class provider false = text "bg-foreground/10"
metric_segment_class anthropic true = text "bg-[#D97757]"
metric_segment_class openai true = text "bg-[#10A37F]"

abbrev pub is_same_model : LlmModel → LlmModel → Bool
is_same_model item value = text_eq item.value value.value

-- the list as it is laid out; `none` while it is not there
pub record Scroll : Type 0 where
  pub scroll_height : ℕ
  pub scroll_top : ℕ
  pub client_height : ℕ

pub record Selector : Type 0 where
  pub show_fade : Bool
  -- the model whose preview is open
  pub preview : Option LlmModel
  -- the callbacks of `updateFade` that wait for a frame
  pub frames : ℕ

abbrev fades : Option Scroll → Bool
fades none = false
fades (some l) = ltb (l.client_height + l.scroll_top + 4) l.scroll_height

unfoldable pub update_fade : Option Scroll → Selector → Selector
update_fade list s = record s { show_fade = fades list }

pub data SelectorEvent : Type 0 where
  open_changed : Bool → SelectorEvent
  -- the search is typed in, or takes the focus
  input_changed focused : SelectorEvent
  hovered : LlmModel → SelectorEvent
  scrolled framed : Option Scroll → SelectorEvent

unfoldable pub step : SelectorEvent → Selector → Selector
unfolding update_fade
step (open_changed true) s = record s { frames = suc s.frames }
step (open_changed false) s = record s { preview = none }
step input_changed s = record s { preview = none; frames = suc s.frames }
step focused s = record s { preview = none }
step (hovered model) s = record s { preview = some model }
step (scrolled list) s = update_fade list s
step (framed list) s = elim s.frames [
  | zero ↦ s
  | suc n ↦ update_fade list (record s { frames = n })
]
