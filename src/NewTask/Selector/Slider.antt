-- ===== src/NewTask/Selector/Slider.antt =====
-- The slider and the bars of the model's preview (apps/web/src/components/model-selector.tsx).
use lgtm.Prelude.{
  ℕ, zero, suc, ◌+◌, ◌-◌, ◌<◌, ◌≤◌, ◌≡◌, refl, false, some, List, [], ◌∷◌, get_elem?, min, text_eq,
  text_eq_refl, if◌then◌else◌, Bool, arith,
}
use lgtm.Types.{ReasoningEffort, low, medium, high}
use lgtm.NewTask.Efforts.{Configurations, put}
use lgtm.NewTask.Models.{LlmModel, score}
use lgtm.NewTask.Scores.{score-le}
use lgtm.NewTask.Stored.Roundtrip.{lookup-put}
use lgtm.NewTask.Selector.{
  reasoning_levels, effort_index, handle_reasoning_change, shown_effort, segments_from, metric_bar,
}

-- the slider stands at the place of the effort that is shown
get_elem?-effort_index :
    (effort : ReasoningEffort) → get_elem? reasoning_levels (effort_index effort) ≡ some effort
get_elem?-effort_index low = refl
get_elem?-effort_index medium = refl
get_elem?-effort_index high = refl

-- Moving the slider to the place of an effort tells the page to set it, and once the page has, the
-- preview of that model shows it and stands at that place, and the previews of the models with
-- other values are as they were.
pub slider-shows :
    (configurations : Configurations) (model other : LlmModel) (effort : ReasoningEffort)
    → text_eq model.value other.value ≡ false
    → let next = put model.value effort configurations in
      (handle_reasoning_change model (effort_index effort) ≡ some (model.value, effort))
      × (shown_effort next model ≡ effort)
      × (shown_effort next other ≡ shown_effort configurations other)
unfolding handle_reasoning_change shown_effort
slider-shows configurations model other effort h = (
  rw (get_elem?-effort_index effort) refl,
  rw (lookup-put model.value model.value effort configurations, text_eq_refl model.value) refl,
  rw (lookup-put other.value model.value effort configurations, h) refl,
)

-- how many segments are filled
abbrev pub filled_count : List Bool → ℕ
filled_count [] = 0
filled_count (b ∷ bs) = (if b then 1 else 0) + filled_count bs

filled_count-segments_from :
    (index left value : ℕ)
    → filled_count (segments_from index left value) ≡ min left (value - index)
unfolding segments_from
filled_count-segments_from index zero value = omega arith
filled_count-segments_from index (suc left) value =
    ground (arith, filled_count-segments_from (suc index) left value)

-- As many segments are filled as the score of a value says, when the value is no greater than the
-- greatest.
pub filled_count-metric_bar :
    (value most : ℕ)
    → 0 < most
    → value ≤ most
    → filled_count (metric_bar (score value most)) ≡ score value most
unfolding metric_bar
filled_count-metric_bar value most pos h =
    omega (arith, filled_count-segments_from 0 10 (score value most), score-le value most pos h)
