-- ===== src/NewTask/Restore.antt =====
-- A later visit to the page of apps/web/src/routes/index.tsx.
use lgtm.Prelude.{◌≡◌, ap, ◌∙◌, true, some, List, Text, arith}
use lgtm.Types.{ReasoningEffort, RunnerStatus}
use lgtm.NewTask.{Page, save_preferences, change_model, change_model_configuration, restore}
use lgtm.NewTask.Efforts.{lookup}
use lgtm.NewTask.Models.{LlmModel, models}
use lgtm.NewTask.Stored.{saved}
use lgtm.NewTask.Stored.Roundtrip.{has_value, read_preferences-saved}

-- a page of a later visit
abbrev pub revisited : Page → Page → Page
revisited left fresh = restore (record fresh { stored = left.stored })

-- the efforts and the model that a page shows are those of another
abbrev pub Remembers : Text → Page → Page → Type 0
Remembers v left s =
    (s.model.value ≡ left.model.value) × (lookup v s.configurations ≡ lookup v left.configurations)

stored-Remembers :
    (v : Text) (left fresh : Page)
    → fresh.storage_works ≡ true
    → left.stored ≡ some (saved left.model.value left.configurations)
    → has_value left.model.value models ≡ true
    → has_value v models ≡ true
    → Remembers v left (revisited left fresh)
unfolding restore
stored-Remembers v left fresh w e h k =
    let (p, read, model, efforts) = read_preferences-saved left.model left.configurations v h k in
    rw (w, e, read) (model, efforts)

change_model-stored :
    (runners : List RunnerStatus) (next : LlmModel) (s : Page)
    → s.storage_works ≡ true
    → let s' = change_model runners next s in
      (s'.model ≡ next) × (s'.stored ≡ some (saved s'.model.value s'.configurations))
unfolding change_model save_preferences
change_model-stored runners next s w = ground (arith, w)

change_model_configuration-stored :
    (key : Text) (effort : ReasoningEffort) (s : Page)
    → s.storage_works ≡ true
    → let s' = change_model_configuration key effort s in
      (s'.model ≡ s.model) × (s'.stored ≡ some (saved s'.model.value s'.configurations))
unfolding change_model_configuration save_preferences
change_model_configuration-stored key effort s w = ground (arith, w)

-- Where `localStorage` can be used, now and on a later visit: after a model of the list has been
-- picked, or an effort set while one is shown, the later visit shows that model, and for every
-- model of the list the effort that was set, if any.
pub revisited-Remembers :
    (runners : List RunnerStatus) (next : LlmModel) (key v : Text) (effort : ReasoningEffort)
    (s fresh : Page)
    → s.storage_works ≡ true
    → fresh.storage_works ≡ true
    → has_value next.value models ≡ true
    → has_value s.model.value models ≡ true
    → has_value v models ≡ true
    → let picked = change_model runners next s in
      let set = change_model_configuration key effort s in
      Remembers v picked (revisited picked fresh) × Remembers v set (revisited set fresh)
revisited-Remembers runners next key v effort s fresh works still h h' k =
    let picked = change_model runners next s in
    let set = change_model_configuration key effort s in
    let (model, e) = change_model-stored runners next s works in
    let (model', e') = change_model_configuration-stored key effort s works in
    (
      stored-Remembers v picked fresh still e
          (ap (λ (m : LlmModel). has_value m.value models) model ∙ h) k,
      stored-Remembers v set fresh still e'
          (ap (λ (m : LlmModel). has_value m.value models) model' ∙ h') k,
    )
