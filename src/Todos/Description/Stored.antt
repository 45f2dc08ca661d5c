-- ===== src/Todos/Description/Stored.antt =====
-- The save loop of a todo's description (apps/web/src/routes/todos_.$id.tsx) under an editor, with
-- the description that the orchestrator has.
use lgtm.Prelude.{
  ◌≡◌, refl, ap, Bool, true, false, none, List, Text, text_eq_iff, Option-cases, inl, inr, arith,
  if◌then◌else◌,
}
use lgtm.Autosave.{saved}
use lgtm.Todos.Description.{Description, open_description, send, save, land, fail}
use lgtm.Editor.Laws.{typed}
use lgtm.Page.Stored.{is_saved}
use lgtm.Writer.Saver.{Saver, arrived, PageEvent, open_page, run}
use lgtm.Writer.Saver.Promise.{editing, kept-typed}

module _ {R : Type 0} (request : Text → R) where
  -- "Saved" is said of the latest text only, with nothing in flight
  abbrev pub IsTrue : Text → Description R → Type 0
  IsTrue kept d = d.state ≡ saved → (kept ≡ d.latest) × (d.in_flight ≡ none)

  pub save-IsTrue :
      (kept c : Text) (d : Description R) → IsTrue kept d → IsTrue kept (save request c d)
  unfolding save send
  save-IsTrue kept c d h = ground (arith, h)

  pub land-IsTrue :
      (kept : Text) (d : Description R)
      → IsTrue kept d
      → IsTrue (arrived (λ t. t) d.in_flight kept) (land request d)
  unfolding land send
  land-IsTrue kept d h = elim (Option-cases d.in_flight) [
    | inl e ↦ ground (arith, h, e)
    | inr (x, e) ↦ ground (arith, h, e, text_eq_iff d.latest x)
  ]

  -- a request that fails may have changed the description, and nothing is then shown as saved
  pub fail-IsTrue :
      (reason : Text) (reached : Bool) (kept : Text) (d : Description R)
      → IsTrue kept d
      → IsTrue (if reached then arrived (λ t. t) d.in_flight kept else kept) (fail request reason d)
  unfolding fail
  fail-IsTrue reason reached kept d h = elim (Option-cases d.in_flight) [
    | inl e ↦ ground (arith, h, e)
    | inr (x, e) ↦ ground (arith, h, e)
  ]

  pub save-latest : (c : Text) (d : Description R) → (save request c d).latest ≡ c
  unfolding save send
  save-latest c d = ground arith

  pub land-latest : (d : Description R) → (land request d).latest ≡ d.latest
  unfolding land send
  land-latest d = ground arith

  pub fail-latest : (reason : Text) (d : Description R) → (fail request reason d).latest ≡ d.latest
  unfolding fail
  fail-latest reason d = ground arith

  pub promise :
      (kept : Text) (d : Description R) → IsTrue kept d → is_saved d.state ≡ true → kept ≡ d.latest
  promise kept d h said = ground (arith, h, said)

  pub opened-IsTrue : (kept content : Text) → IsTrue kept (open_description {R = R} content)
  unfolding open_description
  opened-IsTrue kept content = ground arith

  pub opened-latest : (content : Text) → (open_description {R = R} content).latest ≡ content
  unfolding open_description
  opened-latest content = refl

  -- the save loop of a description as its page uses it; its line "Saved" stays
  abbrev pub description_saver : Saver (Description R) (λ t. t)
  description_saver = record {
    opened = open_description;
    save = save request;
    land = land request;
    fail = fail request;
    rest = λ d. d;
    latest = λ d. d.latest;
    in_flight = λ d. d.in_flight;
    says_saved = λ d. is_saved d.state;
    IsTrue = IsTrue;
    opened-IsTrue = opened-IsTrue;
    save-IsTrue = save-IsTrue;
    land-IsTrue = land-IsTrue;
    fail-IsTrue = fail-IsTrue;
    rest-IsTrue = λ kept d h. h;
    opened-latest = opened-latest;
    save-latest = save-latest;
    land-latest = land-latest;
    fail-latest = fail-latest;
    rest-latest = λ d. refl;
    promise = promise;
  }

module _ {R : Type 0} (request : Text → R) (apply : R → Text → Text)
    (writes : (t s : Text) → apply (request t) s ≡ t) where
  -- Whatever is typed in the description of a todo, however the requests end, and whether or not
  -- one that failed had reached the orchestrator: when the page says "Saved" and no edit waits for
  -- its debounce, the orchestrator has the text that stands in the editor. The request for a text is taken to make it
  -- the description, and nobody else to write it.
  pub description_kept :
      (content : Text) (es : List PageEvent)
      → let S = description_saver request in
        let s = run S request apply es (open_page S request apply content) in
        s.store.state ≡ saved → s.view.timer ≡ false → s.kept ≡ typed content (editing es)
  description_kept content es said quiet =
      kept-typed (description_saver request) request apply writes content es (ap is_saved said)
        quiet
