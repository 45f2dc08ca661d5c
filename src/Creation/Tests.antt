-- ===== src/Creation/Tests.antt =====
-- New documents on the fifth of September (apps/web/src/routes/scratchpads.tsx,
-- apps/web/src/routes/skills.tsx).
use lgtm.Prelude.{
  false, ◌≡◌, refl, Option, none, some, List, [], ◌∷◌, Text, text, text_eq, decimal, decimal_fuel,
}
use lgtm.Types.{Skill, MemorySource, MemoryVerification}
use lgtm.Creation.{
  Moment, pad, default_title, has, taken_names, base_name, numbered, free_from, free_name,
}
use lgtm.Creation.{new_scratchpad}
use lgtm.Creation.Visit.{Attempt, opens, declines, events_of, resting, mounted, run, run-attempts}
use lgtm.Creation.Names.{IsFree, free_name_total}

abbrev morning : Moment
morning = record { month = 8; date = 5; hours = 9; minutes = 35 }

abbrev evening : Moment
evening = record { month = 8; date = 5; hours = 21; minutes = 5 }

title_of_morning : default_title morning ≡ text "09-05-09-35 Scratchpad"
unfolding default_title pad decimal decimal_fuel text
title_of_morning = refl

abbrev skill_called : Text → Option Text → Skill
skill_called name repository = record {
  content = [];
  created_at = 1;
  created_by = none;
  description = [];
  files = [];
  id = text "s";
  name = name;
  origin = none;
  proposed_by = none;
  repository = repository;
  revision = 1;
  source = MemorySource.user;
  updated_at = 1;
  verification = MemoryVerification.user_approved;
  workspace = none;
}

-- two skills for every repository made in this minute, and one of a repository
abbrev skills : List Skill
skills =
    skill_called (text "new-skill-0905-0935") none
    ∷ skill_called (text "new-skill-0905-0935-3") (some (text "web"))
    ∷ skill_called (text "new-skill-0905-0935-2") none
    ∷ []

third_name : free_name skills morning ≡ some (text "new-skill-0905-0935-3")
unfolding free_name free_from taken_names has base_name numbered pad decimal decimal_fuel text
    text_eq
third_name = refl

free_name_total_example :
    (name : Text) × (free_name skills morning ≡ some name)
    × IsFree (base_name morning) (taken_names skills) name
free_name_total_example = free_name_total skills morning

-- a scratchpad is created with the button pressed twice, and another one is refused
abbrev attempts : List Attempt
attempts =
    record {
      call = new_scratchpad morning;
      ignored = new_scratchpad morning ∷ [];
      ending = opens (text "p");
    }
    ∷ record { call = new_scratchpad evening; ignored = []; ending = declines (text "no") }
    ∷ []

run-attempts_example : run (events_of attempts) mounted ≡ record {
  creating = false;
  stage = resting;
  calls = new_scratchpad morning ∷ new_scratchpad evening ∷ [];
  opened = text "p" ∷ [];
  reasons = text "no" ∷ [];
}
run-attempts_example = run-attempts attempts mounted refl refl
