-- ===== src/Course/Samples.antt =====
-- A course of one acknowledged step and one of two blocks, on tables in memory.
use onboard_ai.Common.{ℕ, true, Option, none, some, List, [], ◌∷◌}
use onboard_ai.Common.Text.{Text, codes}
use onboard_ai.Common.Json.{Json, null, boolean, text, array, object, nil, cons, end, field}
use onboard_ai.Store.Memory.{memory}
use onboard_ai.Reminders
use onboard_ai.Course.{not_started, completed, Progress, Assignment, Step, State}
use onboard_ai.Course.Steps.{Env}

-- A stand-in for UUIDs: a text of one code point.
abbrev pub read_one : Text → Option ℕ
read_one (c ∷ []) = some c
read_one other = none

abbrev pub env : Env
env = record {
  show = λ v. codes "?";
  read_uuid = read_one;
  casefold = λ s. s;
  four_places = λ n d. codes "0.5";
  stamp = λ n. codes "now";
  digits_value = λ s. none;
}

abbrev pub block : Text → Json
block s = object (field (codes "text") (text s) end)

abbrev pub two_blocks : Json
two_blocks = object (
    field (codes "blocks") (array (cons (block (codes "One")) (cons (block (codes "Two")) nil)))
      end)

abbrev pub reading : Step
reading = record {
  id = 11;
  program_id = 2;
  title = codes "Read";
  description = none;
  step_type = codes "content";
  position = 1;
  is_required = true;
  estimated_minutes = some 5;
  content = two_blocks;
}

abbrev pub promise : Step
promise = record reading {
  id = 12;
  title = codes "Sign";
  step_type = codes "ack";
  position = 0;
  content = null;
}

abbrev pub course : List Step
course = reading ∷ promise ∷ []

abbrev pub assigned : Assignment
assigned = record {
  id = 1;
  company_id = 9;
  program_id = some 2;
  status = Reminders.pending;
  started_at = none;
  completed_at = none;
  structure_snapshot = null;
}

abbrev pub signing : Progress
signing = record {
  id = 21;
  assignment_id = 1;
  step_id = 12;
  status = not_started;
  started_at = none;
  completed_at = none;
  payload = null;
}

abbrev pub studied : Progress
studied = record signing { id = 22; step_id = 11; status = completed }

abbrev pub Store : Type 0
Store = State (memory Assignment) (memory Step) (memory Progress)

abbrev pub before : Store
before = record { assignments = assigned ∷ []; steps = course; progress = signing ∷ studied ∷ [] }

abbrev pub signed : Progress
signed = record signing {
  status = completed;
  started_at = some 70;
  completed_at = some 70;
  payload = object (field (codes "ack") (boolean true) end);
}

abbrev pub after : Store
after = record {
  assignments =
      record assigned { status = Reminders.completed; started_at = some 70; completed_at = some 70 }
      ∷ [];
  steps = course;
  progress = signed ∷ studied ∷ [];
}
