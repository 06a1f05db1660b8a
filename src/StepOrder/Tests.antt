-- ===== src/StepOrder/Tests.antt =====
-- Runs of the order of a course of two steps.
use onboard_ai.Common.{
  conflict, pos, negsuc, ◌≡◌, ◌⊎◌, refl, arith, true, false, some, none, [], ◌∷◌, take, All, ok,
  err, validation,
}
use onboard_ai.Common.Text.{Text, codes, text_eq}
use onboard_ai.Common.Json.{Json, null, object, end, has_key, truthy, get}
use onboard_ai.Store.Memory.{memory}
use onboard_ai.Course.{Assignment, Step}
use onboard_ai.Course.Content.{validate_step_content}
use onboard_ai.Course.Snapshot.{sort_steps}
use onboard_ai.StepOrder.{
  get_step, require_program, has_active_assignments, Program, list_by_program_id, ids_of,
  phase_updates, run_updates, State, reorder_steps, delete_step,
}
use onboard_ai.StepOrder.Editing.{NewStep, StepValues, create_step, update_step}
use onboard_ai.StepOrder.Editing.Revision.{change, IsCounted, edit-IsCounted}
use onboard_ai.StepOrder.Places.{index_of}
use onboard_ai.StepOrder.Phases.{NoClash}
use onboard_ai.StepOrder.Reorder.{reorder_never_clashes, reorder_in_order}

abbrev course : Program
course = record { id = 2; company_id = 9; revision = 1 }

abbrev opening : Step
opening = record {
  id = 11;
  program_id = 2;
  title = codes "Open";
  description = none;
  step_type = codes "content";
  position = 0;
  is_required = true;
  estimated_minutes = none;
  content = null;
}

abbrev closing : Step
closing = record opening { id = 12; position = 1 }

abbrev Store : Type 0
Store = State (memory Program) (memory Step) (memory Assignment)

abbrev start : Store
start = record { programs = course ∷ []; steps = opening ∷ closing ∷ []; assignments = [] }

abbrev turned : Store
turned = record {
  programs = record course { revision = 2 } ∷ [];
  steps = record opening { position = 1 } ∷ record closing { position = 0 } ∷ [];
  assignments = [];
}

turns :
    reorder_steps (memory Program) (memory Step) (memory Assignment) 2 (12 ∷ 11 ∷ []) 9 start
    ≡ ok turned
unfolding reorder_steps sort_steps
turns = refl

refuses :
    reorder_steps (memory Program) (memory Step) (memory Assignment) 2 (12 ∷ 13 ∷ []) 9 start
    ≡ err validation
unfolding reorder_steps sort_steps
refuses = refl

deletes :
    delete_step (memory Program) (memory Step) (memory Assignment) (λ k. false) 11 9 start
    ≡ ok (record {
      programs = record course { revision = 2 } ∷ [];
      steps = record closing { position = 0 } ∷ [];
      assignments = [];
    })
unfolding delete_step sort_steps
deletes = refl

reorder_in_order_example :
    ((12 ∷ 11 ∷ [] ≡ ids_of (list_by_program_id (memory Step) 2 start.steps)) × (turned ≡ start))
    ⊎ All (λ (x : Step). x.program_id ≡ 2 → x.position ≡ index_of x.id (12 ∷ 11 ∷ [])) turned.steps
reorder_in_order_example =
    reorder_in_order (memory Program) (memory Step) (memory Assignment) 2 9 (12 ∷ 11 ∷ []) start
      turned (omega arith) turns

reorder_never_clashes_example :
    NoClash 2 (
      run_updates
        (memory Step)
        (take 3 (phase_updates (list_by_program_id (memory Step) 2 start.steps) (12 ∷ 11 ∷ [])))
        start.steps)
    × NoClash 2 turned.steps
reorder_never_clashes_example =
    reorder_never_clashes (memory Program) (memory Step) (memory Assignment) 2 9 3 (12 ∷ 11 ∷ [])
      start turned (omega arith)
      (
        ((λ _ _ _. refl), ((λ _ _ e. absurd (omega (arith, e))), tt)),
        (((λ _ _ e. absurd (omega (arith, e))), ((λ _ _ _. refl), tt)), tt),
      )
      turns

abbrev as_task : StepValues
as_task = record {
  title = none;
  description = none;
  step_type = some (codes "task");
  content = none;
  is_required = none;
  estimated_minutes = some (some (pos 5));
  other_keys = [];
}

abbrev changed : Store
changed = record start {
  programs = record course { revision = 2 } ∷ [];
  steps = record opening { step_type = codes "task"; estimated_minutes = some 5 } ∷ closing ∷ [];
}

abbrev shown : Json → Text
shown v = []

changes :
    update_step shown (memory Program) (memory Step) (memory Assignment) 11 as_task 9 start
    ≡ ok changed
unfolding update_step text_eq get_step require_program validate_step_content has_key truthy get
    has_active_assignments
changes = refl

edit-IsCounted_example :
    IsCounted shown (memory Program) (memory Step) (memory Assignment) 2 start changed
unfolding get_step
edit-IsCounted_example =
    edit-IsCounted shown (memory Program) (memory Step) (memory Assignment) (change 11 as_task) 9 2
      start changed changes refl

abbrev third : NewStep
third = record {
  id = 13;
  program_id = 2;
  title = codes "New";
  description = none;
  step_type = codes "ack";
  position = none;
  content = none;
  is_required = false;
  estimated_minutes = none;
}

creates :
    create_step shown (memory Program) (memory Step) (memory Assignment) third 9 start
    ≡ ok (record {
      programs = record course { revision = 2 } ∷ [];
      steps =
          opening
          ∷ closing
          ∷ record opening {
            id = 13;
            title = codes "New";
            step_type = codes "ack";
            position = 2;
            is_required = false;
            content = object end;
          }
          ∷ [];
      assignments = [];
    })
unfolding create_step text_eq validate_step_content has_key require_program has_active_assignments
creates = refl

refuses_taken :
    create_step shown
      (memory Program)
      (memory Step)
      (memory Assignment)
      (record third { position = some (pos 1) })
      9
      start
    ≡ err conflict
unfolding create_step text_eq validate_step_content has_key require_program has_active_assignments
refuses_taken = refl

refuses_negative :
    create_step shown
      (memory Program)
      (memory Step)
      (memory Assignment)
      (record third { position = some (negsuc 0) })
      9
      start
    ≡ err validation
unfolding create_step text_eq validate_step_content has_key require_program has_active_assignments
refuses_negative = refl
