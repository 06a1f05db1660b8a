-- ===== src/Course/Steps/Finished.antt =====
-- A course is finished with the last progress row of a required step.
use onboard_ai.Common.{
  Option, ℕ, ◌≡◌, ◌↔◌, refl, sym, subst, inl, inr, Bool, true, false, not, some, ◌==◌, ==_iff,
  clash, holds, ==_refl, Bool-cases, not-true, ok, not_found, conflict, validation, >>=-ok,
  require-ok, given-ok, ok-injective,
}
use onboard_ai.Common.Json.{Json}
use onboard_ai.Store.{Table}
use onboard_ai.Store.Laws.{first-update, first_passes}
use onboard_ai.Reminders
use onboard_ai.Course.{
  Progress, Assignment, Step, is_completed, is_cancelled, is_pending, is_step_completed, State,
  get_assignment, get_step, get_by_step, records_of, steps_of, put_progress, start_assignment,
}
use onboard_ai.Course.Content.{validate_completion_payload}
use onboard_ai.Course.Steps.Required.{AreDone, all_required_done-AreDone}
use onboard_ai.Course.Steps.{
  Env, completion, all_required_done, finish_assignment, step_fields, complete_found, complete_step,
}

both_false : (p q : Bool) → p ≡ false → q ≡ false → (p ≡ true) ↔ (q ≡ true)
both_false p q h k = (λ e. absurd (clash h e), λ e. absurd (clash k e))

module _ (ta : Table Assignment) (ts : Table Step) (tp : Table Progress) where
  -- Whether the required steps of an assignment are done.
  abbrev is_course_done : ℕ → Option ℕ → State ta ts tp → Bool
  is_course_done assignment_id program_id s =
      all_required_done (records_of ta ts tp assignment_id s) (steps_of ta ts tp program_id s)

  -- The assignment is completed exactly where the test of its required steps succeeds.
  abbrev IsMarked : ℕ → State ta ts tp → Type 0
  IsMarked k s =
      (a : Assignment) × (get_assignment ta ts tp k s ≡ some a)
      × ((is_completed a.status ≡ true) ↔ (is_course_done k a.program_id s ≡ true))

  abbrev started : ℕ → Assignment → Assignment
  started now x = record x { status = Reminders.in_progress; started_at = some now }

  abbrev ended : ℕ → Assignment → Assignment
  ended now x = record x { status = Reminders.completed; completed_at = some now }

  start_lem :
      (now : ℕ) (a : Assignment) (s : State ta ts tp)
      → get_assignment ta ts tp a.id s ≡ some a
      → is_completed a.status ≡ false
      → (b : Assignment) × (get_assignment ta ts tp a.id (start_assignment ta ts tp now a s)
          ≡ some b)
        × (is_completed b.status ≡ false)
        × (b.program_id ≡ a.program_id)
        × (b.id ≡ a.id)
  unfolding get_assignment start_assignment is_completed
  start_lem now a s found fresh = elim (Bool-cases (is_pending a.status)) [
    | inl waits ↦ rw waits (
      started now a,
      rw
          (
            first-update ta (λ x. x.id == a.id) (λ x. x.id == a.id) (started now) s.assignments
                (λ x. refl),
            found,
            ==_refl a.id,
          )
          refl,
      refl,
      refl,
      refl,
    )
    | inr runs ↦ rw runs (a, found, fresh, refl, refl)
  ]

  finish_assignment-IsMarked :
      (now : ℕ) (a b : Assignment) (s : State ta ts tp)
      → get_assignment ta ts tp a.id s ≡ some b
      → is_completed b.status ≡ false
      → b.program_id ≡ a.program_id
      → IsMarked a.id (finish_assignment ta ts tp now a s)
  unfolding get_assignment finish_assignment is_completed records_of steps_of
  finish_assignment-IsMarked now a b s found fresh same =
      elim (Bool-cases (is_course_done a.id a.program_id s)) [
        | inl all_done ↦ rw all_done (
          ended now b,
          rw
              (
                first-update ta (λ x. x.id == a.id) (λ x. x.id == a.id) (ended now) s.assignments
                    (λ x. refl),
                found,
                first_passes ta (λ x. x.id == a.id) s.assignments found,
              )
              refl,
          (λ _. rw same all_done, λ _. refl),
        )
        | inr missing ↦
            rw missing (b, found, both_false (is_completed b.status) _ fresh (rw same missing))
      ]

  put_found :
      (row : Progress) (k : ℕ) (s : State ta ts tp) {a : Assignment}
      → get_assignment ta ts tp k s ≡ some a
      → get_assignment ta ts tp k (put_progress ta ts tp row s) ≡ some a
  unfolding get_assignment put_progress
  put_found row k s e = e

  complete_found-IsMarked :
      (env : Env) (now : ℕ) (a : Assignment) (step : Step) (payload : Json) (s s' : State ta ts tp)
      (q : Progress)
      → get_assignment ta ts tp a.id s ≡ some a
      → complete_found ta ts tp env now a step payload s ≡ ok (s', q)
      → IsMarked a.id s'
  unfolding complete_found
  complete_found-IsMarked env now a step payload s s' q found h =
      let fields = step_fields ta ts tp env a step in
      let (_, _, h1) =
        >>=-ok (validate_completion_payload env.show fields.step_type fields.content payload) _ h in
      let (p, _, h2) = given-ok not_found (get_by_step ta ts tp a.id step.id s) _ h1 in
      let (_, h3) = require-ok (not (is_step_completed p.status)) conflict _ h2 in
      let (fresh, h4) = require-ok (not (is_completed a.status)) validation _ h3 in
      let (row, _, last) =
        >>=-ok (completion env now fields.step_type fields.content payload p) _ h4 in
      let (b, there, running, same, _) =
        start_lem now a (put_progress ta ts tp row s) (put_found row a.id s found)
          (not-true (is_completed a.status) fresh) in
      subst (λ (r : State ta ts tp × Progress). IsMarked a.id r.0) (ok-injective last)
        (finish_assignment-IsMarked now a b
          (start_assignment ta ts tp now a (put_progress ta ts tp row s)) there running same)

  -- The assignment is completed exactly where its listed rows of required steps are done.
  abbrev pub IsSettled : ℕ → State ta ts tp → Type 0
  IsSettled k s =
      (a : Assignment) × (get_assignment ta ts tp k s ≡ some a)
      × ((is_completed a.status ≡ true)
          ↔ AreDone (records_of ta ts tp k s) (steps_of ta ts tp a.program_id s))

  settled : (k : ℕ) (s : State ta ts tp) → IsMarked k s → IsSettled k s
  settled k s (a, found, marked) =
      let means =
        all_required_done-AreDone (records_of ta ts tp k s) (steps_of ta ts tp a.program_id s) in
      (a, found, (λ e. means.0 (marked.0 e), λ d. marked.1 (means.1 d)))

  -- Whatever an employee hands in, if the step is accepted then afterwards the assignment is completed
  -- exactly where the progress rows that are listed for it, the first thousand, are done as far as
  -- they are of required steps, and all of them where no listed step is required. A required step
  -- that has no listed row is not asked for.
  pub complete_step-IsSettled :
      (env : Env) (now assignment_id step_id company_id : ℕ) (payload : Json)
      (s s' : State ta ts tp) (q : Progress)
      → complete_step ta ts tp env now assignment_id step_id company_id payload s ≡ ok (s', q)
      → IsSettled assignment_id s'
  unfolding complete_step get_assignment
  complete_step-IsSettled env now assignment_id step_id company_id payload s s' q h =
      let (a, found, h1) = given-ok not_found (get_assignment ta ts tp assignment_id s) _ h in
      let (_, h2) = require-ok (a.company_id == company_id) not_found _ h1 in
      let (_, h3) = require-ok (not (is_cancelled a.status)) validation _ h2 in
      let (step, _, h4) = given-ok not_found (get_step ta ts tp step_id s) _ h3 in
      let (_, h5) = require-ok (holds a.program_id step.program_id) validation _ h4 in
      let same : a.id ≡ assignment_id =
        (==_iff a.id assignment_id).0
          (first_passes ta (λ x. x.id == assignment_id) s.assignments found) in
      settled assignment_id s' (
        subst (λ k. IsMarked k s') same
          (complete_found-IsMarked env now a step payload s s' q
            (subst (λ k. get_assignment ta ts tp k s ≡ some a) (sym same) found) h5))
