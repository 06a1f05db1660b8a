-- ===== src/StepOrder/Editing/Revision.antt =====
-- The revision of a course counts the changes of its structure, and a course with an open
-- assignment keeps its structure.
use onboard_ai.Common.{
  ℕ, ◌+◌, ◌≡◌, ◌⊎◌, holds, ==_refl, All, if◌then◌else◌, inl, inr, refl, sym, ap, ◌∙◌, Bool, true,
  false, ◌&&◌, not, Option, none, some, List, [], ◌∷◌, map, any, length, ◌==◌, is_some, Bool-cases,
  not-true, Result, ok, not_found, conflict, validation, >>=-ok, require-ok, given-ok, ok-injective,
  subst, arith,
}
use mathlib.Core.Option.{some-injective}
use mathlib.Core.Option
use onboard_ai.Common.Text.{Text}
use onboard_ai.Common.Json.{Json, object, end}
use onboard_ai.Store.{Table, set_if}
use onboard_ai.Reminders.{AssignmentStatus, pending, in_progress, completed, cancelled, is_active}
use onboard_ai.Course.{Assignment, Step}
use onboard_ai.Course.Content.{validate_step_content}
use onboard_ai.StepOrder.{
  Program, State, has_distinct, same_ids, same_list, ids_of, list_by_program_id, get_step,
  require_program, has_active_assignments, bump_program_revision, reorder_found, reorder_steps,
  delete_step,
}
use onboard_ai.StepOrder.Editing.{
  NewStep, StepValues, is_step_type, is_forbidden_key, or_old, set_values, touches_structure,
  new_position, checked_minutes, checked_values, insert_step_row, create_step, put_values,
  update_step,
}

-- What a step contributes to the structure of its course.
pub record Structure : Type 0 where
  pub id : ℕ
  pub program_id : ℕ
  pub position : ℕ
  pub step_type : Text
  pub is_required : Bool
  pub content : Json

abbrev pub structure : Step → Structure
structure s = record {
  id = s.id;
  program_id = s.program_id;
  position = s.position;
  step_type = s.step_type;
  is_required = s.is_required;
  content = s.content;
}

or_old-unset : {A : Type 0} (o : Option A) (old : A) → is_some o ≡ false → or_old o old ≡ old
or_old-unset none old h = refl
or_old-unset (some new) old h = cc

set_values-structure :
    (v : StepValues) (minutes : Option (Option ℕ)) (x : Step)
    → touches_structure v ≡ false
    → structure (set_values v minutes x) ≡ structure x
unfolding touches_structure set_values
set_values-structure v minutes x h =
    let kind : or_old v.step_type x.step_type ≡ x.step_type =
      or_old-unset v.step_type x.step_type (ground (arith, h)) in
    let need : or_old v.is_required x.is_required ≡ x.is_required =
      or_old-unset v.is_required x.is_required (ground (arith, h)) in
    let body : or_old v.content x.content ≡ x.content =
      or_old-unset v.content x.content (ground (arith, h)) in
    rw (kind, need, body) refl

map-structure :
    (p : Step → Bool) (f : Step → Step) (xs : List Step)
    → ((x : Step) → structure (f x) ≡ structure x)
    → map structure (map (set_if p f) xs) ≡ map structure xs
map-structure p f [] same = refl
map-structure p f (x ∷ xs) same = elim (Bool-cases (p x)) [
  | inl held ↦ rw (held, same x, map-structure p f xs same) refl
  | inr not_held ↦ rw (not_held, map-structure p f xs same) refl
]

found_course :
    (o : Option Step) (x : Step) (k : ℕ)
    → o ≡ some x
    → Option.map (λ (y : Step). y.program_id) o ≡ some k
    → x.program_id ≡ k
found_course o x k found course =
    some-injective _ _ (sym (ap (Option.map (λ (y : Step). y.program_id)) found) ∙ course)

-- An assignment of the course is completed or cancelled.
abbrev pub IsClosedIn : ℕ → Assignment → Type 0
IsClosedIn k a = a.program_id ≡ some k → (a.status ≡ completed) ⊎ (a.status ≡ cancelled)

-- The programs after one change of the structure of a course.
abbrev pub counted : ℕ → Program → Program
counted k p = record p { revision = if p.id == k then p.revision + 1 else p.revision }

inactive_closed :
    (status : AssignmentStatus)
    → is_active status ≡ false
    → (status ≡ completed) ⊎ (status ≡ cancelled)
unfolding is_active
inactive_closed pending h = cc
inactive_closed in_progress h = cc
inactive_closed completed h = inl refl
inactive_closed cancelled h = inr refl

holds_own : (o : Option ℕ) (k : ℕ) → o ≡ some k → holds o k ≡ true
holds_own o k e = rw (e, ==_refl k) refl

inactive-IsClosedIn :
    (k : ℕ) (xs : List Assignment)
    → any (λ (a : Assignment). holds a.program_id k && is_active a.status) xs ≡ false
    → All (IsClosedIn k) xs
inactive-IsClosedIn k [] h = tt
inactive-IsClosedIn k (a ∷ xs) h = (
  λ e. inactive_closed a.status (ground (arith, h, holds_own a.program_id k e)),
  inactive-IsClosedIn k xs (ground (arith, h)),
)

counted_rows :
    (k : ℕ) (xs : List Program)
    → map (set_if (λ p. p.id == k) (λ p. record p { revision = p.revision + 1 })) xs
      ≡ map (counted k) xs
counted_rows k [] = refl
counted_rows k (p ∷ ps) = elim (Bool-cases (p.id == k)) [
  | inl own ↦ rw (own, counted_rows k ps) refl
  | inr other ↦ rw (other, counted_rows k ps) refl
]

-- The changes of a course's steps, with what its progress refers to for a deletion.
pub data Edit : Type 0 where
  create : NewStep → Edit
  change : ℕ → StepValues → Edit
  reorder : ℕ → List ℕ → Edit
  remove : (ℕ → Bool) → ℕ → Edit

module _ (show : Json → Text) (tp : Table Program) (ts : Table Step) (ta : Table Assignment) where
  abbrev pub edit : Edit → ℕ → State tp ts ta → Result (State tp ts ta)
  edit (create n) company_id s = create_step show tp ts ta n company_id s
  edit (change k v) company_id s = update_step show tp ts ta k v company_id s
  edit (reorder k ids) company_id s = reorder_steps tp ts ta k ids company_id s
  edit (remove used k) company_id s = delete_step tp ts ta used k company_id s

  -- The course that a call is about.
  abbrev pub course_of : Edit → State tp ts ta → Option ℕ
  course_of (create n) s = some n.program_id
  course_of (change k v) s = Option.map (λ (x : Step). x.program_id) (get_step tp ts ta k s)
  course_of (reorder k ids) s = some k
  course_of (remove used k) s = Option.map (λ (x : Step). x.program_id) (get_step tp ts ta k s)

  -- The structure stays and no program changes, or the course is not locked and its revision, and
  -- no other, is one more.
  abbrev pub IsCounted : ℕ → State tp ts ta → State tp ts ta → Type 0
  IsCounted k s s' =
      ((map structure (ts.rows s'.steps) ≡ map structure (ts.rows s.steps))
        × (s'.programs ≡ s.programs))
      ⊎ (All (IsClosedIn k) (ta.rows s.assignments)
          × (tp.rows s'.programs ≡ map (counted k) (tp.rows s.programs)))

  bumped :
      (k : ℕ) (s s' : State tp ts ta)
      → has_active_assignments tp ts ta k s ≡ false
      → (bump_program_revision tp ts ta k s).programs ≡ s'.programs
      → All (IsClosedIn k) (ta.rows s.assignments)
        × (tp.rows s'.programs ≡ map (counted k) (tp.rows s.programs))
  unfolding has_active_assignments bump_program_revision
  bumped k s s' free last = (
    inactive-IsClosedIn k (ta.rows s.assignments) free,
    sym (ap tp.rows last)
        ∙ tp.update_rows (λ p. p.id == k) (λ p. record p { revision = p.revision + 1 }) s.programs
        ∙ counted_rows k (tp.rows s.programs),
  )

  insert_step_row-IsCounted :
      (n : NewStep) (minutes : Option ℕ) (s s' : State tp ts ta)
      → insert_step_row show tp ts ta n minutes s ≡ ok s'
      → IsCounted n.program_id s s'
  unfolding insert_step_row bump_program_revision
  insert_step_row-IsCounted n minutes s s' h =
      let (position, _, h1) =
        >>=-ok (new_position (ts.select (λ x. x.program_id == n.program_id) s.steps) n.position) _
          h in
      let (free, h2) =
        require-ok (not (has_active_assignments tp ts ta n.program_id s)) conflict _ h1 in
      let (_, h3) = require-ok (is_some _) conflict _ h2 in
      inr (
        bumped n.program_id s s' (not-true _ free)
          (ap (λ (r : State tp ts ta). r.programs) (ok-injective h3)))

  create_step-IsCounted :
      (n : NewStep) (company_id : ℕ) (s s' : State tp ts ta)
      → create_step show tp ts ta n company_id s ≡ ok s'
      → IsCounted n.program_id s s'
  unfolding create_step
  create_step-IsCounted n company_id s s' h =
      let (_, h1) = require-ok (is_step_type n.step_type) validation _ h in
      let (minutes, _, h2) = >>=-ok (checked_minutes n.estimated_minutes) _ h1 in
      let (_, _, h3) =
        >>=-ok (validate_step_content show n.step_type (or_old n.content (object end))) _ h2 in
      let (_, _, h4) = >>=-ok (require_program tp ts ta n.program_id company_id s) _ h3 in
      insert_step_row-IsCounted n minutes s s' h4

  put_values-IsCounted :
      (v : StepValues) (minutes : Option (Option ℕ)) (step : Step) (s s' : State tp ts ta)
      → put_values show tp ts ta v minutes step s ≡ ok s'
      → IsCounted step.program_id s s'
  unfolding put_values bump_program_revision
  put_values-IsCounted v minutes step s s' h =
      let (free, h1) =
        require-ok (not (touches_structure v && has_active_assignments tp ts ta step.program_id s))
          conflict _ h in
      let (_, h2) =
        require-ok
          (not (length (ts.update (λ x. x.id == step.id) (set_values v minutes) s.steps).1 == 0))
          not_found _ h1 in
      elim (Bool-cases (touches_structure v)) [
        | inl touched ↦ inr (
            bumped step.program_id s s' (ground (arith, free, touched))
              (ap (λ (r : State tp ts ta). r.programs) (ok-injective (rw touched at h2))))
        | inr quiet ↦
            let last : record s {
              steps = (ts.update (λ x. x.id == step.id) (set_values v minutes) s.steps).0;
            }
                ≡ s' =
              ok-injective (rw quiet at h2) in
            inl (
              sym (ap (λ (r : State tp ts ta). map structure (ts.rows r.steps)) last)
                  ∙ ap (map structure)
                      (ts.update_rows (λ x. x.id == step.id) (set_values v minutes) s.steps)
                  ∙ map-structure (λ x. x.id == step.id) (set_values v minutes) (ts.rows s.steps)
                      (λ x. set_values-structure v minutes x quiet),
              sym (ap (λ (r : State tp ts ta). r.programs) last),
            )
      ]

  update_step-IsCounted :
      (step_id company_id k : ℕ) (v : StepValues) (s s' : State tp ts ta)
      → update_step show tp ts ta step_id v company_id s ≡ ok s'
      → course_of (change step_id v) s ≡ some k
      → IsCounted k s s'
  unfolding update_step
  update_step-IsCounted step_id company_id k v s s' h course =
      let (_, h1) = require-ok (not (any is_forbidden_key v.other_keys)) validation _ h in
      let (_, h2) =
        require-ok (or_old (Option.map is_step_type v.step_type) true) validation _ h1 in
      let (minutes, _, h3) = >>=-ok (checked_values v.estimated_minutes) _ h2 in
      let (step, found, h4) = given-ok not_found (get_step tp ts ta step_id s) _ h3 in
      let (_, _, h5) = >>=-ok (require_program tp ts ta step.program_id company_id s) _ h4 in
      let (_, _, h6) =
        >>=-ok
          (validate_step_content show (or_old v.step_type step.step_type)
            (or_old v.content step.content))
          _ h5 in
      subst (λ j. IsCounted j s s') (found_course (get_step tp ts ta step_id s) step k found course)
        (put_values-IsCounted v minutes step s s' h6)

  reorder_found-IsCounted :
      (k : ℕ) (ids : List ℕ) (s s' : State tp ts ta)
      → reorder_found tp ts ta k ids s ≡ ok s'
      → IsCounted k s s'
  unfolding reorder_found bump_program_revision
  reorder_found-IsCounted k ids s s' h =
      let existing = list_by_program_id ts k s.steps in
      let (same, rest) = require-ok (same_ids ids (ids_of existing)) validation _ h in
      elim (Bool-cases (same_list ids (ids_of existing))) [
        | inl ordered ↦
            let last : s ≡ s' = ok-injective (rw ordered at rest) in
            inl (
              sym (ap (λ (r : State tp ts ta). map structure (ts.rows r.steps)) last),
              sym (ap (λ (r : State tp ts ta). r.programs) last),
            )
        | inr moved ↦
            let (free, last) =
              require-ok (not (has_active_assignments tp ts ta k s)) conflict _
                (rw moved at rest) in
            inr (
              bumped k s s' (not-true _ free)
                (ap (λ (r : State tp ts ta). r.programs) (ok-injective last)))
      ]

  reorder_steps-IsCounted :
      (k company_id : ℕ) (ids : List ℕ) (s s' : State tp ts ta)
      → reorder_steps tp ts ta k ids company_id s ≡ ok s'
      → IsCounted k s s'
  unfolding reorder_steps
  reorder_steps-IsCounted k company_id ids s s' h =
      let (_, h1) = require-ok (not (length ids == 0)) validation _ h in
      let (_, h2) = require-ok (has_distinct ids) validation _ h1 in
      let (_, _, h3) = >>=-ok (require_program tp ts ta k company_id s) _ h2 in
      reorder_found-IsCounted k ids s s' h3

  delete_step-IsCounted :
      (used : ℕ → Bool) (step_id company_id k : ℕ) (s s' : State tp ts ta)
      → delete_step tp ts ta used step_id company_id s ≡ ok s'
      → course_of (remove used step_id) s ≡ some k
      → IsCounted k s s'
  unfolding delete_step bump_program_revision
  delete_step-IsCounted used step_id company_id k s s' h course =
      let (step, found, h1) = given-ok not_found (get_step tp ts ta step_id s) _ h in
      let (_, _, h2) = >>=-ok (require_program tp ts ta step.program_id company_id s) _ h1 in
      let (free, h3) =
        require-ok (not (has_active_assignments tp ts ta step.program_id s)) conflict _ h2 in
      let (_, h4) = require-ok (not (used step_id)) conflict _ h3 in
      let (_, h5) =
        require-ok (not ((ts.delete (λ x. x.id == step_id) s.steps).1 == 0)) not_found _ h4 in
      subst (λ j. IsCounted j s s') (found_course (get_step tp ts ta step_id s) step k found course)
        (inr (
          bumped step.program_id s s' (not-true _ free)
            (ap (λ (r : State tp ts ta). r.programs) (ok-injective h5))))

  -- Whatever change of a course's steps is accepted, either the course's structure stays (which
  -- steps it has, their positions, types and contents, and which are required) and no revision
  -- changes, or the course has no open assignment and its revision, and no other, is one more.
  pub edit-IsCounted :
      (c : Edit) (company_id k : ℕ) (s s' : State tp ts ta)
      → edit c company_id s ≡ ok s'
      → course_of c s ≡ some k
      → IsCounted k s s'
  edit-IsCounted (create n) company_id k s s' h course =
      subst (λ j. IsCounted j s s') (some-injective _ _ course)
        (create_step-IsCounted n company_id s s' h)
  edit-IsCounted (change j v) company_id k s s' h course =
      update_step-IsCounted j company_id k v s s' h course
  edit-IsCounted (reorder j ids) company_id k s s' h course =
      subst (λ j. IsCounted j s s') (some-injective _ _ course)
        (reorder_steps-IsCounted j company_id ids s s' h)
  edit-IsCounted (remove used j) company_id k s s' h course =
      delete_step-IsCounted used j company_id k s s' h course
