-- ===== src/Course/Steps/Required.antt =====
-- What it means that the progress rows of the required steps of a course are done.
use onboard_ai.Common.{
  ◌≡◌, ◌↔◌, refl, inl, inr, arith, Bool, true, false, some, List, [], ◌∷◌, all, find, All,
  All-weaken, ◌==◌, Bool-cases, Option-cases,
}
use onboard_ai.Course.{is_done, Progress, Step}
use onboard_ai.Course.Steps.{is_record_done, has_required, all_required_done}

-- The record is done if its step is one of the course and required.
abbrev pub IsDoneIfRequired : List Step → Progress → Type 0
IsDoneIfRequired steps r =
    (step : Step)
    → find (λ (s : Step). s.id == r.step_id) steps ≡ some step
    → step.is_required ≡ true
    → is_done r.status ≡ true

-- The records of required steps are done, and all records are where no step is required.
abbrev pub AreDone : List Progress → List Step → Type 0
AreDone records steps =
    All (IsDoneIfRequired steps) records
    × (has_required steps ≡ false → All (λ (r : Progress). is_done r.status ≡ true) records)

is_record_done_iff :
    (steps : List Step) (r : Progress) → (is_record_done steps r ≡ true) ↔ IsDoneIfRequired steps r
unfolding is_record_done
is_record_done_iff steps r = elim (Option-cases (find (λ (s : Step). s.id == r.step_id) steps)) [
  | inl gone ↦ (λ h step found. ground (arith, gone, found), λ h. rw (gone, is_record_done) refl)
  | inr (step, found) ↦ (
    λ h other there required. ground (arith, found, there, required, h),
    λ h. elim (Bool-cases step.is_required) [
      | inl required ↦ rw (found, is_record_done, required) (h step found required)
      | inr free ↦ rw (found, is_record_done, free) refl
    ],
  )
]

all-All : {A : Type 0} (p : A → Bool) (xs : List A) → (all p xs ≡ true) ↔ All (λ x. p x ≡ true) xs
all-All p [] = (λ h. tt, λ h. refl)
all-All p (x ∷ xs) = (
  λ h. (ground (arith, h), (all-All p xs).0 (ground (arith, h))),
  λ h. ground (arith, h.0, (all-All p xs).1 h.1),
)

-- The code's test says so.
pub all_required_done-AreDone :
    (records : List Progress) (steps : List Step)
    → (all_required_done records steps ≡ true) ↔ AreDone records steps
unfolding all_required_done
all_required_done-AreDone records steps =
    let each = all-All (is_record_done steps) records in
    let every = all-All (λ (r : Progress). is_done r.status) records in
    (
      λ h. (
        All-weaken (λ r. is_record_done steps r ≡ true) (IsDoneIfRequired steps) records
            (λ r k. (is_record_done_iff steps r).0 k) (each.0 (ground (arith, h))),
        λ free. every.0 (ground (arith, h, free)),
      ),
      λ h.
          let kept : all (is_record_done steps) records ≡ true = each.1 (
            All-weaken (IsDoneIfRequired steps) (λ r. is_record_done steps r ≡ true) records
              (λ r k. (is_record_done_iff steps r).1 k) h.0) in
          elim (Bool-cases (has_required steps)) [
            | inl needed ↦ rw (kept, needed) refl
            | inr free ↦ rw (kept, free) (every.1 (h.1 free))
          ],
    )
