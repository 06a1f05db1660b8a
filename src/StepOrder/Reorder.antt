-- ===== src/StepOrder/Reorder.antt =====
-- The two phases of a renumbering never give two steps of a course the same position, which the
-- database would refuse, and leave them in the order that was asked for.
use onboard_ai.Common.{
  ℕ, ◌≡◌, ◌⊎◌, refl, ap, sym, subst, inl, inr, arith, true, not, List, [], ◌∷◌, length, take, All,
  ◌==◌, Bool-cases, ok, conflict, validation, >>=-ok, require-ok, ok-injective,
}
use onboard_ai.Store.{Table}
use onboard_ai.Course.{Step, Assignment}
use onboard_ai.StepOrder.{
  Program, has_distinct, same_ids, same_list, ids_of, phase_updates, run_updates,
  list_by_program_id, two_phases, State, has_active_assignments, bump_program_revision,
  reorder_found, require_program, reorder_steps,
}
use onboard_ai.StepOrder.Listing.{IsShort, listing-listed}
use onboard_ai.StepOrder.Places.{index_of}
use onboard_ai.StepOrder.Phases.{NoClash, phases-index, part-NoClash}

-- The two lists are compared item by item.
same_list-same : (xs ys : List ℕ) → same_list xs ys ≡ true → xs ≡ ys
unfolding same_list
same_list-same [] [] h = refl
same_list-same [] (y ∷ ys) h = cc
same_list-same (x ∷ xs) [] h = cc
same_list-same (x ∷ xs) (y ∷ ys) h =
    let rest = same_list-same xs ys (ground (arith, h)) in
    let first : x ≡ y = ground (arith, h) in rw (first, rest) refl

take_whole : {A : Type 0} (xs : List A) → take (length xs) xs ≡ xs
take_whole [] = refl
take_whole (x ∷ xs) = ap (λ ys. x ∷ ys) (take_whole xs)

module _ (tp : Table Program) (ts : Table Step) (ta : Table Assignment) where
  -- What an accepted order is, and what it leaves.
  abbrev IsAccepted : ℕ → List ℕ → State tp ts ta → State tp ts ta → Type 0
  IsAccepted k ids s s' =
      let existing = list_by_program_id ts k s.steps in
      (has_distinct ids ≡ true)
      × (same_ids ids (ids_of existing) ≡ true)
      × (((ids ≡ ids_of existing) × (s' ≡ s)) ⊎ (s'.steps ≡ two_phases ts existing ids s.steps))

  reorder_found-IsAccepted :
      (k : ℕ) (ids : List ℕ) (s s' : State tp ts ta)
      → has_distinct ids ≡ true
      → reorder_found tp ts ta k ids s ≡ ok s'
      → IsAccepted k ids s s'
  unfolding reorder_found bump_program_revision
  reorder_found-IsAccepted k ids s s' d h =
      let existing = list_by_program_id ts k s.steps in
      let (same, rest) = require-ok (same_ids ids (ids_of existing)) validation _ h in
      (
        d,
        same,
        elim (Bool-cases (same_list ids (ids_of existing))) [
          | inl ordered ↦ inl (
            same_list-same ids (ids_of existing) ordered,
            sym (ok-injective (rw ordered at rest)),
          )
          | inr moved ↦
              let (free, last) =
                require-ok (not (has_active_assignments tp ts ta k s)) conflict _
                  (rw moved at rest) in
              inr (sym (ap (λ (r : State tp ts ta). r.steps) (ok-injective last)))
        ],
      )

  reorder_steps-IsAccepted :
      (k company_id : ℕ) (ids : List ℕ) (s s' : State tp ts ta)
      → reorder_steps tp ts ta k ids company_id s ≡ ok s'
      → IsAccepted k ids s s'
  unfolding reorder_steps
  reorder_steps-IsAccepted k company_id ids s s' h =
      let (_, h1) = require-ok (not (length ids == 0)) validation _ h in
      let (d, h2) = require-ok (has_distinct ids) validation _ h1 in
      let (p, _, h3) = >>=-ok (require_program tp ts ta k company_id s) _ h2 in
      reorder_found-IsAccepted k ids s s' d h3

  -- Where one listing holds the steps of a course, which have different positions, and an order for
  -- them is accepted: after any number of the updates of the two phases, no two steps of the course
  -- have the same position, nor do they afterwards.
  pub reorder_never_clashes :
      (k company_id n : ℕ) (ids : List ℕ) (s s' : State tp ts ta)
      → IsShort ts k s.steps
      → NoClash k (ts.rows s.steps)
      → reorder_steps tp ts ta k ids company_id s ≡ ok s'
      → NoClash k (
          ts.rows
            (run_updates ts (take n (phase_updates (list_by_program_id ts k s.steps) ids)) s.steps))
        × NoClash k (ts.rows s'.steps)
  unfolding two_phases
  reorder_never_clashes k company_id n ids s s' short apart h =
      let updates = phase_updates (list_by_program_id ts k s.steps) ids in
      let (d, same, left) = reorder_steps-IsAccepted k company_id ids s s' h in
      let part = λ (m : ℕ). part-NoClash ts k m ids s.steps short apart d same in
      (
        part n,
        elim left [
          | inl (_, kept) ↦ rw kept apart
          | inr moved ↦ rw moved (
              subst (λ us. NoClash k (ts.rows (run_updates ts us s.steps))) (take_whole updates)
                (part (length updates)))
        ],
      )

  -- Where one listing holds the steps of a course, an accepted order either is the order in which the
  -- steps are listed already, and nothing changes, or afterwards every step of the course is at the
  -- place that its id has in the order.
  pub reorder_in_order :
      (k company_id : ℕ) (ids : List ℕ) (s s' : State tp ts ta)
      → IsShort ts k s.steps
      → reorder_steps tp ts ta k ids company_id s ≡ ok s'
      → ((ids ≡ ids_of (list_by_program_id ts k s.steps)) × (s' ≡ s))
        ⊎ All (λ x. x.program_id ≡ k → x.position ≡ index_of x.id ids) (ts.rows s'.steps)
  reorder_in_order k company_id ids s s' short h =
      let existing = list_by_program_id ts k s.steps in
      let (d, same, left) = reorder_steps-IsAccepted k company_id ids s s' h in
      elim left [
        | inl kept ↦ inl kept
        | inr moved ↦ inr (
            rw moved (
              phases-index ts k existing ids s.steps d
                (listing-listed ts k s.steps ids short same)))
      ]
