-- ===== src/StepOrder/Phases.antt =====
-- The two phases of a renumbering: what their updates, up to any point, leave.
use onboard_ai.Common.{
  ℕ, ◌+◌, ◌≤◌, ◌<◌, ◌≡◌, ◌⊎◌, ◌∙◌, sym, inl, inr, arith, true, List, [], ◌∷◌, map, length, take,
  All, All-weaken, Bool-cases,
}
use onboard_ai.Store.{Table}
use onboard_ai.Course.{Step}
use onboard_ai.StepOrder.{
  is_listed, has_distinct, same_ids, above_all, moved_to, ids_of, updates_from, phase_updates,
  run_updates, list_by_program_id, two_phases,
}
use onboard_ai.StepOrder.Listing.{IsShort, same_ids-length, listing-below, listing-listed}
use onboard_ai.StepOrder.Places.{
  place, index_of, run_updates-append, updates_from-take, take-append, has_distinct-take,
  place_unlisted, place_listed, index_of-lt, index_of-injective, renumber_rows,
}

-- Two steps of a course at the same position are the same step.
abbrev Differ : ℕ → Step → Step → Type 0
Differ k r s = r.program_id ≡ k → s.program_id ≡ k → r.position ≡ s.position → r.id ≡ s.id

abbrev pub NoClash : ℕ → List Step → Type 0
NoClash k xs = All (λ r. All (Differ k r) xs) xs

-- The positions of a course's steps that a renumbering does not use.
abbrev Outside : ℕ → ℕ → ℕ → Step → Type 0
Outside k start end s = s.program_id ≡ k → (s.position < start) ⊎ (end ≤ s.position)

All-mapped :
    {A : Type 0} (P : A → Type 0) (f : A → A) (xs : List A)
    → All (λ x. P (f x)) xs
    → All P (map f xs)
All-mapped P f [] h = tt
All-mapped P f (x ∷ xs) h = (h.0, All-mapped P f xs h.1)

All-both :
    {A : Type 0} (P Q R : A → Type 0) (xs : List A)
    → ((x : A) → P x → Q x → R x)
    → All P xs
    → All Q xs
    → All R xs
All-both P Q R [] step h k = tt
All-both P Q R (x ∷ xs) step h k = (step x h.0 k.0, All-both P Q R xs step h.1 k.1)

place-Differ :
    (k start : ℕ) (ids : List ℕ) (r s : Step)
    → has_distinct ids ≡ true
    → Differ k r s
    → Outside k start (start + length ids) r
    → Outside k start (start + length ids) s
    → r.program_id ≡ k
    → s.program_id ≡ k
    → place start ids r.id r.position ≡ place start ids s.id s.position
    → r.id ≡ s.id
place-Differ k start ids r s d differ outr outs er es e = elim (Bool-cases (is_listed r.id ids)) [
  | inl lr ↦ elim (Bool-cases (is_listed s.id ids)) [
    | inl ls ↦ index_of-injective r.id s.id ids lr ls (
        omega (
          arith,
          e,
          place_listed start ids r.id r.position d lr,
          place_listed start ids s.id s.position d ls,
        ))
    | inr us ↦ absurd (
        ground (
          arith,
          outs es,
          e,
          place_listed start ids r.id r.position d lr,
          index_of-lt r.id ids lr,
          place_unlisted start ids s.id s.position us,
        ))
  ]
  | inr ur ↦ elim (Bool-cases (is_listed s.id ids)) [
    | inl ls ↦ absurd (
        ground (
          arith,
          outr er,
          e,
          place_listed start ids s.id s.position d ls,
          index_of-lt s.id ids ls,
          place_unlisted start ids r.id r.position ur,
        ))
    | inr us ↦ differ er es (
        sym (place_unlisted start ids r.id r.position ur)
        ∙ e
        ∙ place_unlisted start ids s.id s.position us)
  ]
]

module _ (ts : Table Step) where
  open ts use {Db, rows}

  renumber-NoClash :
      (k start : ℕ) (ids : List ℕ) (db : Db)
      → has_distinct ids ≡ true
      → NoClash k (rows db)
      → All (Outside k start (start + length ids)) (rows db)
      → NoClash k (rows (run_updates ts (updates_from start ids) db))
  unfolding moved_to
  renumber-NoClash k start ids db d apart out = rw (renumber_rows ts start ids db) (
      All-mapped _ _ (rows db) (
        All-both _ _ _ (rows db)
          (λ r differ outr.
            All-mapped (Differ k (moved_to (place start ids r.id r.position) r)) _ (rows db) (
              All-both (Differ k r) (Outside k start (start + length ids)) _ (rows db)
                (λ s differs outs. place-Differ k start ids r s d differs outr outs) differ out))
          apart out))

  -- A phase up to any point, from a position that lies above those of the course's steps, and a
  -- part of the second phase when all steps have moved away.
  phases-NoClash :
      (k base : ℕ) (ids part : List ℕ) (db : Db)
      → has_distinct ids ≡ true
      → has_distinct part ≡ true
      → length part ≤ base
      → NoClash k (rows db)
      → All (λ s. s.program_id ≡ k → s.position < base) (rows db)
      → All (λ s. s.program_id ≡ k → is_listed s.id ids ≡ true) (rows db)
      → NoClash k (rows (run_updates ts (updates_from base part) db))
        × NoClash k (
            rows (run_updates ts (updates_from 0 part) (run_updates ts (updates_from base ids) db)))
  unfolding moved_to
  phases-NoClash k base ids part db d dp small apart below listed = (
    renumber-NoClash k base part db dp apart (All-weaken _ _ (rows db) (λ s h e. inl (h e)) below),
    renumber-NoClash k 0 part (run_updates ts (updates_from base ids) db) dp
        (renumber-NoClash k base ids db d apart
          (All-weaken _ _ (rows db) (λ s h e. inl (h e)) below))
        (rw (renumber_rows ts base ids db) (
          All-mapped _ _ (rows db) (
            All-weaken _ _ (rows db)
              (λ s h e. inr (omega (arith, small, place_listed base ids s.id s.position d (h e))))
              listed))),
  )

  -- After both phases every step of the course is at the place of its id.
  pub phases-index :
      (k : ℕ) (existing : List Step) (ids : List ℕ) (db : Db)
      → has_distinct ids ≡ true
      → All (λ s. s.program_id ≡ k → is_listed s.id ids ≡ true) (rows db)
      → All
          (λ s. s.program_id ≡ k → s.position ≡ index_of s.id ids)
          (rows (two_phases ts existing ids db))
  unfolding moved_to two_phases phase_updates
  phases-index k existing ids db d listed =
      let base = above_all existing + length existing in
      rw
        (
          run_updates-append ts (updates_from base ids) (updates_from 0 ids) db,
          renumber_rows ts 0 ids (run_updates ts (updates_from base ids) db),
          renumber_rows ts base ids db,
        )
        (All-mapped _ _ (map _ (rows db)) (
          All-mapped _ _ (rows db) (
            All-weaken _ _ (rows db)
              (λ s h e.
                place_listed 0 ids s.id (place base ids s.id s.position) d (h e) ∙ omega arith)
              listed)))

  -- The updates of both phases up to any point.
  pub part-NoClash :
      (k n : ℕ) (ids : List ℕ) (db : Db)
      → IsShort ts k db
      → NoClash k (rows db)
      → has_distinct ids ≡ true
      → same_ids ids (ids_of (list_by_program_id ts k db)) ≡ true
      → NoClash k
          (rows (run_updates ts (take n (phase_updates (list_by_program_id ts k db) ids)) db))
  unfolding phase_updates
  part-NoClash k n ids db short apart d same =
      let existing = list_by_program_id ts k db in
      let base = above_all existing + length existing in
      let count = same_ids-length ids existing d same in
      let both : (m : ℕ)
          → NoClash k (rows (run_updates ts (updates_from base (take m ids)) db))
            × NoClash k (
                rows (
                  run_updates ts (updates_from 0 (take m ids))
                    (run_updates ts (updates_from base ids) db))) =
        λ m.
          let (dm, fewer) = has_distinct-take m ids d in
          phases-NoClash k base ids (take m ids) db d dm (omega (arith, count, fewer)) apart
            (All-weaken _ _ (rows db) (λ s h e. omega (arith, h e)) (listing-below ts k db short))
            (listing-listed ts k db ids short same) in
      elim (take-append n (updates_from base ids) (updates_from 0 ids)) [
        | inl first ↦ rw (first, updates_from-take ts n base ids) ((both n).0)
        | inr (m, second) ↦
            rw
              (
                second,
                updates_from-take ts m 0 ids,
                run_updates-append ts (updates_from base ids) (updates_from 0 (take m ids)) db,
              )
              ((both m).1)
      ]
