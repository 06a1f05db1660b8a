-- ===== src/StepOrder/Listing.antt =====
-- What the listing of a course's steps tells about the table, for courses that one listing holds.
use onboard_ai.Common.{
  ℕ, zero, suc, ◌≤◌, ◌<◌, ◌≡◌, refl, subst, inl, inr, arith, true, false, List, [], ◌∷◌, all, take,
  keep, length, All, All-weaken, leb, ◌==◌, ==_iff, Bool-cases, clash, if◌then◌else◌,
}
use onboard_ai.Store.{Table}
use onboard_ai.Course.{Step, list_limit}
use onboard_ai.Course.Snapshot.{insert_step, sort_steps}
use onboard_ai.StepOrder.{is_listed, has_distinct, same_ids, above_all, ids_of, list_by_program_id}

take_all : (n : ℕ) (xs : List Step) → length xs ≤ n → take n xs ≡ xs
take_all zero [] h = refl
take_all zero (x ∷ xs) h = absurd (omega (arith, h))
take_all (suc n) [] h = refl
take_all (suc n) (x ∷ xs) h = rw (take_all n xs (omega (arith, h))) refl

All-insert_step :
    (P : Step → Type 0) (x : Step) (ys : List Step) → All P (insert_step x ys) → P x × All P ys
unfolding insert_step
All-insert_step P x [] h = h
All-insert_step P x (y ∷ ys) h = elim (Bool-cases (leb x.position y.position)) [
  | inl first ↦ rw first at h
  | inr later ↦
      let split : All P (y ∷ insert_step x ys) = rw later at h in
      let rest = All-insert_step P x ys split.1 in (rest.0, (split.0, rest.1))
]

All-sort_steps : (P : Step → Type 0) (xs : List Step) → All P (sort_steps xs) → All P xs
unfolding sort_steps
All-sort_steps P [] h = tt
All-sort_steps P (x ∷ xs) h =
    let split = All-insert_step P x (sort_steps xs) h in (split.0, All-sort_steps P xs split.1)

length-insert_step : (x : Step) (ys : List Step) → length (insert_step x ys) ≡ suc (length ys)
unfolding insert_step
length-insert_step x [] = refl
length-insert_step x (y ∷ ys) = elim (Bool-cases (leb x.position y.position)) [
  | inl first ↦ rw first refl
  | inr later ↦ rw later (omega (arith, length-insert_step x ys))
]

length-sort_steps : (xs : List Step) → length (sort_steps xs) ≡ length xs
unfolding sort_steps
length-sort_steps [] = refl
length-sort_steps (x ∷ xs) =
    omega (arith, length-insert_step x (sort_steps xs), length-sort_steps xs)

All-keep :
    (P : Step → Type 0) (k : ℕ) (xs : List Step)
    → All P (keep (λ s. s.program_id == k) xs)
    → All (λ s. s.program_id ≡ k → P s) xs
All-keep P k [] h = tt
All-keep P k (x ∷ xs) h = elim (Bool-cases (x.program_id == k)) [
  | inl mine ↦
      let split : P x × All P (keep (λ s. s.program_id == k) xs) = rw mine at h in
      (λ _. split.0, All-keep P k xs split.1)
  | inr other ↦
      (λ e. absurd (clash other ((==_iff x.program_id k).1 e)), All-keep P k xs (rw other at h))
]

above_all-lt : (xs : List Step) → All (λ s. s.position < above_all xs) xs
unfolding above_all
above_all-lt [] = tt
above_all-lt (x ∷ xs) = (omega arith, All-weaken _ _ xs (λ s h. omega (arith, h)) (above_all-lt xs))

-- The list without the first `k`.
drop_id : ℕ → List ℕ → List ℕ
drop_id k [] = []
drop_id k (y ∷ ys) = if k == y then ys else y ∷ drop_id k ys

length-drop_id :
    (k : ℕ) (ys : List ℕ) → is_listed k ys ≡ true → suc (length (drop_id k ys)) ≡ length ys
unfolding drop_id
length-drop_id k [] h = cc
length-drop_id k (y ∷ ys) h = ground (arith, h, length-drop_id k ys)

listed-drop_id :
    (j k : ℕ) (ys : List ℕ)
    → (j == k) ≡ false
    → is_listed j ys ≡ true
    → is_listed j (drop_id k ys) ≡ true
unfolding drop_id
listed-drop_id j k [] other h = cc
listed-drop_id j k (y ∷ ys) other h = ground (arith, other, h, listed-drop_id j k ys other)

all-drop_id :
    (k : ℕ) (ids ys : List ℕ)
    → is_listed k ids ≡ false
    → all (λ x. is_listed x ys) ids ≡ true
    → all (λ x. is_listed x (drop_id k ys)) ids ≡ true
all-drop_id k [] ys new h = refl
all-drop_id k (i ∷ ids) ys new h =
    ground (arith, new, h, listed-drop_id i k ys, all-drop_id k ids ys)

-- Different ids of a list are no more than its length.
distinct_length :
    (ids ys : List ℕ)
    → has_distinct ids ≡ true
    → all (λ x. is_listed x ys) ids ≡ true
    → length ids ≤ length ys
unfolding has_distinct
distinct_length [] ys d h = omega arith
distinct_length (k ∷ ids) ys d h =
    let new : is_listed k ids ≡ false = ground (arith, d) in
    let fewer =
      distinct_length ids (drop_id k ys) (ground (arith, d))
        (all-drop_id k ids ys new (ground (arith, h))) in
    omega (arith, fewer, length-drop_id k ys (ground (arith, h)))

length-ids_of : (xs : List Step) → length (ids_of xs) ≡ length xs
length-ids_of [] = refl
length-ids_of (x ∷ xs) = omega (arith, length-ids_of xs)

all-ids_of :
    (ids : List ℕ) (xs : List Step)
    → all (λ y. is_listed y ids) (ids_of xs) ≡ true
    → All (λ (s : Step). is_listed s.id ids ≡ true) xs
all-ids_of ids [] h = tt
all-ids_of ids (x ∷ xs) h = (ground (arith, h), all-ids_of ids xs (ground (arith, h)))

pub same_ids-length :
    (ids : List ℕ) (existing : List Step)
    → has_distinct ids ≡ true
    → same_ids ids (ids_of existing) ≡ true
    → length ids ≤ length existing
unfolding same_ids
same_ids-length ids existing d h =
    omega
      (arith, distinct_length ids (ids_of existing) d (ground (arith, h)), length-ids_of existing)

module _ (ts : Table Step) (k : ℕ) (db : ts.Db) where
  -- One listing holds the steps of the course.
  abbrev pub IsShort : Type 0
  IsShort = length (ts.select (λ x. x.program_id == k) db) ≤ list_limit

  listed-All :
      (P : Step → Type 0)
      → IsShort
      → All P (list_by_program_id ts k db)
      → All (λ s. s.program_id ≡ k → P s) (ts.rows db)
  unfolding list_by_program_id
  listed-All P short h =
      let found = ts.select (λ x. x.program_id == k) db in
      let whole = take_all list_limit (sort_steps found) (rw (length-sort_steps found) short) in
      let each = All-sort_steps P found (subst (All P) whole h) in
      All-keep P k (ts.rows db) (subst (All P) (ts.select_lem (λ x. x.program_id == k) db) each)

  pub listing-below :
      IsShort
      → All
          (λ s. s.program_id ≡ k → s.position < above_all (list_by_program_id ts k db))
          (ts.rows db)
  listing-below short = listed-All _ short (above_all-lt (list_by_program_id ts k db))

  pub listing-listed :
      (ids : List ℕ)
      → IsShort
      → same_ids ids (ids_of (list_by_program_id ts k db)) ≡ true
      → All (λ s. s.program_id ≡ k → is_listed s.id ids ≡ true) (ts.rows db)
  unfolding same_ids
  listing-listed ids short h =
      listed-All _ short (all-ids_of ids (list_by_program_id ts k db) (ground (arith, h)))
