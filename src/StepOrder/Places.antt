-- ===== src/StepOrder/Places.antt =====
-- Where a renumbering puts a step: the place of its id in the list.
use onboard_ai.Common.{
  ℕ, zero, suc, ◌+◌, ◌<◌, ◌≤◌, ◌≡◌, ◌⊎◌, ap, ◌++◌, take, ◌∙◌, refl, sym, subst, inl, inr, arith,
  true, false, List, [], ◌∷◌, map, length, ◌==◌, ==_iff, Bool-cases, if◌then◌else◌,
}
use onboard_ai.Store.{Table, set_if}
use onboard_ai.Course.{Step}
use onboard_ai.StepOrder.{is_listed, has_distinct, moved_to, updates_from, run_updates}

-- The position of the id `k` after updates from `start` on, if it was `p` before.
pub place : ℕ → List ℕ → ℕ → ℕ → ℕ
place start [] k p = p
place start (j ∷ ids) k p = place (start + 1) ids k (if k == j then start else p)

-- The number of ids before `k`.
unfoldable pub index_of : ℕ → List ℕ → ℕ
index_of k [] = 0
index_of k (j ∷ ids) = let rest = index_of k ids in if k == j then 0 else suc rest

pub place_unlisted :
    (start : ℕ) (ids : List ℕ) (k p : ℕ) → is_listed k ids ≡ false → place start ids k p ≡ p
unfolding place
place_unlisted start [] k p h = refl
place_unlisted start (j ∷ ids) k p h =
    let other : (k == j) ≡ false = ground (arith, h) in
    rw other (place_unlisted (start + 1) ids k p (ground (arith, h)))

-- A listed id goes to its place in the list.
pub place_listed :
    (start : ℕ) (ids : List ℕ) (k p : ℕ)
    → has_distinct ids ≡ true
    → is_listed k ids ≡ true
    → place start ids k p ≡ start + index_of k ids
unfolding place index_of has_distinct
place_listed start [] k p d h = cc
place_listed start (j ∷ ids) k p d h = elim (Bool-cases (k == j)) [
  | inl same ↦
      let gone : is_listed k ids ≡ false =
        subst (λ i. is_listed i ids ≡ false) (sym ((==_iff k j).0 same)) (ground (arith, d)) in
      rw same (place_unlisted (start + 1) ids k start gone ∙ omega arith)
  | inr other ↦ rw other (
      place_listed (start + 1) ids k p (ground (arith, d)) (ground (arith, h, other)) ∙ omega arith)
]

pub index_of-lt : (k : ℕ) (ids : List ℕ) → is_listed k ids ≡ true → index_of k ids < length ids
unfolding index_of
index_of-lt k [] h = cc
index_of-lt k (j ∷ ids) h = ground (arith, h, index_of-lt k ids)

-- Different ids have different places.
pub index_of-injective :
    (j k : ℕ) (ids : List ℕ)
    → is_listed j ids ≡ true
    → is_listed k ids ≡ true
    → index_of j ids ≡ index_of k ids
    → j ≡ k
unfolding index_of
index_of-injective j k [] h g e = cc
index_of-injective j k (i ∷ ids) h g e = ground (arith, h, g, e, index_of-injective j k ids)

module _ (ts : Table Step) where
  open ts use {Db, rows, update}

  set_place :
      (start : ℕ) (k : ℕ) (ids : List ℕ) (xs : List Step)
      → map
          (λ (s : Step). moved_to (place (start + 1) ids s.id s.position) s)
          (map (set_if (λ x. x.id == k) (moved_to start)) xs)
        ≡ map (λ (s : Step). moved_to (place start (k ∷ ids) s.id s.position) s) xs
  unfolding place moved_to
  set_place start k ids [] = refl
  set_place start k ids (x ∷ xs) = elim (Bool-cases (x.id == k)) [
    | inl hit ↦ rw (hit, set_place start k ids xs) refl
    | inr miss ↦ rw (miss, set_place start k ids xs) refl
  ]

  moved_same : (xs : List Step) → map (λ (s : Step). moved_to s.position s) xs ≡ xs
  unfolding moved_to
  moved_same [] = refl
  moved_same (x ∷ xs) = rw (moved_same xs) refl

  -- The run of one phase moves every step to its place.
  pub renumber_rows :
      (start : ℕ) (ids : List ℕ) (db : Db)
      → rows (run_updates ts (updates_from start ids) db)
        ≡ map (λ (s : Step). moved_to (place start ids s.id s.position) s) (rows db)
  unfolding run_updates updates_from place
  renumber_rows start [] db = sym (moved_same (rows db))
  renumber_rows start (k ∷ ids) db =
      renumber_rows (start + 1) ids (update (λ x. x.id == k) (moved_to start) db).0
      ∙ rw (ts.update_rows (λ x. x.id == k) (moved_to start) db) (set_place start k ids (rows db))

  -- The updates of a phase up to any point are those of a part of its ids.
  pub updates_from-take :
      (n start : ℕ) (ids : List ℕ)
      → take n (updates_from start ids) ≡ updates_from start (take n ids)
  unfolding updates_from
  updates_from-take zero start ids = refl
  updates_from-take (suc n) start [] = refl
  updates_from-take (suc n) start (k ∷ ids) =
      ap (λ us. (k, start) ∷ us) (updates_from-take n (start + 1) ids)

  pub run_updates-append :
      (xs ys : List (ℕ × ℕ)) (db : Db)
      → run_updates ts (xs ++ ys) db ≡ run_updates ts ys (run_updates ts xs db)
  unfolding run_updates
  run_updates-append [] ys db = refl
  run_updates-append ((k, position) ∷ xs) ys db =
      run_updates-append xs ys (update (λ x. x.id == k) (moved_to position) db).0

-- A part of a list that joins two ends in the first, or in the second after all of the first.
pub take-append :
    {A : Type 0} (n : ℕ) (xs ys : List A)
    → (take n (xs ++ ys) ≡ take n xs) ⊎ ((m : ℕ) × (take n (xs ++ ys) ≡ xs ++ take m ys))
take-append n [] ys = inr (n, refl)
take-append zero (x ∷ xs) ys = inl refl
take-append (suc n) (x ∷ xs) ys = elim (take-append n xs ys) [
  | inl first ↦ inl (ap (λ zs. x ∷ zs) first)
  | inr (m, second) ↦ inr (m, ap (λ zs. x ∷ zs) second)
]

listed-take : (k n : ℕ) (ids : List ℕ) → is_listed k ids ≡ false → is_listed k (take n ids) ≡ false
listed-take k zero ids h = refl
listed-take k (suc n) [] h = refl
listed-take k (suc n) (j ∷ ids) h = ground (arith, h, listed-take k n ids)

pub has_distinct-take :
    (n : ℕ) (ids : List ℕ)
    → has_distinct ids ≡ true
    → (has_distinct (take n ids) ≡ true) × (length (take n ids) ≤ length ids)
unfolding has_distinct
has_distinct-take zero ids d = (refl, omega arith)
has_distinct-take (suc n) [] d = (refl, omega arith)
has_distinct-take (suc n) (j ∷ ids) d =
    let rest = has_distinct-take n ids (ground (arith, d)) in
    (ground (arith, d, rest, listed-take j n ids), omega (arith, rest.1))
