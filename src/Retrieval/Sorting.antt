-- ===== src/Retrieval/Sorting.antt =====
-- Python's `sorted(..., reverse=True)`: the largest first, and equals in their order.
use onboard_ai.Common.{Bool, List, [], ◌∷◌, All, Bool-cases, inl, inr, if◌then◌else◌}

module _ {A : Type 0} (less : A → A → Bool) where
  pub insert_down : A → List A → List A
  insert_down x [] = x ∷ []
  insert_down x (y ∷ ys) = if less x y then y ∷ insert_down x ys else x ∷ y ∷ ys

  unfoldable pub sort_down : List A → List A
  unfolding insert_down
  sort_down [] = []
  sort_down (x ∷ xs) = insert_down x (sort_down xs)

  module _ (P : A → Type 0) where
    All-insert_down : (x : A) (ys : List A) → P x → All P ys → All P (insert_down x ys)
    unfolding insert_down
    All-insert_down x [] h hs = (h, tt)
    All-insert_down x (y ∷ ys) h hs = elim (Bool-cases (less x y)) [
      | inl later ↦ rw later (hs.0, All-insert_down x ys h hs.1)
      | inr first ↦ rw first (h, hs)
    ]

    pub All-sort_down : (xs : List A) → All P xs → All P (sort_down xs)
    unfolding sort_down
    All-sort_down [] h = tt
    All-sort_down (x ∷ xs) h = All-insert_down x (sort_down xs) h.0 (All-sort_down xs h.1)

    inserted-All : (x : A) (ys : List A) → All P (insert_down x ys) → P x × All P ys
    unfolding insert_down
    inserted-All x [] h = h
    inserted-All x (y ∷ ys) h = elim (Bool-cases (less x y)) [
      | inr first ↦ rw first at h
      | inl later ↦
          let split : All P (y ∷ insert_down x ys) = rw later at h in
          let rest = inserted-All x ys split.1 in (rest.0, (split.0, rest.1))
    ]

    -- The sorted list has every element of the list.
    pub sorted-All : (xs : List A) → All P (sort_down xs) → All P xs
    unfolding sort_down
    sorted-All [] h = tt
    sorted-All (x ∷ xs) h =
        let split = inserted-All x (sort_down xs) h in (split.0, sorted-All xs split.1)
