-- ===== src/Store/Memory.antt =====
-- A table that is the list of its rows: the laws of the interface can be met, and tests run on it.
use mathlib.Core.Option
use onboard_ai.Common.{
  not, length, ◌&&◌, ◌≡◌, refl, Bool, true, false, List, [], ◌∷◌, ◌++◌, map, Option, none, some,
  keep, find, any, if◌then◌else◌,
}
use onboard_ai.Store.{Table, set_if}

module _ {Row : Type 0} where
  abbrev pub insert_row : (Row → Bool) → Row → List Row → List Row × Option Row
  insert_row p r xs = if any p xs then (xs, none) else (xs ++ r ∷ [], some r)

  pub insert_row_fresh :
      (p : Row → Bool) (r : Row) (xs : List Row)
      → any p xs ≡ false
      → ((insert_row p r xs).0 ≡ xs ++ r ∷ []) × ((insert_row p r xs).1 ≡ some r)
  insert_row_fresh p r xs h = rw h (refl, refl)

  pub insert_row_conflict :
      (p : Row → Bool) (r : Row) (xs : List Row)
      → any p xs ≡ true
      → ((insert_row p r xs).0 ≡ xs) × ((insert_row p r xs).1 ≡ none)
  insert_row_conflict p r xs h = rw h (refl, refl)

  abbrev pub upsert_row :
      (Row → Bool) → (Row → Bool) → (Row → Row) → Row → List Row → List Row × Option Row
  upsert_row p q f r xs =
      if any p xs
      then (map (set_if (λ x. p x && q x) f) xs, Option.map f (find (λ x. p x && q x) xs))
      else (xs ++ r ∷ [], some r)

  pub upsert_row_fresh :
      (p q : Row → Bool) (f : Row → Row) (r : Row) (xs : List Row)
      → any p xs ≡ false
      → ((upsert_row p q f r xs).0 ≡ xs ++ r ∷ []) × ((upsert_row p q f r xs).1 ≡ some r)
  upsert_row_fresh p q f r xs h = rw h (refl, refl)

  pub upsert_row_conflict :
      (p q : Row → Bool) (f : Row → Row) (r : Row) (xs : List Row)
      → any p xs ≡ true
      → ((upsert_row p q f r xs).0 ≡ map (set_if (λ x. p x && q x) f) xs)
        × ((upsert_row p q f r xs).1 ≡ Option.map f (find (λ x. p x && q x) xs))
  upsert_row_conflict p q f r xs h = rw h (refl, refl)

abbrev pub memory : (Row : Type 0) → Table Row
memory Row = record {
  Db = List Row;
  rows = λ xs. xs;
  select = λ p xs. keep p xs;
  first = λ p xs. find p xs;
  update = λ p f xs. (map (set_if p f) xs, map f (keep p xs));
  insert = λ p r xs. insert_row p r xs;
  select_lem = λ p xs. refl;
  first_lem = λ p xs. refl;
  update_rows = λ p f xs. refl;
  update_returning = λ p f xs. refl;
  insert_fresh = insert_row_fresh;
  insert_conflict = insert_row_conflict;
  upsert = λ p q f r xs. upsert_row p q f r xs;
  upsert_fresh = upsert_row_fresh;
  upsert_conflict = upsert_row_conflict;
  delete = λ p xs. (keep (λ x. not (p x)) xs, length (keep p xs));
  delete_rows = λ p xs. refl;
  delete_count = λ p xs. refl;
}
