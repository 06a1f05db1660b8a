-- ===== src/Store.antt =====
-- The database table as the repositories use it (app/repositories/base.py and the statements that
-- they build): an interface to PostgreSQL through SQLAlchemy, which the sources only call.
-- `rows` reads the rows that a transaction sees; the laws state what the documented statements do.
pub mod Memory
pub mod Laws
use mathlib.Core.Option
use onboard_ai.Common.{
  not, ◌&&◌, ℕ, ◌≤◌, ◌≡◌, Bool, true, false, List, [], ◌∷◌, ◌++◌, map, Option, none, some, keep,
  find, any, length, All, if◌then◌else◌,
}

-- `UPDATE ... SET f WHERE p`, on one row.
abbrev pub set_if {ℓ} : {A : Type ℓ} → (A → Bool) → (A → A) → A → A
set_if p f x = if p x then f x else x

pub record Table (Row : Type 0) : Type 1 where
  pub Db : Type 0
  pub rows : Db → List Row
  -- `SELECT ... WHERE p`, and the first row of it (`.first()`).
  pub select : (Row → Bool) → Db → List Row
  pub first : (Row → Bool) → Db → Option Row
  -- `UPDATE ... SET f WHERE p RETURNING *`.
  pub update : (Row → Bool) → (Row → Row) → Db → Db × List Row
  -- `INSERT ... ON CONFLICT (p) DO NOTHING RETURNING *`: `p` holds of the rows that conflict.
  pub insert : (Row → Bool) → Row → Db → Db × Option Row
  pub select_lem : (p : Row → Bool) (db : Db) → select p db ≡ keep p (rows db)
  pub first_lem : (p : Row → Bool) (db : Db) → first p db ≡ find p (rows db)
  pub update_rows :
      (p : Row → Bool) (f : Row → Row) (db : Db)
      → rows (update p f db).0 ≡ map (set_if p f) (rows db)
  pub update_returning :
      (p : Row → Bool) (f : Row → Row) (db : Db) → (update p f db).1 ≡ map f (keep p (rows db))
  pub insert_fresh :
      (p : Row → Bool) (r : Row) (db : Db)
      → any p (rows db) ≡ false
      → (rows (insert p r db).0 ≡ rows db ++ r ∷ []) × ((insert p r db).1 ≡ some r)
  pub insert_conflict :
      (p : Row → Bool) (r : Row) (db : Db)
      → any p (rows db) ≡ true
      → (rows (insert p r db).0 ≡ rows db) × ((insert p r db).1 ≡ none)
  -- `INSERT ... ON CONFLICT (p) DO UPDATE SET f WHERE q RETURNING *`.
  pub upsert : (Row → Bool) → (Row → Bool) → (Row → Row) → Row → Db → Db × Option Row
  pub upsert_fresh :
      (p q : Row → Bool) (f : Row → Row) (r : Row) (db : Db)
      → any p (rows db) ≡ false
      → (rows (upsert p q f r db).0 ≡ rows db ++ r ∷ []) × ((upsert p q f r db).1 ≡ some r)
  pub upsert_conflict :
      (p q : Row → Bool) (f : Row → Row) (r : Row) (db : Db)
      → any p (rows db) ≡ true
      → (rows (upsert p q f r db).0 ≡ map (set_if (λ x. p x && q x) f) (rows db))
        × ((upsert p q f r db).1 ≡ Option.map f (find (λ x. p x && q x) (rows db)))
  -- `DELETE ... WHERE p`, and the number of rows.
  pub delete : (Row → Bool) → Db → Db × ℕ
  pub delete_rows :
      (p : Row → Bool) (db : Db) → rows (delete p db).0 ≡ keep (λ r. not (p r)) (rows db)
  pub delete_count : (p : Row → Bool) (db : Db) → (delete p db).1 ≡ length (keep p (rows db))
