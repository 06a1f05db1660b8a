-- ===== src/Store/Laws.antt =====
-- What the laws of a table give: for a predicate that every row has, and for the row that a query
-- finds.
use mathlib.Core.Option
use mathlib.Core.Option.{Option}
use onboard_ai.Common.{
  All-true, none, ap, ◌∙◌, ◌≡◌, refl, Bool, true, false, ◌&&◌, List, map, some, arith, find, keep,
  any, All, All-map, All-append, All-find, Bool-cases, inl, inr, ◌++◌, ◌∷◌, [], none≢some,
}
use onboard_ai.Store.{Table, set_if}

module _ {Row : Type 0} (t : Table Row) where
  open t use {
    Db, rows, first, update, insert, first_lem, update_rows, insert_fresh, insert_conflict, upsert,
    upsert_fresh, upsert_conflict,
  }

  -- An update keeps what the changed rows keep.
  pub All-update {κ} :
      (P : Row → Type κ) (p : Row → Bool) (f : Row → Row) (db : Db)
      → ((r : Row) → P r → p r ≡ true → P (f r))
      → All P (rows db)
      → All P (rows (update p f db).0)
  All-update P p f db step h =
      rw (update_rows p f db) (All-map P (set_if p f) (rows db) (λ r k. one r k) h)
    where
      one : (r : Row) → P r → P (set_if p f r)
      one r k = elim (Bool-cases (p r)) [ inl hit ↦ rw hit (step r k hit) | inr miss ↦ rw miss k ]

  pub All-insert {κ} :
      (P : Row → Type κ) (p : Row → Bool) (r : Row) (db : Db)
      → P r
      → All P (rows db)
      → All P (rows (insert p r db).0)
  All-insert P p r db new h = elim (Bool-cases (any p (rows db))) [
    | inl taken ↦ rw ((insert_conflict p r db taken).0) h
    | inr fresh ↦ rw ((insert_fresh p r db fresh).0) (All-append P (rows db) (r ∷ []) h (new, tt))
  ]

  -- What `.first()` finds passes the test, and has what all rows have.
  pub All-first {κ} :
      (P : Row → Type κ) (p : Row → Bool) (db : Db) {r : Row}
      → All P (rows db)
      → first p db ≡ some r
      → P r × (p r ≡ true)
  All-first P p db h e = All-find P p (rows db) h (rw first_lem at e)

  -- An update may rest on a second fact about the rows.
  pub All-update_zip {κ κ'} :
      (P : Row → Type κ) (K : Row → Type κ') (p : Row → Bool) (f : Row → Row) (db : Db)
      → ((r : Row) → P r → K r → p r ≡ true → P (f r))
      → All P (rows db)
      → All K (rows db)
      → All P (rows (update p f db).0)
  All-update_zip P K p f db step h k = rw (update_rows p f db) (change (rows db) h k)
    where
      one : (r : Row) → P r → K r → P (set_if p f r)
      one r x y = elim (Bool-cases (p r)) [
        | inl hit ↦ rw hit (step r x y hit)
        | inr miss ↦ rw miss x
      ]

      change : (xs : List Row) → All P xs → All K xs → All P (map (set_if p f) xs)
      change [] x y = tt
      change (r ∷ xs) x y = (one r x.0 y.0, change xs x.1 y.1)

  find-map :
      (p : Row → Bool) (g : Row → Row) (xs : List Row)
      → ((r : Row) → p (g r) ≡ p r)
      → find p (map g xs) ≡ Option.map g (find p xs)
  find-map p g [] same = refl
  find-map p g (r ∷ xs) same = ground (arith, same r, find-map p g xs same)

  -- The row found after an update that does not change what is searched by.
  pub first-update :
      (p q : Row → Bool) (f : Row → Row) (db : Db)
      → ((r : Row) → p (f r) ≡ p r)
      → first p (update q f db).0 ≡ Option.map (set_if q f) (first p db)
  first-update p q f db same =
      rw (first_lem, first_lem, update_rows) (find-map p (set_if q f) (rows db) keeps)
    where
      keeps : (r : Row) → p (set_if q f r) ≡ p r
      keeps r = elim (Bool-cases (q r)) [ inl hit ↦ rw hit (same r) | inr miss ↦ rw miss refl ]

  -- A found row that the update passes over is found again as it was.
  pub first-update_miss :
      (p q : Row → Bool) (f : Row → Row) (db : Db) {r : Row}
      → ((r : Row) → p (f r) ≡ p r)
      → first p db ≡ some r
      → q r ≡ false
      → first p (update q f db).0 ≡ some r
  first-update_miss p q f db same found miss = rw (first-update p q f db same, found, miss)

  find-append :
      (p : Row → Bool) (xs ys : List Row) {r : Row}
      → find p xs ≡ some r
      → find p (xs ++ ys) ≡ some r
  find-append p [] ys e = absurd (none≢some e)
  find-append p (x ∷ xs) ys {r = r} e = ground (arith, find-append p xs ys {r = r})

  -- An insertion hides no row.
  pub first-insert :
      (p q : Row → Bool) (x : Row) (db : Db) {r : Row}
      → first p db ≡ some r
      → first p (insert q x db).0 ≡ some r
  first-insert p q x db found = elim (Bool-cases (any q (rows db))) [
    | inl taken ↦ rw (first_lem, (insert_conflict q x db taken).0) (rw first_lem at found)
    | inr fresh ↦
        rw (first_lem, (insert_fresh q x db fresh).0)
          (find-append p (rows db) (x ∷ []) (rw first_lem at found))
  ]

  -- The first row of `UPDATE ... RETURNING`.
  pub first_returned :
      (p : Row → Bool) (f : Row → Row) (xs : List Row)
      → find (λ r. true) (map f (keep p xs)) ≡ Option.map f (find p xs)
  first_returned p f [] = refl
  first_returned p f (x ∷ xs) = ground (arith, first_returned p f xs)

  -- Among the rows that pass `p`, the first that passes `q` as well.
  pub find_both :
      (p q : Row → Bool) (xs : List Row) {r : Row}
      → find p xs ≡ some r
      → q r ≡ true
      → find (λ x. p x && q x) xs ≡ some r
  find_both p q [] e h = absurd (none≢some e)
  find_both p q (x ∷ xs) {r = r} e h = ground (arith, find_both p q xs {r = r})

  pub any-find : (p : Row → Bool) (xs : List Row) {m : Row} → find p xs ≡ some m → any p xs ≡ true
  any-find p [] e = absurd (none≢some e)
  any-find p (x ∷ xs) {m = m} e = ground (arith, any-find p xs {m = m})

  pub not_any-find : (p : Row → Bool) (xs : List Row) → find p xs ≡ none → any p xs ≡ false
  not_any-find p [] e = refl
  not_any-find p (x ∷ xs) e = ground (arith, not_any-find p xs)

  -- An upsert keeps what the new row and the changed rows have.
  pub All-upsert {κ} :
      (P : Row → Type κ) (p q : Row → Bool) (f : Row → Row) (new : Row) (db : Db)
      → P new
      → ((r : Row) → P r → q r ≡ true → P (f r))
      → All P (rows db)
      → All P (rows (upsert p q f new db).0)
  All-upsert P p q f new db start step h = elim (Bool-cases (any p (rows db))) [
    | inr fresh ↦
        rw ((upsert_fresh p q f new db fresh).0) (All-append P (rows db) (new ∷ []) h (start, tt))
    | inl taken ↦
        rw ((upsert_conflict p q f new db taken).0)
          (All-map P (set_if (λ x. p x && q x) f) (rows db) (λ r k. one r k) h)
  ]
    where
      one : (r : Row) → P r → P (set_if (λ x. p x && q x) f r)
      one r k = elim (Bool-cases (p r && q r)) [
        | inl hit ↦ rw hit (step r k (ground (arith, hit)))
        | inr miss ↦ rw miss k
      ]

  find_passes : (p : Row → Bool) (xs : List Row) {r : Row} → find p xs ≡ some r → p r ≡ true
  find_passes p xs e = (All-find (λ x. Unit {0}) p xs (All-true _ xs (λ x. tt)) e).1

  pub first_passes : (p : Row → Bool) (db : Db) {r : Row} → first p db ≡ some r → p r ≡ true
  first_passes p db e = find_passes p (rows db) (rw first_lem at e)

  -- A found row that an upsert may not change is found again as it was.
  pub first-upsert_miss :
      (k p q : Row → Bool) (f : Row → Row) (new : Row) (db : Db) {r : Row}
      → ((r : Row) → k (f r) ≡ k r)
      → first k db ≡ some r
      → (p r && q r) ≡ false
      → first k (upsert p q f new db).0 ≡ some r
  first-upsert_miss k p q f new db {r = r} same found miss = elim (Bool-cases (any p (rows db))) [
    | inr fresh ↦
        rw (first_lem, (upsert_fresh p q f new db fresh).0)
          (find-append k (rows db) (new ∷ []) (rw first_lem at found))
    | inl taken ↦
        rw (first_lem, (upsert_conflict p q f new db taken).0)
          (find-map k (set_if (λ x. p x && q x) f) (rows db) keeps
            ∙ ap (Option.map (set_if (λ x. p x && q x) f)) (rw first_lem at found)
            ∙ rw miss)
  ]
    where
      keeps : (x : Row) → k (set_if (λ x. p x && q x) f x) ≡ k x
      keeps x = elim (Bool-cases (p x && q x)) [
        | inl hit ↦ rw hit (same x)
        | inr gone ↦ rw gone refl
      ]

  -- A found row that the upsert changes is found again, changed.
  pub first-upsert_hit :
      (p q : Row → Bool) (f : Row → Row) (new : Row) (db : Db) {r : Row}
      → ((r : Row) → p (f r) ≡ p r)
      → first p db ≡ some r
      → q r ≡ true
      → first p (upsert p q f new db).0 ≡ some (f r)
  first-upsert_hit p q f new db {r = r} same found hit =
      rw (first_lem, (upsert_conflict p q f new db (any-find p (rows db) was)).0)
        (find-map p (set_if (λ x. p x && q x) f) (rows db) keeps
          ∙ ap (Option.map (set_if (λ x. p x && q x) f)) was
          ∙ rw ((find_passes p (rows db) was), hit))
    where
      was : find p (rows db) ≡ some r
      was = rw first_lem at found

      keeps : (x : Row) → p (set_if (λ x. p x && q x) f x) ≡ p x
      keeps x = elim (Bool-cases (p x && q x)) [
        | inl yes_x ↦ rw yes_x (same x)
        | inr no_x ↦ rw no_x refl
      ]

  pub find-snoc :
      (p : Row → Bool) (x : Row) (xs : List Row)
      → any p xs ≡ false
      → p x ≡ true
      → find p (xs ++ x ∷ []) ≡ some x
  find-snoc p x [] h e = rw e
  find-snoc p x (y ∷ ys) h e = ground (arith, find-snoc p x ys (ground arith) e)

  -- A row that is inserted without a conflict is found by what it conflicts on.
  pub first-insert_new :
      (p : Row → Bool) (x : Row) (db : Db)
      → any p (rows db) ≡ false
      → p x ≡ true
      → first p (insert p x db).0 ≡ some x
  first-insert_new p x db h e =
      rw (first_lem, (insert_fresh p x db h).0) (find-snoc p x (rows db) h e)
