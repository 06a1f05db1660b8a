-- ===== src/Retrieval/Pool.antt =====
-- The pool of both searches: each chunk is once in it, with the score of the searches that found it.
use onboard_ai.Common.{
  ℕ, ◌≡◌, refl, ap, ◌∙◌, inl, inr, arith, Option, none, some, List, [], ◌∷◌, find, ◌==◌, ==_iff,
  All, All-find, All-true, subst, Unique, Differs, Bool-cases, Option-cases, if◌then◌else◌,
}
use onboard_ai.Retrieval.{
  Floats, Chunk, SearchRow, PoolEntry, is_row_of, is_entry_of, put_entry, vector_entry,
  lexical_entry, cosine_similarity_score, add_vector_rows, add_lexical_rows, merged_pool,
}

module _ (fl : Floats) where
  -- The chunks of the pool are those of the rows.
  module _ (P : Chunk → Type 0) where
    All-put_entry :
        (e : PoolEntry fl) (pool : List (PoolEntry fl))
        → P e.chunk
        → All (λ x. P x.chunk) pool
        → All (λ x. P x.chunk) (put_entry fl e pool)
    unfolding put_entry
    All-put_entry e [] h k = (h, tt)
    All-put_entry e (x ∷ xs) h k = elim (Bool-cases (x.chunk.id == e.chunk.id)) [
      | inl same ↦ rw same (h, k.1)
      | inr other ↦ rw other (k.0, All-put_entry e xs h k.1)
    ]

    All-find_entry :
        (j : ℕ) (pool : List (PoolEntry fl)) {e : PoolEntry fl}
        → All (λ x. P x.chunk) pool
        → find (is_entry_of fl j) pool ≡ some e
        → P e.chunk
    All-find_entry j pool h found =
        (All-find (λ (x : PoolEntry fl). P x.chunk) (is_entry_of fl j) pool h found).0

    All-lexical_entry :
        (r : SearchRow fl) (pool : List (PoolEntry fl))
        → P r.chunk
        → All (λ x. P x.chunk) pool
        → P (lexical_entry fl (find (is_entry_of fl r.chunk.id) pool) r).chunk
    unfolding lexical_entry
    All-lexical_entry r pool h k = elim (Option-cases (find (is_entry_of fl r.chunk.id) pool)) [
      | inl missing ↦ rw missing h
      | inr (e, found) ↦ rw found (All-find_entry r.chunk.id pool k found)
    ]

    All-add_vector_rows :
        (rows : List (SearchRow fl)) (pool : List (PoolEntry fl))
        → All (λ r. P r.chunk) rows
        → All (λ x. P x.chunk) pool
        → All (λ x. P x.chunk) (add_vector_rows fl rows pool)
    unfolding add_vector_rows
    All-add_vector_rows [] pool h k = k
    All-add_vector_rows (r ∷ rows) pool h k =
        All-add_vector_rows rows _ h.1 (All-put_entry (vector_entry fl r) pool h.0 k)

    All-add_lexical_rows :
        (rows : List (SearchRow fl)) (pool : List (PoolEntry fl))
        → All (λ r. P r.chunk) rows
        → All (λ x. P x.chunk) pool
        → All (λ x. P x.chunk) (add_lexical_rows fl rows pool)
    unfolding add_lexical_rows
    All-add_lexical_rows [] pool h k = k
    All-add_lexical_rows (r ∷ rows) pool h k =
        All-add_lexical_rows rows _ h.1 (All-put_entry _ pool (All-lexical_entry r pool h.0 k) k)

    pub merged_pool-All :
        (vector_rows lexical_rows : List (SearchRow fl))
        → All (λ r. P r.chunk) vector_rows
        → All (λ r. P r.chunk) lexical_rows
        → All (λ x. P x.chunk) (merged_pool fl vector_rows lexical_rows)
    unfolding merged_pool
    merged_pool-All vector_rows lexical_rows h k =
        All-add_lexical_rows lexical_rows _ k (All-add_vector_rows vector_rows [] h tt)

  find-put_entry :
      (k : ℕ) (e : PoolEntry fl) (pool : List (PoolEntry fl))
      → find (is_entry_of fl k) (put_entry fl e pool)
        ≡ (if e.chunk.id == k then some e else find (is_entry_of fl k) pool)
  unfolding put_entry
  find-put_entry k e [] = refl
  find-put_entry k e (x ∷ xs) = ground (arith, find-put_entry k e xs)

  -- What the searches say of a chunk: the score of its vector, with the boost once if its text was
  -- found too, or the floor.
  unfoldable pub scored : Option (SearchRow fl) → Option (SearchRow fl) → Option (PoolEntry fl)
  unfolding cosine_similarity_score
  scored none none = none
  scored (some v) none = some (record {
    chunk = v.chunk;
    score = cosine_similarity_score fl v.value;
    title = v.title;
    lexical_rank = none;
  })
  scored none (some l) = some (record {
    chunk = l.chunk;
    score = fl.lexical_floor_score;
    title = l.title;
    lexical_rank = some l.value;
  })
  scored (some v) (some l) = some (record {
    chunk = v.chunk;
    score = fl.add (cosine_similarity_score fl v.value) fl.lexical_boost;
    title = v.title;
    lexical_rank = some l.value;
  })

  unlisted :
      (k : ℕ) (rows : List (SearchRow fl))
      → Differs (λ (r : SearchRow fl). r.chunk.id) k rows
      → find (is_row_of fl k) rows ≡ none
  unlisted k [] d = refl
  unlisted k (r ∷ rows) d = ground (arith, d.0, unlisted k rows d.1)

  abbrev over_vector : Option (SearchRow fl) → Option (PoolEntry fl) → Option (PoolEntry fl)
  unfolding vector_entry
  over_vector none before = before
  over_vector (some r) before = some (vector_entry fl r)

  abbrev over_lexical : Option (SearchRow fl) → Option (PoolEntry fl) → Option (PoolEntry fl)
  unfolding lexical_entry
  over_lexical none before = before
  over_lexical (some r) before = some (lexical_entry fl before r)

  find-add_vector_rows :
      (k : ℕ) (rows : List (SearchRow fl)) (pool : List (PoolEntry fl))
      → Unique (λ (r : SearchRow fl). r.chunk.id) rows
      → find (is_entry_of fl k) (add_vector_rows fl rows pool)
        ≡ over_vector (find (is_row_of fl k) rows) (find (is_entry_of fl k) pool)
  unfolding add_vector_rows vector_entry
  find-add_vector_rows k [] pool u = refl
  find-add_vector_rows k (r ∷ rows) pool u = elim (Bool-cases (r.chunk.id == k)) [
    | inl same ↦
        let here : r.chunk.id ≡ k = (==_iff r.chunk.id k).0 same in
        find-add_vector_rows k rows (put_entry fl (vector_entry fl r) pool) u.1
        ∙ rw
            (
              unlisted k rows
                  (subst (λ j. Differs (λ (x : SearchRow fl). x.chunk.id) j rows) here u.0),
              find-put_entry k (vector_entry fl r) pool,
              same,
            )
            refl
    | inr other ↦
        find-add_vector_rows k rows (put_entry fl (vector_entry fl r) pool) u.1
        ∙ rw (find-put_entry k (vector_entry fl r) pool, other) refl
  ]

  lexical_entry-id :
      (r : SearchRow fl) (pool : List (PoolEntry fl))
      → (lexical_entry fl (find (is_entry_of fl r.chunk.id) pool) r).chunk.id ≡ r.chunk.id
  unfolding lexical_entry
  lexical_entry-id r pool = elim (Option-cases (find (is_entry_of fl r.chunk.id) pool)) [
    | inl missing ↦ rw missing refl
    | inr (e, found) ↦ rw found (
        (==_iff e.chunk.id r.chunk.id).0
          (All-find (λ (x : PoolEntry fl). Unit {0}) (is_entry_of fl r.chunk.id) pool
            (All-true _ pool (λ x. tt)) found).1)
  ]

  find-add_lexical_rows :
      (k : ℕ) (rows : List (SearchRow fl)) (pool : List (PoolEntry fl))
      → Unique (λ (r : SearchRow fl). r.chunk.id) rows
      → find (is_entry_of fl k) (add_lexical_rows fl rows pool)
        ≡ over_lexical (find (is_row_of fl k) rows) (find (is_entry_of fl k) pool)
  unfolding add_lexical_rows
  find-add_lexical_rows k [] pool u = refl
  find-add_lexical_rows k (r ∷ rows) pool u =
      let new = lexical_entry fl (find (is_entry_of fl r.chunk.id) pool) r in
      let step = find-add_lexical_rows k rows (put_entry fl new pool) u.1 in
      elim (Bool-cases (r.chunk.id == k)) [
        | inl same ↦
            let here : r.chunk.id ≡ k = (==_iff r.chunk.id k).0 same in
            step
            ∙ rw
                (
                  unlisted k rows
                      (subst (λ j. Differs (λ (x : SearchRow fl). x.chunk.id) j rows) here u.0),
                  find-put_entry k new pool,
                  lexical_entry-id r pool,
                  same,
                )
                (ap (λ j. some (lexical_entry fl (find (is_entry_of fl j) pool) r)) here)
        | inr other ↦ step ∙ rw (find-put_entry k new pool, lexical_entry-id r pool, other) refl
      ]

  -- Where a search has a chunk at most once, the pool has for each chunk what both searches say of
  -- it: nothing, the score of its vector, the floor, or the score with the boost, added once.
  pub chunk_scored :
      (k : ℕ) (vector_rows lexical_rows : List (SearchRow fl))
      → Unique (λ (r : SearchRow fl). r.chunk.id) vector_rows
      → Unique (λ (r : SearchRow fl). r.chunk.id) lexical_rows
      → find (is_entry_of fl k) (merged_pool fl vector_rows lexical_rows)
        ≡ scored (find (is_row_of fl k) vector_rows) (find (is_row_of fl k) lexical_rows)
  unfolding merged_pool scored lexical_entry vector_entry
  chunk_scored k vector_rows lexical_rows u w =
      find-add_lexical_rows k lexical_rows (add_vector_rows fl vector_rows []) w
      ∙ ap (over_lexical (find (is_row_of fl k) lexical_rows))
          (find-add_vector_rows k vector_rows [] u)
      ∙ both (find (is_row_of fl k) vector_rows) (find (is_row_of fl k) lexical_rows)
    where
      both : (v l : Option (SearchRow fl)) → over_lexical l (over_vector v none) ≡ scored v l
      both none none = refl
      both (some v) none = refl
      both none (some l) = refl
      both (some v) (some l) = refl
