-- ===== src/Retrieval/Retrieving/Searches.antt =====
-- Both searches find chunks of current versions of published articles, among those allowed.
use onboard_ai.Common.{
  ℕ, ◌≡◌, refl, sym, subst, inl, inr, arith, Bool, true, ◌&&◌, ◌||◌, Option, none, some, List, [],
  ◌∷◌, map, keep, take, ◌==◌, holds, All, All-keep, All-take, All-true, All-weaken, Bool-cases,
  Option-cases, ok, >>=-ok, ok-injective,
}
use onboard_ai.Common.Text.{Text}
use onboard_ai.Store.{Table}
use onboard_ai.Knowledge.{is_published, Article, Tables, State, get_article_row}
use onboard_ai.Retrieval.{Floats, Chunk, SearchRow, RetrievalHit}
use onboard_ai.Retrieval.Ranking.{chunk_of, hits_within}
use onboard_ai.Retrieval.Selection.{Definitions}
use onboard_ai.Retrieval.Retrieving.{
  Engine, is_among, is_searched, search_similar, search_lexical, vectors_for, lexical_rows_for,
  vector_article_ids, search_allowed,
}
use onboard_ai.Retrieval.Union.{All-union}

module _ (fl : Floats) (defs : Definitions fl) (engine : Engine fl) (t : Tables) (tc : Table Chunk)
    (chunks : tc.Db) (s : State t) where
  -- The chunk is of the current version of a published article with one of the ids.
  abbrev pub IsCurrent : List ℕ → Chunk → Type 0
  IsCurrent ids c =
      (is_among ids c.article_id ≡ true)
      × ((a : Article) × (get_article_row t c.article_id s ≡ some a)
          × (a.current_version_id ≡ some c.version_id))

  holds-some : (o : Option ℕ) (k : ℕ) → holds o k ≡ true → o ≡ some k
  holds-some none k h = cc
  holds-some (some j) k h = ground arith

  is_searched-IsCurrent :
      (ids : List ℕ) (c : Chunk)
      → is_searched fl defs engine t tc chunks s ids c ≡ true
      → IsCurrent ids c
  unfolding is_searched
  is_searched-IsCurrent ids c h = elim (Option-cases (get_article_row t c.article_id s)) [
    | inl missing ↦ absurd (ground (arith, rw missing at h))
    | inr (a, found) ↦
        let joined : (is_among ids c.article_id
              && (is_published a.status && holds a.current_version_id c.version_id))
            ≡ true =
          rw found at h in
        (
          ground (arith, joined),
          (a, found, holds-some a.current_version_id c.version_id (ground (arith, joined))),
        )
  ]

  module _
      (in_order_chooses : (P : SearchRow fl → Type 0) (xs : List (SearchRow fl))
        → All P xs
        → All P (engine.in_order xs)) where
    -- A statement's rows: those that pass its test, in some order, up to its limit.
    searched :
        (ids : List ℕ) (p : Chunk → Bool) (f : Chunk → SearchRow fl) (limit : ℕ)
        → ((c : Chunk) → (f c).chunk ≡ c)
        → ((c : Chunk) → p c ≡ true → is_searched fl defs engine t tc chunks s ids c ≡ true)
        → All
            (λ (r : SearchRow fl). IsCurrent ids r.chunk)
            (take limit (engine.in_order (map f (tc.select p chunks))))
    searched ids p f limit same guarded =
        All-take (λ (r : SearchRow fl). IsCurrent ids r.chunk) limit _
          (in_order_chooses _ _ (
            rw tc.select_lem (
              rows_of _ (
                All-weaken _ (IsCurrent ids) _ (λ c k. is_searched-IsCurrent ids c (guarded c k.1))
                  (All-keep (λ c. Unit {0}) p (tc.rows chunks) (All-true _ _ (λ c. tt)))))))
      where
        rows_of :
            (xs : List Chunk)
            → All (IsCurrent ids) xs
            → All (λ (r : SearchRow fl). IsCurrent ids r.chunk) (map f xs)
        rows_of [] h = tt
        rows_of (c ∷ xs) h = (subst (IsCurrent ids) (sym (same c)) h.0, rows_of xs h.1)

    similar-All :
        (ids : List ℕ) (v : engine.Vector) (limit : ℕ)
        → All
            (λ (r : SearchRow fl). IsCurrent ids r.chunk)
            (search_similar fl defs engine t tc chunks s ids v limit)
    unfolding search_similar
    similar-All ids v limit = searched ids _ _ limit (λ c. refl) (λ c k. ground (arith, k))

    lexical-All :
        (ids : List ℕ) (wanted : Option Text)
        → All
            (λ (r : SearchRow fl). IsCurrent ids r.chunk)
            (lexical_rows_for fl defs engine t tc chunks s ids wanted)
    unfolding lexical_rows_for search_lexical
    lexical-All ids none = tt
    lexical-All ids (some wanted) = searched ids _ _ 10 (λ c. refl) (λ c k. ground (arith, k))

    groups-All :
        (ids : List ℕ) (limit : ℕ) (vectors : List engine.Vector)
        → All
            (All (λ (r : SearchRow fl). IsCurrent ids r.chunk))
            (map (λ v. search_similar fl defs engine t tc chunks s ids v limit) vectors)
    groups-All ids limit [] = tt
    groups-All ids limit (v ∷ vectors) = (similar-All ids v limit, groups-All ids limit vectors)

    among_kept :
        (p : Article → Bool) (k : ℕ) (xs : List Article)
        → is_among (map (λ (a : Article). a.id) (keep p xs)) k ≡ true
        → is_among (map (λ (a : Article). a.id) xs) k ≡ true
    among_kept p k [] h = h
    among_kept p k (x ∷ xs) h = elim (Bool-cases (p x)) [
      | inl held ↦
          let kept : (x.id == k || is_among (map (λ (a : Article). a.id) (keep p xs)) k) ≡ true =
            rw held at h in
          ground (arith, kept, among_kept p k xs)
      | inr not_held ↦ ground (arith, among_kept p k xs (rw not_held at h))
    ]

    pub search_allowed-All :
        (allowed : List Article) (query embed_text : Text) (top_k : ℕ) (min_score : Option fl.Float)
        (hits : List (RetrievalHit fl))
        → search_allowed fl defs engine t tc chunks s allowed query embed_text top_k min_score
          ≡ ok hits
        → All
            (λ (h : RetrievalHit fl).
              IsCurrent (map (λ (a : Article). a.id) allowed) (chunk_of fl h))
            hits
    unfolding search_allowed vector_article_ids
    search_allowed-All allowed query embed_text top_k min_score hits h =
        let (vectors, _, last) =
          >>=-ok
            (vectors_for fl defs engine t tc chunks s
              (vector_article_ids fl defs engine t tc chunks s allowed)
              (engine.embed_texts query embed_text))
            _ h in
        let (few, unique, capped, fine) =
          hits_within fl defs _ _ top_k min_score query
            (IsCurrent (map (λ (a : Article). a.id) allowed))
            (All-union fl _ _ (
              widen _
                (groups-All (vector_article_ids fl defs engine t tc chunks s allowed) _ vectors)))
            (lexical-All (map (λ (a : Article). a.id) allowed) (engine.tsquery query)) in
        subst
          (All (λ (x : RetrievalHit fl).
            IsCurrent (map (λ (a : Article). a.id) allowed) (chunk_of fl x)))
          (ok-injective last) (All-weaken _ _ _ (λ x k. k.0) fine)
      where
        widen :
            (groups : List (List (SearchRow fl)))
            → All
                (All (λ (r : SearchRow fl).
                  IsCurrent (vector_article_ids fl defs engine t tc chunks s allowed) r.chunk))
                groups
            → All
                (All
                  (λ (r : SearchRow fl). IsCurrent (map (λ (a : Article). a.id) allowed) r.chunk))
                groups
        widen groups k =
            All-weaken _ _ groups
              (λ rows j.
                All-weaken _ _ rows (λ r c. (among_kept _ r.chunk.article_id allowed c.0, c.1)) j)
              k
