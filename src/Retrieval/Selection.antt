-- ===== src/Retrieval/Selection.antt =====
-- The choice of the hits from the sorted pool: _reserved_definition_chunks, _dedupe_and_score and
-- _merge_and_score of app/services/ai/retriever.py.
pub mod Limits
pub mod Reserves
pub mod Complete
use onboard_ai.Common.{
  ℕ, zero, suc, ◌+◌, Bool, true, false, ◌&&◌, ◌||◌, not, Option, none, some, List, [], ◌∷◌, ◌++◌,
  map, any, keep, take, length, leb, ◌==◌, is_some, if◌then◌else◌,
}
use onboard_ai.Common.Text.{Text}
use onboard_ai.Retrieval.Sorting.{sort_down}
use onboard_ai.Retrieval.{
  Floats, Chunk, SearchRow, PoolEntry, RetrievalHit, max_chunks_per_article_result,
  definition_reserved, merged_pool, hit_from_pool, below_min, by_score, reserved_lexical_chunks,
}

-- How an entity of a text matches a term: exactly or not, and the rank of its type.
pub record StructuredMatch : Type 0 where
  pub exact : Bool
  pub type_rank : ℕ

-- What a text says of a term, of app/services/ai/retriever.py: _definition_lookup_term of a query,
-- and of a term, a content and a title, _score_definition_candidate and _best_structured_entity_match.
pub record Definitions (fl : Floats) : Type 0 where
  pub lookup_term : Text → Option Text
  pub definition_score : Text → Text → Text → fl.Float
  pub structured_match : Text → Text → Text → Option StructuredMatch

module _ (fl : Floats) where
  open fl use {Float, lt, zero_float}

  -- The loop's variables: the hits, the ids of their chunks, and the number of each article's.
  pub record Chosen : Type 0 where
    pub hits : List (RetrievalHit fl)
    pub seen_ids : List ℕ
    pub seen_article : ℕ → ℕ

  abbrev pub nothing_chosen : Chosen
  nothing_chosen = record { hits = []; seen_ids = []; seen_article = λ k. 0 }

  abbrev pub is_seen : Chosen → ℕ → Bool
  is_seen c k = any (λ j. j == k) c.seen_ids

  -- The article's cap, and the hit.
  pub offer : PoolEntry fl → Chosen → Chosen
  offer e c =
      if leb max_chunks_per_article_result (c.seen_article e.chunk.article_id) then c else (record {
        hits = c.hits ++ hit_from_pool fl e ∷ [];
        seen_ids = c.seen_ids ++ e.chunk.id ∷ [];
        seen_article =
            λ k. if k == e.chunk.article_id then c.seen_article k + 1 else c.seen_article k;
      })

  pub offer_unseen : PoolEntry fl → Chosen → Chosen
  unfolding offer
  offer_unseen e c = if is_seen c e.chunk.id then c else offer e c

  -- The three loops, which stop at `top_k` hits.
  pub choose_definitions : ℕ → List (PoolEntry fl) → Chosen → Chosen
  unfolding offer
  choose_definitions top_k [] c = c
  choose_definitions top_k (e ∷ entries) c =
      let rest = choose_definitions top_k entries (offer e c) in
      if leb top_k (length c.hits) then c else rest

  pub choose_reserved : ℕ → List (PoolEntry fl) → Chosen → Chosen
  unfolding offer_unseen
  choose_reserved top_k [] c = c
  choose_reserved top_k (e ∷ entries) c =
      let rest = choose_reserved top_k entries (offer_unseen e c) in
      if leb top_k (length c.hits) then c else rest

  pub choose_by_score : ℕ → Option Float → List (PoolEntry fl) → Chosen → Chosen
  unfolding offer_unseen
  choose_by_score top_k min_score [] c = c
  choose_by_score top_k min_score (e ∷ entries) c =
      let rest =
        choose_by_score top_k min_score entries
          (if below_min fl min_score e.score then c else offer_unseen e c) in
      if leb top_k (length c.hits) then c else rest

  module _ (defs : Definitions fl) where
    open defs use {lookup_term, definition_score, structured_match}

    -- A candidate of a definition with the keys by which it is ranked.
    pub record Candidate : Type 0 where
      pub has_struct : ℕ
      pub exact : ℕ
      pub type_rank : ℕ
      pub def_score : Float
      pub entry : PoolEntry fl

    pub ranked_candidate : Option StructuredMatch → Float → PoolEntry fl → Candidate
    ranked_candidate none score e = record {
      has_struct = 0;
      exact = 0;
      type_rank = 0;
      def_score = score;
      entry = e;
    }
    ranked_candidate (some m) score e = record {
      has_struct = 1;
      exact = if m.exact then 1 else 0;
      type_rank = m.type_rank;
      def_score = score;
      entry = e;
    }

    pub candidate_of : Text → PoolEntry fl → Candidate
    unfolding ranked_candidate
    candidate_of term e =
        ranked_candidate (structured_match term e.chunk.content e.title)
          (definition_score term e.chunk.content e.title) e

    -- Tuples of numbers and then of floats, as Python compares them.
    pub by_definition : Candidate → Candidate → Bool
    by_definition x y =
        if x.has_struct == y.has_struct
        then (if x.exact == y.exact
            then (if x.type_rank == y.type_rank
                then lt x.def_score y.def_score
                  || (not (lt y.def_score x.def_score) && lt x.entry.score y.entry.score)
                else not (leb y.type_rank x.type_rank))
            else not (leb y.exact x.exact))
        else not (leb y.has_struct x.has_struct)

    pub definitions_of : List (PoolEntry fl) → Option Float → Option Text → List (PoolEntry fl)
    unfolding candidate_of by_definition
    definitions_of sorted_pool min_score none = []
    definitions_of sorted_pool min_score (some term) =
        let entries =
          keep (λ (e : PoolEntry fl). not (below_min fl min_score e.score)) sorted_pool in
        let ranked = keep (λ c. lt zero_float c.def_score) (map (candidate_of term) entries) in
        map (λ (c : Candidate). c.entry) (take definition_reserved (sort_down by_definition ranked))

    pub reserved_definition_chunks : List (PoolEntry fl) → Text → Option Float → List (PoolEntry fl)
    unfolding definitions_of
    reserved_definition_chunks sorted_pool query min_score =
        definitions_of sorted_pool min_score (lookup_term query)

    unfoldable pub dedupe_and_score :
        List (PoolEntry fl) → ℕ → Option Float → Text → List (RetrievalHit fl)
    unfolding choose_definitions choose_reserved choose_by_score reserved_definition_chunks
    dedupe_and_score sorted_pool top_k min_score query =
        let defined =
          choose_definitions top_k (reserved_definition_chunks sorted_pool query min_score)
            nothing_chosen in
        let reserved =
          choose_reserved top_k (reserved_lexical_chunks fl sorted_pool min_score) defined in
        (choose_by_score top_k min_score sorted_pool reserved).hits

    unfoldable pub merge_and_score :
        List (SearchRow fl) → List (SearchRow fl) → ℕ → Option Float → Text → List (RetrievalHit fl)
    unfolding dedupe_and_score
    merge_and_score vector_rows lexical_rows top_k min_score query =
        dedupe_and_score (sort_down (by_score fl) (merged_pool fl vector_rows lexical_rows)) top_k
          min_score query
