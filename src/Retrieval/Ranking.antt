-- ===== src/Retrieval/Ranking.antt =====
-- What merge_and_score of app/services/ai/retriever.py promises of its hits.
use onboard_ai.Common.{
  ℕ, ◌≤◌, ◌≡◌, ◌⊎◌, sym, ap, ◌∙◌, subst, inl, inr, arith, Bool, true, false, Option, List, any,
  length, ◌==◌, All, All-weaken, All-true, Unique,
}
use onboard_ai.Common.Text.{Text}
use onboard_ai.Retrieval.Sorting.{sort_down, All-sort_down, sorted-All}
use onboard_ai.Retrieval.{
  Floats, Chunk, SearchRow, PoolEntry, RetrievalHit, merged_pool, below_min, by_score,
}
use onboard_ai.Retrieval.Pool.{merged_pool-All}
use onboard_ai.Retrieval.Selection.{Chosen, Definitions, merge_and_score}
use onboard_ai.Retrieval.Selection.Limits.{IsWithin, count_of, any-ids, dedupe_and_score-IsWithin}
use onboard_ai.Retrieval.Selection.Complete.{Settled}

module _ (fl : Floats) where
  -- The chunk that a hit shows.
  abbrev pub chunk_of : RetrievalHit fl → Chunk
  chunk_of h = record {
    id = h.chunk_id;
    article_id = h.article_id;
    version_id = h.version_id;
    chunk_index = h.chunk_index;
    content = h.content;
  }

  abbrev pub is_hit : List (RetrievalHit fl) → ℕ → Bool
  is_hit hits k = any (λ (h : RetrievalHit fl). h.chunk_id == k) hits

  module _ (defs : Definitions fl) (vector_rows lexical_rows : List (SearchRow fl)) (top_k : ℕ)
      (min_score : Option fl.Float) (query : Text) where
    abbrev pub hits_of : List (RetrievalHit fl)
    hits_of = merge_and_score fl defs vector_rows lexical_rows top_k min_score query

    ranked :
        (P : Chunk → Type 0)
        → All (λ (r : SearchRow fl). P r.chunk) vector_rows
        → All (λ (r : SearchRow fl). P r.chunk) lexical_rows
        → (c : Chosen fl) × (hits_of ≡ c.hits)
          × IsWithin fl
              (λ (e : PoolEntry fl). P e.chunk × (below_min fl min_score e.score ≡ false))
              (λ h. P (chunk_of h) × (below_min fl min_score h.score ≡ false))
              (λ e g. g)
              top_k
              c
          × All
              (Settled fl top_k min_score c)
              (sort_down (by_score fl) (merged_pool fl vector_rows lexical_rows))
    unfolding merge_and_score
    ranked P hv hl =
        dedupe_and_score-IsWithin fl _ _ _ top_k min_score (λ (e : PoolEntry fl). P e.chunk)
          (λ e k high. (k, high)) defs _ query
          (All-sort_down (by_score fl) _ _ (merged_pool-All fl P vector_rows lexical_rows hv hl))

    -- Whatever the searches return and the texts say of the query: there are no more hits than were asked for,
    -- no chunk is twice among them, an article has two of them at most, and each is a chunk that a
    -- search returned, as it was, with a score that is not below the least.
    pub hits_within :
        (P : Chunk → Type 0)
        → All (λ (r : SearchRow fl). P r.chunk) vector_rows
        → All (λ (r : SearchRow fl). P r.chunk) lexical_rows
        → (length hits_of ≤ top_k)
          × Unique (λ (h : RetrievalHit fl). h.chunk_id) hits_of
          × ((k : ℕ) → count_of fl k hits_of ≤ 2)
          × All (λ h. P (chunk_of h) × (below_min fl min_score h.score ≡ false)) hits_of
    hits_within P hv hl =
        let (c, same, w, _) = ranked P hv hl in
        subst
          (λ hits.
            (length hits ≤ top_k)
            × Unique (λ (h : RetrievalHit fl). h.chunk_id) hits
            × ((k : ℕ) → count_of fl k hits ≤ 2)
            × All (λ h. P (chunk_of h) × (below_min fl min_score h.score ≡ false)) hits)
          (sym same) (w.few, w.unique, w.capped, w.fine)

    -- No chunk is left out for nothing: every chunk of the pool is among the hits, or there are as many
    -- hits as were asked for, or two of its article, or its score is below the least.
    pub nothing_left_out :
        All
          (λ e.
            (is_hit hits_of e.chunk.id ≡ true)
            ⊎ (top_k ≤ length hits_of)
            ⊎ (2 ≤ count_of fl e.chunk.article_id hits_of)
            ⊎ (below_min fl min_score e.score ≡ true))
          (merged_pool fl vector_rows lexical_rows)
    nothing_left_out =
        let (c, same, w, settled) =
          ranked (λ x. Unit {0}) (All-true _ vector_rows (λ r. tt))
            (All-true _ lexical_rows (λ r. tt)) in
        subst
          (λ hits.
            All
              (λ e.
                (is_hit hits e.chunk.id ≡ true)
                ⊎ (top_k ≤ length hits)
                ⊎ (2 ≤ count_of fl e.chunk.article_id hits)
                ⊎ (below_min fl min_score e.score ≡ true))
              (merged_pool fl vector_rows lexical_rows))
          (sym same)
          (All-weaken _ _ _
            (λ e s. elim s [
              | inl chosen ↦ inl (
                  sym (any-ids fl e.chunk.id c.hits)
                  ∙ ap (any (λ j. j == e.chunk.id)) (sym w.seen)
                  ∙ chosen)
              | inr (inl complete) ↦ inr (inl complete)
              | inr (inr (inl two)) ↦
                  inr (inr (inl (omega (arith, two, w.counted e.chunk.article_id))))
              | inr (inr (inr low)) ↦ inr (inr (inr low))
            ])
            (sorted-All (by_score fl) _ _ settled))
