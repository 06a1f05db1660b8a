-- ===== src/Retrieval/Selection/Reserves.antt =====
-- Which entries the definitions and the lexical reserve are of.
use onboard_ai.Common.{
  ℕ, ◌≤◌, ◌≡◌, arith, Bool, true, false, Option, none, some, List, [], ◌∷◌, map, keep, take, length,
  All, All-keep, All-take, All-append, All-weaken,
}
use onboard_ai.Common.Text.{Text}
use onboard_ai.Retrieval.Sorting.{sort_down, All-sort_down}
use onboard_ai.Retrieval.{
  Floats, PoolEntry, below_min, by_rank, by_score, strongest_of, reserved_lexical_chunks,
}
use onboard_ai.Retrieval.Selection.{
  Definitions, Candidate, StructuredMatch, ranked_candidate, definitions_of, candidate_of,
  by_definition,
}

module _ (fl : Floats) (Good : PoolEntry fl → Type 0) (min_score : Option (Floats.Float fl))
    (Known : PoolEntry fl → Type 0)
    (know : (e : PoolEntry fl) → Known e → below_min fl min_score e.score ≡ false → Good e) where
  open fl use {Float}

  All-kept :
      (p : PoolEntry fl → Bool) (xs : List (PoolEntry fl))
      → ((e : PoolEntry fl) → p e ≡ true → below_min fl min_score e.score ≡ false)
      → All Known xs
      → All Good (keep p xs)
  All-kept p xs high h =
      All-weaken _ Good _ (λ e k. know e k.0 (high e k.1)) (All-keep Known p xs h)

  strongest_of-All :
      (entries : List (PoolEntry fl)) (articles : List ℕ)
      → All Good entries
      → All Good (strongest_of fl entries articles)
  unfolding strongest_of
  strongest_of-All entries [] h = tt
  strongest_of-All entries (k ∷ articles) h =
      All-append Good _ (strongest_of fl entries articles)
        (All-take Good 1 _ (
          All-sort_down (by_rank fl) Good _
            (All-weaken _ Good _ (λ e k. k.0) (All-keep Good _ entries h))))
        (strongest_of-All entries articles h)

  pub reserved_lexical_chunks-All :
      (sorted_pool : List (PoolEntry fl))
      → All Known sorted_pool
      → All Good (reserved_lexical_chunks fl sorted_pool min_score)
  unfolding reserved_lexical_chunks
  reserved_lexical_chunks-All sorted_pool h =
      All-sort_down (by_score fl) Good _
        (strongest_of-All _ _ (All-kept _ sorted_pool (λ e held. ground (arith, held)) h))

  module _ (defs : Definitions fl) where
    All-candidates :
        (term : Text) (entries : List (PoolEntry fl))
        → All Good entries
        → All (λ (c : Candidate fl defs). Good c.entry) (map (candidate_of fl defs term) entries)
    unfolding candidate_of
    All-candidates term [] h = tt
    All-candidates term (e ∷ entries) h = (
      same_entry (defs.structured_match term e.chunk.content e.title)
          (defs.definition_score term e.chunk.content e.title) e h.0,
      All-candidates term entries h.1,
    )
      where
        same_entry :
            (m : Option StructuredMatch) (score : Float) (x : PoolEntry fl)
            → Good x
            → Good (ranked_candidate fl defs m score x).entry
        same_entry none score x k = k
        same_entry (some m) score x k = k

    All-entries :
        (cs : List (Candidate fl defs))
        → All (λ (c : Candidate fl defs). Good c.entry) cs
        → All Good (map (λ (c : Candidate fl defs). c.entry) cs)
    All-entries [] k = tt
    All-entries (c ∷ cs) k = (k.0, All-entries cs k.1)

    one_entry :
        (cs : List (Candidate fl defs))
        → length (map (λ (c : Candidate fl defs). c.entry) (take 1 cs)) ≤ 1
    one_entry [] = omega arith
    one_entry (c ∷ cs) = omega arith

    pub definitions_of-All :
        (sorted_pool : List (PoolEntry fl)) (term : Option Text)
        → All Known sorted_pool
        → All Good (definitions_of fl defs sorted_pool min_score term)
          × (length (definitions_of fl defs sorted_pool min_score term) ≤ 1)
    unfolding definitions_of
    definitions_of-All sorted_pool none h = (tt, omega arith)
    definitions_of-All sorted_pool (some term) h = (
      All-entries _ (
          All-take _ 1 _ (
            All-sort_down (by_definition fl defs) (λ (c : Candidate fl defs). Good c.entry) _
              (All-weaken _ _ _ (λ c k. k.0)
                (All-keep (λ (c : Candidate fl defs). Good c.entry) _ _
                  (All-candidates term _
                    (All-kept _ sorted_pool (λ e held. ground (arith, held)) h)))))),
      one_entry (sort_down (by_definition fl defs) _),
    )
