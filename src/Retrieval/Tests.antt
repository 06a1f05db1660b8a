-- ===== src/Retrieval/Tests.antt =====
-- Runs of the ranking on scores in hundredths, and the theorems on a small search.
use onboard_ai.Common.{
  ℕ, ◌+◌, ◌-◌, ◌≤◌, ◌≡◌, ◌⊎◌, refl, arith, true, false, none, some, List, [], ◌∷◌, map, length, ltb,
  find, Unique, All,
}
use onboard_ai.Common.Text.{codes}
use onboard_ai.Retrieval.{
  Floats, Chunk, SearchRow, RetrievalHit, union_vector_rows, merged_pool, by_score,
  reserved_lexical_chunks, is_entry_of, below_min,
}
use onboard_ai.Retrieval.Sorting.{sort_down}
use onboard_ai.Retrieval.Selection.{Definitions, merge_and_score}
use onboard_ai.Retrieval.Selection.Limits.{count_of}
use onboard_ai.Retrieval.Pool.{scored, chunk_scored}
use onboard_ai.Retrieval.Ranking.{chunk_of, is_hit, hits_of, hits_within, nothing_left_out}

abbrev pub hundredths : Floats
hundredths = record {
  Float = ℕ;
  lt = ltb;
  add = λ a b. a + b;
  sub = λ a b. a - b;
  zero_float = 0;
  one_float = 100;
  lexical_boost = 15;
  lexical_floor_score = 25;
}

abbrev pub no_definitions : Definitions hundredths
no_definitions = record {
  lookup_term = λ q. none;
  definition_score = λ t c h. 0;
  structured_match = λ t c h. none;
}

abbrev chunk : ℕ → ℕ → Chunk
chunk k article = record {
  id = k;
  article_id = article;
  version_id = 1;
  chunk_index = k;
  content = [];
}

abbrev row : ℕ → ℕ → ℕ → SearchRow hundredths
row k article value = record { chunk = chunk k article; value = value; title = codes "Leave" }

abbrev vectors : List (SearchRow hundredths)
vectors = row 1 7 20 ∷ row 2 7 30 ∷ row 3 7 40 ∷ row 4 8 90 ∷ []

abbrev lexicals : List (SearchRow hundredths)
lexicals = row 3 7 5 ∷ row 5 8 2 ∷ []

-- The nearer of two rows is kept.
unites :
    union_vector_rows hundredths (vectors ∷ (row 2 7 10 ∷ row 1 7 50 ∷ []) ∷ [])
    ≡ row 1 7 20 ∷ row 2 7 10 ∷ row 3 7 40 ∷ row 4 8 90 ∷ []
unfolding union_vector_rows
unites = refl

-- The third chunk of an article is left out, although it is nearer than those of the other one.
ranks :
    map
      (λ (h : RetrievalHit hundredths). h.chunk_id)
      (merge_and_score hundredths no_definitions vectors lexicals 3 none [])
    ≡ 3 ∷ 5 ∷ 1 ∷ []
unfolding merge_and_score sort_down merged_pool by_score reserved_lexical_chunks
ranks = refl

abbrev found : List (RetrievalHit hundredths)
found = hits_of hundredths no_definitions vectors lexicals 3 (some 30) []

hits_within_example :
    (length found ≤ 3)
    × Unique (λ (h : RetrievalHit hundredths). h.chunk_id) found
    × ((k : ℕ) → count_of hundredths k found ≤ 2)
    × All
        (λ h.
          ((chunk_of hundredths h).version_id ≡ 1)
          × (below_min hundredths (some 30) h.score ≡ false))
        found
hits_within_example =
    hits_within hundredths no_definitions vectors lexicals 3 (some 30) [] (λ c. c.version_id ≡ 1)
      (refl, (refl, (refl, (refl, tt)))) (refl, (refl, tt))

nothing_left_out_example :
    All
      (λ e.
        (is_hit hundredths found e.chunk.id ≡ true)
        ⊎ (3 ≤ length found)
        ⊎ (2 ≤ count_of hundredths e.chunk.article_id found)
        ⊎ (below_min hundredths (some 30) e.score ≡ true))
      (merged_pool hundredths vectors lexicals)
nothing_left_out_example =
    nothing_left_out hundredths no_definitions vectors lexicals 3 (some 30) []

chunk_scored_example :
    find (is_entry_of hundredths 3) (merged_pool hundredths vectors lexicals)
    ≡ scored hundredths (some (row 3 7 40)) (some (row 3 7 5))
chunk_scored_example = chunk_scored hundredths 3 vectors lexicals (omega arith) (omega arith)
