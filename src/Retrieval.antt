-- ===== src/Retrieval.antt =====
-- The ranking of app/services/ai/retriever.py: the union of the vector searches, the pool of both
-- searches with its hybrid scores, and the choice of the hits. Python's floats are a parameter, and
-- so is what a text says of a term (its regular expressions), for which any answers will do.
pub mod Sorting
pub mod Pool
pub mod Union
pub mod Selection
pub mod Ranking
pub mod Retrieving
mod Tests
use onboard_ai.Common.{
  ℕ, zero, suc, ◌+◌, Bool, true, false, ◌&&◌, ◌||◌, not, Option, none, some, List, [], ◌∷◌, ◌++◌,
  map, any, find, keep, take, length, leb, ◌==◌, is_some, if◌then◌else◌,
}
use onboard_ai.Common.Text.{Text}
use onboard_ai.Retrieval.Sorting.{sort_down}

-- Python's floats: the comparison and the operations that the scores use.
pub record Floats : Type 1 where
  pub Float : Type 0
  pub lt : Float → Float → Bool
  pub add : Float → Float → Float
  pub sub : Float → Float → Float
  pub zero_float : Float
  pub one_float : Float
  pub lexical_boost : Float
  pub lexical_floor_score : Float

abbrev pub max_chunks_per_article_result : ℕ
max_chunks_per_article_result = 2

abbrev pub lexical_reserved_per_article : ℕ
lexical_reserved_per_article = 1

abbrev pub definition_reserved : ℕ
definition_reserved = 1

pub record Chunk : Type 0 where
  pub id : ℕ
  pub article_id : ℕ
  pub version_id : ℕ
  pub chunk_index : ℕ
  pub content : Text

module _ (fl : Floats) where
  open fl use {Float, lt, add, sub, zero_float, one_float, lexical_boost, lexical_floor_score}

  -- A row of a search: the chunk, its distance or its rank, and the title of its article.
  pub record SearchRow : Type 0 where
    pub chunk : Chunk
    pub value : Float
    pub title : Text

  pub record PoolEntry : Type 0 where
    pub chunk : Chunk
    pub score : Float
    pub title : Text
    pub lexical_rank : Option Float

  pub record RetrievalHit : Type 0 where
    pub chunk_id : ℕ
    pub article_id : ℕ
    pub version_id : ℕ
    pub chunk_index : ℕ
    pub article_title : Text
    pub content : Text
    pub score : Float

  abbrev pub is_row_of : ℕ → SearchRow → Bool
  is_row_of k r = r.chunk.id == k

  abbrev pub is_entry_of : ℕ → PoolEntry → Bool
  is_entry_of k e = e.chunk.id == k

  -- `best[chunk.id] = row`: a dict keeps the place of a key that it has.
  pub put_row : SearchRow → List SearchRow → List SearchRow
  put_row r [] = r ∷ []
  put_row r (x ∷ xs) = if x.chunk.id == r.chunk.id then r ∷ xs else x ∷ put_row r xs

  -- A row is kept if there is none of its chunk, or if it is nearer.
  pub keep_nearer : Option SearchRow → SearchRow → List SearchRow → List SearchRow
  unfolding put_row
  keep_nearer none r best = put_row r best
  keep_nearer (some current) r best = if lt r.value current.value then put_row r best else best

  pub nearer_row : List SearchRow → SearchRow → List SearchRow
  unfolding keep_nearer
  nearer_row best r = keep_nearer (find (is_row_of r.chunk.id) best) r best

  pub nearer_rows : List SearchRow → List SearchRow → List SearchRow
  unfolding nearer_row
  nearer_rows best [] = best
  nearer_rows best (r ∷ rows) = nearer_rows (nearer_row best r) rows

  pub nearer_groups : List SearchRow → List (List SearchRow) → List SearchRow
  unfolding nearer_rows
  nearer_groups best [] = best
  nearer_groups best (rows ∷ groups) = nearer_groups (nearer_rows best rows) groups

  unfoldable pub union_vector_rows : List (List SearchRow) → List SearchRow
  unfolding nearer_groups
  union_vector_rows groups = nearer_groups [] groups

  -- `max(0.0, min(1.0, 1.0 - distance))`, where Python returns the first of two equals.
  pub cosine_similarity_score : Float → Float
  cosine_similarity_score distance =
      let near =
        (if lt (sub one_float distance) one_float then sub one_float distance else one_float) in
      if lt zero_float near then near else zero_float

  pub put_entry : PoolEntry → List PoolEntry → List PoolEntry
  put_entry e [] = e ∷ []
  put_entry e (x ∷ xs) = if x.chunk.id == e.chunk.id then e ∷ xs else x ∷ put_entry e xs

  pub vector_entry : SearchRow → PoolEntry
  unfolding cosine_similarity_score
  vector_entry r = record {
    chunk = r.chunk;
    score = cosine_similarity_score r.value;
    title = r.title;
    lexical_rank = none;
  }

  -- The entry of a row of the text search, beside what the pool has of its chunk.
  pub lexical_entry : Option PoolEntry → SearchRow → PoolEntry
  lexical_entry none r = record {
    chunk = r.chunk;
    score = lexical_floor_score;
    title = r.title;
    lexical_rank = some r.value;
  }
  lexical_entry (some e) r = record e {
    score = add e.score lexical_boost;
    lexical_rank = some r.value;
  }

  pub add_vector_rows : List SearchRow → List PoolEntry → List PoolEntry
  unfolding put_entry vector_entry
  add_vector_rows [] pool = pool
  add_vector_rows (r ∷ rows) pool = add_vector_rows rows (put_entry (vector_entry r) pool)

  pub add_lexical_rows : List SearchRow → List PoolEntry → List PoolEntry
  unfolding put_entry lexical_entry
  add_lexical_rows [] pool = pool
  add_lexical_rows (r ∷ rows) pool =
      add_lexical_rows rows (put_entry (lexical_entry (find (is_entry_of r.chunk.id) pool) r) pool)

  unfoldable pub merged_pool : List SearchRow → List SearchRow → List PoolEntry
  unfolding add_vector_rows add_lexical_rows
  merged_pool vector_rows lexical_rows =
      add_lexical_rows lexical_rows (add_vector_rows vector_rows [])

  abbrev pub hit_from_pool : PoolEntry → RetrievalHit
  hit_from_pool e = record {
    chunk_id = e.chunk.id;
    article_id = e.chunk.article_id;
    version_id = e.chunk.version_id;
    chunk_index = e.chunk.chunk_index;
    article_title = e.title;
    content = e.chunk.content;
    score = e.score;
  }

  -- `min_score is not None and score < min_score`
  abbrev pub below_min : Option Float → Float → Bool
  below_min none score = false
  below_min (some least) score = lt score least

  -- Both keys of `(lexical_rank, score)`, as Python compares tuples.
  pub by_rank : PoolEntry → PoolEntry → Bool
  by_rank x y = elim x.lexical_rank [
    | none ↦ false
    | some i ↦ elim y.lexical_rank [
      | none ↦ false
      | some j ↦ lt i j || (not (lt j i) && lt x.score y.score)
    ]
  ]

  pub by_score : PoolEntry → PoolEntry → Bool
  by_score x y = lt x.score y.score

  -- The articles of the text hits, in the order in which they first come.
  pub articles_of : List PoolEntry → List ℕ → List ℕ
  articles_of [] seen = seen
  articles_of (e ∷ entries) seen =
      articles_of entries
        (if any (λ k. k == e.chunk.article_id) seen then seen else seen ++ e.chunk.article_id ∷ [])

  pub strongest_of : List PoolEntry → List ℕ → List PoolEntry
  unfolding by_rank
  strongest_of entries [] = []
  strongest_of entries (k ∷ articles) =
      take lexical_reserved_per_article
        (sort_down by_rank (keep (λ e. e.chunk.article_id == k) entries))
      ++ strongest_of entries articles

  unfoldable pub reserved_lexical_chunks : List PoolEntry → Option Float → List PoolEntry
  unfolding articles_of strongest_of by_score
  reserved_lexical_chunks sorted_pool min_score =
      let entries =
        keep (λ e. is_some e.lexical_rank && not (below_min min_score e.score)) sorted_pool in
      sort_down by_score (strongest_of entries (articles_of entries []))
