-- ===== src/Retrieval/Retrieving.antt =====
-- KnowledgeRetriever.retrieve of app/services/ai/retriever.py with the searches of
-- app/repositories/knowledge_article_chunk.py, over the tables of articles and chunks. What other
-- systems compute is a parameter: the vectors, PostgreSQL's distances and text search, and the order
-- and the index columns by which its statements choose rows.
pub mod Allowed
pub mod Searches
pub mod Readable
pub mod Paging
pub mod Pages
mod Tests
use onboard_ai.Common.{
  ℕ, zero, suc, ◌+◌, ◌*◌, min, max, Bool, true, false, ◌&&◌, ◌||◌, not, Option, none, some, List,
  [], ◌∷◌, ◌++◌, map, any, keep, take, drop, length, ltb, leb, ◌==◌, holds, is_some, if◌then◌else◌,
  Result, ok, err, not_found, forbidden, validation, ◌>>=◌, ◌>>◌, require,
}
use onboard_ai.Common.Text.{Text, strip}
use onboard_ai.Access.{Role}
use onboard_ai.Store.{Table}
use onboard_ai.Knowledge.{
  published, is_published, Article, Version, Tables, State, get_article_row, current_version,
}
use onboard_ai.Knowledge.Reading.{list_articles}
use onboard_ai.Retrieval.{
  Floats, Chunk, SearchRow, RetrievalHit, max_chunks_per_article_result, union_vector_rows,
}
use onboard_ai.Retrieval.Selection.{Definitions, merge_and_score}

abbrev pub article_list_page : ℕ
article_list_page = 1000

abbrev pub max_retrieval_query_chars : ℕ
max_retrieval_query_chars = 2000

abbrev pub max_retrieval_top_k : ℕ
max_retrieval_top_k = 20

abbrev pub max_retrieval_candidates : ℕ
max_retrieval_candidates = 100

abbrev pub lexical_overfetch : ℕ
lexical_overfetch = 10

-- `k in ids`
abbrev pub is_among : List ℕ → ℕ → Bool
is_among ids k = any (λ j. j == k) ids

pub validate_query : Text → Result Text
validate_query query = do
  require (not (length (strip query) == 0)) validation
  require (leb (length (strip query)) max_retrieval_query_chars) validation
  ok (strip query)

-- What the retriever asks other systems: the vectors of texts, none where they do not have the
-- dimension of the index; a chunk's distance from a vector; whether and how well a text search
-- finds it; which versions the index has, in the order of a statement; and the texts to embed and
-- to search for a query, with a text to embed beside it.
pub record Engine (fl : Floats) : Type 1 where
  pub Vector : Type 0
  pub embed : List Text → Result (List Vector)
  pub distance : Vector → Chunk → fl.Float
  pub text_rank : Text → Chunk → fl.Float
  pub matches : Text → Chunk → Bool
  pub is_compatible : Version → Bool
  pub is_indexed : Version → Bool
  pub in_order : List (SearchRow fl) → List (SearchRow fl)
  pub embed_texts : Text → Text → List Text
  pub tsquery : Text → Option Text

abbrev pub is_usable : Article → Bool
is_usable a = is_published a.status && is_some a.current_version_id

-- `embedding_query` or the query, and the check of a company that the caller names.
pub embedding_text : Option Text → Text → Result Text
unfolding validate_query
embedding_text none query = ok query
embedding_text (some other) query = validate_query other

pub is_own_company : Option ℕ → ℕ → Bool
is_own_company none company_id = true
is_own_company (some claimed) company_id = claimed == company_id

module _ (t : Tables) (newest_first : List Article → List Article) (company_id : ℕ) (role : Role)
    (employee_id : ℕ) (s : State t) where
  pub article_page : ℕ → Result (List Article)
  article_page offset =
      list_articles t (λ xs. take article_list_page (drop offset (newest_first xs)))
        (some published) company_id company_id (some role) (some employee_id) s

  -- The `while` loop; each round that goes on has passed a full page.
  pub allowed_from : ℕ → ℕ → Result (List Article)
  unfolding article_page
  allowed_from zero offset = ok []
  allowed_from (suc fuel) offset = do
    page ← article_page offset
    let rest = allowed_from fuel (offset + article_list_page)
    (if ltb (length page) article_list_page
        then ok (keep is_usable page)
        else (rest >>= λ others. ok (keep is_usable page ++ others)))

  pub allowed_published_articles : Result (List Article)
  unfolding allowed_from
  allowed_published_articles = allowed_from (suc (length (t.articles.rows s.articles))) 0

module _ (fl : Floats) (defs : Definitions fl) (engine : Engine fl) (t : Tables) (tc : Table Chunk)
    (chunks : tc.Db) (s : State t) where
  open engine use {
    Vector, embed, distance, text_rank, matches, is_compatible, is_indexed, in_order, embed_texts,
    tsquery,
  }

  -- The joins of both searches: the chunk is of the current version of a published article that is
  -- allowed.
  pub is_searched : List ℕ → Chunk → Bool
  unfolding get_article_row
  is_searched allowed c =
      is_among allowed c.article_id && (elim (get_article_row t c.article_id s) [
        | none ↦ false
        | some a ↦ is_published a.status && holds a.current_version_id c.version_id
      ])

  -- The title and the index columns of the current version of a chunk's article.
  pub version_of : Chunk → Option Version
  unfolding get_article_row current_version
  version_of c = elim (get_article_row t c.article_id s) [
    | none ↦ none
    | some a ↦ current_version t a s
  ]

  pub title_of : Chunk → Text
  unfolding version_of
  title_of c = elim (version_of c) [ none ↦ [] | some v ↦ v.title ]

  pub search_similar : List ℕ → Vector → ℕ → List (SearchRow fl)
  unfolding is_searched version_of title_of
  search_similar allowed vector limit = take limit (
      in_order (
        map (λ c. record { chunk = c; value = distance vector c; title = title_of c })
          (tc.select
            (λ c.
              is_searched allowed c
              && (elim (version_of c) [ none ↦ false | some v ↦ is_indexed v ]))
            chunks)))

  pub search_lexical : List ℕ → Text → ℕ → List (SearchRow fl)
  unfolding is_searched version_of title_of
  search_lexical allowed wanted limit = take limit (
      in_order (
        map (λ c. record { chunk = c; value = text_rank wanted c; title = title_of c })
          (tc.select (λ c. is_searched allowed c && (is_some (version_of c) && matches wanted c))
            chunks)))

  pub vectors_for : List ℕ → List Text → Result (List Vector)
  vectors_for [] texts = ok []
  vectors_for (k ∷ ids) texts = embed texts

  pub lexical_rows_for : List ℕ → Option Text → List (SearchRow fl)
  unfolding search_lexical
  lexical_rows_for allowed none = []
  lexical_rows_for allowed (some wanted) = search_lexical allowed wanted lexical_overfetch

  -- The articles whose current version the vectors can be compared with.
  pub vector_article_ids : List Article → List ℕ
  unfolding current_version
  vector_article_ids allowed =
      map (λ (a : Article). a.id)
        (keep (λ a. elim (current_version t a s) [ none ↦ false | some v ↦ is_compatible v ])
          allowed)

  -- Both searches among the allowed articles, and the choice of the hits.
  pub search_allowed :
      List Article → Text → Text → ℕ → Option fl.Float → Result (List (RetrievalHit fl))
  unfolding vector_article_ids vectors_for search_similar lexical_rows_for
  search_allowed allowed query embed_text top_k min_score = do
    vectors ← vectors_for (vector_article_ids allowed) (embed_texts query embed_text)
    let overfetch = min max_retrieval_candidates (max (top_k * max_chunks_per_article_result) top_k)
    let groups = map (λ v. search_similar (vector_article_ids allowed) v overfetch) vectors
    let lexical = lexical_rows_for (map (λ (a : Article). a.id) allowed) (tsquery query)
    ok (merge_and_score fl defs (union_vector_rows fl groups) lexical top_k min_score query)

  pub search_or_nothing :
      List Article → Text → Text → ℕ → Option fl.Float → Result (List (RetrievalHit fl))
  unfolding search_allowed
  search_or_nothing [] query embed_text top_k min_score = ok []
  search_or_nothing (a ∷ allowed) query embed_text top_k min_score =
      search_allowed (a ∷ allowed) query embed_text top_k min_score

  -- `min_score is None or 0.0 <= min_score <= 1.0`
  pub is_least_score : Option fl.Float → Bool
  is_least_score none = true
  is_least_score (some least) = not (fl.lt least fl.zero_float) && not (fl.lt fl.one_float least)

  unfoldable pub retrieve :
      (List Article → List Article)
      → Text
      → ℕ
      → ℕ
      → Role
      → Bool
      → ℕ
      → Option ℕ
      → Option fl.Float
      → Option Text
      → Result (List (RetrievalHit fl))
  unfolding validate_query embedding_text is_own_company is_least_score allowed_published_articles
      search_or_nothing
  retrieve newest_first query company_id employee_id role is_super_admin top_k claimed_company_id
        min_score embedding_query =
      do
        normalized ← validate_query query
        embed_text ← embedding_text embedding_query normalized
        require (leb 1 top_k && leb top_k max_retrieval_top_k) validation
        require (is_least_score min_score) validation
        require (not is_super_admin) forbidden
        require (is_own_company claimed_company_id company_id) not_found
        allowed ← allowed_published_articles t newest_first company_id role employee_id s
        search_or_nothing allowed normalized embed_text top_k min_score
