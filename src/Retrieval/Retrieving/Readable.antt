-- ===== src/Retrieval/Retrieving/Readable.antt =====
-- What the hits of retrieve show: current versions of articles that the employee may read.
use onboard_ai.Common.{
  ℕ, suc, ◌≡◌, sym, ap, subst, ◌∙◌, inl, inr, arith, Bool, true, false, ◌&&◌, not, Option, some,
  List, [], ◌∷◌, map, length, leb, ◌==◌, ==_iff, All, All-weaken, Unique, Bool-cases, ok, err,
  not_found, forbidden, validation, >>=-ok, require-ok, ok-injective,
}
use onboard_ai.Common.Text.{Text}
use onboard_ai.Access.{Role}
use onboard_ai.Store.{Table}
use onboard_ai.Knowledge.{is_published, Article, Tables, State, get_article_row}
use onboard_ai.Knowledge.Reading.{is_management, employee_may_list_article, get_article}
use onboard_ai.Knowledge.Reading.Access.{get_article_reader}
use onboard_ai.Retrieval.{Floats, Chunk, SearchRow, RetrievalHit}
use onboard_ai.Retrieval.Ranking.{chunk_of}
use onboard_ai.Retrieval.Selection.{Definitions}
use onboard_ai.Retrieval.Retrieving.{
  Engine, embedding_text, is_own_company, max_retrieval_top_k, is_among, allowed_published_articles,
  search_or_nothing, is_least_score, validate_query, retrieve,
}
use onboard_ai.Retrieval.Retrieving.Allowed.{IsReadable, MayRead, allowed_from-All}
use onboard_ai.Retrieval.Retrieving.Searches.{IsCurrent, search_allowed-All}

module _ (fl : Floats) (defs : Definitions fl) (engine : Engine fl) (t : Tables) (tc : Table Chunk)
    (chunks : tc.Db) (s : State t) where
  module _
      (in_order_chooses : (P : SearchRow fl → Type 0) (xs : List (SearchRow fl))
        → All P xs
        → All P (engine.in_order xs)) where
    module _ (newest_first : List Article → List Article) (company_id : ℕ) (role : Role)
        (employee_id : ℕ)
        (chooses : (P : Article → Type 0) (xs : List Article) → All P xs → All P (newest_first xs))
        (u : Unique (λ (a : Article). a.id) (t.articles.rows s.articles))
        (reader : is_management role ≡ false) where
      ok_row :
          (k : ℕ) (a b : Article)
          → get_article_row t k s ≡ some b
          → get_article t k company_id role (some employee_id) s ≡ ok a
          → b ≡ a
      ok_row k a b found given_a =
          let answer =
            sym (get_article_reader t k company_id role (some employee_id) b s found reader)
            ∙ given_a in
          elim (Bool-cases
            ((b.company_id == company_id) && employee_may_list_article t b (some employee_id) s)) [
              | inl shown ↦ ok-injective (rw shown at answer)
              | inr hidden ↦ let refused : err not_found ≡ ok a = rw hidden at answer in cc
            ]

      among :
          (k : ℕ) (allowed : List Article)
          → All (IsReadable t company_id role employee_id s) allowed
          → is_among (map (λ (a : Article). a.id) allowed) k ≡ true
          → (a : Article) × (get_article t k company_id role (some employee_id) s ≡ ok a)
            × (is_published a.status ≡ true)
      among k [] h e = cc
      among k (x ∷ xs) h e = elim (Bool-cases (x.id == k)) [
        | inl same ↦ (
          x,
          subst (λ j. get_article t j company_id role (some employee_id) s ≡ ok x)
              ((==_iff x.id k).0 same) h.0.0,
          h.0.1,
        )
        | inr other ↦ among k xs h.1 (ground (arith, e, other))
      ]

      hit-MayRead :
          (allowed : List Article)
          → All (IsReadable t company_id role employee_id s) allowed
          → (h : RetrievalHit fl)
          → IsCurrent fl defs engine t tc chunks s
              (map (λ (a : Article). a.id) allowed)
              (chunk_of fl h)
          → MayRead t company_id role employee_id s fl h
      hit-MayRead allowed readable h (listed, (b, found, current)) =
          let (a, given_a, live) = among h.article_id allowed readable listed in
          (
            a,
            given_a,
            live,
            sym (ap (λ (x : Article). x.current_version_id) (ok_row h.article_id a b found given_a))
                ∙ current,
          )

      found_hits :
          (allowed : List Article) (query embed_text : Text) (top_k : ℕ)
          (min_score : Option fl.Float) (hits : List (RetrievalHit fl))
          → All (IsReadable t company_id role employee_id s) allowed
          → search_or_nothing fl defs engine t tc chunks s allowed query embed_text top_k min_score
            ≡ ok hits
          → All (MayRead t company_id role employee_id s fl) hits
      unfolding search_or_nothing
      found_hits [] query embed_text top_k min_score hits readable h =
          subst (All (MayRead t company_id role employee_id s fl)) (ok-injective h) tt
      found_hits (a ∷ allowed) query embed_text top_k min_score hits readable h =
          All-weaken _ (MayRead t company_id role employee_id s fl) hits
            (hit-MayRead (a ∷ allowed) readable)
            (search_allowed-All fl defs engine t tc chunks s in_order_chooses (a ∷ allowed) query
              embed_text top_k min_score hits h)

      -- Whatever an employee asks, and whatever the vectors and the text search say: every hit shows the
      -- current version of a published article that get_article gives to that employee. Ids of
      -- articles are distinct, and the order of a statement chooses among its rows.
      pub retrieved_readable :
          (query : Text) (is_super_admin : Bool) (top_k : ℕ) (claimed : Option ℕ)
          (min_score : Option fl.Float) (embedding_query : Option Text)
          (hits : List (RetrievalHit fl))
          → retrieve fl defs engine t tc chunks s newest_first query company_id employee_id role
              is_super_admin top_k claimed min_score embedding_query
            ≡ ok hits
          → All (MayRead t company_id role employee_id s fl) hits
      unfolding retrieve allowed_published_articles
      retrieved_readable query is_super_admin top_k claimed min_score embedding_query hits h =
          let (normalized, _, h1) = >>=-ok (validate_query query) _ h in
          let (embed_text, _, h2) = >>=-ok (embedding_text embedding_query normalized) _ h1 in
          let (_, h3) = require-ok (leb 1 top_k && leb top_k max_retrieval_top_k) validation _ h2 in
          let (_, h4) =
            require-ok (is_least_score fl defs engine t tc chunks s min_score) validation _ h3 in
          let (_, h5) = require-ok (not is_super_admin) forbidden _ h4 in
          let (_, h6) = require-ok (is_own_company claimed company_id) not_found _ h5 in
          let (allowed, listed, h7) =
            >>=-ok (allowed_published_articles t newest_first company_id role employee_id s) _ h6 in
          found_hits allowed normalized embed_text top_k min_score hits
            (allowed_from-All t newest_first company_id role employee_id s chooses u reader
              (suc (length (t.articles.rows s.articles))) 0 allowed listed)
            h7
