-- ===== src/Knowledge/Reading/Access.antt =====
-- Which articles an employee may read, by get_article and in a listing.
use onboard_ai.Common.{
  ℕ, ◌≡◌, ◌≢◌, refl, sym, ◌∙◌, subst, arith, true, false, ◌&&◌, Option, some, List, [], ◌∷◌, find,
  ◌==◌, ==_refl, ==_iff, All, All-keep, All-zip, All-weaken, Unique, if◌then◌else◌, ok, err,
  not_found, require-ok, given-ok, ok-injective,
}
use onboard_ai.Access.{Role}
use onboard_ai.Knowledge.{ArticleStatus, Article, Tables, State, get_article_row, is_published}
use onboard_ai.Knowledge.Reading.{
  is_management, employee_may_list_article, require_reader, get_article, list_articles,
}

module _ (t : Tables) where
  -- The checks of both calls are the same.
  require_reader_lem :
      (a : Article) (actor : Option ℕ) (s : State t)
      → require_reader t a actor s
        ≡ (if employee_may_list_article t a actor s then ok a else err not_found)
  unfolding require_reader employee_may_list_article
  require_reader_lem a actor s = ground arith

  -- What get_article gives to those who do not manage articles: an article of the company that a
  -- listing may show to them, and otherwise the answer of an article that is not there.
  pub get_article_reader :
      (k company_id : ℕ) (role : Role) (actor : Option ℕ) (a : Article) (s : State t)
      → get_article_row t k s ≡ some a
      → is_management role ≡ false
      → get_article t k company_id role actor s ≡ (
          if (a.company_id == company_id) && employee_may_list_article t a actor s
          then ok a
          else err not_found)
  unfolding get_article
  get_article_reader k company_id role actor a s found reader =
      rw (found, reader, require_reader_lem a actor s) (ground arith)

  find_own :
      (xs : List Article)
      → Unique (λ (a : Article). a.id) xs
      → All (λ a. find (λ (b : Article). b.id == a.id) xs ≡ some a) xs
  find_own [] u = tt
  find_own (x ∷ xs) u = (
    rw (==_refl x.id) refl,
    All-weaken _ _ xs (λ a h. rw (h.1, differs a.id x.id h.0) refl)
        (All-zip (λ a. a.id ≢ x.id) (λ a. find (λ (b : Article). b.id == a.id) xs ≡ some a) xs u.0
          (find_own xs u.1)),
  )
    where
      differs : (j k : ℕ) → j ≢ k → (k == j) ≡ false
      differs j k other = ground arith

  -- Where ids are distinct and a page chooses among the rows: whatever articles an employee is shown
  -- in a listing, get_article gives each of them to the same employee.
  pub listed_readable :
      (page : List Article → List Article) (status : Option ArticleStatus)
      (company_id actor_company_id : ℕ) (role : Role) (actor : Option ℕ) (s : State t)
      (shown : List Article)
      → ((P : Article → Type 0) (xs : List Article) → All P xs → All P (page xs))
      → Unique (λ (a : Article). a.id) (t.articles.rows s.articles)
      → is_management role ≡ false
      → list_articles t page status company_id actor_company_id (some role) actor s ≡ ok shown
      → All (λ a. get_article t a.id actor_company_id role actor s ≡ ok a) shown
  unfolding list_articles get_article_row
  listed_readable page status company_id actor_company_id role actor s shown chooses u reader h =
      let (same, h1) = require-ok (company_id == actor_company_id) not_found _ h in
      let (_, _, h2) =
        given-ok not_found (t.owned.first (λ o. o.id == company_id) s.companies) _ h1 in
      let here : company_id ≡ actor_company_id = (==_iff company_id actor_company_id).0 same in
      let rows =
        t.articles.select (λ a. (a.company_id == company_id) && is_published a.status) s.articles in
      let own : All
          (λ a.
            get_article_row t a.id s ≡ some a
            × (((a.company_id == company_id) && is_published a.status) ≡ true))
          rows =
        rw t.articles.select_lem (
          All-keep _ _ _ (
            All-weaken _ _ _ (λ a e. rw t.articles.first_lem e)
              (find_own (t.articles.rows s.articles) u))) in
      subst (All (λ a. get_article t a.id actor_company_id role actor s ≡ ok a))
        (ok-injective (rw reader at h2))
        (All-weaken _ _ _
          (λ a k.
            get_article_reader a.id actor_company_id role actor a s k.0.0 reader
            ∙ rw (sym here, k.1) (ground (arith, k.0.1)))
          (All-keep _ (λ a. employee_may_list_article t a actor s) (page rows)
            (chooses _ rows own)))
