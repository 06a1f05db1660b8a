-- ===== src/Retrieval/Retrieving/Allowed.antt =====
-- The articles that retrieve searches for an employee are articles that get_article gives.
use onboard_ai.Common.{
  ℕ, zero, suc, ◌+◌, ◌≡◌, subst, inl, inr, arith, true, false, ◌&&◌, some, List, [], ◌∷◌, keep,
  take, drop, length, ltb, is_some, All, All-append, All-keep, All-take, All-weaken, Unique,
  Bool-cases, ok, >>=-ok, ok-injective,
}
use onboard_ai.Access.{Role}
use onboard_ai.Knowledge.{published, is_published, Article, Tables, State}
use onboard_ai.Knowledge.Reading.{is_management, get_article}
use onboard_ai.Knowledge.Reading.Access.{listed_readable}
use onboard_ai.Retrieval.{Floats, RetrievalHit}
use onboard_ai.Retrieval.Retrieving.{article_list_page, article_page, allowed_from}

All-drop : {A : Type 0} (P : A → Type 0) (n : ℕ) (xs : List A) → All P xs → All P (drop n xs)
All-drop P zero xs h = h
All-drop P (suc n) [] h = tt
All-drop P (suc n) (x ∷ xs) h = All-drop P n xs h.1

module _ (t : Tables) (company_id : ℕ) (role : Role) (employee_id : ℕ) (s : State t) where
  abbrev pub IsReadable : Article → Type 0
  IsReadable a =
      (get_article t a.id company_id role (some employee_id) s ≡ ok a)
      × (is_published a.status ≡ true)

  -- What a hit shows is the current version of a published article that get_article gives.
  abbrev pub MayRead : (fl : Floats) → RetrievalHit fl → Type 0
  MayRead fl h =
      (a : Article) × (get_article t h.article_id company_id role (some employee_id) s ≡ ok a)
      × (is_published a.status ≡ true)
      × (a.current_version_id ≡ some h.version_id)

-- The allowed articles are articles that get_article gives, with a current version.
module _ (t : Tables) (newest_first : List Article → List Article) (company_id : ℕ) (role : Role)
    (employee_id : ℕ) (s : State t)
    (chooses : (P : Article → Type 0) (xs : List Article) → All P xs → All P (newest_first xs))
    (u : Unique (λ (a : Article). a.id) (t.articles.rows s.articles))
    (reader : is_management role ≡ false) where
  usable :
      (page : List Article)
      → All (λ a. get_article t a.id company_id role (some employee_id) s ≡ ok a) page
      → All
          (IsReadable t company_id role employee_id s)
          (keep (λ (a : Article). is_published a.status && is_some a.current_version_id) page)
  usable page h = All-weaken _ _ _ (λ a k. (k.0, ground (arith, k.1))) (All-keep _ _ page h)

  pub allowed_from-All :
      (fuel offset : ℕ) (allowed : List Article)
      → allowed_from t newest_first company_id role employee_id s fuel offset ≡ ok allowed
      → All (IsReadable t company_id role employee_id s) allowed
  unfolding allowed_from article_page
  allowed_from-All zero offset allowed h =
      subst (All (IsReadable t company_id role employee_id s)) (ok-injective h) tt
  allowed_from-All (suc fuel) offset allowed h =
      let (page, listed, h1) =
        >>=-ok (article_page t newest_first company_id role employee_id s offset) _ h in
      let readable =
        listed_readable t (λ xs. take article_list_page (drop offset (newest_first xs)))
          (some published) company_id company_id role (some employee_id) s page
          (λ P xs k. All-take P article_list_page _ (All-drop P offset _ (chooses P xs k))) u reader
          listed in
      elim (Bool-cases (ltb (length page) article_list_page)) [
        | inl last ↦
            subst (All (IsReadable t company_id role employee_id s)) (ok-injective (rw last at h1))
              (usable page readable)
        | inr full ↦
            let (others, more, h2) =
              >>=-ok
                (allowed_from t newest_first company_id role employee_id s fuel
                  (offset + article_list_page))
                _ (rw full at h1) in
            subst (All (IsReadable t company_id role employee_id s)) (ok-injective h2) (
              All-append (IsReadable t company_id role employee_id s) _ others
                (usable page readable)
                (allowed_from-All fuel (offset + article_list_page) others more))
      ]
