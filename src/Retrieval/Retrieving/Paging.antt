-- ===== src/Retrieval/Retrieving/Paging.antt =====
-- The pages of allowed articles: for an employee the loop ends at the first page of which an article
-- is hidden.
use onboard_ai.Common.{
  ℕ, zero, suc, ◌≤◌, ◌<◌, ◌≡◌, refl, inl, inr, arith, Bool, true, false, ◌&&◌, not, some, List, [],
  ◌∷◌, any, keep, take, drop, length, length-keep-le, ltb, ◌==◌, ==_refl, is_some, Bool-cases,
  Option-cases, ok,
}
use onboard_ai.Access.{Role}
use onboard_ai.Knowledge.{published, has_status, Article, Tables, State}
use onboard_ai.Knowledge.Reading.{is_management, employee_may_list_article, list_articles}
use onboard_ai.Retrieval.Retrieving.{
  article_list_page, is_usable, article_page, allowed_from, allowed_published_articles,
}

length-take-le : {A : Type 0} (n : ℕ) (xs : List A) → length (take n xs) ≤ n
length-take-le zero xs = omega arith
length-take-le (suc n) [] = omega arith
length-take-le (suc n) (x ∷ xs) = omega (arith, length-take-le n xs)

hidden_shortens :
    (p : Article → Bool) (xs : List Article)
    → any (λ a. not (p a)) xs ≡ true
    → length (keep p xs) < length xs
hidden_shortens p [] h = cc
hidden_shortens p (x ∷ xs) h = elim (Bool-cases (p x)) [
  | inl held ↦ rw held (omega (arith, hidden_shortens p xs (ground (arith, h, held))))
  | inr not_held ↦ rw not_held (omega (arith, length-keep-le p xs))
]

-- The published articles of the company, in the order of the statement.
abbrev pub published_rows :
    (t : Tables) → (List Article → List Article) → ℕ → State t → List Article
published_rows t newest_first company_id s = newest_first (
    t.articles.select (λ a. (a.company_id == company_id) && has_status (some published) a.status)
      s.articles)

module _ (t : Tables) (newest_first : List Article → List Article) (company_id : ℕ) (role : Role)
    (employee_id : ℕ) (s : State t)
    (here : is_some (t.owned.first (λ o. o.id == company_id) s.companies) ≡ true) where
  pub reader_page :
      (offset : ℕ)
      → is_management role ≡ false
      → article_page t newest_first company_id role employee_id s offset
        ≡ ok (
            keep
              (λ a. employee_may_list_article t a (some employee_id) s)
              (take article_list_page (drop offset (published_rows t newest_first company_id s))))
  unfolding article_page list_articles
  reader_page offset reader =
      elim (Option-cases (t.owned.first (λ o. o.id == company_id) s.companies)) [
        | inl missing ↦ absurd (ground (arith, here, missing))
        | inr (company, found) ↦ rw (==_refl company_id, found, reader) refl
      ]

  -- Where one of the first thousand published articles is hidden from an employee, whatever else the
  -- company has published: the employee's searches see nothing beyond those thousand.
  pub pages_stop_early :
      is_management role ≡ false
      → any
          (λ a. not (employee_may_list_article t a (some employee_id) s))
          (take article_list_page (published_rows t newest_first company_id s))
        ≡ true
      → allowed_published_articles t newest_first company_id role employee_id s
        ≡ ok (
            keep is_usable (
              keep
                (λ a. employee_may_list_article t a (some employee_id) s)
                (take article_list_page (published_rows t newest_first company_id s))))
  unfolding allowed_published_articles allowed_from
  pages_stop_early reader hidden =
      let shown =
        keep (λ a. employee_may_list_article t a (some employee_id) s)
          (take article_list_page (published_rows t newest_first company_id s)) in
      let short : length shown < article_list_page = omega (
        arith,
        hidden_shortens (λ a. employee_may_list_article t a (some employee_id) s)
            (take article_list_page (published_rows t newest_first company_id s)) hidden,
        length-take-le article_list_page (published_rows t newest_first company_id s),
      ) in
      let last : ltb (length shown) article_list_page ≡ true = ground (arith, short) in
      rw (reader_page 0 reader, last) refl
