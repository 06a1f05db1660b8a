-- ===== src/Retrieval/Retrieving/Pages.antt =====
-- The pages of allowed articles end: for those who manage articles with all of them.
use onboard_ai.Common.{
  ℕ, zero, suc, ◌+◌, ◌-◌, ◌*◌, ◌≤◌, ◌<◌, ◌≡◌, refl, sym, ap, ◌∙◌, inl, inr, arith, Bool, true,
  false, some, List, [], ◌∷◌, ◌++◌, keep, take, drop, length, length-keep-le, ltb, ltb→lt, ◌==◌,
  ==_refl, is_some, Bool-cases, Option-cases, ok, ◌>>=◌,
}
use onboard_ai.Access.{Role}
use onboard_ai.Knowledge.{Article, Tables, State}
use onboard_ai.Knowledge.Reading.{is_management, employee_may_list_article, list_articles}
use onboard_ai.Retrieval.Retrieving.{
  article_list_page, is_usable, article_page, allowed_from, allowed_published_articles,
}
use onboard_ai.Retrieval.Retrieving.Paging.{published_rows, reader_page}

lt→ltb : (a b : ℕ) → a < b → ltb a b ≡ true
lt→ltb a b h = ground arith

module _ {A : Type 0} where
  take_short : (n : ℕ) (xs : List A) → length (take n xs) < n → take n xs ≡ xs
  take_short zero xs h = absurd (omega (arith, h))
  take_short (suc n) [] h = refl
  take_short (suc n) (x ∷ xs) h = ap (λ ys. x ∷ ys) (take_short n xs (omega (arith, h)))

  keep-take-drop :
      (p : A → Bool) (n : ℕ) (xs : List A) → keep p (take n xs) ++ keep p (drop n xs) ≡ keep p xs
  keep-take-drop p zero xs = refl
  keep-take-drop p (suc n) [] = refl
  keep-take-drop p (suc n) (x ∷ xs) = elim (Bool-cases (p x)) [
    | inl held ↦ rw held (ap (λ ys. x ∷ ys) (keep-take-drop p n xs))
    | inr not_held ↦ rw not_held (keep-take-drop p n xs)
  ]

  drop-nil : (n : ℕ) → drop {A = A} n [] ≡ []
  drop-nil zero = refl
  drop-nil (suc n) = refl

  drop-drop : (m n : ℕ) (xs : List A) → drop m (drop n xs) ≡ drop (n + m) xs
  drop-drop m zero xs = ap (λ k. drop k xs) (omega arith)
  drop-drop m (suc n) [] = drop-nil m ∙ sym (drop-nil (suc n + m))
  drop-drop m (suc n) (x ∷ xs) =
      let later : suc n + m ≡ suc (n + m) = omega arith in
      drop-drop m n xs ∙ sym (ap (λ k. drop k (x ∷ xs)) later)

  length-drop : (n : ℕ) (xs : List A) → length (drop n xs) ≡ length xs - n
  length-drop zero xs = omega arith
  length-drop (suc n) [] = omega arith
  length-drop (suc n) (x ∷ xs) = omega (arith, length-drop n xs)

  length-take-le : (n : ℕ) (xs : List A) → length (take n xs) ≤ length xs
  length-take-le zero xs = omega arith
  length-take-le (suc n) [] = omega arith
  length-take-le (suc n) (x ∷ xs) = omega (arith, length-take-le n xs)

module _ (t : Tables) (newest_first : List Article → List Article) (company_id : ℕ) (role : Role)
    (employee_id : ℕ) (s : State t)
    (here : is_some (t.owned.first (λ o. o.id == company_id) s.companies) ≡ true) where
  manager_page :
      (offset : ℕ)
      → is_management role ≡ true
      → article_page t newest_first company_id role employee_id s offset
        ≡ ok (take article_list_page (drop offset (published_rows t newest_first company_id s)))
  unfolding article_page list_articles
  manager_page offset manager =
      elim (Option-cases (t.owned.first (λ o. o.id == company_id) s.companies)) [
        | inl missing ↦ absurd (ground (arith, here, missing))
        | inr (company, found) ↦ rw (==_refl company_id, found, manager) refl
      ]

  -- From any offset, rounds for the articles that are left find all of them.
  all_from :
      (fuel offset : ℕ)
      → is_management role ≡ true
      → length (published_rows t newest_first company_id s) < offset + suc fuel * article_list_page
      → allowed_from t newest_first company_id role employee_id s (suc fuel) offset
        ≡ ok (keep is_usable (drop offset (published_rows t newest_first company_id s)))
  unfolding allowed_from
  all_from zero offset manager enough =
      let rows = published_rows t newest_first company_id s in
      let left : length (take article_list_page (drop offset rows)) < article_list_page = omega (
        arith,
        enough,
        length-take-le article_list_page (drop offset rows),
        length-drop offset rows,
      ) in
      rw (manager_page offset manager, lt→ltb _ _ left)
        (ap (λ xs. ok (keep is_usable xs)) (take_short article_list_page (drop offset rows) left))
  all_from (suc fuel) offset manager enough =
      let rows = published_rows t newest_first company_id s in
      let page = take article_list_page (drop offset rows) in
      elim (Bool-cases (ltb (length page) article_list_page)) [
        | inl last ↦
            rw (manager_page offset manager, last)
              (ap (λ xs. ok (keep is_usable xs))
                (take_short article_list_page (drop offset rows)
                  (ltb→lt (length page) article_list_page last)))
        | inr full ↦
            let rest = all_from fuel (offset + article_list_page) manager (omega (arith, enough)) in
            rw (manager_page offset manager, full)
              (ap (λ r. r >>= λ others. ok (keep is_usable page ++ others)) rest
                ∙ ap (λ xs. ok (keep is_usable page ++ keep is_usable xs))
                    (sym (drop-drop article_list_page offset rows))
                ∙ ap ok (keep-take-drop is_usable article_list_page (drop offset rows)))
      ]

  -- Where the order of the statement adds no rows: the loop over the pages ends with every published
  -- article of the company that has a current version, for those who manage articles.
  pub all_pages :
      is_management role ≡ true
      → length (published_rows t newest_first company_id s) ≤ length (t.articles.rows s.articles)
      → allowed_published_articles t newest_first company_id role employee_id s
        ≡ ok (keep is_usable (published_rows t newest_first company_id s))
  unfolding allowed_published_articles
  all_pages manager few =
      all_from (length (t.articles.rows s.articles)) 0 manager (omega (arith, few))

  -- For the others the rounds are enough too: one more changes nothing.
  reader_pages_end :
      (fuel offset : ℕ)
      → is_management role ≡ false
      → length (published_rows t newest_first company_id s) < offset + suc fuel * article_list_page
      → allowed_from t newest_first company_id role employee_id s (suc fuel) offset
        ≡ allowed_from t newest_first company_id role employee_id s (suc (suc fuel)) offset
  unfolding allowed_from
  reader_pages_end zero offset reader enough =
      let rows =
        take article_list_page (drop offset (published_rows t newest_first company_id s)) in
      let shown = λ (a : Article). employee_may_list_article t a (some employee_id) s in
      let left : length (keep shown rows) < article_list_page = omega (
        arith,
        enough,
        length-keep-le shown rows,
        length-take-le article_list_page (drop offset (published_rows t newest_first company_id s)),
        length-drop offset (published_rows t newest_first company_id s),
      ) in
      rw
        (
          reader_page t newest_first company_id role employee_id s here offset reader,
          lt→ltb _ _ left,
        )
        refl
  reader_pages_end (suc fuel) offset reader enough =
      let rows =
        take article_list_page (drop offset (published_rows t newest_first company_id s)) in
      let shown = λ (a : Article). employee_may_list_article t a (some employee_id) s in
      elim (Bool-cases (ltb (length (keep shown rows)) article_list_page)) [
        | inl last ↦
            rw (reader_page t newest_first company_id role employee_id s here offset reader, last)
              refl
        | inr full ↦
            rw (reader_page t newest_first company_id role employee_id s here offset reader, full)
              (ap (λ r. r >>= λ others. ok (keep is_usable (keep shown rows) ++ others))
                (reader_pages_end fuel (offset + article_list_page) reader (omega (arith, enough))))
      ]
