-- ===== src/Knowledge/Editing/Calls.antt =====
-- Any sequence of accepted calls of the article service. A new article has an id that no row has.
use onboard_ai.Common.{ℕ, ◌≡◌, Option, none, ok}
use onboard_ai.Common.Text.{Text}
use onboard_ai.Access.{Role}
use onboard_ai.Knowledge.{Tables, State, get_article_row}
use onboard_ai.Knowledge.Editing.{
  NewArticle, ArticleValues, create_article, update_article, publish_article, archive_article,
  restore_version,
}
use onboard_ai.Knowledge.Editing.Cases.{
  IsClosed, Allows, create_article-P, update_article-P, publish_article-P, archive_article-P,
  restore_version-P,
}

module _ (t : Tables) (summary : ℕ → Text) where
  pub data Call (s s' : State t) : Type 0 where
    creates :
        (n : NewArticle) (company_id : ℕ)
        → get_article_row t n.id s ≡ none
        → create_article t n company_id s ≡ ok s'
        → Call s s'
    updates :
        (version_id article_id : ℕ) (author : Option ℕ) (v : ArticleValues) (company_id : ℕ)
        → update_article t version_id article_id author v company_id s ≡ ok s'
        → Call s s'
    publishes :
        (now article_id company_id : ℕ)
        → publish_article t now article_id company_id s ≡ ok s'
        → Call s s'
    archives :
        (article_id company_id : ℕ) → archive_article t article_id company_id s ≡ ok s' → Call s s'
    restores :
        (version_id article_id number company_id : ℕ) (role : Role) (author : Option ℕ)
        → restore_version t summary version_id article_id number company_id role author s ≡ ok s'
        → Call s s'

  pub data Reach (s : State t) : State t → Type 0 where
    here : Reach s s
    next : {u s' : State t} → Reach s u → Call u s' → Reach s s'

  module _ (P : State t → Type 0) (Allowed : ℕ → Type 0) (closed : IsClosed t P Allowed)
      (allows : (s : State t) → P s → Allows t P Allowed closed s)
      (fresh : (k : ℕ) (s : State t) → P s → get_article_row t k s ≡ none → Allowed k) where
    Call-P : (s s' : State t) → Call s s' → P s → P s'
    Call-P s s' (creates n company_id new e) h =
        create_article-P t P Allowed closed n company_id s s' (fresh n.id s h new) e h
    Call-P s s' (updates version_id article_id author v company_id e) h =
        update_article-P t P Allowed closed version_id article_id author v company_id s s'
          (allows s h) e h
    Call-P s s' (publishes now article_id company_id e) h =
        publish_article-P t P Allowed closed now article_id company_id s s' (allows s h) e h
    Call-P s s' (archives article_id company_id e) h =
        archive_article-P t P Allowed closed article_id company_id s s' (allows s h) e h
    Call-P s s' (restores version_id article_id number company_id role author e) h =
        restore_version-P t P Allowed closed summary version_id article_id number company_id role
          author s s' (allows s h) e h

    -- What each change keeps, any calls keep.
    pub Reach-P : {s s' : State t} → P s → Reach s s' → P s'
    Reach-P h here = h
    Reach-P h (next r c) = Call-P _ _ c (Reach-P h r)
