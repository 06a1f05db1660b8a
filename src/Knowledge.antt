-- ===== src/Knowledge.antt =====
-- Knowledge articles with their versions and links: app/services/knowledge/article_service.py over
-- app/repositories/knowledge_article.py, knowledge_article_version.py and knowledge_article_link.py.
-- The state of the vector index, which the service updates after it has committed, is left out.
pub mod Editing
pub mod Reading
mod Tests
use onboard_ai.Common.{
  ℕ, zero, suc, ◌+◌, max, Bool, true, false, ◌&&◌, ◌||◌, not, Option, none, some, List, [], ◌∷◌,
  map, any, all, keep, length, take, ◌==◌, same_option, is_some, if◌then◌else◌, Result, ok, err,
  not_found, conflict, validation, ◌>>=◌, ◌>>◌, require, given,
}
use onboard_ai.Common.Text.{Text, codes, text_eq}
use onboard_ai.Store.{Table}
use onboard_ai.Reminders.{AssignmentStatus}
use onboard_ai.Course.{Step}
use onboard_ai.StepOrder.{Program}

pub data ArticleStatus : Type 0 where
  draft published archived : ArticleStatus

abbrev pub is_published : ArticleStatus → Bool
is_published draft = false
is_published published = true
is_published archived = false

abbrev pub is_draft : ArticleStatus → Bool
is_draft draft = true
is_draft published = false
is_draft archived = false

abbrev pub is_archived : ArticleStatus → Bool
is_archived draft = false
is_archived published = false
is_archived archived = true

-- `status is None or row.status == status`
abbrev pub has_status : Option ArticleStatus → ArticleStatus → Bool
has_status none actual = true
has_status (some draft) actual = is_draft actual
has_status (some published) actual = is_published actual
has_status (some archived) actual = is_archived actual

pub record Article : Type 0 where
  pub id : ℕ
  pub company_id : ℕ
  pub category_id : Option ℕ
  pub current_version_id : Option ℕ
  pub status : ArticleStatus
  pub visibility : Text
  pub created_by_id : Option ℕ
  pub tags : List ℕ

pub record Version : Type 0 where
  pub id : ℕ
  pub company_id : ℕ
  pub article_id : ℕ
  pub version : ℕ
  pub title : Text
  pub body : Text
  pub body_format : Text
  pub change_summary : Option Text
  pub created_by_id : Option ℕ
  pub published_at : Option ℕ

pub data LinkTarget : Type 0 where
  program step : LinkTarget

abbrev pub is_program : LinkTarget → Bool
is_program program = true
is_program step = false

pub record Link : Type 0 where
  pub company_id : ℕ
  pub article_id : ℕ
  pub target_type : LinkTarget
  pub target_id : ℕ

-- What is read of a category, a tag or a company: whose it is.
pub record Owned : Type 0 where
  pub id : ℕ
  pub company_id : ℕ

-- The columns of an assignment that tell what its employee may read.
pub record Enrolment : Type 0 where
  pub employee_id : ℕ
  pub program_id : Option ℕ
  pub status : AssignmentStatus

pub record Tables : Type 1 where
  pub articles : Table Article
  pub versions : Table Version
  pub links : Table Link
  pub owned : Table Owned
  pub programs : Table Program
  pub steps : Table Step
  pub assignments : Table Enrolment

pub highest : List Version → ℕ
highest [] = 0
highest (v ∷ vs) = max v.version (highest vs)

-- A row of a company: it must be there and be of the company.
pub require_owned : ℕ → Option Owned → Result (Unit {0})
require_owned company_id none = err not_found
require_owned company_id (some o) = require (o.company_id == company_id) not_found

-- `list(dict.fromkeys(ids))`
pub unique_ids : List ℕ → List ℕ
unique_ids [] = []
unique_ids (k ∷ ids) = k ∷ keep (λ j. not (j == k)) (unique_ids ids)

module _ (t : Tables) where
  pub record State : Type 0 where
    pub articles : t.articles.Db
    pub versions : t.versions.Db
    pub links : t.links.Db
    pub categories : t.owned.Db
    pub tags : t.owned.Db
    pub companies : t.owned.Db
    pub programs : t.programs.Db
    pub steps : t.steps.Db
    pub assignments : t.assignments.Db

  unfoldable pub get_article_row : ℕ → State → Option Article
  get_article_row k s = t.articles.first (λ a. a.id == k) s.articles

  unfoldable pub get_version_row : ℕ → State → Option Version
  get_version_row k s = t.versions.first (λ v. v.id == k) s.versions

  unfoldable pub links_of : ℕ → State → List Link
  links_of k s = t.links.select (λ l. l.article_id == k) s.links

  -- The relation `current_version` of an article.
  unfoldable pub current_version : Article → State → Option Version
  unfolding get_version_row
  current_version a s = elim a.current_version_id [ none ↦ none | some k ↦ get_version_row k s ]

  pub next_version_number : ℕ → State → ℕ
  unfolding highest
  next_version_number k s = suc (highest (t.versions.select (λ v. v.article_id == k) s.versions))

  pub update_article_row : ℕ → (Article → Article) → State → State
  update_article_row k f s = record s {
    articles = (t.articles.update (λ a. a.id == k) f s.articles).0;
  }

  pub require_category : ℕ → ℕ → State → Result (Unit {0})
  unfolding require_owned
  require_category k company_id s =
      require_owned company_id (t.owned.first (λ o. o.id == k) s.categories)

  pub require_tags : List ℕ → ℕ → State → Result (Unit {0})
  unfolding require_owned
  require_tags [] company_id s = ok tt
  require_tags (k ∷ ids) company_id s =
      require_owned company_id (t.owned.first (λ o. o.id == k) s.tags)
      >> require_tags ids company_id s

  pub resolve_tags : List ℕ → ℕ → State → Result (List ℕ)
  unfolding require_tags unique_ids
  resolve_tags ids company_id s = require_tags (unique_ids ids) company_id s >> ok (unique_ids ids)

  pub require_programs : List ℕ → ℕ → State → Result (Unit {0})
  require_programs [] company_id s = ok tt
  require_programs (k ∷ ids) company_id s = do
    p ← given not_found (t.programs.first (λ p. p.id == k) s.programs)
    require (p.company_id == company_id) not_found
    require_programs ids company_id s

  pub add_links : ℕ → ℕ → List ℕ → t.links.Db → t.links.Db
  add_links article_id company_id [] db = db
  add_links article_id company_id (k ∷ ids) db =
      add_links article_id company_id ids
        (t.links.insert
          (λ l. (l.article_id == article_id) && (is_program l.target_type && (l.target_id == k)))
          (record {
            company_id = company_id;
            article_id = article_id;
            target_type = program;
            target_id = k;
          })
          db).0

  pub replace_program_links : ℕ → ℕ → List ℕ → State → Result State
  unfolding require_programs add_links unique_ids
  replace_program_links article_id company_id program_ids s = do
    require_programs (unique_ids program_ids) company_id s
    let rest =
        (t.links.delete (λ l. (l.article_id == article_id) && is_program l.target_type) s.links).0
    ok (record s { links = add_links article_id company_id (unique_ids program_ids) rest })

unfoldable pub is_visibility : Text → Bool
is_visibility v = any (text_eq v) (codes "company" ∷ codes "program" ∷ [])

unfoldable pub is_body_format : Text → Bool
is_body_format f = any (text_eq f) (codes "markdown" ∷ codes "html" ∷ codes "plain" ∷ [])
