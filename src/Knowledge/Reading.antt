-- ===== src/Knowledge/Reading.antt =====
-- Who may read an article: get_article, list_articles and get_version of
-- app/services/knowledge/article_service.py.
pub mod Access
use onboard_ai.Common.{
  ℕ, Bool, true, false, ◌&&◌, ◌||◌, not, Option, none, some, List, [], ◌∷◌, any, keep, length, take,
  leb, ◌==◌, holds, if◌then◌else◌, Result, ok, err, not_found, validation, ◌>>=◌, ◌>>◌, require,
  given,
}
use onboard_ai.Common.Text.{Text, codes, text_eq}
use onboard_ai.Access.{Role, employee, hr, admin, unknown}
use onboard_ai.Reminders.{AssignmentStatus, pending, in_progress, completed, cancelled}
use onboard_ai.Course.{Step, list_limit}
use onboard_ai.Knowledge.{
  ArticleStatus, published, has_status, Article, Version, Link, LinkTarget, program, step,
  Enrolment, Tables, State, get_article_row, links_of, is_published,
}

-- `_KB_MANAGEMENT_ROLES`
unfoldable pub is_management : Role → Bool
is_management employee = false
is_management hr = true
is_management admin = true
is_management unknown = false

-- `_ASSIGNMENT_STATUSES_GRANTING_PROGRAM_KB`
pub grants : AssignmentStatus → Bool
grants pending = true
grants in_progress = true
grants completed = true
grants cancelled = false

module _ (t : Tables) where
  -- The program is one of those that the employee is assigned to.
  pub is_allowed_program : List Enrolment → ℕ → Bool
  unfolding grants
  is_allowed_program rows k = any (λ (r : Enrolment). holds r.program_id k && grants r.status) rows

  pub link_allows : List Enrolment → State t → Link → Bool
  unfolding is_allowed_program
  link_allows rows s l = elim l.target_type [
    | program ↦ is_allowed_program rows l.target_id
    | step ↦ elim (t.steps.first (λ x. x.id == l.target_id) s.steps) [
      | none ↦ false
      | some x ↦ is_allowed_program rows x.program_id
    ]
  ]

  pub employee_may_read_program_article : Article → ℕ → State t → Bool
  unfolding link_allows links_of
  employee_may_read_program_article a employee_id s =
      let rows =
        take list_limit (t.assignments.select (λ r. r.employee_id == employee_id) s.assignments) in
      any (link_allows rows s) (links_of t a.id s)

  -- `_employee_may_list_article`; a visibility that is not known is closed.
  unfoldable pub employee_may_list_article : Article → Option ℕ → State t → Bool
  unfolding employee_may_read_program_article
  employee_may_list_article a actor s =
      is_published a.status
      && (text_eq a.visibility (codes "company")
          || (text_eq a.visibility (codes "program")
              && elim actor [ none ↦ false | some k ↦ employee_may_read_program_article a k s ]))

  -- The checks of get_article for those who do not manage articles.
  pub require_reader : Article → Option ℕ → State t → Result Article
  unfolding employee_may_read_program_article
  require_reader a actor s = do
    require (is_published a.status) not_found
    (if text_eq a.visibility (codes "company")
        then ok a
        else (if text_eq a.visibility (codes "program")
            then elim actor [
              | none ↦ err not_found
              | some k ↦ if employee_may_read_program_article a k s then ok a else err not_found
            ]
            else err not_found))

  unfoldable pub get_article : ℕ → ℕ → Role → Option ℕ → State t → Result Article
  unfolding get_article_row is_management require_reader
  get_article article_id company_id role actor s = do
    a ← given not_found (get_article_row t article_id s)
    require (a.company_id == company_id) not_found
    (if is_management role then ok a else require_reader a actor s)

  -- The other filters, the order and the page are an argument, as they are SQL: they choose rows.
  unfoldable pub list_articles :
      (List Article → List Article)
      → Option ArticleStatus
      → ℕ
      → ℕ
      → Option Role
      → Option ℕ
      → State t
      → Result (List Article)
  unfolding is_management employee_may_list_article
  list_articles page status company_id actor_company_id role actor s = do
    require (company_id == actor_company_id) not_found
    company ← given not_found (t.owned.first (λ o. o.id == company_id) s.companies)
    (if elim role [ none ↦ false | some r ↦ not (is_management r) ]
        then ok (
            keep (λ a. employee_may_list_article a actor s)
              (page (
                t.articles.select
                  (λ a. (a.company_id == company_id) && has_status (some published) a.status)
                  s.articles)))
        else ok (
            page (
              t.articles.select (λ a. (a.company_id == company_id) && has_status status a.status)
                s.articles)))

  unfoldable pub get_version : ℕ → ℕ → ℕ → Role → State t → Result Version
  unfolding get_article is_management
  get_version article_id number company_id role s = do
    require (is_management role) not_found
    a ← get_article article_id company_id role none s
    given not_found
        (t.versions.first (λ v. (v.article_id == article_id) && (v.version == number)) s.versions)
