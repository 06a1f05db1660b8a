-- ===== src/Knowledge/Editing.antt =====
-- The life cycle of articles: create_article, update_article, publish_article, archive_article and
-- restore_version of app/services/knowledge/article_service.py. New ids and the time are arguments.
pub mod Cases
pub mod Calls
pub mod History
pub mod LifeCycle
pub mod Restoring
use onboard_ai.Common.{
  ℕ, suc, Bool, true, false, ◌&&◌, ◌||◌, not, Option, none, some, List, [], ◌∷◌, any, ◌==◌, is_some,
  if◌then◌else◌, Result, ok, err, not_found, validation, ◌>>=◌, ◌>>◌, require, given,
}
use onboard_ai.Common.Text.{Text, codes, text_eq}
use onboard_ai.Access.{Role}
use onboard_ai.Knowledge.{
  ArticleStatus, draft, published, archived, is_draft, is_archived, is_published, Article, Version,
  Tables, State, get_article_row, get_version_row, current_version, next_version_number,
  update_article_row, require_category, resolve_tags, replace_program_links, is_visibility,
  is_body_format,
}
use onboard_ai.Knowledge.Reading.{get_version}

-- The arguments of create_article, with the ids of the rows.
pub record NewArticle : Type 0 where
  pub id : ℕ
  pub version_id : ℕ
  pub company_id : ℕ
  pub title : Text
  pub body : Text
  pub body_format : Text
  pub category_id : Option ℕ
  pub visibility : Text
  pub tag_ids : List ℕ
  pub change_summary : Option Text
  pub created_by_id : Option ℕ
  pub program_ids : List ℕ

-- The values that update_article is given, where null for tags or programs is the empty list, and the
-- names of the other keys among them.
pub record ArticleValues : Type 0 where
  pub category_id : Option (Option ℕ)
  pub visibility : Option Text
  pub tag_ids : Option (List ℕ)
  pub program_ids : Option (List ℕ)
  pub title : Option Text
  pub body : Option Text
  pub body_format : Option Text
  pub change_summary : Option (Option Text)
  pub other_keys : List Text

unfoldable pub is_forbidden_key : Text → Bool
is_forbidden_key k = any (text_eq k) (
    codes "id"
    ∷ codes "company_id"
    ∷ codes "created_at"
    ∷ codes "status"
    ∷ codes "current_version_id"
    ∷ codes "created_by_id"
    ∷ [])

abbrev pub or_old : {A : Type 0} → Option A → A → A
or_old none old = old
or_old (some new) old = new

pub is_content_touched : ArticleValues → Bool
is_content_touched v =
    is_some v.title || is_some v.body || is_some v.body_format || is_some v.change_summary

pub has_values : ArticleValues → Bool
unfolding is_content_touched
has_values v =
    is_content_touched v
    || is_some v.category_id
    || is_some v.visibility
    || is_some v.tag_ids
    || is_some v.program_ids

pub first_version : NewArticle → Version
first_version n = record {
  id = n.version_id;
  company_id = n.company_id;
  article_id = n.id;
  version = 1;
  title = n.title;
  body = n.body;
  body_format = n.body_format;
  change_summary = n.change_summary;
  created_by_id = n.created_by_id;
  published_at = none;
}

-- The columns of the article's own row.
pub set_values : ArticleValues → Option (List ℕ) → Article → Article
set_values v tags a = record a {
  category_id = or_old v.category_id a.category_id;
  visibility = or_old v.visibility a.visibility;
  tags = or_old tags a.tags;
}

pub set_status : ArticleStatus → Article → Article
set_status status a = record a { status = status }

-- `if current_version.published_at is None: published_at = now`
pub set_published_at : ℕ → Version → Version
set_published_at now v = record v { published_at = some (or_old v.published_at now) }

-- The values of a version, with a summary that names it.
pub restored_values : Version → Text → ArticleValues
restored_values v summary = record {
  category_id = none;
  visibility = none;
  tag_ids = none;
  program_ids = none;
  title = some v.title;
  body = some v.body;
  body_format = some v.body_format;
  change_summary = some (some summary);
  other_keys = [];
}

module _ (t : Tables) where
  -- A new row; a version is one of its article's numbers.
  pub add_article : Article → State t → State t
  add_article a s = record s { articles = (t.articles.insert (λ x. x.id == a.id) a s.articles).0 }

  pub add_version : Version → State t → State t
  add_version v s = record s {
    versions =
        (t.versions.insert
          (λ x. (x.id == v.id) || ((x.article_id == v.article_id) && (x.version == v.version))) v
          s.versions).0;
  }

  pub point_to : ℕ → ℕ → State t → State t
  unfolding update_article_row
  point_to article_id version_id s =
      update_article_row t article_id (λ a. record a { current_version_id = some version_id }) s

  pub check_category : Option ℕ → ℕ → State t → Result (Unit {0})
  unfolding require_category
  check_category none company_id s = ok tt
  check_category (some k) company_id s = require_category t k company_id s

  unfoldable pub create_article : NewArticle → ℕ → State t → Result (State t)
  unfolding add_article add_version point_to check_category first_version resolve_tags
      replace_program_links is_visibility is_body_format
  create_article n actor_company_id s = do
    require (n.company_id == actor_company_id) not_found
    require (is_visibility n.visibility) validation
    require (is_body_format n.body_format) validation
    company ← given not_found (t.owned.first (λ o. o.id == n.company_id) s.companies)
    check_category n.category_id n.company_id s
    tags ← resolve_tags t n.tag_ids n.company_id s
    let made =
        add_article
          (record {
            id = n.id;
            company_id = n.company_id;
            category_id = n.category_id;
            current_version_id = none;
            status = draft;
            visibility = n.visibility;
            created_by_id = n.created_by_id;
            tags = tags;
          })
          s
    replace_program_links t n.id n.company_id n.program_ids
        (point_to n.id n.version_id (add_version (first_version n) made))

  -- The version after the current one, of what the values give and the rest as it was.
  pub next_version : ℕ → Option ℕ → ArticleValues → Article → Version → State t → Version
  unfolding next_version_number
  next_version version_id author v a current s = record {
    id = version_id;
    company_id = a.company_id;
    article_id = a.id;
    version = next_version_number t a.id s;
    title = or_old v.title current.title;
    body = or_old v.body current.body;
    body_format = or_old v.body_format current.body_format;
    change_summary = or_old v.change_summary none;
    created_by_id = author;
    published_at = none;
  }

  pub put_content : ℕ → Option ℕ → ArticleValues → Article → State t → Result (State t)
  unfolding is_content_touched current_version next_version add_version point_to
  put_content version_id author v a s =
      if is_content_touched v
      then (given validation (current_version t a s) >>= λ current.
          ok (
            point_to a.id version_id
              (add_version (next_version version_id author v a current s) s)))
      else ok s

  pub put_links : ArticleValues → Article → State t → Result (State t)
  unfolding replace_program_links
  put_links v a s = elim v.program_ids [
    | none ↦ ok s
    | some ids ↦ replace_program_links t a.id a.company_id ids s
  ]

  pub check_tags : Option (List ℕ) → ℕ → State t → Result (Option (List ℕ))
  unfolding resolve_tags
  check_tags none company_id s = ok none
  check_tags (some ids) company_id s = resolve_tags t ids company_id s >>= λ tags. ok (some tags)

  pub update_found : ℕ → Option ℕ → ArticleValues → Article → State t → Result (State t)
  unfolding check_category check_tags set_values update_article_row put_links put_content
  update_found version_id author v a s = do
    require (not (is_archived a.status)) validation
    check_category (or_old v.category_id none) a.company_id s
    tags ← check_tags v.tag_ids a.company_id s
    linked ← put_links v a (update_article_row t a.id (set_values v tags) s)
    put_content version_id author v a linked

  unfoldable pub update_article : ℕ → ℕ → Option ℕ → ArticleValues → ℕ → State t → Result (State t)
  unfolding is_forbidden_key has_values is_visibility is_body_format get_article_row update_found
  update_article version_id article_id author v company_id s = do
    require (not (any is_forbidden_key v.other_keys)) validation
    require (has_values v) validation
    require (is_visibility (or_old v.visibility (codes "company"))) validation
    require (is_body_format (or_old v.body_format (codes "plain"))) validation
    a ← given not_found (get_article_row t article_id s)
    require (a.company_id == company_id) not_found
    update_found version_id author v a s

  unfoldable pub publish_article : ℕ → ℕ → ℕ → State t → Result (State t)
  unfolding get_article_row current_version set_status set_published_at update_article_row
  publish_article now article_id company_id s = do
    a ← given not_found (get_article_row t article_id s)
    require (a.company_id == company_id) not_found
    require (is_draft a.status) validation
    v ← given validation (current_version t a s)
    let stamped = (t.versions.update (λ x. x.id == v.id) (set_published_at now) s.versions).0
    ok (update_article_row t a.id (set_status published) (record s { versions = stamped }))

  unfoldable pub archive_article : ℕ → ℕ → State t → Result (State t)
  unfolding get_article_row set_status update_article_row
  archive_article article_id company_id s = do
    a ← given not_found (get_article_row t article_id s)
    require (a.company_id == company_id) not_found
    require (is_draft a.status || is_published a.status) validation
    ok (update_article_row t a.id (set_status archived) s)

  unfoldable pub restore_version :
      (ℕ → Text) → ℕ → ℕ → ℕ → ℕ → Role → Option ℕ → State t → Result (State t)
  unfolding get_version restored_values update_article
  restore_version summary version_id article_id number company_id role author s = do
    v ← get_version t article_id number company_id role s
    update_article version_id article_id author (restored_values v (summary number)) company_id s
