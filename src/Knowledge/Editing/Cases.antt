-- ===== src/Knowledge/Editing/Cases.antt =====
-- What a call may do to the tables, for predicates that each of its changes keeps.
use onboard_ai.Common.{
  ℕ, ◌≡◌, refl, subst, true, false, ◌||◌, not, Option, none, some, List, any, ◌==◌, Bool-cases, inl,
  inr, not-true, Result, ok, not_found, validation, >>=-ok, require-ok, given-ok, ok-injective,
}
use onboard_ai.Common.Text.{Text, codes}
use onboard_ai.Access.{Role}
use onboard_ai.Knowledge.{
  ArticleStatus, Article, Version, Tables, State, is_draft, is_archived, is_published, draft,
  published, archived, get_article_row, current_version, update_article_row, require_programs,
  unique_ids, replace_program_links, resolve_tags, is_visibility, is_body_format,
}
use onboard_ai.Knowledge.Reading.{get_version}
use onboard_ai.Knowledge.Editing.{
  NewArticle, ArticleValues, or_old, is_content_touched, has_values, is_forbidden_key, add_article,
  add_version, point_to, check_category, check_tags, first_version, create_article, put_content,
  put_links, set_values, update_found, update_article, set_status, set_published_at,
  publish_article, archive_article, restored_values, restore_version,
}

-- A change of an article's row keeps its id, and does not bring a draft back.
pub record IsEdit (f : Article → Article) : Type 0 where
  pub same_id : (a : Article) → (f a).id ≡ a.id
  pub stays_out : (a : Article) → is_draft a.status ≡ false → is_draft (f a).status ≡ false

draft_open : (status : ArticleStatus) → is_draft status ≡ true → is_archived status ≡ false
draft_open draft h = refl
draft_open published h = refl
draft_open archived h = cc

live_open :
    (status : ArticleStatus)
    → (is_draft status || is_published status) ≡ true
    → is_archived status ≡ false
live_open draft h = refl
live_open published h = refl
live_open archived h = cc

-- Each change keeps the predicate, where it changes articles that are allowed.
pub record IsClosed (t : Tables) (P : State t → Type 0) (Allowed : ℕ → Type 0) : Type 0 where
  pub on_links : (db : t.links.Db) (s : State t) → P s → P (record s { links = db })
  pub on_article : (a : Article) (s : State t) → P s → P (add_article t a s)
  pub on_version : (v : Version) (s : State t) → P s → P (add_version t v s)
  pub on_stamp :
      (now k : ℕ) (s : State t)
      → P s
      → P (record s {
        versions = (t.versions.update (λ x. x.id == k) (set_published_at now) s.versions).0;
      })
  pub on_row :
      (k : ℕ) (f : Article → Article) (s : State t)
      → Allowed k
      → IsEdit f
      → P s
      → P (update_article_row t k f s)

module _ (t : Tables) (P : State t → Type 0) (Allowed : ℕ → Type 0)
    (closed : IsClosed t P Allowed) where
  -- The calls that change an article find it, and it is not archived.
  abbrev pub Allows : State t → Type 0
  Allows s =
      (k : ℕ) (a : Article)
      → get_article_row t k s ≡ some a
      → is_archived a.status ≡ false
      → Allowed a.id

  point_to-P : (k version_id : ℕ) (s : State t) → Allowed k → P s → P (point_to t k version_id s)
  unfolding point_to
  point_to-P k version_id s allowed h =
      closed.on_row k _ s allowed (record { same_id = λ a. refl; stays_out = λ a e. e }) h

  replace_program_links-P :
      (k company_id : ℕ) (ids : List ℕ) {s s' : State t}
      → replace_program_links t k company_id ids s ≡ ok s'
      → P s
      → P s'
  unfolding replace_program_links
  replace_program_links-P k company_id ids {s = s} e h =
      let (_, _, last) = >>=-ok (require_programs t (unique_ids ids) company_id s) _ e in
      subst P (ok-injective last) (closed.on_links _ s h)

  put_links-P :
      (v : ArticleValues) (a : Article) {s s' : State t} → put_links t v a s ≡ ok s' → P s → P s'
  unfolding put_links
  put_links-P v a {s = s} {s' = s'} e h = by_value v.program_ids e
    where
      by_value :
          (o : Option (List ℕ))
          → (elim o as (λ x. Result (State t)) [
            | none ↦ ok s
            | some ids ↦ replace_program_links t a.id a.company_id ids s
          ])
            ≡ ok s'
          → P s'
      by_value none r = subst P (ok-injective r) h
      by_value (some ids) r = replace_program_links-P a.id a.company_id ids r h

  put_content-P :
      (version_id : ℕ) (author : Option ℕ) (v : ArticleValues) (a : Article) (s s' : State t)
      → Allowed a.id
      → put_content t version_id author v a s ≡ ok s'
      → P s
      → P s'
  unfolding put_content
  put_content-P version_id author v a s s' allowed e h = elim (Bool-cases (is_content_touched v)) [
    | inr untouched ↦ subst P (ok-injective (rw untouched at e)) h
    | inl touched ↦
        let (current, _, last) = given-ok validation (current_version t a s) _ (rw touched at e) in
        subst P (ok-injective last) (point_to-P a.id version_id _ allowed (closed.on_version _ s h))
  ]

  pub create_article-P :
      (n : NewArticle) (company_id : ℕ) (s s' : State t)
      → Allowed n.id
      → create_article t n company_id s ≡ ok s'
      → P s
      → P s'
  unfolding create_article
  create_article-P n company_id s s' allowed e h =
      let (_, e1) = require-ok (n.company_id == company_id) not_found _ e in
      let (_, e2) = require-ok (is_visibility n.visibility) validation _ e1 in
      let (_, e3) = require-ok (is_body_format n.body_format) validation _ e2 in
      let (_, _, e4) =
        given-ok not_found (t.owned.first (λ o. o.id == n.company_id) s.companies) _ e3 in
      let (_, _, e5) = >>=-ok (check_category t n.category_id n.company_id s) _ e4 in
      let (tags, _, e6) = >>=-ok (resolve_tags t n.tag_ids n.company_id s) _ e5 in
      replace_program_links-P n.id n.company_id n.program_ids e6 (
        point_to-P n.id n.version_id _ allowed
          (closed.on_version (first_version n) _ (closed.on_article _ s h)))

  update_found-P :
      (version_id : ℕ) (author : Option ℕ) (v : ArticleValues) (a : Article) (s s' : State t)
      → (is_archived a.status ≡ false → Allowed a.id)
      → update_found t version_id author v a s ≡ ok s'
      → P s
      → P s'
  unfolding update_found set_values
  update_found-P version_id author v a s s' allow e h =
      let (open_article, e1) = require-ok (not (is_archived a.status)) validation _ e in
      let allowed = allow (not-true _ open_article) in
      let (_, _, e2) = >>=-ok (check_category t (or_old v.category_id none) a.company_id s) _ e1 in
      let (tags, _, e3) = >>=-ok (check_tags t v.tag_ids a.company_id s) _ e2 in
      let (linked, made, e4) =
        >>=-ok (put_links t v a (update_article_row t a.id (set_values v tags) s)) _ e3 in
      put_content-P version_id author v a linked s' allowed e4 (
        put_links-P v a made
          (closed.on_row a.id _ s allowed (record { same_id = λ x. refl; stays_out = λ x k. k }) h))

  pub update_article-P :
      (version_id article_id : ℕ) (author : Option ℕ) (v : ArticleValues) (company_id : ℕ)
      (s s' : State t)
      → Allows s
      → update_article t version_id article_id author v company_id s ≡ ok s'
      → P s
      → P s'
  unfolding update_article
  update_article-P version_id article_id author v company_id s s' allows e h =
      let (_, e1) = require-ok (not (any is_forbidden_key v.other_keys)) validation _ e in
      let (_, e2) = require-ok (has_values v) validation _ e1 in
      let (_, e3) =
        require-ok (is_visibility (or_old v.visibility (codes "company"))) validation _ e2 in
      let (_, e4) =
        require-ok (is_body_format (or_old v.body_format (codes "plain"))) validation _ e3 in
      let (a, found, e5) = given-ok not_found (get_article_row t article_id s) _ e4 in
      let (_, e6) = require-ok (a.company_id == company_id) not_found _ e5 in
      update_found-P version_id author v a s s' (allows article_id a found) e6 h

  pub publish_article-P :
      (now article_id company_id : ℕ) (s s' : State t)
      → Allows s
      → publish_article t now article_id company_id s ≡ ok s'
      → P s
      → P s'
  unfolding publish_article set_status
  publish_article-P now article_id company_id s s' allows e h =
      let (a, found, e1) = given-ok not_found (get_article_row t article_id s) _ e in
      let (_, e2) = require-ok (a.company_id == company_id) not_found _ e1 in
      let (still, e3) = require-ok (is_draft a.status) validation _ e2 in
      let (v, _, last) = given-ok validation (current_version t a s) _ e3 in
      subst P (ok-injective last) (
        closed.on_row a.id _ _ (allows article_id a found (draft_open a.status still))
          (record { same_id = λ x. refl; stays_out = λ x k. refl }) (closed.on_stamp now v.id s h))

  pub archive_article-P :
      (article_id company_id : ℕ) (s s' : State t)
      → Allows s
      → archive_article t article_id company_id s ≡ ok s'
      → P s
      → P s'
  unfolding archive_article set_status
  archive_article-P article_id company_id s s' allows e h =
      let (a, found, e1) = given-ok not_found (get_article_row t article_id s) _ e in
      let (_, e2) = require-ok (a.company_id == company_id) not_found _ e1 in
      let (live, last) = require-ok (is_draft a.status || is_published a.status) validation _ e2 in
      subst P (ok-injective last) (
        closed.on_row a.id _ s (allows article_id a found (live_open a.status live))
          (record { same_id = λ x. refl; stays_out = λ x k. refl }) h)

  pub restore_version-P :
      (summary : ℕ → Text) (version_id article_id number company_id : ℕ) (role : Role)
      (author : Option ℕ) (s s' : State t)
      → Allows s
      → restore_version t summary version_id article_id number company_id role author s ≡ ok s'
      → P s
      → P s'
  unfolding restore_version
  restore_version-P summary version_id article_id number company_id role author s s' allows e h =
      let (v, _, e1) = >>=-ok (get_version t article_id number company_id role s) _ e in
      update_article-P version_id article_id author (restored_values v (summary number)) company_id
        s s' allows e1 h
