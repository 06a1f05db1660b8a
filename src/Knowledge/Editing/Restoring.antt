-- ===== src/Knowledge/Editing/Restoring.antt =====
-- Restoring a version of an article makes a new current version of its text.
use onboard_ai.Common.{
  ℕ, suc, max, ◌≤◌, ◌≡◌, refl, sym, ap, ◌∙◌, subst, inl, inr, arith, false, ◌&&◌, ◌||◌, not, Option,
  none, some, List, [], ◌∷◌, any, keep, ◌==◌, ==_iff, ==_refl, Bool-cases, ok, not_found,
  validation, >>=-ok, require-ok, given-ok, ok-injective,
}
use onboard_ai.Common.Text.{Text, codes}
use onboard_ai.Access.{Role}
use onboard_ai.Store.Laws.{first-update, first_passes, find-snoc}
use onboard_ai.Knowledge.{
  Article, Version, Tables, State, get_article_row, get_version_row, current_version, highest,
  next_version_number, update_article_row, is_archived, is_visibility, is_body_format,
}
use onboard_ai.Knowledge.Reading.{get_version}
use onboard_ai.Knowledge.Editing.{
  or_old, is_content_touched, has_values, is_forbidden_key, set_values, restored_values,
  add_version, point_to, check_category, check_tags, put_links, next_version, put_content,
  update_found, update_article, restore_version,
}

-- No version of the article has the next number.
below_highest :
    (id article number : ℕ) (vs : List Version)
    → any (λ v. v.id == id) vs ≡ false
    → highest (keep (λ v. v.article_id == article) vs) ≤ number
    → any (λ v. (v.id == id) || ((v.article_id == article) && (v.version == suc number))) vs ≡ false
unfolding highest
below_highest id article number [] new h = refl
below_highest id article number (v ∷ vs) new h = elim (Bool-cases (v.article_id == article)) [
  | inl mine ↦
      let bound : max v.version (highest (keep (λ x. x.article_id == article) vs)) ≤ number =
        rw mine at h in
      ground (
        arith,
        below_highest id article number vs (ground (arith, new)) (omega (arith, bound)),
        bound,
        mine,
      )
  | inr other ↦
      ground
        (arith, below_highest id article number vs (ground (arith, new)) (rw other at h), other)
]

module _ (t : Tables) where
  -- A version that is added with a new id is found.
  added_version :
      (v : Version) (s : State t)
      → any (λ x. x.id == v.id) (t.versions.rows s.versions) ≡ false
      → v.version ≡ next_version_number t v.article_id s
      → get_version_row t v.id (add_version t v s) ≡ some v
  unfolding get_version_row add_version next_version_number
  added_version v s new number =
      let others =
        below_highest v.id v.article_id
          (highest (t.versions.select (λ x. x.article_id == v.article_id) s.versions))
          (t.versions.rows s.versions) new (rw t.versions.select_lem (omega arith)) in
      let free : any
            (λ x. (x.id == v.id) || ((x.article_id == v.article_id) && (x.version == v.version)))
            (t.versions.rows s.versions)
          ≡ false =
        rw number others in
      rw (t.versions.first_lem, (t.versions.insert_fresh _ v s.versions free).0)
        (find-snoc t.versions (λ x. x.id == v.id) v (t.versions.rows s.versions) new (==_refl v.id))

  -- The article's row after its own columns are set and the pointer is moved.
  pointed :
      (k version_id : ℕ) (f : Article → Article) (a : Article) (db : t.articles.Db)
      → ((x : Article) → (f x).id ≡ x.id)
      → t.articles.first (λ x. x.id == k) db ≡ some a
      → t.articles.first
          (λ x. x.id == k)
          (t.articles.update
            (λ x. x.id == a.id)
            (λ x. record x { current_version_id = some version_id })
            (t.articles.update (λ x. x.id == a.id) f db).0).0
        ≡ some (record (f a) { current_version_id = some version_id })
  pointed k version_id f a db same found =
      let once : t.articles.first (λ x. x.id == k) (t.articles.update (λ x. x.id == a.id) f db).0
          ≡ some (f a) =
        first-update t.articles _ _ f db (λ x. rw (same x) refl) ∙ rw (found, ==_refl a.id) refl in
      first-update t.articles _ _ (λ x. record x { current_version_id = some version_id }) _
        (λ x. refl)
      ∙ rw (once, same a, ==_refl a.id) refl

  -- What an accepted restoring does to the tables.
  restored_row :
      (version_id : ℕ) (author : Option ℕ) (v : Version) (summary : Text) (a : Article)
      (s s' : State t)
      → update_found t version_id author (restored_values v summary) a s ≡ ok s'
      → (current : Version) × (s' ≡ (
          let linked = update_article_row t a.id (set_values (restored_values v summary) none) s in
          point_to t a.id version_id (
            add_version t
              (next_version t version_id author (restored_values v summary) a current linked)
              linked)))
  unfolding update_found restored_values check_category check_tags put_links put_content
      is_content_touched set_values
  restored_row version_id author v summary a s s' h =
      let (_, h1) = require-ok (not (is_archived a.status)) validation _ h in
      let (current, _, last) =
        given-ok validation
          (current_version t a
            (update_article_row t a.id (set_values (restored_values v summary) none) s))
          _ h1 in
      (current, sym (ok-injective last))

  -- A version that is restored under a new id is the text again: the article is found with a current
  -- version that has the next number, and the title, the body and the format of the one restored.
  pub restored_text :
      (summary : ℕ → Text) (version_id article_id number company_id : ℕ) (role : Role)
      (author : Option ℕ) (s s' : State t)
      → any (λ x. x.id == version_id) (t.versions.rows s.versions) ≡ false
      → restore_version t summary version_id article_id number company_id role author s ≡ ok s'
      → (v : Version) × (a : Article) × (w : Version) × (get_version t article_id number company_id
            role s
          ≡ ok v)
        × (get_article_row t article_id s' ≡ some a)
        × (current_version t a s' ≡ some w)
        × (w.version ≡ next_version_number t article_id s)
        × (w.title ≡ v.title)
        × (w.body ≡ v.body)
        × (w.body_format ≡ v.body_format)
  unfolding restore_version update_article restored_values set_values next_version point_to
      update_article_row current_version get_article_row get_version_row next_version_number
  restored_text summary version_id article_id number company_id role author s s' new h =
      let (v, read, h1) = >>=-ok (get_version t article_id number company_id role s) _ h in
      let values = restored_values v (summary number) in
      let (_, h2) = require-ok (not (any is_forbidden_key values.other_keys)) validation _ h1 in
      let (_, h3) = require-ok (has_values values) validation _ h2 in
      let (_, h4) =
        require-ok (is_visibility (or_old values.visibility (codes "company"))) validation _ h3 in
      let (_, h5) =
        require-ok (is_body_format (or_old values.body_format (codes "plain"))) validation _ h4 in
      let (a, found, h6) = given-ok not_found (get_article_row t article_id s) _ h5 in
      let (_, h7) = require-ok (a.company_id == company_id) not_found _ h6 in
      let (current, same) = restored_row version_id author v (summary number) a s s' h7 in
      let linked = update_article_row t a.id (set_values values none) s in
      let w = next_version t version_id author values a current linked in
      let own : a.id ≡ article_id =
        (==_iff a.id article_id).0
          (first_passes t.articles (λ x. x.id == article_id) s.articles found) in
      subst
        (λ (r : State t).
          (v' : Version) × (a' : Article) × (w' : Version) × (get_version t article_id number
              company_id role s
            ≡ ok v')
          × (get_article_row t article_id r ≡ some a')
          × (current_version t a' r ≡ some w')
          × (w'.version ≡ next_version_number t article_id s)
          × (w'.title ≡ v'.title)
          × (w'.body ≡ v'.body)
          × (w'.body_format ≡ v'.body_format))
        (sym same)
        (
          v,
          record (set_values values none a) { current_version_id = some version_id },
          w,
          read,
          pointed article_id version_id (set_values values none) a s.articles (λ x. refl) found,
          added_version w linked new refl,
          ap (λ j. next_version_number t j s) own,
          refl,
          refl,
          refl,
        )
