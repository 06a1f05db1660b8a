-- ===== src/Knowledge/Editing/LifeCycle.antt =====
-- Articles go from draft to published to archived, and never back.
use onboard_ai.Common.{
  ℕ, ◌≡◌, refl, sym, ap, ◌∙◌, inl, inr, Bool, true, false, Option, none, some, ◌==◌, ==_iff,
  Bool-cases, clash, none≢some,
}
use onboard_ai.Common.Text.{Text}
use onboard_ai.Store.{set_if}
use onboard_ai.Store.Laws.{first-update, first-update_miss, first-insert, first_passes}
use onboard_ai.Knowledge.{
  Article, Tables, State, get_article_row, update_article_row, is_draft, is_archived,
}
use onboard_ai.Knowledge.Editing.{add_article, add_version}
use onboard_ai.Knowledge.Editing.Cases.{IsEdit, IsClosed}
use onboard_ai.Knowledge.Editing.Calls.{Reach, Reach-P}

abbrev pub StaysOut : Article → Article → Type 0
StaysOut a b = is_draft a.status ≡ false → is_draft b.status ≡ false

abbrev archived_option : Option Article → Bool
archived_option none = false
archived_option (some a) = is_archived a.status

module _ (t : Tables) (k : ℕ) (m : Article) where
  abbrev IsOut : State t → Type 0
  IsOut s = (b : Article) × (get_article_row t k s ≡ some b) × StaysOut m b

  set_if-StaysOut :
      (p : Article → Bool) (f : Article → Article) (b : Article)
      → IsEdit f
      → StaysOut m b
      → StaysOut m (set_if p f b)
  set_if-StaysOut p f b edit out h = elim (Bool-cases (p b)) [
    | inl hit ↦ rw hit (edit.stays_out b (out h))
    | inr miss ↦ rw miss (out h)
  ]

  IsOut-closed : IsClosed t IsOut (λ j. Unit {0})
  unfolding get_article_row add_article add_version update_article_row
  IsOut-closed = record {
    on_links = λ db s h. h;
    on_article = λ a s h. (h.0, first-insert t.articles _ _ a s.articles h.1, h.2);
    on_version = λ v s h. h;
    on_stamp = λ now j s h. h;
    on_row = λ j f s allowed edit h. (
      set_if (λ a. a.id == j) f h.0,
      first-update t.articles _ _ f s.articles (λ a. rw (edit.same_id a) refl) ∙ rw (h.1) refl,
      set_if-StaysOut (λ a. a.id == j) f h.0 edit h.2,
    );
  }

  abbrev IsSame : State t → Type 0
  IsSame s = get_article_row t k s ≡ some m

  IsSame-closed : IsClosed t IsSame (λ j. (m.id == j) ≡ false)
  unfolding get_article_row add_article add_version update_article_row
  IsSame-closed = record {
    on_links = λ db s h. h;
    on_article = λ a s h. first-insert t.articles _ _ a s.articles h;
    on_version = λ v s h. h;
    on_stamp = λ now j s h. h;
    on_row = λ j f s other edit h.
        first-update_miss t.articles _ _ f s.articles (λ a. rw (edit.same_id a) refl) h other;
  }

  own_id : (s : State t) (j : ℕ) {a : Article} → get_article_row t j s ≡ some a → a.id ≡ j
  unfolding get_article_row
  own_id s j {a = a} found =
      (==_iff a.id j).0 (first_passes t.articles (λ x. x.id == j) s.articles found)

  -- An archived article is another one than an open one, and than one that is not there.
  apart :
      (s : State t) (j : ℕ) (a : Article)
      → is_archived m.status ≡ true
      → IsSame s
      → get_article_row t j s ≡ some a
      → is_archived a.status ≡ false
      → (m.id == a.id) ≡ false
  apart s j a closed h found live = elim (Bool-cases (m.id == a.id)) [
    | inr other ↦ other
    | inl same ↦
        let one : k ≡ j = sym (own_id s k h) ∙ (==_iff m.id a.id).0 same ∙ own_id s j found in
        let twice : some m ≡ some a = sym h ∙ ap (λ x. get_article_row t x s) one ∙ found in
        absurd (clash live (sym (ap archived_option twice) ∙ closed))
  ]

  missing : (s : State t) (j : ℕ) → IsSame s → get_article_row t j s ≡ none → (m.id == j) ≡ false
  missing s j h gone = elim (Bool-cases (m.id == j)) [
    | inr other ↦ other
    | inl same ↦
        let one : k ≡ j = sym (own_id s k h) ∙ (==_iff m.id j).0 same in
        absurd (none≢some (sym gone ∙ sym (ap (λ x. get_article_row t x s) one) ∙ h))
  ]

  -- Whatever calls follow, an article is found again; once it has left draft it is no draft again,
  -- and once it is archived it stays exactly as it is.
  pub life_cycle :
      (summary : ℕ → Text) (s s' : State t)
      → get_article_row t k s ≡ some m
      → Reach t summary s s'
      → ((b : Article) × (get_article_row t k s' ≡ some b) × StaysOut m b)
        × (is_archived m.status ≡ true → get_article_row t k s' ≡ some m)
  life_cycle summary s s' found r = (
    Reach-P t summary IsOut (λ j. Unit {0}) IsOut-closed (λ u h j a e live. tt) (λ j u h e. tt)
        (m, found, λ e. e) r,
    λ closed.
        Reach-P t summary IsSame (λ j. (m.id == j) ≡ false) IsSame-closed
          (λ u h j a e live. apart u j a closed h e live) (λ j u h e. missing u j h e) found r,
  )
