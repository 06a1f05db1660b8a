-- ===== src/Knowledge/Editing/History.antt =====
-- The versions of articles are a history: none is changed or lost.
use onboard_ai.Common.{
  ℕ, ◌≡◌, refl, ap, ◌∙◌, inl, inr, Bool, true, Option, none, some, ◌==◌, Bool-cases, is_some,
}
use onboard_ai.Common.Text.{Text}
use onboard_ai.Store.{set_if}
use onboard_ai.Store.Laws.{first-update, first-insert}
use onboard_ai.Knowledge.{Version, Tables, State, get_version_row, update_article_row}
use onboard_ai.Knowledge.Editing.{or_old, set_published_at, add_article, add_version}
use onboard_ai.Knowledge.Editing.Cases.{IsClosed}
use onboard_ai.Knowledge.Editing.Calls.{Reach, Reach-P}

-- The same version, but for a time of publication that it did not have yet.
abbrev pub Keeps : Version → Version → Type 0
Keeps v w =
    (record w { published_at = v.published_at } ≡ v) × (is_some v.published_at ≡ true → w ≡ v)

or_old_same : (o : Option ℕ) (now : ℕ) → is_some o ≡ true → some (or_old o now) ≡ o
or_old_same none now e = cc
or_old_same (some at) now e = refl

set_published_at_again :
    (v : Version) (now : ℕ) → is_some v.published_at ≡ true → set_published_at now v ≡ v
unfolding set_published_at
set_published_at_again v now e =
    ap (λ (o : Option ℕ). record v { published_at = o }) (or_old_same v.published_at now e)

set_published_at-Keeps : (v w : Version) (now : ℕ) → Keeps v w → Keeps v (set_published_at now w)
unfolding set_published_at
set_published_at-Keeps v w now h =
    (h.0, λ e. ap (set_published_at now) (h.1 e) ∙ set_published_at_again v now e)

module _ (t : Tables) (k : ℕ) (v : Version) where
  abbrev IsKept : State t → Type 0
  IsKept s = (w : Version) × (get_version_row t k s ≡ some w) × Keeps v w

  set_if-Keeps :
      (p : Version → Bool) (now : ℕ) (w : Version)
      → Keeps v w
      → Keeps v (set_if p (set_published_at now) w)
  set_if-Keeps p now w h = elim (Bool-cases (p w)) [
    | inl hit ↦ rw hit (set_published_at-Keeps v w now h)
    | inr miss ↦ rw miss h
  ]

  IsKept-closed : IsClosed t IsKept (λ j. Unit {0})
  unfolding get_version_row add_article add_version update_article_row set_published_at
  IsKept-closed = record {
    on_links = λ db s h. h;
    on_article = λ a s h. h;
    on_version = λ x s h. (h.0, first-insert t.versions _ _ x s.versions h.1, h.2);
    on_stamp = λ now j s h. (
      set_if (λ x. x.id == j) (set_published_at now) h.0,
      first-update t.versions _ _ (set_published_at now) s.versions (λ x. refl) ∙ rw (h.1) refl,
      set_if-Keeps (λ x. x.id == j) now h.0 h.2,
    );
    on_row = λ j f s allowed edit h. h;
  }

  -- Whatever calls follow, a version is found again with its number, its text and its author: only a
  -- first time of publication may be added to it.
  pub versions_kept :
      (summary : ℕ → Text) (s s' : State t)
      → get_version_row t k s ≡ some v
      → Reach t summary s s'
      → (w : Version) × (get_version_row t k s' ≡ some w) × Keeps v w
  versions_kept summary s s' found r =
      Reach-P t summary IsKept (λ j. Unit {0}) IsKept-closed (λ u h j a e live. tt) (λ j u h e. tt)
        (v, found, (refl, λ e. refl)) r
