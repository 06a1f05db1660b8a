-- ===== src/Course/Snapshot/History.antt =====
-- The snapshot that an assignment takes of its course is what its steps are read from, whatever
-- happens to the course.
use onboard_ai.Common.{
  ℕ, ◌≡◌, ◌≢◌, ◌∙◌, refl, inl, inr, arith, Bool, true, false, ◌||◌, Option, none, some, List, [],
  ◌∷◌, map, any, find, All, leb, ◌==◌, ==_iff, Bool-cases, Unique, All-weaken,
}
use onboard_ai.Common.Text.{Text, text_eq}
use onboard_ai.Common.Json.{
  Json, null, boolean, number, real, text, array, object, items, elements, lookup, get, truthy,
}
use onboard_ai.Course.{Step}
use onboard_ai.Course.Snapshot.{
  as_dict, insert_step, sort_steps, step_entry, build_structure_snapshot, is_entry_of, find_entry,
  snapped_step, resolved_entry, resolve_progress_step_fields,
}

elements-items : (xs : List Json) → elements (items xs) ≡ xs
elements-items [] = refl
elements-items (x ∷ xs) = rw (elements-items xs) refl

as_dict-as_dict : (v : Json) → as_dict (as_dict v) ≡ as_dict v
unfolding as_dict
as_dict-as_dict null = refl
as_dict-as_dict (boolean b) = refl
as_dict-as_dict (number z) = refl
as_dict-as_dict (real r) = refl
as_dict-as_dict (text s) = refl
as_dict-as_dict (array xs) = refl
as_dict-as_dict (object fs) = refl

-- Sorting keeps what all the steps have, and what one of them has.
insert_step-All :
    (P : Step → Type 0) (x : Step) (ys : List Step) → P x → All P ys → All P (insert_step x ys)
unfolding insert_step
insert_step-All P x [] px h = (px, tt)
insert_step-All P x (y ∷ ys) px h = elim (Bool-cases (leb x.position y.position)) [
  | inl before ↦ rw before (px, h)
  | inr after ↦ rw after (h.0, insert_step-All P x ys px h.1)
]

sort_steps-All : (P : Step → Type 0) (xs : List Step) → All P xs → All P (sort_steps xs)
unfolding sort_steps
sort_steps-All P [] h = tt
sort_steps-All P (x ∷ xs) h = insert_step-All P x (sort_steps xs) h.0 (sort_steps-All P xs h.1)

any-insert_step :
    (p : Step → Bool) (x : Step) (ys : List Step) → any p (insert_step x ys) ≡ (p x || any p ys)
unfolding insert_step
any-insert_step p x [] = refl
any-insert_step p x (y ∷ ys) = ground (arith, any-insert_step p x ys)

any-sort_steps : (p : Step → Bool) (xs : List Step) → any p (sort_steps xs) ≡ any p xs
unfolding sort_steps
any-sort_steps p [] = refl
any-sort_steps p (x ∷ xs) = ground (arith, any-insert_step p x (sort_steps xs), any-sort_steps p xs)

-- Where ids are unique, the step that is found is the only one of its id.
only_one :
    (k : ℕ) (xs : List Step) {step : Step}
    → Unique (λ (x : Step). x.id) xs
    → find (λ x. x.id == k) xs ≡ some step
    → All (λ x. x.id ≡ k → x ≡ step) xs
only_one k [] unique h = tt
only_one k (x ∷ xs) {step = step} unique h = elim (Bool-cases (x.id == k)) [
  | inl hit ↦
      let same : x ≡ step = ground arith in
      (
        λ _. same,
        All-weaken (λ y. y.id ≢ x.id) _ xs (λ y differs e. ground (arith, hit, differs, e))
            unique.0,
      )
  | inr miss ↦ (λ e. ground (arith, miss, e), only_one k xs unique.1 (rw miss at h))
]

found_any :
    (k : ℕ) (xs : List Step) {step : Step}
    → find (λ (x : Step). x.id == k) xs ≡ some step
    → any (λ (x : Step). x.id == k) xs ≡ true
found_any k [] e = cc
found_any k (x ∷ xs) {step = step} e = ground (arith, found_any k xs {step = step})

module _ (show : Json → Text) (read_uuid : Text → Option ℕ) (uuid_text : ℕ → Text)
    (round_trip : (k : ℕ) → read_uuid (uuid_text k) ≡ some k) where
  is_entry_of-step_entry :
      (k : ℕ) (step : Step)
      → is_entry_of show read_uuid k (step_entry uuid_text step) ≡ (step.id == k)
  unfolding is_entry_of step_entry get lookup text_eq
  is_entry_of-step_entry k step = rw (round_trip step.id) refl

  find_entry-none :
      (k : ℕ) (xs : List Step)
      → any (λ x. x.id == k) xs ≡ false
      → find_entry show read_uuid k (map (step_entry uuid_text) xs) ≡ none
  unfolding find_entry
  find_entry-none k [] h = refl
  find_entry-none k (x ∷ xs) h = ground (arith, find_entry-none k xs, is_entry_of-step_entry k x)

  find_entry-map :
      (k : ℕ) (xs : List Step) (step : Step)
      → All (λ x. x.id ≡ k → x ≡ step) xs
      → any (λ x. x.id == k) xs ≡ true
      → find_entry show read_uuid k (map (step_entry uuid_text) xs)
        ≡ some (step_entry uuid_text step)
  unfolding find_entry
  find_entry-map k [] step only h = cc
  find_entry-map k (x ∷ xs) step only h = elim (Bool-cases (any (λ x. x.id == k) xs)) [
    | inl later ↦ rw (find_entry-map k xs step only.1 later) refl
    | inr last ↦
        let hit : (x.id == k) ≡ true = ground arith in
        let same : x ≡ step = only.0 ((==_iff x.id k).0 hit) in
        rw (find_entry-none k xs last, is_entry_of-step_entry k x, hit, same) refl
  ]

  resolved_entry-step_entry :
      (step : Step)
      → truthy (text step.step_type) ≡ true
      → resolved_entry show read_uuid (step_entry uuid_text step)
        ≡ record { step_type = step.step_type; content = as_dict step.content }
  unfolding resolved_entry step_entry get lookup text_eq
  resolved_entry-step_entry step h = rw (h, as_dict-as_dict step.content) refl

  snapped_step-build :
      (revision k : ℕ) (steps : List Step) (step : Step)
      → Unique (λ (x : Step). x.id) steps
      → find (λ x. x.id == k) steps ≡ some step
      → snapped_step show read_uuid k (build_structure_snapshot uuid_text revision steps)
        ≡ some (step_entry uuid_text step)
  unfolding snapped_step build_structure_snapshot get lookup text_eq
  snapped_step-build revision k steps step unique found =
      let only = sort_steps-All (λ x. x.id ≡ k → x ≡ step) steps (only_one k steps unique found) in
      let there : any (λ x. x.id == k) (sort_steps steps) ≡ true =
        any-sort_steps (λ x. x.id == k) steps ∙ found_any k steps found in
      rw (elements-items (map (step_entry uuid_text) (sort_steps steps)))
        (find_entry-map k (sort_steps steps) step only there)

-- From a snapshot of a course, whose steps have different ids and types that are not empty, each step
-- is resolved to the type and the content that it had then, whatever the step is now, or if it is
-- gone. A UUID reads back from its text.
pub resolve-build :
    (show : Json → Text) (read_uuid : Text → Option ℕ) (uuid_text : ℕ → Text)
    (round_trip : (k : ℕ) → read_uuid (uuid_text k) ≡ some k) (revision k : ℕ) (steps : List Step)
    (step : Step) (live : Option Step)
    → Unique (λ (x : Step). x.id) steps
    → find (λ x. x.id == k) steps ≡ some step
    → truthy (text step.step_type) ≡ true
    → resolve_progress_step_fields show read_uuid k live
        (build_structure_snapshot uuid_text revision steps)
      ≡ some record { step_type = step.step_type; content = as_dict step.content }
unfolding resolve_progress_step_fields
resolve-build show read_uuid uuid_text round_trip revision k steps step live unique found typed =
    rw
      (
        snapped_step-build show read_uuid uuid_text round_trip revision k steps step unique found,
        resolve_progress_step_fields,
        resolved_entry-step_entry show read_uuid uuid_text round_trip step typed,
      )
      refl
