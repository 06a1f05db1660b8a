-- ===== src/Course/Blocks/Loading.antt =====
-- What a loaded row is, and what is loaded after the cursor was written.
use onboard_ai.Common.{
  ℕ, ◌≡◌, refl, sym, ap, subst, arith, true, false, not, Option, some, ◌==◌, ==_refl, not-true, ok,
  not_found, conflict, validation, require-ok, given-ok, ok-injective, pos,
}
use onboard_ai.Common.Text.{Text, codes, text_eq}
use onboard_ai.Common.Json.{
  Json, number, boolean, get, set_key, lookup-set_key, lookup-set_key_other,
}
use onboard_ai.Store.{Table}
use onboard_ai.Store.Laws.{first-update}
use onboard_ai.Course.{
  Progress, Assignment, Step, is_completed, is_cancelled, is_step_completed, written, State,
  get_assignment, get_step, get_progress, put_progress,
}
use onboard_ai.Course.Answers.{payload_block_index, current_block_index}
use onboard_ai.Course.Snapshot.{resolve_progress_step_fields}
use onboard_ai.Course.Steps.{Env, fields_of}
use onboard_ai.Course.Blocks.{merge_learning_payload, advanced_row, Loaded, load_row, load_mutable}

get-merge :
    (payload : Json) (n : ℕ)
    → get (codes "block_index") (merge_learning_payload payload n) ≡ number (pos n)
unfolding merge_learning_payload get text_eq
get-merge payload n =
    rw
      (
        lookup-set_key_other (codes "block_index") (codes "content_started") (boolean true)
            (set_key (codes "block_index") (number (pos n)) (fields_of payload)) refl,
        lookup-set_key (codes "block_index") (number (pos n)) (fields_of payload),
      )
      refl

-- The cursor that is written is read back.
pub current_block_index-merge :
    (digits_value : Text → Option ℕ) (payload : Json) (n : ℕ)
    → current_block_index digits_value (merge_learning_payload payload n) ≡ n
unfolding current_block_index payload_block_index
current_block_index-merge digits_value payload n =
    rw (current_block_index, payload_block_index, get-merge payload n) refl

module _ (ta : Table Assignment) (ts : Table Step) (tp : Table Progress) where
  -- What the loading of a row has checked.
  load_row_lem :
      (env : Env) (company_id : ℕ) (p : Progress) (s : State ta ts tp) {l : Loaded}
      → load_row ta ts tp env company_id p s ≡ ok l
      → (l.row ≡ p) × (is_step_completed p.status ≡ false)
  unfolding load_row
  load_row_lem env company_id p s h =
      let (a, at, h1) = given-ok not_found (get_assignment ta ts tp p.assignment_id s) _ h in
      let (_, h2) = require-ok (a.company_id == company_id) not_found _ h1 in
      let (fresh, h3) = require-ok (not (is_step_completed p.status)) conflict _ h2 in
      let (_, h4) = require-ok (not (is_cancelled a.status)) validation _ h3 in
      let (_, h5) = require-ok (not (is_completed a.status)) validation _ h4 in
      let (r, _, last) =
        given-ok validation
          (resolve_progress_step_fields env.show env.read_uuid p.step_id
            (get_step ta ts tp p.step_id s) a.structure_snapshot)
          _ h5 in
      (
        sym (ap (λ (l : Loaded). l.row) (ok-injective last)),
        not-true (is_step_completed p.status) fresh,
      )

  pub load_mutable_lem :
      (env : Env) (progress_id company_id : ℕ) (s : State ta ts tp) (l : Loaded)
      → load_mutable ta ts tp env progress_id company_id s ≡ ok l
      → (get_progress ta ts tp progress_id s ≡ some l.row)
        × (load_row ta ts tp env company_id l.row s ≡ ok l)
        × (is_step_completed l.row.status ≡ false)
  unfolding load_mutable
  load_mutable_lem env progress_id company_id s l h =
      let (p, found, h1) = given-ok not_found (get_progress ta ts tp progress_id s) _ h in
      let (same, fresh) = load_row_lem env company_id p s h1 in
      subst
        (λ (x : Progress).
          (get_progress ta ts tp progress_id s ≡ some x)
          × (load_row ta ts tp env company_id x s ≡ ok l)
          × (is_step_completed x.status ≡ false))
        (sym same) (found, h1, fresh)

  get_progress-put :
      (n progress_id : ℕ) (p : Progress) (s : State ta ts tp)
      → get_progress ta ts tp progress_id s ≡ some p
      → get_progress ta ts tp progress_id (put_progress ta ts tp (advanced_row n p) s)
        ≡ some (advanced_row n p)
  unfolding get_progress put_progress advanced_row
  get_progress-put n progress_id p s found =
      rw
        (
          first-update tp (λ x. x.id == progress_id) (λ x. x.id == p.id)
              (written (advanced_row n p)) s.progress (λ x. refl),
          found,
          ==_refl p.id,
        )
        refl

  load_row-put :
      (env : Env) (n company_id : ℕ) (p : Progress) (s : State ta ts tp) (l : Loaded)
      → load_row ta ts tp env company_id p s ≡ ok l
      → load_row ta ts tp env company_id
          (advanced_row n p)
          (put_progress ta ts tp (advanced_row n p) s)
        ≡ ok (record l { row = advanced_row n p })
  unfolding load_row advanced_row get_assignment get_step put_progress
  load_row-put env n company_id p s l h = ground (arith, h)

  pub load_mutable-put :
      (env : Env) (n progress_id company_id : ℕ) (s : State ta ts tp) (l : Loaded)
      → load_mutable ta ts tp env progress_id company_id s ≡ ok l
      → load_mutable ta ts tp env progress_id company_id
          (put_progress ta ts tp (advanced_row n l.row) s)
        ≡ ok (record l { row = advanced_row n l.row })
  unfolding load_mutable
  load_mutable-put env n progress_id company_id s l h =
      let (found, loaded, _) = load_mutable_lem env progress_id company_id s l h in
      rw (get_progress-put n progress_id l.row s found)
        (load_row-put env n company_id l.row s l loaded)
