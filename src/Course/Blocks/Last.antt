-- ===== src/Course/Blocks/Last.antt =====
-- A content step is completed at its last block.
use onboard_ai.Common.{
  ℕ, zero, suc, ◌+◌, ◌≤◌, if◌then◌else◌, ◌≡◌, ◌∙◌, refl, sym, ap, subst, inl, inr, arith, Bool,
  true, false, Bool-cases, clash, ok, validation, >>=-ok, require-ok, ok-injective, pos,
}
use onboard_ai.Common.Text.{codes, text_eq}
use onboard_ai.Store.{Table}
use onboard_ai.Course.{Progress, Assignment, Step, is_step_completed, State}
use onboard_ai.Course.Answers.{current_block_index}
use onboard_ai.Course.Steps.{Env}
use onboard_ai.Course.Blocks.Loading.{load_mutable_lem, current_block_index-merge}
use onboard_ai.Course.Blocks.{
  is_final_block, started_row, Loaded, is_not_started, load_mutable, ensure_started, may_complete,
  finish_block, complete_content_block,
}

-- The position at which a call finds the employee: the first block where the step is opened by it.
abbrev position : Env → Progress → ℕ
position env p =
    if is_not_started p.status then 0 else current_block_index env.digits_value p.payload

-- The block is the last one at that position.
abbrev IsLast : Env → ℕ → Loaded → Type 0
IsLast env expected l = (expected ≡ position env l.row) × (l.block_count ≤ expected + 1)

may_complete_lem :
    (just_started : Bool) (expected current block_count : ℕ)
    → (just_started ≡ true → current ≡ 0)
    → may_complete just_started expected current block_count ≡ true
    → (expected ≡ current) × (block_count ≤ expected + 1)
unfolding may_complete is_final_block
may_complete_lem true expected current zero new h = ground (arith, h, new refl)
may_complete_lem true expected current (suc n) new h = ground (arith, h, new refl)
may_complete_lem false expected current zero new h = ground (arith, h)
may_complete_lem false expected current (suc n) new h = ground (arith, h)

module _ (ta : Table Assignment) (ts : Table Step) (tp : Table Progress) where
  ensure_started_lem :
      (now : ℕ) (l : Loaded) (s : State ta ts tp)
      → is_step_completed l.row.status ≡ false
      → is_step_completed (ensure_started ta ts tp now l s).1.status ≡ false
  unfolding ensure_started started_row is_step_completed
  ensure_started_lem now l s fresh = elim (Bool-cases (is_not_started l.row.status)) [
    | inl new ↦ rw new refl
    | inr old ↦ rw old fresh
  ]

  -- Where the call finds the employee, once it has opened the step.
  ensure_started-position :
      (env : Env) (now : ℕ) (l : Loaded) (s : State ta ts tp)
      → let (s1, p, just_started) = ensure_started ta ts tp now l s in
        (current_block_index env.digits_value p.payload ≡ position env l.row)
        × (just_started ≡ true → current_block_index env.digits_value p.payload ≡ 0)
  unfolding ensure_started started_row
  ensure_started-position env now l s = elim (Bool-cases (is_not_started l.row.status)) [
    | inl new ↦
        let at_first = current_block_index-merge env.digits_value l.row.payload 0 in
        rw new (at_first, λ _. at_first)
    | inr old ↦ rw old (refl, λ e. cc)
  ]

  finish_block-IsLast :
      (env : Env) (now company_id expected : ℕ) (l : Loaded) (s s' : State ta ts tp) (q : Progress)
      → is_step_completed l.row.status ≡ false
      → finish_block ta ts tp env now company_id expected l s ≡ ok (s', q)
      → is_step_completed q.status ≡ true
      → IsLast env expected l
  unfolding finish_block
  finish_block-IsLast env now company_id expected l s s' q fresh h done =
      let (s1, p, just_started) = ensure_started ta ts tp now l s in
      let current = current_block_index env.digits_value p.payload in
      let (at, first) = ensure_started-position env now l s in
      elim (Bool-cases (may_complete just_started expected current l.block_count)) [
        | inl last ↦
            let (named, end) =
              may_complete_lem just_started expected current l.block_count first last in
            (named ∙ at, end)
        | inr more ↦
            let same : p ≡ q =
              ap (λ (r : State ta ts tp × Progress). r.1) (ok-injective (rw more at h)) in
            absurd (
              clash (ensure_started_lem now l s fresh)
                (subst (λ (q : Progress). is_step_completed q.status ≡ true) (sym same) done))
      ]

  -- A content step that a call completes was read to its last block: the call names the block at
  -- which the employee is, the first where the call itself opens the step, and no other follows it,
  -- whichever row and company it is for.
  pub completed_at_last :
      (env : Env) (now progress_id company_id expected : ℕ) (s s' : State ta ts tp) (l : Loaded)
      (q : Progress)
      → load_mutable ta ts tp env progress_id company_id s ≡ ok l
      → complete_content_block ta ts tp env now progress_id company_id (pos expected) s ≡ ok (s', q)
      → is_step_completed q.status ≡ true
      → (expected ≡ (
          if is_not_started l.row.status
          then 0
          else current_block_index env.digits_value l.row.payload))
        × (l.block_count ≤ expected + 1)
  unfolding complete_content_block
  completed_at_last env now progress_id company_id expected s s' l q loaded h done =
      let (k, found, h1) = >>=-ok (load_mutable ta ts tp env progress_id company_id s) _ h in
      let (_, h2) = require-ok (text_eq k.step_type (codes "content")) validation _ h1 in
      let same : k ≡ l = ok-injective (sym found ∙ loaded) in
      finish_block-IsLast env now company_id expected l s s' q
        (load_mutable_lem ta ts tp env progress_id company_id s l loaded).2
        (subst (λ (k : Loaded). finish_block ta ts tp env now company_id expected k s ≡ ok (s', q))
          same h2)
        done
