-- ===== src/Course/Blocks/Cursor.antt =====
-- The cursor moves one block at a time, once for each block that is read.
use onboard_ai.Common.{
  ℕ, zero, suc, ◌+◌, ◌<◌, ◌≡◌, ◌⊎◌, some, ◌∙◌, refl, inl, inr, arith, true, false, Bool-cases, ok,
  pos,
}
use onboard_ai.Common.Text.{codes, text_eq}
use onboard_ai.Store.{Table}
use onboard_ai.Course.{Progress, Assignment, Step, State, get_progress, put_progress}
use onboard_ai.Course.Answers.{current_block_index}
use onboard_ai.Course.Steps.{Env}
use onboard_ai.Course.Blocks.Loading.{current_block_index-merge, load_mutable-put, load_mutable_lem}
use onboard_ai.Course.Blocks.{
  is_final_block, advanced_row, Loaded, is_not_started, load_mutable, ensure_started, may_advance,
  advance_row, advance_block,
}

-- Where the block that is named is the current one and another follows, the cursor is on that one;
-- otherwise the row is as it was.
abbrev pub HasMoved : Env → ℕ → Loaded → Progress → Type 0
HasMoved env expected l q =
    let before = current_block_index env.digits_value l.row.payload in
    ((before ≡ expected × before + 1 < l.block_count)
      × (current_block_index env.digits_value q.payload ≡ before + 1))
    ⊎ ((¬ (before ≡ expected × before + 1 < l.block_count)) × (q ≡ l.row))

module _ (ta : Table Assignment) (ts : Table Step) (tp : Table Progress) where
  -- The call with a loaded row.
  advance_block_loaded :
      (env : Env) (now progress_id company_id expected : ℕ) (s : State ta ts tp) (l : Loaded)
      → load_mutable ta ts tp env progress_id company_id s ≡ ok l
      → text_eq l.step_type (codes "content") ≡ true
      → is_not_started l.row.status ≡ false
      → advance_block ta ts tp env now progress_id company_id (pos expected) s
        ≡ ok (advance_row ta ts tp env l.block_count expected l.row s)
  unfolding advance_block ensure_started
  advance_block_loaded env now progress_id company_id expected s l loaded kind begun =
      rw (loaded, kind, begun) refl

  advance_row_moves :
      (env : Env) (block_count expected : ℕ) (p : Progress) (s : State ta ts tp)
      → may_advance expected (current_block_index env.digits_value p.payload) block_count ≡ true
      → advance_row ta ts tp env block_count expected p s ≡ (
        put_progress ta ts tp
            (advanced_row (current_block_index env.digits_value p.payload + 1) p)
            s,
        advanced_row (current_block_index env.digits_value p.payload + 1) p,
      )
  unfolding advance_row
  advance_row_moves env block_count expected p s h = rw h refl

  advance_row_stays :
      (env : Env) (block_count expected : ℕ) (p : Progress) (s : State ta ts tp)
      → may_advance expected (current_block_index env.digits_value p.payload) block_count ≡ false
      → advance_row ta ts tp env block_count expected p s ≡ (s, p)
  unfolding advance_row
  advance_row_stays env block_count expected p s h = rw h refl

  advanced_row-index :
      (env : Env) (n : ℕ) (p : Progress)
      → current_block_index env.digits_value (advanced_row n p).payload ≡ n
  unfolding advanced_row
  advanced_row-index env n p = current_block_index-merge env.digits_value p.payload n

  begun_kept :
      (n : ℕ) (p : Progress)
      → is_not_started p.status ≡ false
      → is_not_started (advanced_row n p).status ≡ false
  unfolding advanced_row
  begun_kept n p h = h

  may_advance_lem :
      (current expected block_count : ℕ)
      → may_advance expected current block_count ≡ true
      → (current ≡ expected) × (current + 1 < block_count)
  unfolding may_advance is_final_block
  may_advance_lem current expected zero h = ground arith
  may_advance_lem current expected (suc n) h = ground arith

  may_not_advance :
      (current expected block_count : ℕ)
      → may_advance expected current block_count ≡ false
      → ¬ ((current ≡ expected) × (current + 1 < block_count))
  unfolding may_advance is_final_block
  may_not_advance current expected zero h = λ k. omega (arith, k.1)
  may_not_advance current expected (suc n) h = λ k. ground (arith, h, k.0, k.1)

  not_twice :
      (current : ℕ) (expected block_count : ℕ)
      → may_advance expected current block_count ≡ true
      → may_advance expected (current + 1) block_count ≡ false
  unfolding may_advance
  not_twice current expected block_count h = ground (arith, h)

  -- On a content step that has been started, a call that names a block has the same result when it is
  -- made a second time: where it names the current block and another follows, it moves the cursor to
  -- that one, and otherwise it leaves the row as it is; the row that it returns is the one stored.
  pub advance_once :
      (env : Env) (now later progress_id company_id expected : ℕ) (s : State ta ts tp) (l : Loaded)
      → load_mutable ta ts tp env progress_id company_id s ≡ ok l
      → text_eq l.step_type (codes "content") ≡ true
      → is_not_started l.row.status ≡ false
      → (s' : State ta ts tp) × (q : Progress) × (advance_block ta ts tp env now progress_id
            company_id
            (pos expected)
            s
          ≡ ok (s', q))
        × (advance_block ta ts tp env later progress_id company_id (pos expected) s' ≡ ok (s', q))
        × (get_progress ta ts tp progress_id s' ≡ some q)
        × HasMoved env expected l q
  advance_once env now later progress_id company_id expected s l loaded kind begun =
      let current = current_block_index env.digits_value l.row.payload in
      elim (Bool-cases (may_advance expected current l.block_count)) [
        | inl moves ↦
            let q = advanced_row (current + 1) l.row in
            let s' = put_progress ta ts tp q s in
            let loaded' =
              load_mutable-put ta ts tp env (current + 1) progress_id company_id s l loaded in
            let index : current_block_index env.digits_value q.payload ≡ current + 1 =
              advanced_row-index env (current + 1) l.row in
            (
              s',
              q,
              advance_block_loaded env now progress_id company_id expected s l loaded kind begun
                  ∙ rw (advance_row_moves env l.block_count expected l.row s moves) refl,
              advance_block_loaded env later progress_id company_id expected s'
                    (record l { row = q }) loaded' kind (begun_kept (current + 1) l.row begun)
                  ∙ rw
                      (advance_row_stays env l.block_count expected q s'
                        (rw index (not_twice current expected l.block_count moves)))
                      refl,
              (load_mutable_lem ta ts tp env progress_id company_id s' (record l { row = q })
                  loaded').0,
              inl (may_advance_lem current expected l.block_count moves, index),
            )
        | inr stays ↦ (
          s,
          l.row,
          advance_block_loaded env now progress_id company_id expected s l loaded kind begun
              ∙ rw (advance_row_stays env l.block_count expected l.row s stays) refl,
          advance_block_loaded env later progress_id company_id expected s l loaded kind begun
              ∙ rw (advance_row_stays env l.block_count expected l.row s stays) refl,
          (load_mutable_lem ta ts tp env progress_id company_id s l loaded).0,
          inr (may_not_advance current expected l.block_count stays, refl),
        )
      ]
