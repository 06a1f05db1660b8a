-- ===== src/Outbox/Sound.antt =====
-- What holds of an outbox row and of its table between two transactions.
use onboard_ai.Common.{
  ℕ, ◌≤◌, ◌<◌, ◌≡◌, refl, Bool, true, false, arith, ◌==◌, any, All, All-diagonal, All-true,
  All-weaken, ==_refl, clash, Unique, Unique-map, Unique-snoc, Unique-any, is_some, Bool-cases, inl,
  inr,
}
use onboard_ai.Common.Text.{Text}
use onboard_ai.Store.{Table, set_if}
use onboard_ai.Store.Laws.{All-update, All-insert}
use onboard_ai.Outbox.{
  Status, sending, sent, Message, Picker, is_sending, claimable, claimed_by, is_owned, sent_values,
  failed_values, exhausted_stale, exhausted_values,
}
use onboard_ai.Outbox.Service.{max_attempts}

abbrev pub is_sent : Status → Bool
is_sent sent = true
is_sent _ = false

-- What holds of a row between two transactions.
pub record IsSound (m : Message) : Type 0 where
  pub bounded : m.attempt_count ≤ max_attempts
  pub owned : is_some m.owner_token ≡ is_sending m.status
  pub leased : is_some m.lease_expires_at ≡ is_sending m.status
  pub tried : m.status ≡ sending → 0 < m.attempt_count
  pub stamped : is_some m.sent_at ≡ is_sent m.status
  pub delivered : is_some m.telegram_message_id ≡ is_sent m.status

pub claimed_by-IsSound :
    (token now lease : ℕ) (m : Message)
    → IsSound m
    → claimable now max_attempts m ≡ true
    → IsSound (claimed_by token now lease m)
unfolding claimable claimed_by is_sending
claimed_by-IsSound token now lease m h c = ground arith

pub sent_values-IsSound :
    (id token telegram now : ℕ) (m : Message)
    → IsSound m
    → is_owned id token m ≡ true
    → IsSound (sent_values telegram now m)
unfolding is_owned sent_values is_sending
sent_values-IsSound id token telegram now m h c = ground arith

pub failed_values-IsSound :
    (id token : ℕ) (again : Bool) (at : ℕ) (category : Text) (m : Message)
    → IsSound m
    → is_owned id token m ≡ true
    → IsSound (failed_values again at category m)
unfolding is_owned failed_values is_sending
failed_values-IsSound id token again at category m h c = ground arith

pub exhausted_values-IsSound :
    (now : ℕ) (m : Message)
    → IsSound m
    → exhausted_stale now max_attempts m ≡ true
    → IsSound (exhausted_values m)
unfolding exhausted_stale exhausted_values is_sending
exhausted_values-IsSound now m h c = ground arith

module _ (t : Table Message) where
  open t use {Db, rows, update, insert, update_rows, insert_fresh, insert_conflict}

  -- Between two transactions every row is sound and the ids are distinct.
  pub record IsSoundDb (db : Db) : Type 0 where
    pub sound : All IsSound (rows db)
    pub distinct : Unique (λ m. m.id) (rows db)

  pub update-distinct :
      (p : Message → Bool) (f : Message → Message) (db : Db)
      → ((m : Message) → (f m).id ≡ m.id)
      → Unique (λ m. m.id) (rows db)
      → Unique (λ m. m.id) (rows (update p f db).0)
  update-distinct p f db same u =
      rw (update_rows p f db) (Unique-map (λ m. m.id) (set_if p f) (rows db) keeps u)
    where
      keeps : (m : Message) → (set_if p f m).id ≡ m.id
      keeps m = elim (Bool-cases (p m)) [ inl hit ↦ rw hit (same m) | inr miss ↦ rw miss refl ]

  -- An update of sound rows into sound rows, which leaves the ids alone.
  pub update-IsSoundDb :
      (p : Message → Bool) (f : Message → Message) (db : Db)
      → ((m : Message) → (f m).id ≡ m.id)
      → ((m : Message) → IsSound m → p m ≡ true → IsSound (f m))
      → IsSoundDb db
      → IsSoundDb (update p f db).0
  update-IsSoundDb p f db same step h = record {
    sound = All-update t IsSound p f db step h.sound;
    distinct = update-distinct p f db same h.distinct;
  }

  pub insert-IsSoundDb :
      (p : Message → Bool) (m : Message) (db : Db)
      → IsSound m
      → any (λ r. r.id == m.id) (rows db) ≡ false
      → IsSoundDb db
      → IsSoundDb (insert p m db).0
  insert-IsSoundDb p m db new fresh h = record {
    sound = All-insert t IsSound p m db new h.sound;
    distinct = elim (Bool-cases (any p (rows db))) [
      | inl taken ↦ rw ((insert_conflict p m db taken).0) h.distinct
      | inr free ↦
          rw ((insert_fresh p m db free).0) (Unique-snoc (λ r. r.id) (rows db) m fresh h.distinct)
    ];
  }

  -- Every row whose id was picked passes the condition of the pick.
  pub picked_passes :
      (w : Picker t) (p : Message → Bool) (n : ℕ) (db : Db)
      → Unique (λ m. m.id) (rows db)
      → All (λ m. any (λ j. j == m.id) (w.pick p n db) ≡ true → p m ≡ true) (rows db)
  picked_passes w p n db u =
      All-weaken _ _ (rows db) (λ m at hit. at hit (==_refl m.id))
        (All-diagonal
          (λ x y. any (λ j. j == x.id) (w.pick p n db) ≡ true → (y.id == x.id) ≡ true → p y ≡ true)
          (rows db) each)
    where
      each :
          (x : Message)
          → All
              (λ y.
                any (λ j. j == x.id) (w.pick p n db) ≡ true → (y.id == x.id) ≡ true → p y ≡ true)
              (rows db)
      each x = elim (Bool-cases (any (λ j. j == x.id) (w.pick p n db))) [
        | inl hit ↦
            All-weaken _ _ (rows db) (λ y k _ same. k same)
              (Unique-any (λ m. m.id) x.id p (rows db) u (w.pick_passes p n db x.id hit))
        | inr miss ↦ All-true _ (rows db) (λ y hit. absurd (clash miss hit))
      ]
