-- ===== src/Sessions/Rotation.antt =====
-- A refresh token is good for one rotation.
use mathlib.Core.Option
use onboard_ai.Common.{
  ℕ, subst, sym, ◌<◌, ◌≡◌, refl, ap, ◌∙◌, Bool, true, Option, none, some, arith, ◌==◌, ==_refl, leb,
  is_some, ok, err, unauthorized, Option-cases, Bool-cases, inl, inr,
}
use onboard_ai.Store.{Table, set_if}
use onboard_ai.Store.Laws.{first-update, first-insert}
use onboard_ai.Sessions.{
  Subject, same_subject, Session, revoked_values, get_by_token_hash, revoke_family,
  revoke_by_token_hash, revoke_all_for_subject, revoke_session, issue, new_session, rotate,
  begin_rotation, revoke_raw,
}

module _ (t : Table Session) (hash_token : ℕ → ℕ) where
  open t use {Db, rows, first, update, insert}

  -- The calls on the table of sessions, at any time and with any arguments.
  pub data Step : Db → Db → Type 0 where
    issues :
        (id raw fresh now days : ℕ) (kind : Subject) (subject : ℕ) (family : Option ℕ) (db : Db)
        → Step db (issue t hash_token id raw fresh now days kind subject family db).0
    rotates :
        (raw : ℕ) (kind : Subject) (now : ℕ) (db : Db)
        → Step db (begin_rotation t hash_token raw kind now db).0
    revokes : (raw : Option ℕ) (now : ℕ) (db : Db) → Step db (revoke_raw t hash_token raw now db)
    revokes_all :
        (now : ℕ) (kind : Subject) (subject : ℕ) (db : Db)
        → Step db (revoke_all_for_subject t now kind subject db)

  pub data Reach (start : Db) : Db → Type 0 where
    here : Reach start start
    next : {db db' : Db} → Reach start db → Step db db' → Reach start db'

  -- The session of a token is revoked.
  abbrev pub IsRevoked : ℕ → Db → Type 0
  IsRevoked h db =
      (s : Session) × (get_by_token_hash t h db ≡ some s) × (is_some s.revoked_at ≡ true)

  -- A revocation of any rows.
  revoke-IsRevoked :
      (h now : ℕ) (p : Session → Bool) (db : Db)
      → IsRevoked h db
      → IsRevoked h (update p (revoked_values now) db).0
  unfolding get_by_token_hash revoked_values
  revoke-IsRevoked h now p db (s, found, gone) = (
    set_if p (revoked_values now) s,
    first-update t _ p (revoked_values now) db (λ r. refl)
        ∙ ap (Option.map (set_if p (revoked_values now))) found,
    ground (arith, gone),
  )

  -- A call leaves the table as it was, or as one statement leaves it.
  pub issue_cases {ℓ} :
      (P : Db → Type ℓ) (id raw fresh now days : ℕ) (kind : Subject) (subject : ℕ)
      (family : Option ℕ) (db : Db)
      → P db
      → ((s : Session) → P (insert (λ r. r.token_hash == hash_token raw) s db).0)
      → P (issue t hash_token id raw fresh now days kind subject family db).0
  unfolding issue
  issue_cases P id raw fresh now days kind subject family db kept added =
      elim (Option-cases
        (insert (λ r. r.token_hash == hash_token raw)
          (new_session hash_token id raw fresh now days kind subject family) db).1) [
            | inl taken ↦ rw (taken, issue) kept
            | inr (s, done) ↦ rw (done, issue) (added _)
          ]

  pub begin_rotation_cases {ℓ} :
      (P : Db → Type ℓ) (raw : ℕ) (kind : Subject) (now : ℕ) (db : Db)
      → P db
      → ((s : Session) → P (revoke_family t now s.family_id db))
      → ((s : Session) → P (revoke_session t now s db))
      → P (begin_rotation t hash_token raw kind now db).0
  unfolding begin_rotation rotate
  begin_rotation_cases P raw kind now db kept family one =
      elim (Option-cases (get_by_token_hash t (hash_token raw) db)) [
        | inl missing ↦ rw (missing, begin_rotation) kept
        | inr (s, found) ↦
            rw (found, begin_rotation)
              (elim (Bool-cases (same_subject s.subject_type kind)) [
                | inr other ↦ rw other kept
                | inl same ↦ rw same (elim (Bool-cases (is_some s.revoked_at)) [
                  | inl revoked ↦ rw revoked (family s)
                  | inr live ↦ rw live (elim (Bool-cases (leb s.expires_at now)) [
                    | inl expired ↦ rw expired (one s)
                    | inr current ↦ rw current (one s)
                  ])
                ])
              ])
      ]

  Step-IsRevoked : (h : ℕ) {db db' : Db} → Step db db' → IsRevoked h db → IsRevoked h db'
  Step-IsRevoked h (issues id raw fresh now days kind subject family db) k =
      issue_cases (IsRevoked h) id raw fresh now days kind subject family db k
        λ s. (k.0, unfold get_by_token_hash in first-insert t _ _ s db k.1, k.2)
  Step-IsRevoked h (rotates raw kind now db) k =
      begin_rotation_cases (IsRevoked h) raw kind now db k
        (λ s. unfold revoke_family in revoke-IsRevoked h now _ db k)
        (λ s. unfold revoke_session in revoke-IsRevoked h now _ db k)
  Step-IsRevoked h (revokes none now db) k = unfold revoke_raw in k
  Step-IsRevoked h (revokes (some raw) now db) k =
      unfold revoke_raw revoke_by_token_hash in revoke-IsRevoked h now _ db k
  Step-IsRevoked h (revokes_all now kind subject db) k =
      unfold revoke_all_for_subject in revoke-IsRevoked h now _ db k

  pub Reach-IsRevoked :
      (h : ℕ) {start db : Db} → IsRevoked h start → Reach start db → IsRevoked h db
  Reach-IsRevoked h k here = k
  Reach-IsRevoked h k (next r s) = Step-IsRevoked h s (Reach-IsRevoked h k r)

  -- What a presented token leads to, when its session is found live, current and of the right kind.
  pub begin_rotation_ok :
      (raw : ℕ) (kind : Subject) (now : ℕ) (db : Db) (s : Session)
      → get_by_token_hash t (hash_token raw) db ≡ some s
      → same_subject s.subject_type kind ≡ true
      → s.revoked_at ≡ none
      → now < s.expires_at
      → begin_rotation t hash_token raw kind now db
        ≡ (revoke_session t now s db, ok (s.subject_id, s.family_id))
  unfolding begin_rotation rotate
  begin_rotation_ok raw kind now db s found same live current =
      rw (found, begin_rotation) (rw (same, live) (ground arith))

  IsRevoked-after :
      (raw now : ℕ) (db : Db) (s : Session)
      → get_by_token_hash t (hash_token raw) db ≡ some s
      → IsRevoked (hash_token raw) (revoke_session t now s db)
  unfolding revoke_session get_by_token_hash revoked_values
  IsRevoked-after raw now db s found = (
    revoked_values now s,
    first-update t _ _ (revoked_values now) db (λ r. refl)
        ∙ ap (Option.map (set_if (λ r. r.id == s.id) (revoked_values now))) found
        ∙ rw (==_refl s.id),
    refl,
  )

  -- A call that rotates has revoked the session of its token.
  granted-IsRevoked :
      (raw : ℕ) (kind : Subject) (now : ℕ) (db : Db) {grant : ℕ × ℕ}
      → (begin_rotation t hash_token raw kind now db).1 ≡ ok grant
      → IsRevoked (hash_token raw) (begin_rotation t hash_token raw kind now db).0
  unfolding begin_rotation rotate
  granted-IsRevoked raw kind now db e =
      elim (Option-cases (get_by_token_hash t (hash_token raw) db)) [
        | inl missing ↦ absurd (ground (arith, missing))
        | inr (s, found) ↦
            let alone : (begin_rotation t hash_token raw kind now db).0
                ≡ revoke_session t now s db =
              ground (arith, found) in
            subst (IsRevoked (hash_token raw)) (sym alone) (IsRevoked-after raw now db s found)
      ]

  pub revoked_refused :
      (raw : ℕ) (kind : Subject) (now : ℕ) (db : Db)
      → IsRevoked (hash_token raw) db
      → (begin_rotation t hash_token raw kind now db).1 ≡ err unauthorized
  unfolding begin_rotation rotate
  revoked_refused raw kind now db (s, found, gone) = ground (arith, found, gone)

  -- A refresh token is good for one rotation: after a call that rotated it, and whatever calls
  -- follow, presenting it again is refused.
  pub rotation_single_use :
      (raw : ℕ) (kind kind' : Subject) (now later : ℕ) (start : Db) {db : Db} {grant : ℕ × ℕ}
      → (begin_rotation t hash_token raw kind now start).1 ≡ ok grant
      → Reach (begin_rotation t hash_token raw kind now start).0 db
      → (begin_rotation t hash_token raw kind' later db).1 ≡ err unauthorized
  rotation_single_use raw kind kind' now later start {db = db} e path =
      revoked_refused raw kind' later db
        (Reach-IsRevoked (hash_token raw) (granted-IsRevoked raw kind now start e) path)
