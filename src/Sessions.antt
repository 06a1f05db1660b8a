-- ===== src/Sessions.antt =====
-- Refresh sessions: app/db/models/refresh_session.py, the statements of
-- app/repositories/refresh_session.py and class RefreshSessionService of
-- app/services/refresh_session.py, over the table interface. `hash_token` of app/core/security.py
-- is a digest, and a parameter; access tokens are left out. The clock, and the fresh token and
-- identifiers, are arguments.
pub mod Rotation
pub mod Family
mod Tests
use onboard_ai.Common.{
  ℕ, ◌+◌, ◌*◌, Bool, true, false, ◌&&◌, not, List, [], ◌∷◌, Option, none, some, ◌==◌, leb, is_some,
  Result, ok, err, unauthorized, runtime, if◌then◌else◌,
}
use onboard_ai.Store.{Table}

pub data Subject : Type 0 where
  employee super_admin : Subject

pub same_subject : Subject → Subject → Bool
same_subject employee employee = true
same_subject employee super_admin = false
same_subject super_admin employee = false
same_subject super_admin super_admin = true

pub record Session : Type 0 where
  pub id : ℕ
  pub token_hash : ℕ
  pub family_id : ℕ
  pub subject_type : Subject
  pub subject_id : ℕ
  pub expires_at : ℕ
  pub revoked_at : Option ℕ

-- `revoked_at IS NULL`
abbrev pub is_live : Session → Bool
is_live s = not (is_some s.revoked_at)

pub revoked_values : ℕ → Session → Session
revoked_values now s = record s { revoked_at = some now }

pub new_session : (ℕ → ℕ) → ℕ → ℕ → ℕ → ℕ → ℕ → Subject → ℕ → Option ℕ → Session
new_session hash_token id raw_refresh fresh_family now expire_days subject_type subject_id
      family_id =
    record {
      id = id;
      token_hash = hash_token raw_refresh;
      family_id = elim family_id [ none ↦ fresh_family | some family ↦ family ];
      subject_type = subject_type;
      subject_id = subject_id;
      expires_at = now + expire_days * 86400000000;
      revoked_at = none;
    }

module _ (t : Table Session) where
  open t use {Db, first, update, insert}

  pub get_by_token_hash : ℕ → Db → Option Session
  get_by_token_hash token_hash db = first (λ s. s.token_hash == token_hash) db

  pub revoke_family : ℕ → ℕ → Db → Db
  revoke_family now family_id db =
      (update (λ s. (s.family_id == family_id) && is_live s) (revoked_values now) db).0

  pub revoke_by_token_hash : ℕ → ℕ → Db → Db
  revoke_by_token_hash now token_hash db =
      (update (λ s. (s.token_hash == token_hash) && is_live s) (revoked_values now) db).0

  pub revoke_all_for_subject : ℕ → Subject → ℕ → Db → Db
  unfolding same_subject
  revoke_all_for_subject now subject_type subject_id db =
      (update
        (λ s.
          same_subject s.subject_type subject_type && ((s.subject_id == subject_id) && is_live s))
        (revoked_values now) db).0

  -- `existing.revoked_at = now`: the flush of the changed row.
  pub revoke_session : ℕ → Session → Db → Db
  revoke_session now s db = (update (λ r. r.id == s.id) (revoked_values now) db).0

  module _ (hash_token : ℕ → ℕ) where
    -- A family is given for a replacement, and drawn afresh for a login.
    pub issue : ℕ → ℕ → ℕ → ℕ → ℕ → Subject → ℕ → Option ℕ → Db → Db × Result Session
    issue id raw_refresh fresh_family now expire_days subject_type subject_id family_id db =
        let (db', created) =
          insert (λ r. r.token_hash == hash_token raw_refresh)
            (new_session hash_token id raw_refresh fresh_family now expire_days subject_type
              subject_id family_id)
            db in
        elim created [ none ↦ (db, err runtime) | some row ↦ (db', ok row) ]

    -- What a presented token leads to, once its session is found.
    pub rotate : Subject → ℕ → Session → Db → Db × Result (ℕ × ℕ)
    unfolding revoke_family revoke_session same_subject
    rotate subject_type now s db =
        if not (same_subject s.subject_type subject_type)
        then (db, err unauthorized)
        else (if is_some s.revoked_at
            then (revoke_family now s.family_id db, err unauthorized)
            else (if leb s.expires_at now
                then (revoke_session now s db, err unauthorized)
                else (revoke_session now s db, ok (s.subject_id, s.family_id))))

    pub begin_rotation : ℕ → Subject → ℕ → Db → Db × Result (ℕ × ℕ)
    unfolding rotate
    begin_rotation raw_refresh subject_type now db =
        elim (get_by_token_hash (hash_token raw_refresh) db) [
          | none ↦ (db, err unauthorized)
          | some s ↦ rotate subject_type now s db
        ]

    -- `if not raw_refresh: return`
    pub revoke_raw : Option ℕ → ℕ → Db → Db
    revoke_raw none now db = db
    revoke_raw (some raw_refresh) now db = revoke_by_token_hash now (hash_token raw_refresh) db
