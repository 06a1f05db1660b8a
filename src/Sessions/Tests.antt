-- ===== src/Sessions/Tests.antt =====
-- Runs of the sessions on a table in memory; the digest is the identity here.
use onboard_ai.Common.{List, ◌≡◌, refl, none, some, [], ◌∷◌, err, unauthorized}
use onboard_ai.Store.Memory.{memory}
use onboard_ai.Sessions.{
  Subject, employee, same_subject, Session, get_by_token_hash, begin_rotation, issue,
}
use onboard_ai.Sessions.Rotation.{here, next, issues, rotation_single_use}

abbrev login : Session
login = record {
  id = 1;
  token_hash = 100;
  family_id = 7;
  subject_type = employee;
  subject_id = 3;
  expires_at = 1000;
  revoked_at = none;
}

abbrev sibling : Session
sibling = record login { id = 2; token_hash = 101 }

abbrev spent : Session
spent = record login { revoked_at = some 4 }

rotation_single_use_example :
    (begin_rotation
      (memory Session)
      (λ x. x)
      100
      employee
      50
      (issue
        (memory Session)
        (λ x. x)
        2
        101
        8
        11
        1
        employee
        3
        (some 7)
        (begin_rotation (memory Session) (λ x. x) 100 employee 10 (login ∷ [])).0).0).1
    ≡ err unauthorized
unfolding begin_rotation get_by_token_hash same_subject
rotation_single_use_example =
    rotation_single_use (memory Session) (λ x. x) 100 employee employee 10 50 (login ∷ []) refl
      (next here (issues 2 101 8 11 1 employee 3 (some 7) _))

abbrev stranger : Session
stranger = record login { id = 3; token_hash = 102; family_id = 8 }

abbrev three : List Session
three = spent ∷ sibling ∷ stranger ∷ []
