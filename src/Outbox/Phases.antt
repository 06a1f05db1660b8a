-- ===== src/Outbox/Phases.antt =====
-- The life of an outbox row as an automaton, whose moves the statements of the repository follow.
use onboard_ai.Common.{
  ℕ, List, [], ◌∷◌, ◌≤◌, ◌+◌, ◌<◌, ◌≡◌, arith, Bool, true, false, ◌&&◌, ◌||◌, Option, none, some,
  before, if◌then◌else◌,
}
use onboard_ai.Common.Text.{Text}
use onboard_ai.Outbox.{
  Status, pending, sending, sent, failed, Message, is_sending, is_pending, claimable, claimed_by,
  is_owned, sent_values, failed_values, exhausted_stale, exhausted_values,
}
use onboard_ai.Outbox.Service.{max_attempts, seconds, lease_seconds}

-- What the service promises about a message: it waits, or is at work until its lease ends, after so
-- many attempts, until it is delivered or given up.
pub data Phase : Type 0 where
  waiting : ℕ → Phase
  working : ℕ → Option ℕ → Phase
  delivered given_up : Phase

-- What a call of the service may be for.
pub data Call : Type 0 where
  queueing claiming reporting_success reporting_failure : Call

-- A claim at a time leases the row for two minutes; from work it makes another attempt, or gives the
-- message up after eight, only when the lease has run out. The rest is left to the reports.
pub data Move : Call → Phase → Phase → Type 0 where
  attempt :
      (n now : ℕ) → n < 8 → Move claiming (waiting n) (working (n + 1) (some (now + 120000000)))
  attempt_again :
      (n now deadline : ℕ)
      → n < 8
      → deadline < now
      → Move claiming (working n (some deadline)) (working (n + 1) (some (now + 120000000)))
  expire :
      (n now deadline : ℕ)
      → 8 ≤ n
      → deadline < now
      → Move claiming (working n (some deadline)) given_up
  deliver : (n : ℕ) (lease : Option ℕ) → Move reporting_success (working n lease) delivered
  postpone : (n : ℕ) (lease : Option ℕ) → Move reporting_failure (working n lease) (waiting n)
  give_up : (n : ℕ) (lease : Option ℕ) → Move reporting_failure (working n lease) given_up

-- Runs of the automaton under calls, the latest first: each move is one of the call at which it is
-- made.
pub data Run (start : Phase) : List Call → Phase → Type 0 where
  rest : Run start [] start
  called : {ks : List Call} {p : Phase} (k : Call) → Run start ks p → Run start (k ∷ ks) p
  follow :
      {k : Call} {ks : List Call} {p q : Phase}
      → Run start (k ∷ ks) p
      → Move k p q
      → Run start (k ∷ ks) q

abbrev phase : Status → ℕ → Option ℕ → Phase
phase pending n lease = waiting n
phase sending n lease = working n lease
phase sent n lease = delivered
phase failed n lease = given_up

-- The phase of a row.
abbrev pub phase_of : Message → Phase
phase_of m = phase m.status m.attempt_count m.lease_expires_at

claim_phase :
    (s : Status) (n now : ℕ) (lease : Option ℕ)
    → (is_pending s || (is_sending s && before lease now)) ≡ true
    → n < 8
    → Move claiming (phase s n lease) (working (n + 1) (some (now + 120000000)))
unfolding is_pending is_sending
claim_phase pending n now lease h below = attempt n now below
claim_phase sending n now none h below = cc
claim_phase sending n now (some deadline) h below =
    attempt_again n now deadline below (ground (arith, h))
claim_phase sent n now lease h below = cc
claim_phase failed n now lease h below = cc

send_phase :
    (s : Status) (n : ℕ) (lease : Option ℕ)
    → is_sending s ≡ true
    → Move reporting_success (phase s n lease) delivered
unfolding is_sending
send_phase sending n lease h = deliver n lease
send_phase pending n lease h = cc
send_phase sent n lease h = cc
send_phase failed n lease h = cc

fail_phase :
    (s : Status) (again : Bool) (n : ℕ) (lease : Option ℕ)
    → is_sending s ≡ true
    → Move reporting_failure (phase s n lease) (phase (if again then pending else failed) n none)
unfolding is_sending
fail_phase sending true n lease h = postpone n lease
fail_phase sending false n lease h = give_up n lease
fail_phase pending again n lease h = cc
fail_phase sent again n lease h = cc
fail_phase failed again n lease h = cc

expire_phase :
    (s : Status) (n now : ℕ) (lease : Option ℕ)
    → is_sending s ≡ true
    → before lease now ≡ true
    → 8 ≤ n
    → Move claiming (phase s n lease) given_up
unfolding is_sending
expire_phase sending n now none h over used = cc
expire_phase sending n now (some deadline) h over used =
    expire n now deadline used (ground (arith, over))
expire_phase pending n now lease h over used = cc
expire_phase sent n now lease h over used = cc
expire_phase failed n now lease h over used = cc

pub claimed_by-Move :
    (token now : ℕ) (m : Message)
    → claimable now max_attempts m ≡ true
    → Move claiming (phase_of m) (phase_of (claimed_by token now (now + seconds lease_seconds) m))
unfolding claimable claimed_by
claimed_by-Move token now m h =
    claim_phase m.status m.attempt_count now m.lease_expires_at (ground (arith, h))
      (ground (arith, h))

pub sent_values-Move :
    (id token telegram now : ℕ) (m : Message)
    → is_owned id token m ≡ true
    → Move reporting_success (phase_of m) (phase_of (sent_values telegram now m))
unfolding is_owned sent_values
sent_values-Move id token telegram now m h =
    send_phase m.status m.attempt_count m.lease_expires_at (ground (arith, h))

pub failed_values-Move :
    (id token : ℕ) (again : Bool) (at : ℕ) (category : Text) (m : Message)
    → is_owned id token m ≡ true
    → Move reporting_failure (phase_of m) (phase_of (failed_values again at category m))
unfolding is_owned failed_values
failed_values-Move id token again at category m h =
    fail_phase m.status again m.attempt_count m.lease_expires_at (ground (arith, h))

pub exhausted_values-Move :
    (now : ℕ) (m : Message)
    → exhausted_stale now max_attempts m ≡ true
    → Move claiming (phase_of m) (phase_of (exhausted_values m))
unfolding exhausted_stale exhausted_values
exhausted_values-Move now m h =
    expire_phase m.status m.attempt_count now m.lease_expires_at (ground (arith, h))
      (ground (arith, h)) (ground (arith, h))
