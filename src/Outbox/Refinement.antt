-- ===== src/Outbox/Refinement.antt =====
-- Every method of the service follows the automaton of Phases.
use onboard_ai.Common.{ℕ, List, [], ◌∷◌, ◌≡◌, some}
use onboard_ai.Common.Text.{Text}
use onboard_ai.Store.{Table}
use onboard_ai.Outbox
use onboard_ai.Outbox.{
  Status, pending, sending, sent, failed, Message, get_by_id, is_sending, is_pending, is_owned,
  exhausted_stale,
}
use onboard_ai.Outbox.Lifecycle.{
  Step, enqueues, claims, claims_batch, sends, fails, Reach, here, next,
}
use onboard_ai.Outbox.Phases.{
  Phase, Call, queueing, claiming, reporting_success, reporting_failure, Run, phase_of,
}

module _ (t : Table Message) where
  open t use {Db, rows, update}

  -- A row that began in a phase is found after a run of the automaton from there.
  abbrev Follows : ℕ → Phase → List Call → Db → Type 0
  Follows i start ks db = (m : Message) × (get_by_id t i db ≡ some m) × Run start ks (phase_of m)

  -- What a call is for, and a sequence of calls, the latest first.
  abbrev pub call_of : {db db' : Db} → Step t db db' → Call
  call_of (enqueues id company employee chat now kind key body mode db fresh) = queueing
  call_of (claims kind key token now db) = claiming
  call_of (claims_batch w limit token now db) = claiming
  call_of (sends id token telegram now db) = reporting_success
  call_of (fails id token again category wait now db) = reporting_failure

  abbrev pub calls_of : {before after : Db} → Reach t before after → List Call
  calls_of here = []
  calls_of (next r s) = call_of s ∷ calls_of r
