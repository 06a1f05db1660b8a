-- ===== src/Sessions/Family.antt =====
-- What the reuse of a token does to the sessions of its family, and what it misses.
use mathlib.Core.Option
use onboard_ai.Common.{ℕ, ◌≡◌, true, is_some}
use onboard_ai.Sessions.{Session}

-- No session of the family is live.
abbrev pub IsDead : ℕ → Session → Type 0
IsDead family s = s.family_id ≡ family → is_some s.revoked_at ≡ true
