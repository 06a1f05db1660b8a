-- ===== src/RateLimit.antt =====
-- Rate limiting: app/core/rate_limit.py. Times are ticks of the monotonic clock and keys are
-- numbers. Redis and its client are not part of the sources: whether a connection is made and the
-- count that the script gives back are arguments of a call.
pub mod Window
mod Tests
use onboard_ai.Common.{
  ℕ, suc, ◌+◌, ◌≡◌, ◌≤◌, ◌<◌, refl, sym, ap, ◌∙◌, arith, Bool, true, false, ◌&&◌, not, Option, none,
  some, List, [], ◌∷◌, ◌++◌, leb, ltb, ◌==◌, keep, length, length-append, All, Result, ok, err,
  service_unavailable, if◌then◌else◌,
}

pub record Limiter : Type 0 where
  pub hits : ℕ → List ℕ
  pub has_client : Bool
  pub has_failed : Bool

-- What `_memory_hits[key]` is after the call: the hits that are recent enough, and this one.
-- `ts >= now - window_seconds`
pub recent_hits : ℕ → ℕ → List ℕ → List ℕ
recent_hits window now old = keep (λ ts. leb now (ts + window)) old ++ now ∷ []

pub set_hits : ℕ → List ℕ → (ℕ → List ℕ) → ℕ → List ℕ
set_hits key new hits k = if k == key then new else hits k

pub memory_is_limited : ℕ → ℕ → ℕ → ℕ → Limiter → Limiter × Bool
unfolding recent_hits set_hits
memory_is_limited key limit window now state = (
  record state { hits = set_hits key (recent_hits window now (state.hits key)) state.hits },
  ltb limit (length (recent_hits window now (state.hits key))),
)

-- `_get_redis`: the new state, and whether there is a client; in production a failure raises.
pub get_redis : Bool → Bool → Limiter → Limiter × Result Bool
get_redis is_production connects state =
    if is_production
    then (if state.has_client
        then (state, ok true)
        else (if connects
            then (record state { has_client = true }, ok true)
            else (state, err service_unavailable)))
    else (if state.has_failed
        then (state, ok false)
        else (if state.has_client
            then (state, ok true)
            else (if connects
                then (record state { has_client = true }, ok true)
                else (record state { has_failed = true }, ok false))))

-- `evaluated` is the count of the script, or none where the command fails.
pub redis_is_limited : Bool → Option ℕ → ℕ → ℕ → ℕ → ℕ → Limiter → Limiter × Result Bool
unfolding memory_is_limited
redis_is_limited is_production (some count) key limit window now state =
    (state, ok (ltb limit count))
redis_is_limited is_production none key limit window now state =
    if is_production
    then (state, err service_unavailable)
    else (let (state', limited) = memory_is_limited key limit window now state in
        (state', ok limited))

pub is_rate_limited : Bool → Bool → Option ℕ → ℕ → ℕ → ℕ → ℕ → Limiter → Limiter × Result Bool
unfolding get_redis redis_is_limited
is_rate_limited is_production connects evaluated key limit window now state =
    if leb limit 0
    then (state, ok false)
    else (let (state', client) = get_redis is_production connects state in
        elim client [
          | err e ↦ (state', err e)
          | ok b ↦
              if b
              then redis_is_limited is_production evaluated key limit window now state'
              else (let (state'', limited) = memory_is_limited key limit window now state' in
                  (state'', ok limited))
        ])

-- Calls for one key at these times, one after the other.
pub after_calls : ℕ → ℕ → ℕ → List ℕ → Limiter → Limiter
unfolding memory_is_limited
after_calls key limit window [] state = state
after_calls key limit window (now ∷ later) state =
    after_calls key limit window later (memory_is_limited key limit window now state).0
