-- ===== src/RateLimit/Tests.antt =====
-- Runs of the rate limiter.
use onboard_ai.Common.{◌+◌, ◌≡◌, refl, arith, false, [], ◌∷◌, leb, ltb, keep, length}
use onboard_ai.RateLimit.{Limiter, memory_is_limited, after_calls}
use onboard_ai.RateLimit.Window.{memory_window}

abbrev started : Limiter
started = record { hits = λ key. []; has_client = false; has_failed = false }

memory_window_example :
    (memory_is_limited 1 2 60 100 (after_calls 1 2 60 (10 ∷ 50 ∷ 90 ∷ []) started)).1
    ≡ ltb 2 (length (keep (λ ts. leb 100 (ts + 60)) (10 ∷ 50 ∷ 90 ∷ [])) + 1)
memory_window_example =
    memory_window 1 2 60 100 (10 ∷ 50 ∷ 90 ∷ []) started refl
      (omega arith, (omega arith, (omega arith, tt)))
