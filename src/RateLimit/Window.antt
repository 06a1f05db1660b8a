-- ===== src/RateLimit/Window.antt =====
-- What the limiter counts.
use onboard_ai.Common.{
  append_nil, append_assoc, ℕ, ◌+◌, ◌≡◌, ◌≤◌, ◌<◌, refl, sym, ap, ◌∙◌, arith, Bool, true, false,
  Option, none, some, List, [], ◌∷◌, ◌++◌, leb, ltb, ==_refl, keep, length, length-append, All, err,
  service_unavailable,
}
use onboard_ai.RateLimit.{
  Limiter, recent_hits, set_hits, memory_is_limited, get_redis, redis_is_limited, is_rate_limited,
  after_calls,
}

-- In production the memory of the process is never counted in: a call leaves the hits as they were,
-- and under a limit above 0 it answers from Redis or, where Redis does not, with an error.
production_needs_redis :
    (connects : Bool) (evaluated : Option ℕ) (key limit window now : ℕ) (state : Limiter)
    → let (state', answer) = is_rate_limited true connects evaluated key limit window now state in
      (state'.hits ≡ state.hits)
      × (0 < limit → evaluated ≡ none → answer ≡ err service_unavailable)
      × (0 < limit → state.has_client ≡ false → connects ≡ false → answer ≡ err service_unavailable)
unfolding is_rate_limited get_redis redis_is_limited
production_needs_redis connects none key limit window now state = ground arith
production_needs_redis connects (some count) key limit window now state = ground arith

keep-append : (p : ℕ → Bool) (xs ys : List ℕ) → keep p (xs ++ ys) ≡ keep p xs ++ keep p ys
keep-append p [] ys = refl
keep-append p (x ∷ xs) ys = ground (arith, keep-append p xs ys)

-- An earlier cut takes off nothing that a later one keeps.
keep_later :
    (window early late : ℕ) (xs : List ℕ)
    → early ≤ late
    → keep (λ ts. leb late (ts + window)) (keep (λ ts. leb early (ts + window)) xs)
      ≡ keep (λ ts. leb late (ts + window)) xs
keep_later window early late [] le = refl
keep_later window early late (x ∷ xs) le = ground (arith, keep_later window early late xs le)

keep_both :
    (p : ℕ → Bool) (xs ys zs ws : List ℕ)
    → keep p xs ≡ keep p ys
    → keep p ((xs ++ zs) ++ ws) ≡ keep p ((ys ++ zs) ++ ws)
keep_both p xs ys zs ws same =
    keep-append p (xs ++ zs) ws
    ∙ ap (λ l. l ++ keep p ws)
        (keep-append p xs zs ∙ ap (λ l. l ++ keep p zs) same ∙ sym (keep-append p ys zs))
    ∙ sym (keep-append p (ys ++ zs) ws)

-- What a later cut keeps of the hits is what it keeps of the calls.
after_calls-hits :
    (key limit window late : ℕ) (times : List ℕ) (state : Limiter)
    → All (λ t. t ≤ late) times
    → keep (λ ts. leb late (ts + window)) ((after_calls key limit window times state).hits key)
      ≡ keep (λ ts. leb late (ts + window)) (state.hits key ++ times)
unfolding after_calls set_hits recent_hits
after_calls-hits key limit window late [] state h = rw (append_nil (state.hits key)) refl
after_calls-hits key limit window late (t ∷ times) state h =
    after_calls-hits key limit window late times (memory_is_limited key limit window t state).0 h.1
    ∙ unfold memory_is_limited in
      rw (==_refl key) (
        rw (sym (append_assoc (state.hits key) (t ∷ []) times)) (
          keep_both (λ ts. leb late (ts + window)) _ (state.hits key) (t ∷ []) times
            (keep_later window t late (state.hits key) h.0)))

-- After any calls for a key, none later than now, the next call is refused exactly if the calls of
-- the window that ends now, refused ones and this one included, are more than the limit.
pub memory_window :
    (key limit window now : ℕ) (times : List ℕ) (state : Limiter)
    → state.hits key ≡ []
    → All (λ t. t ≤ now) times
    → (memory_is_limited key limit window now (after_calls key limit window times state)).1
      ≡ ltb limit (length (keep (λ ts. leb now (ts + window)) times) + 1)
unfolding memory_is_limited recent_hits
memory_window key limit window now times state fresh h =
    rw (length-append, after_calls-hits key limit window now times state h, fresh) refl
