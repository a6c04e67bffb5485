-- ===== src/Examples/Limiter.antt =====
-- The theorem about the rate limiter at concrete inputs.
use event_media_platform.Prelude.{ℕ, ◌≡◌, refl, true, false, List, [], ◌∷◌, arith}
use event_media_platform.Limiter.Window.{RateLimiter, answers, Ledger, decisions}
use event_media_platform.Limiter.Refines.{limiter_refines_ledger, IsOrdered}

-- Two calls of key 1 in a window of 10, a third that is refused, another key, and one that is late.
abbrev calls : List (ℕ × ℕ)
calls = (1, 5) ∷ ((1, 6) ∷ ((1, 7) ∷ ((2, 7) ∷ ((1, 16) ∷ []))))

five_answers :
    answers calls (record { limit = 2; window_ms = 10; hits = [] })
    ≡ true ∷ (true ∷ (false ∷ (true ∷ (true ∷ []))))
unfolding answers event_media_platform.Limiter.Window.consume
five_answers = refl

calls-IsOrdered : IsOrdered 0 calls
calls-IsOrdered = (omega arith, (omega arith, (omega arith, (omega arith, (omega arith, tt)))))

limiter_refines_ledger_example :
    answers calls (record { limit = 2; window_ms = 10; hits = [] })
    ≡ decisions calls (record { limit = 2; window_ms = 10; allowed = [] })
limiter_refines_ledger_example = limiter_refines_ledger 2 10 calls calls-IsOrdered
