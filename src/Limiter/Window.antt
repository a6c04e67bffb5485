-- ===== src/Limiter/Window.antt =====
-- RateLimiter.consume of apps/backend/src/utils/rate-limiter.ts, and what it promises.
-- Keys are numbers; a time is compared with the cutoff by a sum.
use event_media_platform.Prelude.{
  ℕ, ◌+◌, Bool, true, false, not, List, [], ◌∷◌, ◌++◌, ltb, leb, ◌==◌, if◌then◌else◌, filter, every,
  length,
}

-- `Map<string, number[]>` in its order of insertion.
abbrev pub Hits : Type 0
Hits = List (ℕ × List ℕ)

pub record RateLimiter : Type 0 where
  pub limit : ℕ
  pub window_ms : ℕ
  pub hits : Hits

-- `hits.get(key) ?? []`
unfoldable pub hits_of : ℕ → Hits → List ℕ
hits_of key [] = []
hits_of key ((k, ts) ∷ m) = if k == key then ts else hits_of key m

-- `hits.set(key, timestamps)`
unfoldable pub set_hits : ℕ → List ℕ → Hits → Hits
set_hits key ts [] = (key, ts) ∷ []
set_hits key ts ((k, us) ∷ m) = if k == key then (k, ts) ∷ m else (k, us) ∷ set_hits key ts m

-- `t > cutoff`
abbrev pub is_recent : ℕ → ℕ → ℕ → Bool
is_recent window now t = ltb now (t + window)

-- The lazy cleanup of a map that has grown beyond 10_000 keys.
unfoldable pub cleanup : ℕ → ℕ → Hits → Hits
cleanup window now m =
    if ltb 10000 (length m)
    then filter (λ e. not (every (λ t. not (is_recent window now t)) e.1)) m
    else m

-- consume
unfoldable pub consume : ℕ → ℕ → RateLimiter → RateLimiter × Bool
unfolding hits_of set_hits cleanup
consume key now r =
    let timestamps = filter (is_recent r.window_ms now) (hits_of key r.hits) in
    if leb r.limit (length timestamps)
    then (record r { hits = set_hits key timestamps r.hits }, false)
    else (
      record r { hits = cleanup r.window_ms now (set_hits key (timestamps ++ (now ∷ [])) r.hits) },
      true,
    )

-- What is promised: every allowed call is remembered, and a call is allowed when fewer than the limit
-- of its key's allowed calls lie within the window.
pub record Ledger : Type 0 where
  pub limit : ℕ
  pub window_ms : ℕ
  pub allowed : List (ℕ × ℕ)

abbrev pub times_of : ℕ → List (ℕ × ℕ) → List ℕ
times_of key [] = []
times_of key ((k, t) ∷ l) = if k == key then t ∷ times_of key l else times_of key l

unfoldable pub decide : ℕ → ℕ → Ledger → Ledger × Bool
decide key now l =
    if ltb (length (filter (is_recent l.window_ms now) (times_of key l.allowed))) l.limit
    then (record l { allowed = (key, now) ∷ l.allowed }, true)
    else (l, false)

-- The answers to calls, each a key with its time, the first call first.
unfoldable pub answers : List (ℕ × ℕ) → RateLimiter → List Bool
answers [] r = []
answers ((key, now) ∷ calls) r = let (r', allowed) = consume key now r in allowed ∷ answers calls r'

unfoldable pub decisions : List (ℕ × ℕ) → Ledger → List Bool
decisions [] l = []
decisions ((key, now) ∷ calls) l =
    let (l', allowed) = decide key now l in allowed ∷ decisions calls l'
