-- ===== src/Prelude/Result.antt =====
-- A handler's result: a value, or one of the HTTP exceptions that the services throw
-- (apps/backend/src/services: UnauthorizedException, ForbiddenException, NotFoundException,
-- BadRequestException), or another error that is thrown on.

use mathlib.Core.Bool.{Bool, true, false}

pub data Exception : Type 0 where
  unauthorized forbidden not_found bad_request internal : Exception

pub data Result {ℓ} (A : Type ℓ) : Type ℓ where
  throws : Exception → Result A
  ok : A → Result A

-- A call, and what is done with its value unless it threw.
abbrev pub ◌>>=◌ {ℓ κ} : {A : Type ℓ} {C : Type κ} → Result A → (A → Result C) → Result C
throws e >>= next = throws e
ok value >>= next = next value

abbrev pub ◌>>◌ {ℓ} : {C : Type ℓ} → Result (Unit {0}) → Result C → Result C
throws e >> next = throws e
ok done >> next = next

infixl 5 ◌>>=◌ ◌>>◌
-- `if (test) throw e`
abbrev pub throw_if : Bool → Exception → Result (Unit {0})
throw_if true e = throws e
throw_if false e = ok tt

-- A predicate of the value that a call returns, when it returns one.
abbrev pub Holds {ℓ κ} : {A : Type ℓ} → (A → Type κ) → Result A → Type κ
Holds P (throws e) = Unit
Holds P (ok a) = P a

-- The state that a call leaves: what it returns, and the old state when it throws.
abbrev pub state_left {ℓ} : {A : Type ℓ} → Result A → A → A
state_left (throws e) old = old
state_left (ok new) old = new

pub state_left-Holds {ℓ κ} :
    {A : Type ℓ} (P : A → Type κ) (r : Result A) (old : A)
    → P old
    → Holds P r
    → P (state_left r old)
state_left-Holds P (throws e) old h k = h
state_left-Holds P (ok new) old h k = k
