-- ===== src/Outcome.antt =====
-- Requests that fail: an exception ends the request, and the session is rolled back.
use the_wealth.Base.{◌≡◌, refl, ℕ, Bool, true, false, Option, none, some, List, [], ◌∷◌}

-- `HTTPException` with its status; more than one row where one was asked for; the broker's
-- refusals; a value that cannot be read; a connection that fails; an exception of another class
pub data Fault : Type 0 where
  http_exception : ℕ → Fault
  multiple_results_found runtime_error value_error transport_error other_error : Fault

pub data Result (A : Type 0) : Type 0 where
  ok : A → Result A
  raise : Fault → Result A

-- The next step of a request runs on what this one gives.
infixl 5 ◌>>=◌
abbrev pub ◌>>=◌ : {Got Made : Type 0} → Result Got → (Got → Result Made) → Result Made
raise fault >>= next = raise fault
ok got >>= next = next got

-- `if test: raise …`
abbrev pub raise_if : Bool → Fault → Result (Unit {0})
raise_if true e = raise e
raise_if false e = ok tt

-- the row, or the exception where there is none
abbrev pub or_raise : {A : Type 0} → Option A → Fault → Result A
or_raise none e = raise e
or_raise (some a) e = ok a

-- `result.scalar_one_or_none()`
abbrev pub scalar_one_or_none : {A : Type 0} → List A → Result (Option A)
scalar_one_or_none [] = ok none
scalar_one_or_none (x ∷ []) = ok (some x)
scalar_one_or_none (x ∷ y ∷ xs) = raise multiple_results_found

infixl 5 ◌>>◌
abbrev pub ◌>>◌ : {Made : Type 0} → Result (Unit {0}) → Result Made → Result Made
checked >> rest = checked >>= λ _. rest

-- what a chain went through when it gives `made`
abbrev pub Passed : {Got Made : Type 0} → Result Got → (Got → Result Made) → Made → Type 0
Passed {Got} step next made = (got : Got) × (step ≡ ok got) × (next got ≡ ok made)

-- A chain that gives a result gave one at its first step.
pub >>=-Passed :
    {Got Made : Type 0} (step : Result Got) (next : Got → Result Made) {made : Made}
    → (step >>= next) ≡ ok made
    → Passed step next made
>>=-Passed (raise fault) next h = cc
>>=-Passed (ok got) next h = (got, refl, h)
