-- ===== src/Errors.antt =====
-- Go's `error` values as the operator builds and inspects them, the result of a function that can
-- fail or panic, and internal/retryableerror/retryableerror.go.
pub mod Retryable
use sesame_operator.Prelude.{ℕ, String, Bool, true, List, [], ◌∷◌, ◌≡◌, refl, ◌⊎◌, inl, inr}

-- What the operator reads of an error that the API client returned: `errors.IsNotFound(err)` and
-- `err.Error()`.
pub record ClientError : Type 0 where
  pub is_not_found : Bool
  pub text : String

mutual
  pub data Err : Type 0 where
    -- an error of the API client, passed on as it is
    client : ClientError → Err
    -- `fmt.Errorf` without and with `%w`
    message : String → Err
    -- `fmt.Errorf` whose last verb is `%d`, without its final text
    message_number : String → ℕ → Err
    wrap : String → Err → Err
    -- `retryableError{err, after}`
    retryable : Err → ℕ → Err
    -- `utilerrors.Aggregate`
    aggregate : Errs → Err

  pub data Errs : Type 0 where
    nil : Errs
    cons : Err → Errs → Errs

abbrev pub to_errs : List Err → Errs
to_errs [] = nil
to_errs (e ∷ es) = cons e (to_errs es)

-- `panic` is a run-time panic: a nil dereference or an index out of range. `unfinished` is no result
-- of the code: the model ran out of fuel.
pub data Result (A : Type 0) : Type 0 where
  ok : A → Result A
  err : Err → Result A
  panic unfinished : Result A

infixl 5 ◌>>=◌ ◌>>◌
abbrev pub ◌>>=◌ : {A B : Type 0} → Result A → (A → Result B) → Result B
ok a >>= f = f a
err e >>= f = err e
panic >>= f = panic
unfinished >>= f = unfinished

abbrev pub ◌>>◌ : {B : Type 0} → Result (Unit {0}) → Result B → Result B
m >> k = m >>= λ _. k

-- `if test { return fmt.Errorf(…) }`
abbrev pub reject_if : Bool → String → Result (Unit {0})
reject_if true s = err (message s)
reject_if _ s = ok tt

-- How a sequence of two steps can end well, and how it can panic.
module _ {A B : Type 0} where
  pub bind-eq-ok :
      (first : Result A) (next : A → Result B) {y : B}
      → (first >>= next) ≡ ok y
      → (x : A) × (first ≡ ok x) × (next x ≡ ok y)
  bind-eq-ok (ok x) next e = (x, refl, e)
  bind-eq-ok (err _) next e = cc
  bind-eq-ok panic next e = cc
  bind-eq-ok unfinished next e = cc

  pub bind-eq-panic :
      (m : Result A) (f : A → Result B)
      → (m >>= f) ≡ panic
      → (m ≡ panic) ⊎ ((a : A) × (m ≡ ok a) × (f a ≡ panic))
  bind-eq-panic (ok a) f h = inr (a, refl, h)
  bind-eq-panic (err e) f h = cc
  bind-eq-panic panic f h = inl refl
  bind-eq-panic unfinished f h = cc
