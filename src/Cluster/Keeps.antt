-- ===== src/Cluster/Keeps.antt =====
-- Properties of the cluster that a program keeps, one rule for each way to build the program.
use sesame_operator.Prelude.{Bool, true, false, ◌≡◌, refl, if◌then◌else◌, Option, none, some}
use sesame_operator.Errors.{ClientError, Err, Result, ok, err, panic, unfinished}
use sesame_operator.Cluster.{
  Answer, answer, failed, Request, Exec, lift, pure, fail, call, attempt, try, ◌>>=◌, continue,
  on_answer, wrapping, when_some,
}

module _ {C : Type 0} (P : C → Type 0) where
  -- Whatever a request answers, it keeps `P`.
  pub record Harmless {A : Type 0} (m : Request C A) : Type 0 where
    pub harmless : (c : C) → P c → P (m c).1

  -- So does a program, whether it returns, fails or panics.
  pub record Keeps {A : Type 0} (m : Exec C A) : Type 0 where
    pub at : (c : C) → P c → P (m c).1

module _ {C : Type 0} {P : C → Type 0} {A : Type 0} where
  pub Keeps-lift : (r : Result A) → Keeps P (lift r)
  unfolding lift
  Keeps-lift r = record { at = λ c h. h }

  pub Keeps-pure : (a : A) → Keeps P (pure a)
  unfolding pure
  Keeps-pure a = record { at = λ c h. h }

  pub Keeps-fail : (e : Err) → Keeps P (fail {A = A} e)
  unfolding fail
  Keeps-fail e = record { at = λ c h. h }

  pub Keeps-call : {m : Request C A} → Harmless P m → Keeps P (call m)
  unfolding call
  Keeps-call h = record { at = λ c p. h.harmless c p }

  pub Keeps-attempt :
      (f : ClientError → Err) {m : Request C A} → Harmless P m → Keeps P (attempt f m)
  unfolding attempt
  Keeps-attempt f h = record { at = λ c p. h.harmless c p }

  pub Keeps-try : {m : Exec C A} → Keeps P m → Keeps P (try m)
  unfolding try
  Keeps-try k = record { at = λ c p. k.at c p }

  pub Keeps-wrapping : (f : Err → Err) {m : Exec C A} → Keeps P m → Keeps P (wrapping f m)
  unfolding wrapping
  Keeps-wrapping f k = record { at = λ c p. k.at c p }

  -- Each branch may use what the test says.
  pub Keeps-if :
      (test : Bool) (chosen otherwise : Exec C A)
      → (test ≡ true → Keeps P chosen)
      → (test ≡ false → Keeps P otherwise)
      → Keeps P (if test then chosen else otherwise)
  Keeps-if true chosen _ taken _ = taken refl
  Keeps-if false _ otherwise _ left = left refl

module _ {C : Type 0} {P : C → Type 0} {A B : Type 0} where
  Keeps-continue :
      (r : Result A) (f : A → Exec C B) → ((a : A) → Keeps P (f a)) → Keeps P (continue r f)
  unfolding continue
  Keeps-continue (ok a) f k = k a
  Keeps-continue (err e) f k = record { at = λ c h. h }
  Keeps-continue panic f k = record { at = λ c h. h }
  Keeps-continue unfinished f k = record { at = λ c h. h }

  pub Keeps-bind :
      (first : Exec C A) (next : A → Exec C B)
      → Keeps P first
      → ((answer : A) → Keeps P (next answer))
      → Keeps P (first >>= next)
  unfolding ◌>>=◌
  Keeps-bind first next one rest = record {
    at = λ c h. let (r, c') = first c in (Keeps-continue r next rest).at c' (one.at c h);
  }

  -- After a computed result the rest may use that it is no error.
  pub Keeps-bind-lift :
      (r : Result A) (f : A → Exec C B)
      → ((a : A) → r ≡ ok a → Keeps P (f a))
      → Keeps P (lift r >>= f)
  unfolding ◌>>=◌ continue
  Keeps-bind-lift (ok a) f k = record { at = λ c h. (k a refl).at c h }
  Keeps-bind-lift (err e) f k = record { at = λ c h. h }
  Keeps-bind-lift panic f k = record { at = λ c h. h }
  Keeps-bind-lift unfinished f k = record { at = λ c h. h }

  pub Keeps-on_answer :
      (f : A → Exec C B) (g : ClientError → Exec C B) (a : Answer A)
      → ((x : A) → Keeps P (f x))
      → ((e : ClientError) → Keeps P (g e))
      → Keeps P (on_answer f g a)
  unfolding on_answer
  Keeps-on_answer f g (answer x) kf kg = kf x
  Keeps-on_answer f g (failed e) kf kg = kg e

module _ {C : Type 0} {P : C → Type 0} {A : Type 0} where
  pub Keeps-when_some :
      (f : A → Exec C Unit) (o : Option A) → ((a : A) → Keeps P (f a)) → Keeps P (when_some f o)
  unfolding when_some
  Keeps-when_some f none k = Keeps-pure tt
  Keeps-when_some f (some a) k = k a

pub ruleset keeps_rules = (
  Keeps-lift, Keeps-pure, Keeps-fail, Keeps-call, Keeps-attempt, Keeps-try, Keeps-wrapping,
  Keeps-if, Keeps-bind, Keeps-on_answer, Keeps-when_some,
)
