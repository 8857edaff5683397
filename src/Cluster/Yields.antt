-- ===== src/Cluster/Yields.antt =====
-- What the value of a program has, if it returns one, from a state with a property that it keeps.
use sesame_operator.Prelude.{Bool, true, false, if◌then◌else◌}
use sesame_operator.Errors.{ClientError, Err, Result, ok, err, panic, unfinished}
use sesame_operator.Cluster.{
  Answer, answer, failed, Request, Exec, attempt, outcome, pure, fail, ◌>>=◌, continue, on_answer,
  wrapping, rewrap,
}
use sesame_operator.Cluster.Keeps.{Harmless, Keeps}

-- A value, if there is one, has `Q`.
abbrev pub Holds : {A : Type 0} → (A → Type 0) → Result A → Type 0
Holds Q (ok a) = Q a
Holds Q (err e) = Unit
Holds Q panic = Unit
Holds Q unfinished = Unit

Holds-rewrap :
    {A : Type 0} (Q : A → Type 0) (f : Err → Err) (r : Result A) → Holds Q r → Holds Q (rewrap f r)
Holds-rewrap Q f (ok a) h = h
Holds-rewrap Q f (err e) h = h
Holds-rewrap Q f panic h = h
Holds-rewrap Q f unfinished h = h

Holds-any : {A : Type 0} (r : Result A) → Holds (λ _. Unit {0}) r
Holds-any (ok a) = tt
Holds-any (err e) = tt
Holds-any panic = tt
Holds-any unfinished = tt

-- So does the value of an answer.
abbrev pub Answers : {A : Type 0} → (A → Type 0) → Answer A → Type 0
Answers Q (answer a) = Q a
Answers Q (failed e) = Unit

Holds-outcome :
    {A : Type 0} (Q : A → Type 0) (f : ClientError → Err) (a : Answer A)
    → Answers Q a
    → Holds Q (outcome f a)
Holds-outcome Q f (answer a) h = h
Holds-outcome Q f (failed e) h = h

module _ {C : Type 0} (P : C → Type 0) where
  -- From a state with `P` the program ends in one, and a value that it returns has `Q`.
  pub record Yields {A : Type 0} (Q : A → Type 0) (m : Exec C A) : Type 0 where
    pub at : (c : C) → P c → P (m c).1 × Holds Q (m c).0

module _ {C : Type 0} {P : C → Type 0} {A : Type 0} where
  pub Yields-pure : (Q : A → Type 0) (a : A) → Q a → Yields P Q (pure a)
  unfolding pure
  Yields-pure Q a q = record { at = λ c h. (h, q) }

  pub Yields-fail : (Q : A → Type 0) (e : Err) → Yields P Q (fail e)
  unfolding fail
  Yields-fail Q e = record { at = λ c h. (h, tt) }

  pub Yields-attempt :
      (Q : A → Type 0) (f : ClientError → Err) {m : Request C A}
      → Harmless P m
      → ((c : C) → P c → Answers Q (m c).0)
      → Yields P Q (attempt f m)
  unfolding attempt
  Yields-attempt Q f keeps says = record {
    at = λ c h. (keeps.harmless c h, Holds-outcome Q f _ (says c h));
  }

  pub Yields-any : {m : Exec C A} → Keeps P m → Yields P (λ _. Unit {0}) m
  Yields-any k = record { at = λ c h. (k.at c h, Holds-any _) }

  pub Keeps-Yields : {Q : A → Type 0} {m : Exec C A} → Yields P Q m → Keeps P m
  Keeps-Yields y = record { at = λ c h. (y.at c h).0 }

  pub Yields-wrapping :
      (Q : A → Type 0) (f : Err → Err) {m : Exec C A} → Yields P Q m → Yields P Q (wrapping f m)
  unfolding wrapping
  Yields-wrapping Q f y = record {
    at = λ c h. let (kept, q) = y.at c h in (kept, Holds-rewrap Q f _ q);
  }

module _ {C : Type 0} {P : C → Type 0} {A B : Type 0} where
  Yields-continue :
      (Q : A → Type 0) (R : B → Type 0) (r : Result A) (f : A → Exec C B)
      → Holds Q r
      → ((a : A) → Q a → Yields P R (f a))
      → Yields P R (continue r f)
  unfolding continue
  Yields-continue Q R (ok a) f q k = k a q
  Yields-continue Q R (err e) f q k = record { at = λ c h. (h, tt) }
  Yields-continue Q R panic f q k = record { at = λ c h. (h, tt) }
  Yields-continue Q R unfinished f q k = record { at = λ c h. (h, tt) }

  -- The rest may use what the value of the first part has.
  pub Yields-bind :
      (Q : A → Type 0) (R : B → Type 0) (first : Exec C A) (next : A → Exec C B)
      → Yields P Q first
      → ((a : A) → Q a → Yields P R (next a))
      → Yields P R (first >>= next)
  unfolding ◌>>=◌
  Yields-bind Q R first next one rest = record {
    at = λ c h.
        let (kept, q) = one.at c h in
        (Yields-continue Q R (first c).0 next q rest).at (first c).1 kept;
  }

  pub Yields-on_answer :
      (R : B → Type 0) (f : A → Exec C B) (g : ClientError → Exec C B) (a : Answer A)
      → ((x : A) → Yields P R (f x))
      → ((e : ClientError) → Yields P R (g e))
      → Yields P R (on_answer f g a)
  unfolding on_answer
  Yields-on_answer R f g (answer x) one other = one x
  Yields-on_answer R f g (failed e) one other = other e

module _ {C : Type 0} {P : C → Type 0} {B : Type 0} where
  pub Yields-if :
      (R : B → Type 0) (test : Bool) (chosen otherwise : Exec C B)
      → Yields P R chosen
      → Yields P R otherwise
      → Yields P R (if test then chosen else otherwise)
  Yields-if R true chosen otherwise one other = one
  Yields-if R false chosen otherwise one other = other
