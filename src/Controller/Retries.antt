-- ===== src/Controller/Retries.antt =====
-- No reconciliation is requeued after a time.
use sesame_operator.Prelude.{ℕ, String, Bool, true, false, ◌≢◌, if◌then◌else◌}
use sesame_operator.Errors.{
  ClientError, Err, Result, ok, err, panic, unfinished, client, message, message_number, wrap,
  retryable, aggregate,
}
use sesame_operator.Errors.Retryable.{NewAggregate, FiltersNil}
use sesame_operator.Api.{Sesame}
use sesame_operator.Cluster.{
  Answer, answer, failed, Exec, Client, continue, pure, fail, ◌>>=◌, on_answer,
}
use sesame_operator.Equality.{Semantic}
use sesame_operator.Controller.{
  Objects, Config, Request, Requeue, no_requeue, requeue_after, requeue, requeueing, ensure_sesame,
  ensure_sesame_deleted, reconcile_found, reconcile,
}
use sesame_operator.Controller.PlainErrors.{
  PlainError, ensure_sesame-PlainError, ensure_sesame_deleted-PlainError,
}

requeue-plain : (r : Result Unit) (t : ℕ) → PlainError r → requeue r ≢ ok (requeue_after t)
unfolding requeue
requeue-plain (ok tt) t h = λ e. cc
requeue-plain (err (retryable x u)) t h = cc
requeue-plain (err (client x)) t h = λ e. cc
requeue-plain (err (message x)) t h = λ e. cc
requeue-plain (err (message_number x n)) t h = λ e. cc
requeue-plain (err (wrap x y)) t h = λ e. cc
requeue-plain (err (aggregate x)) t h = λ e. cc
requeue-plain panic t h = λ e. cc
requeue-plain unfinished t h = λ e. cc

module _ {C : Type 0} where
  -- A program that never asks to be run again after a time.
  abbrev Once : Exec C Requeue → Type 0
  Once m = (c : C) (t : ℕ) → (m c).0 ≢ ok (requeue_after t)

module _ {C A : Type 0} where
  Once-continue :
      (r : Result A) (f : A → Exec C Requeue) (c : C) (t : ℕ)
      → ((a : A) → Once (f a))
      → (continue r f c).0 ≢ ok (requeue_after t)
  unfolding continue
  Once-continue (ok a) f c t k = k a c t
  Once-continue (err e) f c t k = λ h. cc
  Once-continue panic f c t k = λ h. cc
  Once-continue unfinished f c t k = λ h. cc

  Once-bind : (m : Exec C A) (f : A → Exec C Requeue) → ((a : A) → Once (f a)) → Once (m >>= f)
  unfolding ◌>>=◌
  Once-bind m f k c t = Once-continue (m c).0 f (m c).1 t k

  Once-on_answer :
      (f : A → Exec C Requeue) (g : ClientError → Exec C Requeue) (a : Answer A)
      → ((x : A) → Once (f x))
      → ((e : ClientError) → Once (g e))
      → Once (on_answer f g a)
  unfolding on_answer
  Once-on_answer f g (answer x) kf kg = kf x
  Once-on_answer f g (failed e) kf kg = kg e

module _ {C : Type 0} where
  Once-if : (b : Bool) (m n : Exec C Requeue) → Once m → Once n → Once (if b then m else n)
  Once-if true m n km kn = km
  Once-if false m n km kn = kn

  Once-pure : Once (pure {C = C} no_requeue)
  unfolding pure
  Once-pure c t = λ h. cc

  Once-fail : (e : Err) → Once (fail {C = C} e)
  unfolding fail
  Once-fail e c t = λ h. cc

module _ {C : Type 0} (cli : Client C) (objects : Objects C) (eq : Semantic)
    (new_aggregate : NewAggregate) (to_lower : String → String) (clock : C → ℕ) (config : Config)
    (fuel : ℕ) (filters : FiltersNil new_aggregate) where
  Once-requeueing :
      (m : Exec C Unit)
      → ((c : C) → PlainError (m c).0)
      → Once (requeueing cli objects eq new_aggregate to_lower clock config fuel m)
  unfolding requeueing
  Once-requeueing m plain c t = requeue-plain (m c).0 t (plain c)

  module _ (parse_ip : String → Bool) where
    Once-reconcile_found :
        (s : Sesame)
        → Once (reconcile_found cli objects eq new_aggregate to_lower clock config fuel parse_ip s)
    unfolding reconcile_found
    Once-reconcile_found s =
        Once-if _ _ _
          (Once-bind _ _ (λ _. Once-if _ _ _ (Once-bind _ _ (λ _. Once-pure)) (
            Once-requeueing
              (ensure_sesame cli objects eq new_aggregate to_lower clock config fuel s)
              (ensure_sesame-PlainError cli objects eq new_aggregate to_lower clock config fuel
                filters s))))
          (Once-requeueing
            (ensure_sesame_deleted cli objects eq new_aggregate to_lower clock config fuel s)
            (ensure_sesame_deleted-PlainError cli objects eq new_aggregate to_lower clock config
              fuel filters s))

    -- A reconciliation never asks to be run again after a time, whatever the cluster answers and
    -- whatever errors, retryable ones included, the steps return.
    pub reconcile_never_requeues :
        (req : Request) (c : C) (t : ℕ)
        → (reconcile cli objects eq new_aggregate to_lower clock config fuel parse_ip req c).0
          ≢ ok (requeue_after t)
    unfolding reconcile
    reconcile_never_requeues req = Once-bind _ _ (λ found.
        Once-on_answer _ _ found Once-reconcile_found (λ e. Once-if _ _ _ Once-pure (Once-fail _)))
