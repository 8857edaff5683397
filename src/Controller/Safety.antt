-- ===== src/Controller/Safety.antt =====
-- A whole reconciliation leaves alone what belongs to others.
pub mod Steps
use sesame_operator.Prelude.{ℕ, String, Bool, List, [], ◌∷◌, not, ◌≡◌, refl, if◌then◌else◌}
use sesame_operator.Errors.{ClientError, Err}
use sesame_operator.Errors.Retryable.{NewAggregate}
use sesame_operator.Api.{Sesame, is_finalized}
use sesame_operator.Cluster.{Answer, answer, failed, Exec, Client, pure, fail, ◌>>=◌, on_answer}
use sesame_operator.Cluster.Keeps.{
  Harmless, Keeps, keeps_rules, Keeps-bind, Keeps-if, Keeps-pure, Keeps-lift, Keeps-fail, Keeps-try,
  Keeps-wrapping, Keeps-attempt,
}
use sesame_operator.Equality.{Semantic}
use sesame_operator.Owned.Confined.{Confined}
use sesame_operator.Validation.{validate}
use sesame_operator.Sesames.{ensure_finalizer, ensure_finalizer_removed}
use sesame_operator.Namespaces.Safety.{others-Keeps}
use sesame_operator.Access.Rbac.{Object}
use sesame_operator.Jobs.Retry.{IsPoll, IsPoll-PollKeeps}
use sesame_operator.Jobs.Safety.{PollKeeps}
use sesame_operator.Status.Safety.{ReadsAndStatuses, finish-Keeps, sync_sesame-Keeps}
use sesame_operator.Controller.{
  Config, Request, handle_all, sync_sesame_status, base_steps, workload_steps, ensure_sesame,
  deletion_steps, remove_finalizer, is_nil, no_requeue, ensure_sesame_deleted, requeueing,
  reconcile_found, reconcile,
}
use sesame_operator.Controller.Whole.{operator_objects}
use Steps.{handle_all-Keeps, base_steps-Keep, workload_steps-Keep, deletion_steps-Keep}

module _ {C : Type 0} (cli : Client C) (eq : Semantic) (poll : Exec C Bool → Exec C Unit)
    (kind_of : Object → String) (new_aggregate : NewAggregate) (to_lower : String → String)
    (clock : C → ℕ) (config : Config) (fuel : ℕ) {P : C → Type 0} (polls : PollKeeps P poll)
    (s : Sesame) (g : Confined P s cli) where
  statuses : ReadsAndStatuses P cli
  statuses = record {
    sesames = g.sesames;
    deployments = g.deployments.reads;
    daemon_sets = g.daemon_sets.reads;
    statuses = g.statuses;
  }

  sync_sesame_status-Keeps :
      (errs : List Err)
      → Keeps P (
          sync_sesame_status cli
            (operator_objects cli eq poll kind_of)
            eq
            new_aggregate
            to_lower
            clock
            config
            fuel
            s
            errs)
  unfolding sync_sesame_status
  sync_sesame_status-Keeps errs =
      Keeps-bind _ _
        (Keeps-try (sync_sesame-Keeps cli eq new_aggregate to_lower clock statuses fuel s))
        (λ result. finish-Keeps cli eq new_aggregate to_lower clock statuses _)

  ensure_sesame-Keeps : Keeps P (
      ensure_sesame cli
        (operator_objects cli eq poll kind_of)
        eq
        new_aggregate
        to_lower
        clock
        config
        fuel
        s)
  unfolding ensure_sesame
  ensure_sesame-Keeps =
      let objects = operator_objects cli eq poll kind_of in
      let base = base_steps cli objects eq new_aggregate to_lower clock config fuel s in
      let workloads = workload_steps cli objects eq new_aggregate to_lower clock config fuel s in
      Keeps-bind (handle_all "ensure" s base []) _
        (handle_all-Keeps "ensure" s base []
          (base_steps-Keep cli eq poll kind_of new_aggregate to_lower clock config fuel polls s g))
        λ errs.
          Keeps-if (not (is_nil errs)) _ _ (λ _. sync_sesame_status-Keeps errs)
            (λ _.
              Keeps-bind (handle_all "ensure" s workloads errs) _
                (handle_all-Keeps "ensure" s workloads errs (
                  workload_steps-Keep cli eq poll kind_of new_aggregate to_lower clock config fuel
                    polls s g))
                sync_sesame_status-Keeps)

  finalizer_removed-Keeps : Keeps P (ensure_finalizer_removed cli s)
  unfolding ensure_finalizer_removed
  finalizer_removed-Keeps = search (Keeps-if, Keeps-attempt, Keeps-pure, g.finalizers)

  finalizer_added-Keeps : Keeps P (ensure_finalizer cli s)
  unfolding ensure_finalizer
  finalizer_added-Keeps = search (Keeps-if, Keeps-attempt, Keeps-pure, g.finalizers)

  remove_finalizer-Keeps :
      (errs : List Err)
      → Keeps P (
          remove_finalizer cli
            (operator_objects cli eq poll kind_of)
            eq
            new_aggregate
            to_lower
            clock
            config
            fuel
            s
            errs)
  unfolding remove_finalizer
  remove_finalizer-Keeps [] =
      Keeps-bind _ _ (Keeps-try finalizer_removed-Keeps) (λ result. Keeps-lift _)
  remove_finalizer-Keeps (e ∷ es) = Keeps-lift _

  ensure_sesame_deleted-Keeps : Keeps P (
      ensure_sesame_deleted cli
        (operator_objects cli eq poll kind_of)
        eq
        new_aggregate
        to_lower
        clock
        config
        fuel
        s)
  unfolding ensure_sesame_deleted
  ensure_sesame_deleted-Keeps =
      let objects = operator_objects cli eq poll kind_of in
      let steps = deletion_steps cli objects eq new_aggregate to_lower clock config fuel s in
      Keeps-bind (handle_all "delete" s steps []) _
        (handle_all-Keeps "delete" s steps [] (
          deletion_steps-Keep cli eq poll kind_of new_aggregate to_lower clock config fuel polls s
            g))
        remove_finalizer-Keeps

  requeueing-Keeps :
      {m : Exec C Unit}
      → Keeps P m
      → Keeps P (
          requeueing cli
            (operator_objects cli eq poll kind_of)
            eq
            new_aggregate
            to_lower
            clock
            config
            fuel
            m)
  unfolding requeueing
  requeueing-Keeps k = record { at = λ c h. k.at c h }

  module _ (parse_ip : String → Bool) where
    validate-Keeps : Keeps P (validate cli parse_ip s)
    unfolding validate
    validate-Keeps =
        Keeps-bind _ _ (Keeps-wrapping _ (others-Keeps cli s g.namespaces g.lists))
          (λ shared. search (Keeps-if, Keeps-fail, Keeps-lift))

    reconcile_found-Keeps : Keeps P (
        reconcile_found cli
          (operator_objects cli eq poll kind_of)
          eq
          new_aggregate
          to_lower
          clock
          config
          fuel
          parse_ip
          s)
    unfolding reconcile_found
    reconcile_found-Keeps =
        Keeps-if (not s.deleting) _ _
          (λ _. Keeps-bind _ _ (Keeps-wrapping _ validate-Keeps) (λ _.
            Keeps-if (not (is_finalized s)) _ _
              (λ _. Keeps-bind _ _ finalizer_added-Keeps (λ _. Keeps-pure no_requeue))
              (λ _. requeueing-Keeps ensure_sesame-Keeps)))
          (λ _. requeueing-Keeps ensure_sesame_deleted-Keeps)

module _ {C : Type 0} (cli : Client C) (eq : Semantic) (poll : Exec C Bool → Exec C Unit)
    (kind_of : Object → String) (new_aggregate : NewAggregate) (to_lower : String → String)
    (clock : C → ℕ) (config : Config) (fuel : ℕ) {P : C → Type 0} {least most : ℕ}
    (is : IsPoll least most poll) (parse_ip : String → Bool) (req : Request) where
  on_found-Keeps :
      (found : Answer Sesame) (other : ClientError → Err)
      → ((s : Sesame) → found ≡ answer s → Confined P s cli)
      → Keeps P (
          on_answer
            (reconcile_found cli
              (operator_objects cli eq poll kind_of)
              eq
              new_aggregate
              to_lower
              clock
              config
              fuel
              parse_ip)
            (λ e. if e.is_not_found then pure no_requeue else fail (other e))
            found)
  unfolding on_answer
  on_found-Keeps (answer s) other confined =
      reconcile_found-Keeps cli eq poll kind_of new_aggregate to_lower clock config fuel
        (IsPoll-PollKeeps is) s (confined s refl) parse_ip
  on_found-Keeps (failed e) other confined = search keeps_rules

  -- A whole reconciliation, with all that it calls, keeps a property `P` of the cluster, whatever the
  -- client answers and however it ends, if reads of sesames keep `P`, the polling runs its condition
  -- a number of times, and for each sesame that the read may answer with: reads, lists,
  -- status updates, updates of the finalizers of that sesame, and creations, updates and deletions
  -- of objects that carry its owner labels keep `P`.
  pub reconcile-Keeps :
      ((ns name : String) → Harmless P (cli.sesames.get ns name))
      → ((c : C) (s : Sesame)
          → (cli.sesames.get req.namespace req.name c).0 ≡ answer s
          → Confined P s cli)
      → Keeps P (
          reconcile cli
            (operator_objects cli eq poll kind_of)
            eq
            new_aggregate
            to_lower
            clock
            config
            fuel
            parse_ip
            req)
  unfolding reconcile ◌>>=◌
  reconcile-Keeps reads confined = record {
    at = λ c h.
        let get = cli.sesames.get req.namespace req.name in
        (on_found-Keeps (get c).0 _ (confined c)).at (get c).1
          ((reads req.namespace req.name).harmless c h);
  }
