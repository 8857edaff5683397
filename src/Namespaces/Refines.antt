-- ===== src/Namespaces/Refines.antt =====
-- `EnsureNamespace` of internal/objects/namespace/namespace.go on a cluster that answers to it.
use sesame_operator.Prelude.{
  sprintf, [], ◌∷◌, Bool, true, false, none, some, Option, if◌then◌else◌, ◌≡◌, refl, ◌∙◌, arith,
  Bool-cases, inl, inr,
}
use sesame_operator.Errors.{ClientError, Err, client, wrap}
use sesame_operator.Api.{Sesame}
use sesame_operator.Kube.{Namespace}
use sesame_operator.Labels.{exist, owner_labels}
use sesame_operator.Cluster.{
  Answer, fail, answer, failed, Client, call, attempt, continue, ◌>>=◌, on_answer, wrapping,
  when_some,
}
use sesame_operator.Equality.{Semantic, namespace_config_changed}
use sesame_operator.Owned.Runs.{Leaves, pure-Runs, wrapping-Runs}
use sesame_operator.World.{World, IsClusterStore}
use sesame_operator.Namespaces.{
  desired_namespace, current_spec_ns_name, create_namespace, update_namespace_if_needed,
  ensure_namespace,
}

-- What is answered where a test fails.
other_answer :
    {A : Type 0} (test : Bool) (x : A) {y : A} → (if test then none else some x) ≡ some y → y ≡ x
other_answer true x h = cc
other_answer false x h = ground arith

module _ {C : Type 0} (cli : Client C) (eq : Semantic) (view : C → World)
    (store : IsClusterStore cli view) (s : Sesame) where
  -- The cluster after the read.
  abbrev after_read : C → C
  after_read c = (cli.namespaces.get "" s.spec.namespace.name c).1

  kept : (c : C) (w : World) → view c ≡ w → view (after_read c) ≡ w
  kept c w seen = store.namespaces.reads "" s.spec.namespace.name c ∙ seen

  written-Leaves :
      (f : Namespace → ClientError → Err) (c : C) (w : World) (old : Namespace)
      (o : Option Namespace)
      → view c ≡ w
      → (cli.namespaces.get "" s.spec.namespace.name c).0 ≡ answer old
      → ((u : Namespace) → o ≡ some u → u ≡ desired_namespace s)
      → Leaves view (when_some (λ ns. attempt (f ns) (cli.namespaces.update ns)) o) (after_read c) w
  unfolding when_some attempt desired_namespace
  written-Leaves f c w old none seen found named =
      pure-Runs view tt (after_read c) w tt (kept c w seen)
  written-Leaves f c w old (some u) seen found named =
      let (done, after) = store.namespaces.updates (desired_namespace s) old c found in
      rw (named u refl) (tt, rw done refl, tt, after ∙ seen)

  changed_to :
      (current u : Namespace)
      → namespace_config_changed eq current (desired_namespace s) ≡ some u
      → u ≡ desired_namespace s
  unfolding namespace_config_changed
  changed_to current u h = other_answer _ _ h

  found-Leaves :
      (current : Namespace) (c : C) (w : World)
      → view c ≡ w
      → (cli.namespaces.get "" s.spec.namespace.name c).0 ≡ answer current
      → Leaves view
          (update_namespace_if_needed cli eq s current (desired_namespace s))
          (after_read c)
          w
  unfolding update_namespace_if_needed
  found-Leaves current c w seen found = elim (Bool-cases (exist current.labels (owner_labels s))) [
    | inl owned ↦ rw owned (
        written-Leaves _ c w current (namespace_config_changed eq current (desired_namespace s))
          seen found (changed_to current))
    | inr foreign ↦ rw foreign (pure-Runs view tt (after_read c) w tt (kept c w seen))
  ]

  created-Leaves :
      (e : ClientError) (c : C) (w : World)
      → view c ≡ w
      → (cli.namespaces.get "" s.spec.namespace.name c).0 ≡ failed e
      → Leaves view (create_namespace cli (desired_namespace s)) (after_read c) w
  unfolding create_namespace attempt desired_namespace
  created-Leaves e c w seen missing =
      let (done, after) = store.namespaces.creates (desired_namespace s) c e missing in
      (tt, rw done refl, tt, after ∙ seen)

  by_answer :
      (a : Answer Namespace) (c : C) (w : World)
      → view c ≡ w
      → (cli.namespaces.get "" s.spec.namespace.name c).0 ≡ a
      → Leaves view
          (on_answer
            (λ current.
              wrapping
                (wrap (sprintf ("failed to update namespace " ∷ (desired_namespace s).name ∷ [])))
                (update_namespace_if_needed cli eq s current (desired_namespace s)))
            (λ e.
              if e.is_not_found
              then create_namespace cli (desired_namespace s)
              else fail (
                  wrap
                    (sprintf ("failed to get namespace " ∷ (desired_namespace s).name ∷ []))
                    (client e)))
            a)
          (after_read c)
          w
  unfolding on_answer
  by_answer (answer current) c w seen found =
      wrapping-Runs view _ _ (after_read c) w (found-Leaves current c w seen found)
  by_answer (failed e) c w seen missing =
      rw (store.namespaces.missing _ _ c e missing) (created-Leaves e c w seen missing)

  -- The run for the namespace returns no error, and leaves the tables.
  pub ensure_namespace-Runs :
      (c : C) (w : World) → view c ≡ w → Leaves view (ensure_namespace cli eq s) c w
  unfolding ensure_namespace current_spec_ns_name ◌>>=◌ call continue
  ensure_namespace-Runs c w seen =
      by_answer (cli.namespaces.get "" s.spec.namespace.name c).0 c w seen refl
