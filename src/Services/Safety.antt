-- ===== src/Services/Safety.antt =====
-- The services of others are left alone.
use sesame_operator.Prelude.{false, Option, none, some, ◌≡◌, arith}
use sesame_operator.Errors.{Err, ClientError, ok, client}
use sesame_operator.Api.{
  NetworkPublishingType, load_balancer_service, node_port_service, cluster_ip_service, other_type,
  Sesame,
}
use sesame_operator.Kube.{Service}
use sesame_operator.Labels.{exist, owner_labels, Owned, owner_labels-Owned}
use sesame_operator.Cluster.{
  attempt, call, answer, Request, Exec, Client, ◌>>=◌, on_answer, wrapping, when_some,
}
use sesame_operator.Cluster.Keeps.{
  Harmless, Keeps, keeps_rules, Keeps-bind-lift, Keeps-if, Keeps-pure, Keeps-attempt, Keeps-bind,
  Keeps-call, Keeps-on_answer, Keeps-wrapping, Keeps-fail,
}
use sesame_operator.Owned.{Guards, delete_owned-Keeps}
use sesame_operator.Equality.{Semantic}
use sesame_operator.Equality.Settles.{
  cluster_ip_service_changed-labels, load_balancer_service_changed-labels,
  node_port_service_changed-labels,
}
use sesame_operator.Services.{desired_sesame_service, desired_envoy_service}
use sesame_operator.Services.Ensure.{
  service_error, envoy_service_changed, current_sesame_service, current_envoy_service,
  create_service, update_sesame_service_if_needed, update_envoy_service_if_needed, ensure_service,
  ensure_sesame_service, ensure_envoy_service, ensure_sesame_service_deleted,
  ensure_envoy_service_deleted,
}

module _ {C : Type 0} (cli : Client C) (eq : Semantic) (s : Sesame) (c c' : C)
    (current : Service) where
  -- If the service that the cluster has under Sesame's name lacks the owner labels, then
  -- `EnsureSesameService` returns no error and does nothing after the read.
  ensure_sesame_service_foreign :
      current_sesame_service cli s c ≡ (answer current, c')
      → exist current.labels (owner_labels s) ≡ false
      → ensure_sesame_service cli eq s c ≡ (ok tt, c')
  unfolding ensure_sesame_service ensure_service ◌>>=◌ on_answer wrapping
      update_sesame_service_if_needed
  ensure_sesame_service_foreign found foreign = rw (found, foreign)

  -- If the service that the cluster has under the name of the Envoy service lacks the owner labels,
  -- then `EnsureEnvoyService` returns no error and does nothing after the read, whatever the type.
  ensure_envoy_service_foreign :
      current_envoy_service cli s c ≡ (answer current, c')
      → exist current.labels (owner_labels s) ≡ false
      → ensure_envoy_service cli eq s c ≡ (ok tt, c')
  unfolding ensure_envoy_service ensure_service ◌>>=◌ on_answer wrapping
      update_envoy_service_if_needed
  ensure_envoy_service_foreign found foreign = rw (found, foreign)

-- A comparison never changes the labels of the current service.
envoy_service_changed-labels :
    (eq : Semantic) (type : NetworkPublishingType) (current desired updated : Service)
    → envoy_service_changed eq type current desired ≡ ok (some updated)
    → updated.labels ≡ current.labels
unfolding envoy_service_changed
envoy_service_changed-labels eq node_port_service current desired updated h =
    node_port_service_changed-labels eq current desired updated h
envoy_service_changed-labels eq cluster_ip_service current desired updated h =
    cluster_ip_service_changed-labels eq current desired updated (ground arith)
envoy_service_changed-labels eq load_balancer_service current desired updated h =
    load_balancer_service_changed-labels eq current desired updated (ground arith)
envoy_service_changed-labels eq (other_type t) current desired updated h =
    load_balancer_service_changed-labels eq current desired updated (ground arith)

module _ {C : Type 0} (cli : Client C) (eq : Semantic) (s : Sesame) {P : C → Type 0}
    (g : Guards P (λ svc. svc.labels) s cli.services) where
  create_service-Keeps : (svc : Service) → Owned s svc.labels → Keeps P (create_service cli svc)
  unfolding create_service
  create_service-Keeps svc owned = search (keeps_rules, g.creates svc owned)

  desired-Owned :
      Owned s (desired_sesame_service s).labels × Owned s (desired_envoy_service s).labels
  unfolding desired_sesame_service desired_envoy_service
  desired-Owned = (owner_labels-Owned s, owner_labels-Owned s)

  update_sesame-Keeps :
      (current : Service)
      → Keeps P (update_sesame_service_if_needed cli eq s current (desired_sesame_service s))
  unfolding update_sesame_service_if_needed
  update_sesame-Keeps current =
      search (keeps_rules, g.updates (desired_sesame_service s) desired-Owned.0)

  -- What a comparison answers with has the labels of the current service.
  write_updated-Keeps :
      (type : NetworkPublishingType) (current desired : Service) (f : ClientError → Err)
      (changed : Option Service)
      → Owned s current.labels
      → envoy_service_changed eq type current desired ≡ ok changed
      → Keeps P (when_some (λ updated. attempt f (cli.services.update updated)) changed)
  unfolding when_some
  write_updated-Keeps type current desired f none owned h = Keeps-pure tt
  write_updated-Keeps type current desired f (some updated) owned h = Keeps-attempt f (
      g.updates updated (rw (envoy_service_changed-labels eq type current desired updated h) owned))

  update_envoy-Keeps :
      (current : Service)
      → Keeps P (update_envoy_service_if_needed cli eq s current (desired_envoy_service s))
  unfolding update_envoy_service_if_needed
  update_envoy-Keeps current =
      let desired = desired_envoy_service s in
      let type = s.spec.network_publishing.envoy.type in
      let error = λ (e : ClientError). service_error "update" desired (client e) in
      Keeps-if _ _ _
        (λ owned.
          Keeps-bind-lift (envoy_service_changed eq type current desired)
            (when_some (λ updated. attempt error (cli.services.update updated)))
            λ changed h. write_updated-Keeps type current desired error changed owned h)
        (λ _. Keeps-pure tt)

  ensure_service-Keeps :
      (get : Request C Service) (desired : Service) (update : Service → Service → Exec C Unit)
      → Harmless P get
      → Owned s desired.labels
      → ((current : Service) → Keeps P (update current desired))
      → Keeps P (ensure_service cli eq get desired update)
  unfolding ensure_service
  ensure_service-Keeps get desired update reads owned updates =
      Keeps-bind (call get) _ (Keeps-call reads) λ found.
        Keeps-on_answer _ _ found
          (λ current. Keeps-wrapping (service_error "update" desired) (updates current))
          (λ e. search (Keeps-if, create_service-Keeps desired owned, Keeps-fail))

  -- Whatever `EnsureSesameService` meets, it keeps each property that reads and writes of services
  -- with the owner labels of the sesame keep.
  pub ensure_sesame_service-Keeps : Keeps P (ensure_sesame_service cli eq s)
  unfolding ensure_sesame_service current_sesame_service
  ensure_sesame_service-Keeps =
      ensure_service-Keeps _ (desired_sesame_service s) (update_sesame_service_if_needed cli eq s)
        (g.reads _ _) desired-Owned.0 update_sesame-Keeps

  -- The same of `EnsureEnvoyService`: it keeps each property that reads and writes of services with
  -- the owner labels of the sesame keep.
  pub ensure_envoy_service-Keeps : Keeps P (ensure_envoy_service cli eq s)
  unfolding ensure_envoy_service current_envoy_service
  ensure_envoy_service-Keeps =
      ensure_service-Keeps _ (desired_envoy_service s) (update_envoy_service_if_needed cli eq s)
        (g.reads _ _) desired-Owned.1 update_envoy-Keeps

  pub ensure_sesame_service_deleted-Keeps : Keeps P (ensure_sesame_service_deleted cli s)
  unfolding ensure_sesame_service_deleted current_sesame_service
  ensure_sesame_service_deleted-Keeps =
      delete_owned-Keeps (λ svc. svc.labels) cli.services s g _ (g.reads _ _)

  pub ensure_envoy_service_deleted-Keeps : Keeps P (ensure_envoy_service_deleted cli s)
  unfolding ensure_envoy_service_deleted current_envoy_service
  ensure_envoy_service_deleted-Keeps =
      delete_owned-Keeps (λ svc. svc.labels) cli.services s g _ (g.reads _ _)
