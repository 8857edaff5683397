-- ===== src/Services/Ensure.antt =====
-- Creating, updating and deleting the services (internal/objects/service/service.go).
use sesame_operator.Prelude.{String, [], ◌∷◌, Option, if◌then◌else◌, sprintf}
use sesame_operator.Errors.{Err, Result, ok, client, wrap}
use sesame_operator.Api.{NetworkPublishingType, node_port_service, cluster_ip_service, Sesame}
use sesame_operator.Kube.{Service}
use sesame_operator.Labels.{exist, owner_labels}
use sesame_operator.Cluster.{
  Request, Exec, Client, pure, fail, lift, call, attempt, ◌>>=◌, on_answer, wrapping, when_some,
}
use sesame_operator.Owned.{delete_owned}
use sesame_operator.Equality.{
  Semantic, cluster_ip_service_changed, load_balancer_service_changed, node_port_service_changed,
}
use sesame_operator.Services.{
  sesame_svc_name, envoy_svc_name, desired_sesame_service, desired_envoy_service,
}

-- `fmt.Errorf("failed to … service %s/%s: %w", …)`
abbrev pub service_error : String → Service → Err → Err
service_error verb svc =
    wrap (sprintf ("failed to " ∷ verb ∷ " service " ∷ svc.namespace ∷ "/" ∷ svc.name ∷ []))

-- Which comparison is made for a publishing type; the default is that of load balancers.
unfoldable pub envoy_service_changed :
    Semantic → NetworkPublishingType → Service → Service → Result (Option Service)
envoy_service_changed eq node_port_service current desired =
    node_port_service_changed eq current desired
envoy_service_changed eq cluster_ip_service current desired =
    ok (cluster_ip_service_changed eq current desired)
envoy_service_changed eq _ current desired = ok (load_balancer_service_changed eq current desired)

module _ {C : Type 0} (cli : Client C) where
  unfoldable pub current_sesame_service : Sesame → Request C Service
  current_sesame_service s = cli.services.get s.spec.namespace.name sesame_svc_name

  unfoldable pub current_envoy_service : Sesame → Request C Service
  current_envoy_service s = cli.services.get s.spec.namespace.name envoy_svc_name

  unfoldable pub create_service : Service → Exec C Unit
  create_service svc =
      attempt (λ e. service_error "create" svc (client e)) (cli.services.create svc)

  unfoldable pub ensure_sesame_service_deleted : Sesame → Exec C Unit
  unfolding delete_owned current_sesame_service
  ensure_sesame_service_deleted s =
      delete_owned (λ svc. svc.labels) cli.services s (current_sesame_service s)

  unfoldable pub ensure_envoy_service_deleted : Sesame → Exec C Unit
  unfolding delete_owned current_envoy_service
  ensure_envoy_service_deleted s =
      delete_owned (λ svc. svc.labels) cli.services s (current_envoy_service s)

module _ {C : Type 0} (cli : Client C) (eq : Semantic) where
  -- The desired service is written, not the one that the comparison answers with.
  unfoldable pub update_sesame_service_if_needed : Sesame → Service → Service → Exec C Unit
  unfolding exist
  update_sesame_service_if_needed s current desired =
      if exist current.labels (owner_labels s)
      then when_some
          (λ _.
            attempt (λ e. service_error "update" desired (client e)) (cli.services.update desired))
          (cluster_ip_service_changed eq current desired)
      else pure tt

  unfoldable pub update_envoy_service_if_needed : Sesame → Service → Service → Exec C Unit
  unfolding exist envoy_service_changed
  update_envoy_service_if_needed s current desired =
      if exist current.labels (owner_labels s)
      then (do
        changed ←
            lift (envoy_service_changed eq s.spec.network_publishing.envoy.type current desired)
        when_some
            (λ updated.
              attempt (λ e. service_error "update" desired (client e))
                (cli.services.update updated))
            changed)
      else pure tt

  -- What both `Ensure…Service` do with the answer for the current service.
  unfoldable pub ensure_service :
      Request C Service → Service → (Service → Service → Exec C Unit) → Exec C Unit
  ensure_service get desired update_if_needed = do
    found ← call get
    on_answer
        (λ current. wrapping (service_error "update" desired) (update_if_needed current desired))
        (λ e.
          if e.is_not_found
          then create_service cli desired
          else fail (service_error "get" desired (client e)))
        found

  unfoldable pub ensure_sesame_service : Sesame → Exec C Unit
  unfolding ensure_service current_sesame_service
  ensure_sesame_service s =
      ensure_service (current_sesame_service cli s) (desired_sesame_service s)
        (update_sesame_service_if_needed s)

  unfoldable pub ensure_envoy_service : Sesame → Exec C Unit
  unfolding ensure_service current_envoy_service
  ensure_envoy_service s =
      ensure_service (current_envoy_service cli s) (desired_envoy_service s)
        (update_envoy_service_if_needed s)
