-- ===== src/Tests/Specs.antt =====
-- The validation, the sesames of the cluster, the finalizer and the aggregation of errors at work.
use sesame_operator.Prelude.{ℕ, ◌<◌, true, false, [], ◌∷◌, none, some, ◌≡◌, refl, ◌↔◌, inl, All}
use sesame_operator.Errors.{Err, ok, panic, message, retryable, aggregate, to_errs}
use sesame_operator.Errors.Retryable.{
  new_maybe_retryable_aggregate, IsShortest, aggregate_retryable,
}
use sesame_operator.Api.{Sesame, is_finalized}
use sesame_operator.Cluster.{answer, failed, Access, Client}
use sesame_operator.Validation.{container_ports, node_ports}
use sesame_operator.Validation.Ports.{PortsValid, container_ports_iff}
use sesame_operator.Validation.NodePorts.{
  HasKnownName, NodePortsValid, node_ports_iff, node_ports_panic_iff,
}
use sesame_operator.Sesames.{
  ensure_finalizer, ensure_finalizer_removed, new, other_sesames_exist_in_spec_ns,
}
use sesame_operator.Sesames.Others.{HasRival, other_sesames_exist_in_spec_ns_iff}
use sesame_operator.Sesames.Finalizer.{finalizer_round_trip}
use sesame_operator.Tests.Samples.{
  cluster, sample, other_sesame, new_aggregate, filters, node_port_at, not_found,
}

container_ports_iff_example :
    (container_ports sample ≡ ok tt)
    ↔ PortsValid sample.spec.network_publishing.envoy.container_ports
container_ports_iff_example = container_ports_iff sample

node_ports_iff_example :
    (node_ports sample ≡ ok tt) ↔ NodePortsValid sample.spec.network_publishing.envoy.node_ports
node_ports_iff_example = node_ports_iff sample

-- A sesame with one node port only.
abbrev one_port : Sesame
one_port = record sample {
  spec = record sample.spec {
    network_publishing = record {
      envoy = record sample.spec.network_publishing.envoy {
        node_ports = some (node_port_at "http" 1 30080 ∷ []);
      };
    };
  };
}

node_ports_panic_iff_example :
    (node_ports one_port ≡ panic) ↔ (All HasKnownName (node_port_at "http" 1 30080 ∷ []) × (1 < 2))
node_ports_panic_iff_example = node_ports_panic_iff one_port (node_port_at "http" 1 30080 ∷ []) refl

other_sesames_exist_in_spec_ns_iff_example :
    (other_sesames_exist_in_spec_ns cluster sample 0 ≡ (ok true, 0))
    ↔ HasRival sample (sample ∷ other_sesame ∷ [])
other_sesames_exist_in_spec_ns_iff_example =
    other_sesames_exist_in_spec_ns_iff cluster sample (sample ∷ other_sesame ∷ []) refl
      (sample, inl refl, (refl, refl))

not_finalized : is_finalized sample ≡ false
unfolding is_finalized new
not_finalized = refl

-- A cluster that holds the sesame that was last updated, and nothing else.
abbrev nothing : {K : Type 0} → Access Sesame K
nothing = record {
  get = λ ns name c. (failed not_found, c);
  create = λ o c. (answer tt, c);
  update = λ o c. (answer tt, c);
  delete = λ o c. (answer tt, c);
}

abbrev holding : Client Sesame
holding = record {
  sesames = record nothing { update = λ o c. (answer tt, o) };
  list_sesames = λ c. (answer (c ∷ []), c);
  update_status = λ o c. (answer tt, c);
  namespaces = nothing;
  services = nothing;
  deployments = nothing;
  daemon_sets = nothing;
  jobs = nothing;
  config_maps = nothing;
  service_accounts = nothing;
  roles = nothing;
  role_bindings = nothing;
  cluster_roles = nothing;
  cluster_role_bindings = nothing;
}

finalizer_round_trip_example :
    ((ensure_finalizer holding sample other_sesame).0 ≡ ok tt)
    × (is_finalized (ensure_finalizer holding sample other_sesame).1 ≡ true)
    × ((ensure_finalizer_removed holding
          (ensure_finalizer holding sample other_sesame).1
          (ensure_finalizer holding sample other_sesame).1).0
        ≡ ok tt)
    × ((ensure_finalizer_removed holding
          (ensure_finalizer holding sample other_sesame).1
          (ensure_finalizer holding sample other_sesame).1).1
        ≡ sample)
finalizer_round_trip_example =
    finalizer_round_trip holding (λ c. c) (λ o c. (refl, refl)) sample other_sesame not_finalized

abbrev slow : Err
slow = retryable (message "later") 30

abbrev soon : Err
soon = retryable (message "soon") 5

aggregate_retryable_example :
    (t : ℕ) × (new_maybe_retryable_aggregate new_aggregate (some slow ∷ none ∷ some soon ∷ [])
      ≡ some (retryable (aggregate (to_errs (slow ∷ soon ∷ []))) t))
    × IsShortest t (slow ∷ soon ∷ [])
aggregate_retryable_example =
    aggregate_retryable new_aggregate filters (some slow ∷ none ∷ some soon ∷ []) (λ h. cc)
      ((30, refl), ((5, refl), tt))
