-- ===== src/Equality/Settles.antt =====
-- Writing the object that a comparison answers with settles it: the next one finds a match.
use sesame_operator.Prelude.{
  ℕ, suc, Bool, true, false, List, [], ◌∷◌, none, some, length, nat_eq, nat_eq_iff, ◌≡◌, refl, ap,
  if◌then◌else◌, Bool-cases, arith, inl, inr,
}
use sesame_operator.Errors.{ok, bind-eq-ok}
use sesame_operator.Kube.{ServicePort, Service}
use sesame_operator.Equality.{
  DeepEqual, Semantic, pick, differ, cluster_ip_service_changed, merge_port, port_differs,
  merge_ports, ports_differ, load_balancer_service_changed, ports_changed, cluster_ip_updated,
  cluster_ip_differs, load_balancer_updated, load_balancer_differs, node_port_service_changed,
  node_port_updated, node_port_differs, ports_replaced, any_differs,
}

abbrev pub node_ports : List ServicePort → List ℕ
node_ports [] = []
node_ports (p ∷ ps) = p.node_port ∷ node_ports ps

-- A field that was picked matches.
pub picked : {A : Type 0} (d : DeepEqual A) (a b : A) → differ d (pick d a b) b ≡ false
picked d a b = ground (arith, d.equal_refl b)

nat_eq_refl : (n : ℕ) → nat_eq n n ≡ true
nat_eq_refl n = ground arith

-- What is answered, if anything is.
pub the_answer :
    {A : Type 0} (b : Bool) (x : A) {y : A} → (if b then some x else none) ≡ some y → y ≡ x
the_answer true x h = ground arith
the_answer false x h = cc

settled : {A : Type 0} (b : Bool) (x : A) → b ≡ false → (if b then some x else none) ≡ none
settled b x h = rw h

module _ (eq : Semantic) where
  ports_changed_settles :
      (ps qs : List _) → ports_changed eq (if ports_changed eq ps qs then qs else ps) qs ≡ false
  unfolding ports_changed
  ports_changed_settles ps qs = ground (arith, eq.ports.equal_refl qs, nat_eq_refl (length qs))

  cluster_ip_settles :
      (current expected : Service)
      → cluster_ip_differs eq (cluster_ip_updated eq current expected) expected ≡ false
  unfolding cluster_ip_updated cluster_ip_differs
  cluster_ip_settles current expected =
      rw (ports_changed_settles, picked eq.string_map, picked eq.text, picked eq.text)

  merge_ports_settles :
      (ps qs : List ServicePort) → ports_differ eq (merge_ports eq ps qs) qs ≡ false
  unfolding merge_ports ports_differ merge_port port_differs
  merge_ports_settles [] qs = refl
  merge_ports_settles (p ∷ ps) [] = refl
  merge_ports_settles (p ∷ ps) (q ∷ qs) =
      simp (picked eq.text, picked eq.number, picked eq.target_port, merge_ports_settles ps qs)

  merge_ports-length : (ps qs : List ServicePort) → length (merge_ports eq ps qs) ≡ length ps
  unfolding merge_ports
  merge_ports-length [] qs = refl
  merge_ports-length (p ∷ ps) [] = refl
  merge_ports-length (p ∷ ps) (q ∷ qs) = ap suc (merge_ports-length ps qs)

  same_ports : (qs : List ServicePort) → ports_differ eq qs qs ≡ false
  unfolding ports_differ port_differs
  same_ports [] = refl
  same_ports (q ∷ qs) = ground (
    arith,
    eq.text.equal_refl q.name,
    eq.text.equal_refl q.protocol,
    eq.number.equal_refl q.port,
    eq.target_port.equal_refl q.target_port,
    same_ports qs,
  )

  merge_ports-node_ports :
      (ps qs : List ServicePort) → node_ports (merge_ports eq ps qs) ≡ node_ports ps
  unfolding merge_ports merge_port
  merge_ports-node_ports [] qs = refl
  merge_ports-node_ports (p ∷ ps) [] = refl
  merge_ports-node_ports (p ∷ ps) (q ∷ qs) = rw (merge_ports-node_ports ps qs)

  load_balancer_settles :
      (current expected : Service)
      → load_balancer_differs eq (load_balancer_updated eq current expected) expected ≡ false
  unfolding load_balancer_updated load_balancer_differs
  load_balancer_settles current expected =
      elim (Bool-cases (nat_eq (length current.ports) (length expected.ports))) [
        | inl same ↦
            simp
              (same, merge_ports-length, merge_ports_settles, picked eq.string_map, picked eq.text)
        | inr other ↦ simp (other, nat_eq_refl, same_ports, picked eq.string_map, picked eq.text)
      ]

  ports_replaced_self : (qs : List ServicePort) → any_differs eq qs qs ≡ some false
  unfolding any_differs
  ports_replaced_self [] = refl
  ports_replaced_self (q ∷ qs) = rw (ports_replaced_self qs, eq.port.equal_refl q)

  ports_replaced_settles :
      (ps qs : List ServicePort) (r : Bool)
      → ports_replaced eq ps qs ≡ ok r
      → ports_replaced eq (if r then qs else ps) qs ≡ ok false
  unfolding ports_replaced
  ports_replaced_settles ps qs false h = h
  ports_replaced_settles ps qs true h =
      ground (arith, ports_replaced_self qs, nat_eq_refl (length qs))

  updated_ports_settle :
      (current expected : Service) (r : Bool)
      → ports_replaced eq current.ports expected.ports ≡ ok r
      → ports_replaced eq (node_port_updated eq current expected r).ports expected.ports ≡ ok false
  unfolding node_port_updated
  updated_ports_settle current expected r h =
      ports_replaced_settles current.ports expected.ports r h

  node_port_settles :
      (current expected : Service) (r : Bool)
      → node_port_differs eq (node_port_updated eq current expected r) expected false ≡ false
  unfolding node_port_updated node_port_differs
  node_port_settles current expected r = simp (picked eq.string_map, picked eq.text)

  -- After `ClusterIPServiceChanged` the service that it answers with matches the expected one.
  pub cluster_ip_service_changed_settles :
      (current expected updated : Service)
      → cluster_ip_service_changed eq current expected ≡ some updated
      → cluster_ip_service_changed eq updated expected ≡ none
  unfolding cluster_ip_service_changed
  cluster_ip_service_changed_settles current expected updated h =
      rw (the_answer (cluster_ip_differs eq current expected) _ h)
        (settled _ _ (cluster_ip_settles current expected))

  -- After `LoadBalancerServiceChanged` the service that it answers with matches the expected one.
  pub load_balancer_service_changed_settles :
      (current expected updated : Service)
      → load_balancer_service_changed eq current expected ≡ some updated
      → load_balancer_service_changed eq updated expected ≡ none
  unfolding load_balancer_service_changed
  load_balancer_service_changed_settles current expected updated h =
      rw (the_answer (load_balancer_differs eq current expected) _ h)
        (settled _ _ (load_balancer_settles current expected))

  -- After `NodePortServiceChanged` the service that it answers with matches the expected one.
  pub node_port_service_changed_settles :
      (current expected updated : Service)
      → node_port_service_changed eq current expected ≡ ok (some updated)
      → node_port_service_changed eq updated expected ≡ ok none
  unfolding node_port_service_changed
  node_port_service_changed_settles current expected updated h =
      let (r, replaced, e) = bind-eq-ok (ports_replaced eq current.ports expected.ports) _ h in
      let same : updated ≡ node_port_updated eq current expected r =
        the_answer (node_port_differs eq current expected r) _ (ground arith) in
      rw same (
        rw (updated_ports_settle current expected r replaced)
          (ap ok (settled _ _ (node_port_settles current expected r))))

  -- What the API server assigned to a load balancer service stays: the cluster IP, the health check
  -- port, the version, and, where no port is added or removed, the node ports.
  pub load_balancer_service_changed_keeps :
      (current expected updated : Service)
      → load_balancer_service_changed eq current expected ≡ some updated
      → (updated.cluster_ip ≡ current.cluster_ip)
        × (updated.health_check_node_port ≡ current.health_check_node_port)
        × (updated.resource_version ≡ current.resource_version)
        × (length current.ports ≡ length expected.ports
            → node_ports updated.ports ≡ node_ports current.ports)
  unfolding load_balancer_service_changed load_balancer_updated
  load_balancer_service_changed_keeps current expected updated h =
      rw (the_answer (load_balancer_differs eq current expected) _ h) (
        refl,
        refl,
        refl,
        λ same. rw ((nat_eq_iff _ _).1 same) (merge_ports-node_ports current.ports expected.ports),
      )

  -- No comparison of services changes the labels.
  pub cluster_ip_service_changed-labels :
      (current expected updated : Service)
      → cluster_ip_service_changed eq current expected ≡ some updated
      → updated.labels ≡ current.labels
  unfolding cluster_ip_service_changed cluster_ip_updated
  cluster_ip_service_changed-labels current expected updated h =
      rw (the_answer (cluster_ip_differs eq current expected) _ h)

  pub load_balancer_service_changed-labels :
      (current expected updated : Service)
      → load_balancer_service_changed eq current expected ≡ some updated
      → updated.labels ≡ current.labels
  unfolding load_balancer_service_changed load_balancer_updated
  load_balancer_service_changed-labels current expected updated h =
      rw (the_answer (load_balancer_differs eq current expected) _ h)

  pub node_port_service_changed-labels :
      (current expected updated : Service)
      → node_port_service_changed eq current expected ≡ ok (some updated)
      → updated.labels ≡ current.labels
  unfolding node_port_service_changed node_port_updated
  node_port_service_changed-labels current expected updated h =
      let (r, replaced, e) = bind-eq-ok (ports_replaced eq current.ports expected.ports) _ h in
      let same : updated ≡ node_port_updated eq current expected r =
        the_answer (node_port_differs eq current expected r) _ (ground arith) in
      ap (λ (svc : Service). svc.labels) same
