-- ===== src/Equality/NodePort.antt =====
-- `NodePortServiceChanged` where the lists of ports differ in length, and where the API server has
-- assigned the node ports.
use sesame_operator.Prelude.{
  ◌<◌, true, false, List, [], ◌∷◌, none, some, length, ◌≡◌, refl, ap, ◌∙◌, ◌≢◌, ◌↔◌, inl, inr,
  Option-cases, arith, Bool-cases,
}
use sesame_operator.Errors.{ok, panic, bind-eq-panic}
use sesame_operator.Kube.{ServicePort, Service}
use sesame_operator.Equality.{
  Semantic, any_differs, ports_replaced, node_port_service_changed, node_port_updated,
  node_port_differs,
}

module _ (eq : Semantic) where
  any_differs-none_iff :
      (ps qs : List ServicePort) → (any_differs eq ps qs ≡ none) ↔ (length qs < length ps)
  unfolding any_differs
  any_differs-none_iff [] qs = (λ h. cc, λ h. absurd (omega arith))
  any_differs-none_iff (p ∷ ps) [] = (λ h. omega arith, λ h. refl)
  any_differs-none_iff (p ∷ ps) (q ∷ qs) =
      let (to, from) = any_differs-none_iff ps qs in
      elim (Option-cases (any_differs eq ps qs)) [
        | inl e ↦ (λ h. omega (arith, to e), λ h. rw (e, any_differs))
        | inr (d, e) ↦ (λ h. cc (rw (e, any_differs) at h), λ h. cc (from (omega arith)))
      ]

  ports_replaced_panic_iff :
      (ps qs : List ServicePort) → (ports_replaced eq ps qs ≡ panic) ↔ (length qs < length ps)
  unfolding ports_replaced
  ports_replaced_panic_iff ps qs =
      let (to, from) = any_differs-none_iff ps qs in
      elim (Option-cases (any_differs eq ps qs)) [
        | inl e ↦ rw (e, ports_replaced) (λ h. to e, λ h. refl)
        | inr (d, e) ↦ rw (e, ports_replaced) (λ h. cc, λ h. absurd (ground (arith, e, from h)))
      ]

  -- The comparison panics exactly if the current service has more ports than the expected one.
  pub node_port_service_changed_panic_iff :
      (current expected : Service)
      → (node_port_service_changed eq current expected ≡ panic)
        ↔ (length expected.ports < length current.ports)
  unfolding node_port_service_changed
  node_port_service_changed_panic_iff current expected =
      let (to, from) = ports_replaced_panic_iff current.ports expected.ports in
      (
        λ h. elim (bind-eq-panic (ports_replaced eq current.ports expected.ports) _ h) [
          | inl e ↦ to e
          | inr (r, e, f) ↦ cc
        ],
        λ h. rw (from h),
      )

  any_differs_first :
      (p q : ServicePort) (ps qs : List ServicePort)
      → eq.port.equal p q ≡ false
      → length ps ≡ length qs
      → any_differs eq (p ∷ ps) (q ∷ qs) ≡ some true
  unfolding any_differs
  any_differs_first p q ps qs h same = elim (Option-cases (any_differs eq ps qs)) [
    | inl e ↦ absurd (omega (arith, (any_differs-none_iff ps qs).0 e))
    | inr (d, e) ↦ rw (e, h, any_differs)
  ]

  -- A node port that the API server assigned does not match an expected port without one, wherever
  -- a comparison of ports sees the two numbers: the service is written again with the expected
  -- ports, so that the assigned number is given up.
  pub assigned_node_port_overwritten :
      (current expected : Service) (p q : ServicePort) (ps qs : List ServicePort)
      → ((a b : ServicePort) → eq.port.equal a b ≡ true → a ≡ b)
      → current.ports ≡ p ∷ ps
      → expected.ports ≡ q ∷ qs
      → length ps ≡ length qs
      → q.node_port ≡ 0
      → p.node_port ≢ 0
      → (updated : Service) × (node_port_service_changed eq current expected ≡ ok (some updated))
        × (updated.ports ≡ q ∷ qs)
  unfolding node_port_service_changed ports_replaced node_port_updated node_port_differs
  assigned_node_port_overwritten current expected p q ps qs sound here there same unset assigned =
      let other : eq.port.equal p q ≡ false = elim (Bool-cases (eq.port.equal p q)) [
        | inl e ↦ absurd (assigned (ap (λ (x : ServicePort). x.node_port) (sound p q e) ∙ unset))
        | inr e ↦ e
      ] in
      let replaced : ports_replaced eq current.ports expected.ports ≡ ok true =
        rw (here, there, any_differs_first p q ps qs other same, ports_replaced) (ground arith) in
      (node_port_updated eq current expected true, rw replaced, there)
