-- ===== src/Validation/NodePorts.antt =====
-- What `NodePorts` does on every list of node ports, its panic included.
use sesame_operator.Prelude.{
  ◌<◌, false, List, [], ◌∷◌, Option, none, some, length, ◌≡◌, refl, ◌≢◌, ◌↔◌, ◌⊎◌, inl, inr, All,
  eq_iff, Bool-cases, String-cases, ==_ne, arith,
}
use sesame_operator.Errors.{ok, panic, bind-eq-ok, bind-eq-panic}
use sesame_operator.Api.{NodePort, Sesame}
use sesame_operator.Validation.{check_names, same_pointer, check_pair, check_node_ports, node_ports}

abbrev pub HasKnownName : NodePort → Type 0
HasKnownName p = (p.name ≡ "http") ⊎ (p.name ≡ "https")

-- What is accepted: no list at all, or one that starts with two ports whose names differ and whose
-- number pointers, where both are set, are not the same pointer.
abbrev pub NodePortsValid : Option (List NodePort) → Type 0
NodePortsValid none = Unit
NodePortsValid (some (p ∷ q ∷ ports)) =
    All HasKnownName (p ∷ q ∷ ports)
    × (p.name ≢ q.name)
    × (same_pointer p.port_number q.port_number ≡ false)
NodePortsValid (some ports) = ⊥

check_names_sound : (ports : List NodePort) → check_names ports ≡ ok tt → All HasKnownName ports
unfolding check_names
check_names_sound [] h = tt
check_names_sound (p ∷ ports) h = elim (String-cases p.name "http") [
  | inl e ↦ (inl e, check_names_sound ports (ground (arith, (eq_iff p.name "http").1 e)))
  | inr a ↦ elim (String-cases p.name "https") [
    | inl e ↦ (inr e, check_names_sound ports (ground (arith, (eq_iff p.name "https").1 e)))
    | inr b ↦ cc (rw (==_ne p.name "http" a, ==_ne p.name "https" b, check_names) at h)
  ]
]

check_names_complete : (ports : List NodePort) → All HasKnownName ports → check_names ports ≡ ok tt
unfolding check_names
check_names_complete [] h = refl
check_names_complete (p ∷ ports) (inl e, h) =
    ground (arith, (eq_iff p.name "http").1 e, check_names_complete ports h)
check_names_complete (p ∷ ports) (inr e, h) =
    ground (arith, (eq_iff p.name "https").1 e, check_names_complete ports h)

check_names-ne-panic : (ports : List NodePort) → check_names ports ≢ panic
unfolding check_names
check_names-ne-panic [] = λ e. cc
check_names-ne-panic (p ∷ ports) = λ e. ground (arith, check_names-ne-panic ports)

check_pair_sound :
    (p q : NodePort) (ports : List NodePort)
    → check_pair (p ∷ q ∷ ports) ≡ ok tt
    → (p.name ≢ q.name) × (same_pointer p.port_number q.port_number ≡ false)
unfolding check_pair
check_pair_sound p q ports h = elim (String-cases p.name q.name) [
  | inl e ↦ cc (rw ((eq_iff p.name q.name).1 e, check_pair) at h)
  | inr d ↦ elim (Bool-cases (same_pointer p.port_number q.port_number)) [
    | inl e ↦ cc (rw (==_ne p.name q.name d, e, check_pair) at h)
    | inr e ↦ (d, e)
  ]
]

check_pair_panic_iff : (ports : List NodePort) → (check_pair ports ≡ panic) ↔ (length ports < 2)
unfolding check_pair
check_pair_panic_iff [] = (λ _. omega arith, λ _. refl)
check_pair_panic_iff (p ∷ []) = (λ _. omega arith, λ _. refl)
check_pair_panic_iff (p ∷ q ∷ ports) = (λ h. ground arith, λ h. absurd (omega arith))

valid_of_ok :
    (ports : Option (List NodePort)) → check_node_ports ports ≡ ok tt → NodePortsValid ports
unfolding check_node_ports
valid_of_ok none h = tt
valid_of_ok (some []) h = cc
valid_of_ok (some (p ∷ [])) h = ground arith
valid_of_ok (some (p ∷ q ∷ ports)) h =
    let (_, checked, pair) = bind-eq-ok (check_names (p ∷ q ∷ ports)) _ h in
    let (differ, apart) = check_pair_sound p q ports pair in
    (check_names_sound (p ∷ q ∷ ports) checked, differ, apart)

ok_of_valid :
    (ports : Option (List NodePort)) → NodePortsValid ports → check_node_ports ports ≡ ok tt
unfolding check_node_ports
ok_of_valid none v = refl
ok_of_valid (some []) v = absurd v
ok_of_valid (some (p ∷ [])) v = absurd v
ok_of_valid (some (p ∷ q ∷ ports)) (known, differ, apart) =
    rw (check_names_complete (p ∷ q ∷ ports) known, ==_ne p.name q.name differ, apart)

-- `NodePorts` returns nil exactly if no node ports are given, or the list starts with two ports of
-- different names whose number pointers are not one pointer, and every name is "http" or "https".
pub node_ports_iff :
    (s : Sesame)
    → (node_ports s ≡ ok tt) ↔ NodePortsValid s.spec.network_publishing.envoy.node_ports
unfolding node_ports
node_ports_iff s =
    let ports = s.spec.network_publishing.envoy.node_ports in (valid_of_ok ports, ok_of_valid ports)

-- `NodePorts` panics exactly if a list of fewer than two ports is given and all its names pass.
pub node_ports_panic_iff :
    (s : Sesame) (ports : List NodePort)
    → s.spec.network_publishing.envoy.node_ports ≡ some ports
    → (node_ports s ≡ panic) ↔ (All HasKnownName ports × (length ports < 2))
unfolding node_ports check_node_ports
node_ports_panic_iff s ports given = rw given (
  λ h. elim (bind-eq-panic (check_names ports) _ h) [
    | inl e ↦ absurd (check_names-ne-panic ports e)
    | inr (_, checked, e) ↦ (check_names_sound ports checked, (check_pair_panic_iff ports).0 e)
  ],
  λ (known, short). rw (check_names_complete ports known) ((check_pair_panic_iff ports).1 short),
)
