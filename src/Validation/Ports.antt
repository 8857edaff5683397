-- ===== src/Validation/Ports.antt =====
-- Which container ports `ContainerPorts` accepts.
use sesame_operator.Prelude.{
  ℕ, String, Bool, true, false, ◌&&◌, List, [], ◌∷◌, ◌≡◌, refl, ◌↔◌, ◌⊎◌, inl, inr, In, NoDup,
  Distinct, Distinct-NoDup, NoDup-Distinct, ◌==◌, eq_iff, Bool-cases, and_true, arith,
}
use sesame_operator.Errors.{ok}
use sesame_operator.Api.{ContainerPort, Sesame}
use sesame_operator.Slice.{
  contains_string, contains_int32, contains_string_sound, contains_string_complete,
  contains_int32_sound, contains_int32_complete,
}
use sesame_operator.Validation.{
  PortsFound, add_port, container_ports_from, none_found, container_ports,
}

abbrev pub numbers : List ContainerPort → List ℕ
numbers [] = []
numbers (p ∷ ps) = p.port_number ∷ numbers ps

abbrev pub names : List ContainerPort → List String
names [] = []
names (p ∷ ps) = p.name ∷ names ps

-- The ports that the API promises: no number and no name twice, and both names are there.
pub record PortsValid (ports : List ContainerPort) : Type 0 where
  pub numbers_differ : NoDup (numbers ports)
  pub names_differ : NoDup (names ports)
  pub has_http : In "http" (names ports)
  pub has_https : In "https" (names ports)

-- The same with what the loop has found so far.
abbrev ValidFrom : PortsFound → List ContainerPort → Type 0
ValidFrom st ports =
    Distinct st.nums (numbers ports)
    × Distinct st.names (names ports)
    × ((st.http ≡ true) ⊎ In "http" (names ports))
    × ((st.https ≡ true) ⊎ In "https" (names ports))

found_http :
    (st : PortsFound) (p : ContainerPort) (ps : List ContainerPort)
    → ((add_port st p).http ≡ true) ⊎ In "http" (names ps)
    → (st.http ≡ true) ⊎ In "http" (names (p ∷ ps))
unfolding add_port
found_http st p ps (inr m) = inr (inr m)
found_http st p ps (inl e) = elim (Bool-cases (p.name == "http")) [
  | inl h ↦ inr (inl (cc ((eq_iff p.name "http").0 h)))
  | inr h ↦ inl (ground arith)
]

found_https :
    (st : PortsFound) (p : ContainerPort) (ps : List ContainerPort)
    → ((add_port st p).https ≡ true) ⊎ In "https" (names ps)
    → (st.https ≡ true) ⊎ In "https" (names (p ∷ ps))
unfolding add_port
found_https st p ps (inr m) = inr (inr m)
found_https st p ps (inl e) = elim (Bool-cases (p.name == "https")) [
  | inl h ↦ inr (inl (cc ((eq_iff p.name "https").0 h)))
  | inr h ↦ inl (ground arith)
]

adds_http :
    (st : PortsFound) (p : ContainerPort) (ps : List ContainerPort)
    → (st.http ≡ true) ⊎ In "http" (names (p ∷ ps))
    → ((add_port st p).http ≡ true) ⊎ In "http" (names ps)
unfolding add_port
adds_http st p ps (inl e) = inl (ground arith)
adds_http st p ps (inr (inl e)) = inl (ground (arith, (eq_iff p.name "http").1 (cc)))
adds_http st p ps (inr (inr m)) = inr m

adds_https :
    (st : PortsFound) (p : ContainerPort) (ps : List ContainerPort)
    → (st.https ≡ true) ⊎ In "https" (names (p ∷ ps))
    → ((add_port st p).https ≡ true) ⊎ In "https" (names ps)
unfolding add_port
adds_https st p ps (inl e) = inl (ground arith)
adds_https st p ps (inr (inl e)) = inl (rw (← e, add_port) refl)
adds_https st p ps (inr (inr m)) = inr m

from_sound :
    (st : PortsFound) (ports : List ContainerPort)
    → container_ports_from st ports ≡ ok tt
    → ValidFrom st ports
unfolding container_ports_from
from_sound st [] h = elim (Bool-cases (st.http && st.https)) [
  | inl e ↦ (tt, tt, inl (and_true st.http st.https e).0, inl (and_true st.http st.https e).1)
  | inr e ↦ cc (rw (e, container_ports_from) at h)
]
from_sound st (p ∷ ps) h = elim (Bool-cases (contains_int32 st.nums p.port_number)) [
  | inl e ↦ cc (rw (e, container_ports_from) at h)
  | inr a ↦ elim (Bool-cases (contains_string st.names p.name)) [
    | inl e ↦ cc (rw (a, e, container_ports_from) at h)
    | inr b ↦
        let (nums, names', http, https) =
          from_sound (add_port st p) ps (rw (a, b, container_ports_from) at h) in
        (
          (λ m. cc (a, contains_int32_complete st.nums p.port_number m), nums),
          (λ m. cc (b, contains_string_complete st.names p.name m), names'),
          found_http st p ps http,
          found_https st p ps https,
        )
  ]
]

from_complete :
    (st : PortsFound) (ports : List ContainerPort)
    → ValidFrom st ports
    → container_ports_from st ports ≡ ok tt
unfolding container_ports_from
from_complete st [] (_, _, inl http, inl https) = rw (http, https)
from_complete st [] (_, _, inr m, _) = absurd m
from_complete st [] (_, _, inl http, inr m) = absurd m
from_complete st (p ∷ ps) ((fresh, nums), (new, names'), http, https) =
    elim (Bool-cases (contains_int32 st.nums p.port_number)) [
      | inl e ↦ absurd (fresh (contains_int32_sound st.nums p.port_number e))
      | inr a ↦ elim (Bool-cases (contains_string st.names p.name)) [
        | inl e ↦ absurd (new (contains_string_sound st.names p.name e))
        | inr b ↦
            rw (a, b, container_ports_from)
              (from_complete (add_port st p) ps
                (nums, names', adds_http st p ps http, adds_https st p ps https))
      ]
    ]

left {ℓ} : {A : Type ℓ} {b : Bool} → b ≡ false → (b ≡ true) ⊎ A → A
left e (inl t) = cc
left e (inr a) = a

-- `ContainerPorts` accepts exactly the specs whose ports differ in number and in name and include
-- one named "http" and one named "https".
pub container_ports_iff :
    (s : Sesame)
    → (container_ports s ≡ ok tt) ↔ PortsValid s.spec.network_publishing.envoy.container_ports
unfolding container_ports
container_ports_iff s =
    let ports = s.spec.network_publishing.envoy.container_ports in
    (
      λ h.
          let (nums, names', http, https) = from_sound none_found ports h in
          record {
            numbers_differ = Distinct-NoDup [] (numbers ports) nums;
            names_differ = Distinct-NoDup [] (names ports) names';
            has_http = left refl http;
            has_https = left refl https;
          },
      λ v. from_complete none_found ports (
        NoDup-Distinct [] (numbers ports) v.numbers_differ (λ a m n. n),
        NoDup-Distinct [] (names ports) v.names_differ (λ a m n. n),
        inr v.has_http,
        inr v.has_https,
      ),
    )
