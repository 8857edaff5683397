-- ===== src/Services/Ports.antt =====
-- The ports of the desired Envoy service, for container ports that the validation accepts.
use sesame_operator.Prelude.{
  ℕ, String, false, List, [], ◌∷◌, ◌≡◌, refl, sym, ◌∙◌, ap, ◌⊎◌, inl, inr, In, NoDup, ◌==◌, eq_iff,
  ==_ne, String-cases,
}
use sesame_operator.Api.{ContainerPort}
use sesame_operator.Kube.{ServicePort, int_val}
use sesame_operator.Validation.Ports.{names, PortsValid}
use sesame_operator.Services.{envoy_ports}

-- A service port that leads to a container port.
abbrev pub leads : String → ℕ → ContainerPort → ServicePort
leads name port target = record {
  name = name;
  protocol = "TCP";
  port = port;
  target_port = int_val target.port_number;
  node_port = 0;
}

literals_differ : ("https" == "http") ≡ false
literals_differ = refl

https-ne-http : ¬ (◌≡◌ {A = String} "https" "http")
https-ne-http = λ h. cc (literals_differ, (eq_iff "https" "http").1 h)

envoy_ports-http :
    (c : ContainerPort) (cs : List ContainerPort)
    → c.name ≡ "http"
    → envoy_ports (c ∷ cs) ≡ leads "http" 80 c ∷ envoy_ports cs
unfolding envoy_ports
envoy_ports-http c cs e = rw ((eq_iff c.name "http").1 e, e)

envoy_ports-https :
    (c : ContainerPort) (cs : List ContainerPort)
    → c.name ≡ "https"
    → envoy_ports (c ∷ cs) ≡ leads "https" 443 c ∷ envoy_ports cs
unfolding envoy_ports
envoy_ports-https c cs e =
    rw (==_ne c.name "http" (λ h. https-ne-http (sym e ∙ h)), (eq_iff c.name "https").1 e, e)

envoy_ports-other :
    (c : ContainerPort) (cs : List ContainerPort)
    → ¬ (c.name ≡ "http")
    → ¬ (c.name ≡ "https")
    → envoy_ports (c ∷ cs) ≡ envoy_ports cs
unfolding envoy_ports
envoy_ports-other c cs a b = rw (==_ne c.name "http" a, ==_ne c.name "https" b)

none_named :
    (cs : List ContainerPort)
    → ¬ In "http" (names cs)
    → ¬ In "https" (names cs)
    → envoy_ports cs ≡ []
unfolding envoy_ports
none_named [] a b = refl
none_named (c ∷ cs) a b =
    envoy_ports-other c cs (λ e. a (inl (sym e))) (λ e. b (inl (sym e)))
    ∙ none_named cs (λ m. a (inr m)) (λ m. b (inr m))

-- A container port of a name, and that nothing else is of use.
abbrev Single : String → ℕ → List ContainerPort → Type 0
Single name port cs =
    (c : ContainerPort) × In c cs × (c.name ≡ name) × (envoy_ports cs ≡ leads name port c ∷ [])

only_https :
    (cs : List ContainerPort)
    → NoDup (names cs)
    → ¬ In "http" (names cs)
    → In "https" (names cs)
    → Single "https" 443 cs
only_https [] n a m = absurd m
only_https (c ∷ cs) (new, n) a m = elim (String-cases c.name "https") [
  | inl e ↦ (
    c,
    inl refl,
    e,
    envoy_ports-https c cs e
        ∙ ap (λ l. leads "https" 443 c ∷ l) (none_named cs (λ x. a (inr x)) (λ x. new (rw e x))),
  )
  | inr d ↦
      let (q, r, e, eqn) =
        only_https cs n (λ x. a (inr x)) (elim m [ inl e ↦ absurd (d (sym e)) | inr r ↦ r ]) in
      (q, inr r, e, envoy_ports-other c cs (λ e. a (inl (sym e))) d ∙ eqn)
]

only_http :
    (cs : List ContainerPort)
    → NoDup (names cs)
    → ¬ In "https" (names cs)
    → In "http" (names cs)
    → Single "http" 80 cs
only_http [] n a m = absurd m
only_http (c ∷ cs) (new, n) a m = elim (String-cases c.name "http") [
  | inl e ↦ (
    c,
    inl refl,
    e,
    envoy_ports-http c cs e
        ∙ ap (λ l. leads "http" 80 c ∷ l) (none_named cs (λ x. new (rw e x)) (λ x. a (inr x))),
  )
  | inr d ↦
      let (q, r, e, eqn) =
        only_http cs n (λ x. a (inr x)) (elim m [ inl e ↦ absurd (d (sym e)) | inr r ↦ r ]) in
      (q, inr r, e, envoy_ports-other c cs d (λ e. a (inl (sym e))) ∙ eqn)
]

-- The two ports, in the order of the container ports.
abbrev pub Pair : List ContainerPort → Type 0
Pair cs =
    (p : ContainerPort) × (q : ContainerPort) × In p cs
    × (p.name ≡ "http")
    × In q cs
    × (q.name ≡ "https")
    × ((envoy_ports cs ≡ leads "http" 80 p ∷ leads "https" 443 q ∷ [])
        ⊎ (envoy_ports cs ≡ leads "https" 443 q ∷ leads "http" 80 p ∷ []))

names-Pair :
    (cs : List ContainerPort)
    → NoDup (names cs)
    → In "http" (names cs)
    → In "https" (names cs)
    → Pair cs
names-Pair [] n a b = absurd a
names-Pair (c ∷ cs) (new, n) a b = elim (String-cases c.name "http") [
  | inl e ↦
      let (q, m, f, eqn) =
        only_https cs n (λ x. new (rw e x))
          (elim b [ inl f ↦ absurd (https-ne-http (f ∙ e)) | inr r ↦ r ]) in
      (
        c,
        q,
        inl refl,
        e,
        inr m,
        f,
        inl (envoy_ports-http c cs e ∙ ap (λ l. leads "http" 80 c ∷ l) eqn),
      )
  | inr d ↦
      let a' : In "http" (names cs) = elim a [ inl e ↦ absurd (d (sym e)) | inr r ↦ r ] in
      elim (String-cases c.name "https") [
        | inl e ↦
            let (p, m, f, eqn) = only_http cs n (λ x. new (rw e x)) a' in
            (
              p,
              c,
              inr m,
              f,
              inl refl,
              e,
              inr (envoy_ports-https c cs e ∙ ap (λ l. leads "https" 443 c ∷ l) eqn),
            )
        | inr d' ↦
            let (p, q, m, e, m', e', way) =
              names-Pair cs n a' (elim b [ inl e ↦ absurd (d' (sym e)) | inr r ↦ r ]) in
            (
              p,
              q,
              inr m,
              e,
              inr m',
              e',
              elim way [
                | inl w ↦ inl (envoy_ports-other c cs d d' ∙ w)
                | inr w ↦ inr (envoy_ports-other c cs d d' ∙ w)
              ],
            )
      ]
]

-- If the container ports are valid, whatever their order and number, the Envoy service is given two
-- ports: 80 leads to the container port named "http", and 443 to the one named "https".
pub envoy_ports-Pair : (cs : List ContainerPort) → PortsValid cs → Pair cs
envoy_ports-Pair cs v = names-Pair cs v.names_differ v.has_http v.has_https
