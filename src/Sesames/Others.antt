-- ===== src/Sesames/Others.antt =====
-- When another Sesame shares the namespace of a Sesame's resources.
use sesame_operator.Prelude.{
  Bool, true, false, ◌&&◌, List, [], ◌∷◌, ◌≡◌, refl, sym, ◌↔◌, inl, inr, In, ◌==◌, eq_iff,
  Bool-cases, String-cases, ==_ne, arith, and_true, if◌then◌else◌,
}
use sesame_operator.Errors.{ok}
use sesame_operator.Api.{Sesame}
use sesame_operator.Cluster.{Client, answer, ◌>>=◌}
use sesame_operator.Sesames.{others_listed, in_spec_ns, other_sesames_exist_in_spec_ns}

-- Two objects with one namespace and name are one object.
abbrev pub SameKey : Sesame → Sesame → Type 0
SameKey o s = (o.name ≡ s.name) × (o.namespace ≡ s.namespace)

-- `o` is another Sesame that puts its resources into the namespace of those of `s`.
pub record IsRival (s o : Sesame) : Type 0 where
  pub other : ¬ SameKey o s
  pub shares : o.spec.namespace.name ≡ s.spec.namespace.name

abbrev pub HasRival : Sesame → List Sesame → Type 0
HasRival s items = (o : Sesame) × In o items × IsRival s o

abbrev pub Lists : Sesame → List Sesame → Type 0
Lists s items = (o : Sesame) × In o items × SameKey o s

same_key : (o s : Sesame) → (o.name == s.name && o.namespace == s.namespace) ≡ true → SameKey o s
same_key o s h =
    let (a, b) = and_true _ _ h in
    ((eq_iff o.name s.name).0 a, (eq_iff o.namespace s.namespace).0 b)

other_key :
    (o s : Sesame) → (o.name == s.name && o.namespace == s.namespace) ≡ false → ¬ SameKey o s
other_key o s h (a, b) =
    ground (arith, (eq_iff o.name s.name).1 a, (eq_iff o.namespace s.namespace).1 b)

key_test : (o s : Sesame) → ¬ SameKey o s → (o.name == s.name && o.namespace == s.namespace) ≡ false
key_test o s h = elim (Bool-cases (o.name == s.name && o.namespace == s.namespace)) [
  | inl e ↦ absurd (h (same_key o s e))
  | inr e ↦ e
]

in_spec_ns_sound : (s : Sesame) (items : List Sesame) → in_spec_ns s items ≡ true → HasRival s items
unfolding in_spec_ns
in_spec_ns_sound s [] h = cc
in_spec_ns_sound s (o ∷ items) h =
    elim (Bool-cases (o.name == s.name && o.namespace == s.namespace)) [
      | inl e ↦
          let (r, m, rival) = in_spec_ns_sound s items (rw (e, in_spec_ns) at h) in
          (r, inr m, rival)
      | inr e ↦ elim (String-cases o.spec.namespace.name s.spec.namespace.name) [
        | inl same ↦ (o, inl refl, record { other = other_key o s e; shares = same })
        | inr differ ↦
            let (r, m, rival) =
              in_spec_ns_sound s items (rw (e, ==_ne _ _ differ, in_spec_ns) at h) in
            (r, inr m, rival)
      ]
    ]

in_spec_ns_complete :
    (s : Sesame) (items : List Sesame) → HasRival s items → in_spec_ns s items ≡ true
unfolding in_spec_ns
in_spec_ns_complete s [] (o, m, r) = absurd m
in_spec_ns_complete s (o ∷ items) (r, inl e, rival) =
    let same : o ≡ r = sym e in
    rw same (rw (key_test r s rival.other, (eq_iff _ _).1 rival.shares, in_spec_ns) refl)
in_spec_ns_complete s (o ∷ items) (r, inr m, rival) =
    ground (arith, in_spec_ns_complete s items (r, m, rival))

-- The answer of `OtherSesamesExistInSpecNs` to a list.
abbrev in_list : Sesame → List Sesame → Bool
in_list s items =
    let (found, others) = others_listed s items in if found then in_spec_ns s others else false

-- A list that holds `s` itself is never cut short.
in_list_eq :
    (s : Sesame) (items : List Sesame) → Lists s items → in_list s items ≡ in_spec_ns s items
unfolding others_listed in_spec_ns
in_list_eq s [] (o, m, k) = absurd m
in_list_eq s (c ∷ []) (o, inl e, (name, ns)) =
    ground (arith, (eq_iff c.name s.name).1 (cc), (eq_iff c.namespace s.namespace).1 (cc))
in_list_eq s (c ∷ []) (o, inr m, k) = absurd m
in_list_eq s (c ∷ d ∷ items) h = refl

module _ {C : Type 0} (cli : Client C) (s : Sesame) (items : List Sesame) {c c' : C} where
  -- If the client lists `items`, and `s` itself is one of them, the result is true exactly if
  -- another Sesame of the list has its resources in the namespace of those of `s`.
  pub other_sesames_exist_in_spec_ns_iff :
      cli.list_sesames c ≡ (answer items, c')
      → Lists s items
      → (other_sesames_exist_in_spec_ns cli s c ≡ (ok true, c')) ↔ HasRival s items
  unfolding other_sesames_exist_in_spec_ns ◌>>=◌
  other_sesames_exist_in_spec_ns_iff listed itself =
      let e : in_list s items ≡ in_spec_ns s items = in_list_eq s items itself in
      rw (listed, e)
        (λ h. in_spec_ns_sound s items (ground arith), λ r. rw (in_spec_ns_complete s items r))
