-- ===== src/Access/Leftover.antt =====
-- The deletion of access rules in internal/objects/rbac.go while the cluster has other sesames.
use sesame_operator.Prelude.{
  String, true, List, [], ◌∷◌, ◌≡◌, All, All-append, StringMap, Option, not,
}
use sesame_operator.Api.{Sesame}
use sesame_operator.Labels.{exist, owner_labels, Owned}
use sesame_operator.Cluster.{Request, Client, Access}
use sesame_operator.Cluster.Keeps.{
  Harmless, Keeps, keeps_rules, Keeps-bind, Keeps-if, Keeps-pure, Keeps-wrapping, Keeps-call,
}
use sesame_operator.Cluster.Yields.{
  Answers, Yields, Yields-attempt, Yields-pure, Yields-fail, Yields-any, Keeps-Yields,
  Yields-wrapping, Yields-bind, Yields-on_answer, Yields-if,
}
use sesame_operator.Sesames.{others_listed, other_sesames_exist, other_sesames_exist_in_spec_ns}
use sesame_operator.Access.Ensure.{current_service_account, current_role, current_role_binding}
use sesame_operator.Access.Rbac.{
  Object, role_binding, role, service_account, cluster_role_binding, cluster_role, object_labels,
  account_names, found_objects, found_accounts, namespaced_objects, delete_object,
  delete_owned_object, delete_owned_objects, ensure_rbac_deleted,
}

-- The objects that stand in a namespace.
abbrev IsNamespaced : Object → Type 0
IsNamespaced (role_binding o) = Unit
IsNamespaced (role o) = Unit
IsNamespaced (service_account o) = Unit
IsNamespaced (cluster_role_binding o) = ⊥
IsNamespaced (cluster_role o) = ⊥

-- Reads of a kind of objects, and deletions of those with the owner labels, keep `P`.
pub record Removes {C K : Type 0} (P : C → Type 0) (labels_of : K → Option StringMap) (s : Sesame)
    (objects : Access C K) : Type 0 where
  pub reads : (ns name : String) → Harmless P (objects.get ns name)
  pub deletes : (o : K) → Owned s (labels_of o) → Harmless P (objects.delete o)

-- `P` holds only while the cluster has other sesames, and the calls on access rules in a namespace
-- keep it. Nothing is said of cluster roles and their bindings.
pub record IsShared {C : Type 0} (P : C → Type 0) (s : Sesame) (cli : Client C) : Type 0 where
  pub lists : Harmless P cli.list_sesames
  pub others :
      (c : C) → P c → Answers (λ items. (others_listed s items).0 ≡ true) (cli.list_sesames c).0
  pub service_accounts : Removes P (λ o. o.labels) s cli.service_accounts
  pub roles : Removes P (λ o. o.labels) s cli.roles
  pub role_bindings : Removes P (λ o. o.labels) s cli.role_bindings

module _ {C : Type 0} (cli : Client C) (kind_of : Object → String) (s : Sesame) {P : C → Type 0}
    (g : IsShared P s cli) where
  found_objects-Yields :
      {K : Type 0} (make : K → Object) (get : Request C K)
      → ((o : K) → IsNamespaced (make o))
      → Harmless P get
      → Yields P (All IsNamespaced) (found_objects cli kind_of make get)
  unfolding found_objects
  found_objects-Yields make get placed reads =
      Yields-bind _ _ _ _ (Yields-any (Keeps-call reads)) (λ found _.
        Yields-on_answer _ _ _ found (λ o. Yields-pure _ _ (placed o, tt))
          (λ e. Yields-if _ e.is_not_found _ _ (Yields-pure _ [] tt) (Yields-fail _ _)))

  found_accounts-Yields :
      (ns : String) (names : List String)
      → Yields P (All IsNamespaced) (found_accounts cli kind_of ns names)
  unfolding found_accounts current_service_account
  found_accounts-Yields ns [] = Yields-pure _ [] tt
  found_accounts-Yields ns (name ∷ names) =
      Yields-bind _ _ _ _
        (found_objects-Yields service_account _ (λ _. tt) (g.service_accounts.reads ns name))
        (λ one first.
          Yields-bind _ _ _ _ (found_accounts-Yields ns names)
            (λ rest others. Yields-pure _ _ (All-append _ one rest first others)))

  namespaced_objects-Yields : Yields P (All IsNamespaced) (namespaced_objects cli kind_of s)
  unfolding namespaced_objects current_role current_role_binding
  namespaced_objects-Yields =
      Yields-bind _ _ _ _
        (found_objects-Yields role_binding _ (λ _. tt) (g.role_bindings.reads _ _))
        λ binding h1.
          Yields-bind _ _ _ _ (found_objects-Yields role _ (λ _. tt) (g.roles.reads _ _))
            λ cntr_role h2.
              Yields-bind _ _ _ _ (found_objects-Yields role _ (λ _. tt) (g.roles.reads _ _))
                λ cert_role h3.
                  Yields-bind _ _ _ _ (found_accounts-Yields _ account_names) λ accounts h4.
                    Yields-pure _ _ (
                      All-append _ _ accounts
                        (All-append _ _ cert_role (All-append _ binding cntr_role h1 h2) h3) h4)

  delete_object-Harmless :
      (o : Object)
      → IsNamespaced o
      → Owned s (object_labels o)
      → Harmless P (delete_object cli kind_of o)
  unfolding delete_object
  delete_object-Harmless (role_binding o) placed owned = g.role_bindings.deletes o owned
  delete_object-Harmless (role o) placed owned = g.roles.deletes o owned
  delete_object-Harmless (service_account o) placed owned = g.service_accounts.deletes o owned
  delete_object-Harmless (cluster_role_binding o) placed owned = absurd placed
  delete_object-Harmless (cluster_role o) placed owned = absurd placed

  delete_owned_objects-Keeps :
      (l : List Object) → All IsNamespaced l → Keeps P (delete_owned_objects cli kind_of s l)
  unfolding delete_owned_objects delete_owned_object
  delete_owned_objects-Keeps [] placed = Keeps-pure tt
  delete_owned_objects-Keeps (o ∷ l) (here, rest) =
      Keeps-bind _ _
        (Keeps-if (exist (object_labels o) (owner_labels s)) _ _
          (λ owned. search (keeps_rules, delete_object-Harmless o here owned)) (λ _. Keeps-pure tt))
        (λ _. delete_owned_objects-Keeps l rest)

  others-Yields : Yields P (λ found. found.0 ≡ true) (other_sesames_exist cli s)
  unfolding other_sesames_exist
  others-Yields =
      Yields-bind _ _ _ _ (Yields-attempt _ _ g.lists g.others) (λ items h. Yields-pure _ _ h)

  shared-Keeps : Keeps P (other_sesames_exist_in_spec_ns cli s)
  unfolding other_sesames_exist_in_spec_ns
  shared-Keeps = search (keeps_rules, Keeps-Yields others-Yields)

  -- While the client lists other sesames, the deletion of the access rules of a sesame makes no call
  -- on cluster roles and their bindings: it keeps each property that lists of sesames, reads of
  -- service accounts, roles and role bindings, and deletions of those with the owner labels keep,
  -- whatever these calls answer.
  pub ensure_rbac_deleted_shared : Keeps P (ensure_rbac_deleted cli kind_of s)
  unfolding ensure_rbac_deleted
  ensure_rbac_deleted_shared = Keeps-bind _ _ (Keeps-wrapping _ shared-Keeps) λ shared.
      Keeps-Yields (
        Yields-bind (All IsNamespaced) (λ _. Unit {0}) _ _
          (Yields-if _ (not shared) _ _ namespaced_objects-Yields (Yields-pure _ [] tt))
          λ here placed. Yields-bind _ _ _ _ (Yields-wrapping _ _ others-Yields) λ others h.
            Yields-bind (All IsNamespaced) _ _ _ (rw h (Yields-pure _ [] tt)) λ everywhere p.
              Yields-any (delete_owned_objects-Keeps _ (All-append _ here everywhere placed p)))
