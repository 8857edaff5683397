-- ===== src/Access/Deletes.antt =====
-- `EnsureRBACDeleted` of internal/objects/rbac.go on a cluster that works as a store: what it finds
-- there.
use mathlib.Core.Path.{subst}
use sesame_operator.Prelude.{
  String, Bool, true, false, List, [], ◌∷◌, ◌++◌, Option, none, some, StringMap, ◌≡◌, refl, sym, ap,
  ◌∙◌, ◌==◌, ==_refl, if◌then◌else◌, Bool-cases, inl, inr,
}
use sesame_operator.Api.{Sesame}
use sesame_operator.Labels.{exist, owner_labels}
use sesame_operator.Cluster.{Access, Client}
use sesame_operator.Owned.Tables.{Table, Part, IsErasable, over, erase}
use sesame_operator.Owned.Deletes.{removed, with_deleted}
use sesame_operator.Owned.Runs.{Runs, bind-Runs, pure-Runs, read-Runs}
use sesame_operator.Access.{sesame_rbac_name, envoy_rbac_name, cert_gen_rbac_name, namespaced_name}
use sesame_operator.Access.Ensure.{
  current_service_account, current_role, current_role_binding, current_cluster_role,
  current_cluster_role_binding,
}
use sesame_operator.Access.Rbac.{
  Object, role_binding, role, service_account, cluster_role_binding, cluster_role, account_names,
  found_objects, found_accounts, namespaced_objects, cluster_objects,
}
use sesame_operator.Access.Erased.{Stored, without, Clears, no_more, one_more, listed}
use sesame_operator.World.{World, IsClusterStore}

-- One list of objects behind the other.
pub Clears-append :
    (s : Sesame) (l l' : List Object) (w w1 w2 : World)
    → Clears s l w w1
    → Clears s l' w1 w2
    → Clears s (l ++ l') w w2
Clears-append s [] l' w w1 w2 no_more h = h
Clears-append s (o ∷ l) l' w w1 w2 (one_more stored rest) h =
    one_more stored (Clears-append s l l' (without s o w) w1 w2 rest h)

module _ {K : Type 0} (labels_of : K → Option StringMap) (s : Sesame) (ns : String) where
  -- The deletion under another name leaves what is found under a name.
  pub removed_elsewhere :
      (name other : String) (o : Option K) (t : Table K)
      → (other == name) ≡ false
      → removed labels_of s ns other o t ns name ≡ t ns name
  removed_elsewhere name other none t apart = refl
  removed_elsewhere name other (some x) t apart =
      elim (Bool-cases (exist (labels_of x) (owner_labels s))) [
        | inl owned ↦ rw (owned, ==_refl ns, apart) refl
        | inr foreign ↦ rw foreign refl
      ]

module _ {K : Type 0} (make : K → Object) (part : Part World K) (key : K → String × String)
    (labels_of : K → Option StringMap) (s : Sesame)
    (stored : (o : K) (w : World) → part.table w (key o).0 (key o).1 ≡ some o → Stored (make o) w)
    (left : (o : K) (w : World)
      → without s (make o) w ≡ (
          if exist (labels_of o) (owner_labels s)
          then over part (erase (key o).0 (key o).1) w
          else w))
    (ns name : String) where
  set_if :
      (b : Bool) (w : World)
      → part.set (if b then erase ns name (part.table w) else part.table w) w
        ≡ (if b then over part (erase ns name) w else w)
  set_if true w = refl
  set_if false w = part.unchanged w

  listed-Clears :
      (o : Option K) (w : World)
      → part.table w ns name ≡ o
      → ((x : K) → o ≡ some x → key x ≡ (ns, name))
      → Clears s (listed make o) w (part.set (removed labels_of s ns name o (part.table w)) w)
  listed-Clears none w found keyed = rw (part.unchanged w) no_more
  listed-Clears (some x) w found keyed =
      let same = keyed x refl in
      let after : without s (make x) w
          ≡ part.set (removed labels_of s ns name (some x) (part.table w)) w =
        left x w
        ∙ ap (λ p. if exist (labels_of x) (owner_labels s) then over part (erase p.0 p.1) w else w)
            same
        ∙ sym (set_if (exist (labels_of x) (owner_labels s)) w) in
      one_more (stored x w (ap (λ p. part.table w p.0 p.1) same ∙ found))
        (subst (λ y. Clears s [] (without s (make x) w) y) after no_more)

  -- The object of a name, where there is one, by what is known to be found.
  pub placed :
      (o : Option K) (w : World)
      → part.table w ns name ≡ o
      → ((x : K) → o ≡ some x → key x ≡ (ns, name))
      → Clears s (listed make o) w (over part (with_deleted labels_of s ns name) w)
  placed o w found keyed =
      subst (λ x. Clears s (listed make x) w (over part (with_deleted labels_of s ns name) w)) found
        (listed-Clears (part.table w ns name) w refl (λ x h. keyed x (sym found ∙ h)))

module _ (s : Sesame) where
  -- The tables without the access rules that carry the owner labels.
  abbrev pub rules_deleted : World → World
  rules_deleted w =
      let ns = s.spec.namespace.name in
      record w {
        role_bindings = with_deleted (λ o. o.labels) s ns sesame_rbac_name w.role_bindings;
        roles =
            with_deleted (λ o. o.labels) s ns cert_gen_rbac_name
              (with_deleted (λ o. o.labels) s ns sesame_rbac_name w.roles);
        service_accounts =
            with_deleted (λ o. o.labels) s ns cert_gen_rbac_name
              (with_deleted (λ o. o.labels) s ns envoy_rbac_name
                (with_deleted (λ o. o.labels) s ns sesame_rbac_name w.service_accounts));
        cluster_role_bindings =
            with_deleted (λ o. o.labels) s "" (namespaced_name s) w.cluster_role_bindings;
        cluster_roles = with_deleted (λ o. o.labels) s "" (namespaced_name s) w.cluster_roles;
      }

  abbrev pub accounts_listed : List String → World → List Object
  accounts_listed [] w = []
  accounts_listed (name ∷ names) w =
      listed service_account (w.service_accounts s.spec.namespace.name name)
      ++ accounts_listed names w

  abbrev pub here_listed : World → List Object
  here_listed w =
      let ns = s.spec.namespace.name in
      listed role_binding (w.role_bindings ns sesame_rbac_name)
      ++ listed role (w.roles ns sesame_rbac_name)
      ++ listed role (w.roles ns cert_gen_rbac_name)
      ++ accounts_listed account_names w

  abbrev pub everywhere_listed : World → List Object
  everywhere_listed w =
      listed cluster_role_binding (w.cluster_role_bindings "" (namespaced_name s))
      ++ listed cluster_role (w.cluster_roles "" (namespaced_name s))

module _ {C : Type 0} (cli : Client C) (kind_of : Object → String) (view : C → World)
    (store : IsClusterStore cli view) (s : Sesame) where
  found-Runs :
      {K : Type 0} {objects : Access C K} {key : K → String × String} {part : Part World K}
      (make : K → Object) (each : IsErasable objects key view part) (ns name : String) (c : C)
      (w : World)
      → view c ≡ w
      → Runs view
          (found_objects cli kind_of make (objects.get ns name))
          c
          (λ l. l ≡ listed make (part.table w ns name))
          w
  unfolding found_objects
  found-Runs {part = part} make each ns name c w seen =
      read-Runs each ns name _ _ c w w seen
        (λ e c' gone missing after.
          rw gone (pure-Runs view [] c' w (ap (λ o. listed make o) (sym missing)) after))
        (λ o c' found after.
          pure-Runs view (make o ∷ []) c' w (ap (λ x. listed make x) (sym found)) after)

  found_accounts-Runs :
      (names : List String) (c : C) (w : World)
      → view c ≡ w
      → Runs view
          (found_accounts cli kind_of s.spec.namespace.name names)
          c
          (λ l. l ≡ accounts_listed s names w)
          w
  unfolding found_accounts current_service_account
  found_accounts-Runs [] c w seen = pure-Runs view [] c w refl seen
  found_accounts-Runs (name ∷ names) c w seen =
      bind-Runs view _ _ c w w
        (found-Runs service_account store.service_accounts.erasable s.spec.namespace.name name c w
          seen)
        (λ one c1 same1 seen1.
          bind-Runs view _ _ c1 w w (found_accounts-Runs names c1 w seen1) (λ rest c2 same2 seen2.
            pure-Runs view (one ++ rest) c2 w (rw (same1, same2) refl) seen2))

  pub here-Runs :
      (c : C) (w : World)
      → view c ≡ w
      → Runs view (namespaced_objects cli kind_of s) c (λ l. l ≡ here_listed s w) w
  unfolding namespaced_objects current_role current_role_binding
  here-Runs c w seen =
      let ns = s.spec.namespace.name in
      bind-Runs view _ _ c w w
        (found-Runs role_binding store.role_bindings.erasable ns sesame_rbac_name c w seen)
        (λ a c1 e1 seen1.
          bind-Runs view _ _ c1 w w
            (found-Runs role store.roles.erasable ns sesame_rbac_name c1 w seen1)
            (λ b c2 e2 seen2.
              bind-Runs view _ _ c2 w w
                (found-Runs role store.roles.erasable ns cert_gen_rbac_name c2 w seen2)
                (λ d c3 e3 seen3.
                  bind-Runs view _ _ c3 w w (found_accounts-Runs account_names c3 w seen3)
                    (λ e c4 e4 seen4.
                      pure-Runs view (a ++ b ++ d ++ e) c4 w (rw (e1, e2, e3, e4) refl) seen4))))

  pub everywhere-Runs :
      (c : C) (w : World)
      → view c ≡ w
      → Runs view (cluster_objects cli kind_of s) c (λ l. l ≡ everywhere_listed s w) w
  unfolding cluster_objects current_cluster_role current_cluster_role_binding
  everywhere-Runs c w seen =
      bind-Runs view _ _ c w w
        (found-Runs cluster_role_binding store.cluster_role_bindings.erasable "" (namespaced_name s)
          c w seen)
        (λ a c1 e1 seen1.
          bind-Runs view _ _ c1 w w
            (found-Runs cluster_role store.cluster_roles.erasable "" (namespaced_name s) c1 w seen1)
            (λ b c2 e2 seen2. pure-Runs view (a ++ b) c2 w (rw (e1, e2) refl) seen2))
