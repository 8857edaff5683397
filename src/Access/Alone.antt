-- ===== src/Access/Alone.antt =====
-- `EnsureRBACDeleted` of internal/objects/rbac.go on a cluster that works as a store, for the only
-- sesame of the cluster.
use sesame_operator.Prelude.{String, false, List, [], ◌∷◌, ◌++◌, ◌≡◌, refl, sym, ap, ◌∙◌, ==_refl}
use mathlib.Core.Path.{subst}
use mathlib.Core.List.{append_assoc}
use sesame_operator.Api.{Sesame}
use sesame_operator.Kube.{ServiceAccount}
use sesame_operator.Cluster.{answer, Client, attempt, continue, ◌>>=◌, pure}
use sesame_operator.Sesames.{other_sesames_exist, other_sesames_exist_in_spec_ns, others_listed}
use sesame_operator.Owned.Tables.{over}
use sesame_operator.Owned.Deletes.{with_deleted}
use sesame_operator.Owned.Runs.{Runs, Leaves, bind-Runs, pure-Runs, wrapping-Runs}
use sesame_operator.Access.{sesame_rbac_name, envoy_rbac_name, cert_gen_rbac_name, namespaced_name}
use sesame_operator.Access.Rbac.{
  Object, role_binding, role, service_account, cluster_role_binding, cluster_role, account_names,
  ensure_rbac_deleted,
}
use sesame_operator.Access.Erased.{Clears, no_more, listed, cleared-Runs}
use sesame_operator.Access.Deletes.{
  accounts_listed, Clears-append, removed_elsewhere, placed, rules_deleted, here_listed,
  everywhere_listed, here-Runs, everywhere-Runs,
}
use sesame_operator.World.{
  World, IsClusterStore, account_part, cluster_role_part, cluster_role_binding_part, role_part,
  role_binding_part, account_key, cluster_role_key, cluster_role_binding_key, role_key,
  role_binding_key,
}

-- The client lists this sesame and no other, and the tables show nothing of that.
abbrev pub IsAlone : {C : Type 0} → Client C → (C → World) → Sesame → Type 0
IsAlone {C} cli view s =
    (c : C) → ((cli.list_sesames c).0 ≡ answer (s ∷ [])) × (view (cli.list_sesames c).1 ≡ view c)

module _ {C : Type 0} (cli : Client C) (view : C → World) (store : IsClusterStore cli view)
    (s : Sesame) where
  binding-Clears :
      (c : C)
      → Clears s
          (listed role_binding ((view c).role_bindings s.spec.namespace.name sesame_rbac_name))
          (view c)
          (over role_binding_part
            (with_deleted (λ o. o.labels) s s.spec.namespace.name sesame_rbac_name)
            (view c))
  binding-Clears c =
      placed role_binding role_binding_part role_binding_key (λ o. o.labels) s (λ o w h. h)
        (λ o w. refl) s.spec.namespace.name sesame_rbac_name _ (view c) refl
        (λ o h. store.role_bindings.erasable.keyed _ _ c o h)

  -- The tables behind the binding, where the roles are as before.
  roles-Clears :
      (c : C) (w : World)
      → w.roles ≡ (view c).roles
      → Clears s
          (listed role ((view c).roles s.spec.namespace.name sesame_rbac_name)
            ++ listed role ((view c).roles s.spec.namespace.name cert_gen_rbac_name))
          w
          (over role_part
            (with_deleted (λ o. o.labels) s s.spec.namespace.name cert_gen_rbac_name)
            (over role_part
              (with_deleted (λ o. o.labels) s s.spec.namespace.name sesame_rbac_name)
              w))
  roles-Clears c w same =
      let ns = s.spec.namespace.name in
      Clears-append s _ _ w _ _
        (placed role role_part role_key (λ o. o.labels) s (λ o w h. h) (λ o w. refl) ns
          sesame_rbac_name _ w (ap (λ t. t ns sesame_rbac_name) same)
          (λ o h. store.roles.erasable.keyed _ _ c o h))
        (placed role role_part role_key (λ o. o.labels) s (λ o w h. h) (λ o w. refl) ns
          cert_gen_rbac_name _ _
          (removed_elsewhere (λ o. o.labels) s ns cert_gen_rbac_name sesame_rbac_name _ w.roles refl
            ∙ ap (λ t. t ns cert_gen_rbac_name) same)
          (λ o h. store.roles.erasable.keyed _ _ c o h))

  account-Clears :
      (name : String) (c : C) (w : World)
      → w.service_accounts s.spec.namespace.name name
        ≡ (view c).service_accounts s.spec.namespace.name name
      → Clears s
          (listed service_account ((view c).service_accounts s.spec.namespace.name name))
          w
          (over account_part (with_deleted (λ o. o.labels) s s.spec.namespace.name name) w)
  account-Clears name c w same =
      placed service_account account_part account_key (λ o. o.labels) s (λ o w h. h) (λ o w. refl)
        s.spec.namespace.name name _ w same (λ o h. store.service_accounts.erasable.keyed _ _ c o h)

  accounts-Clears :
      (c : C) (w : World)
      → w.service_accounts ≡ (view c).service_accounts
      → Clears s
          (accounts_listed s account_names (view c))
          w
          (record w { service_accounts = (rules_deleted s w).service_accounts })
  accounts-Clears c w same =
      let ns = s.spec.namespace.name in
      let elsewhere = removed_elsewhere (λ (o : ServiceAccount). o.labels) s ns in
      let first = over account_part (with_deleted (λ o. o.labels) s ns sesame_rbac_name) w in
      let second = over account_part (with_deleted (λ o. o.labels) s ns envoy_rbac_name) first in
      Clears-append s _ _ w _ _
        (account-Clears sesame_rbac_name c w (ap (λ t. t ns sesame_rbac_name) same))
        (Clears-append s _ _ first _ _
          (account-Clears envoy_rbac_name c first (
            elsewhere envoy_rbac_name sesame_rbac_name _ w.service_accounts refl
            ∙ ap (λ t. t ns envoy_rbac_name) same))
          (Clears-append s _ _ second _ _
            (account-Clears cert_gen_rbac_name c second (
              elsewhere cert_gen_rbac_name envoy_rbac_name _ first.service_accounts refl
              ∙ elsewhere cert_gen_rbac_name sesame_rbac_name _ w.service_accounts refl
              ∙ ap (λ t. t ns cert_gen_rbac_name) same))
            no_more))

  everywhere-Clears :
      (c : C) (w : World)
      → w.cluster_role_bindings ≡ (view c).cluster_role_bindings
      → w.cluster_roles ≡ (view c).cluster_roles
      → Clears s (everywhere_listed s (view c)) w (record w {
        cluster_role_bindings = (rules_deleted s w).cluster_role_bindings;
        cluster_roles = (rules_deleted s w).cluster_roles;
      })
  everywhere-Clears c w same same' =
      let name = namespaced_name s in
      Clears-append s _ _ w _ _
        (placed cluster_role_binding cluster_role_binding_part cluster_role_binding_key
          (λ o. o.labels) s (λ o w h. h) (λ o w. refl) "" name _ w (ap (λ t. t "" name) same)
          (λ o h. store.cluster_role_bindings.erasable.keyed _ _ c o h))
        (placed cluster_role cluster_role_part cluster_role_key (λ o. o.labels) s (λ o w h. h)
          (λ o w. refl) "" name _ _ (ap (λ t. t "" name) same')
          (λ o h. store.cluster_roles.erasable.keyed _ _ c o h))

  all-Clears :
      (c : C)
      → Clears s
          (here_listed s (view c) ++ everywhere_listed s (view c))
          (view c)
          (rules_deleted s (view c))
  all-Clears c =
      let ns = s.spec.namespace.name in
      let w = view c in
      let deleted = rules_deleted s w in
      let first : World = record w { role_bindings = deleted.role_bindings } in
      let second : World = record first { roles = deleted.roles } in
      let third : World = record second { service_accounts = deleted.service_accounts } in
      let roles =
        Clears-append s _ _ w first second (binding-Clears c) (roles-Clears c first refl) in
      let assoc =
        append_assoc (listed role_binding (w.role_bindings ns sesame_rbac_name))
          (listed role (w.roles ns sesame_rbac_name))
          (listed role (w.roles ns cert_gen_rbac_name)) in
      Clears-append s _ _ w third deleted
        (Clears-append s _ _ w second third (subst (λ l. Clears s l w second) (sym assoc) roles)
          (accounts-Clears c second refl))
        (everywhere-Clears c third refl refl)

  module _ (kind_of : Object → String) (alone : IsAlone cli view s) where
    others-Runs :
        (c : C) (w : World)
        → view c ≡ w
        → Runs view (other_sesames_exist cli s) c (λ r. r.0 ≡ false) w
    unfolding other_sesames_exist others_listed attempt ◌>>=◌ continue pure
    others-Runs c w seen =
        let (listing, kept) = alone c in
        rw (listing, ==_refl s.name) ((false, []), refl, refl, kept ∙ seen)

    pub unshared-Runs :
        (c : C) (w : World)
        → view c ≡ w
        → Runs view (other_sesames_exist_in_spec_ns cli s) c (λ b. b ≡ false) w
    unfolding other_sesames_exist_in_spec_ns
    unshared-Runs c w seen =
        bind-Runs view _ _ c w w (others-Runs c w seen)
          (λ r c' none_found seen'. pure-Runs view _ c' w (rw none_found refl) seen')

    -- The objects that were found, of which the tables are `w`.
    found_all :
        (here everywhere : List Object) (c : C) (w : World)
        → view c ≡ w
        → here ≡ here_listed s w
        → everywhere ≡ everywhere_listed s w
        → Clears s (here ++ everywhere) w (rules_deleted s w)
    found_all here everywhere c w seen e e' =
        subst (λ l. Clears s (l ++ everywhere) w (rules_deleted s w)) (sym e)
          (subst (λ l. Clears s (here_listed s w ++ l) w (rules_deleted s w)) (sym e')
            (subst (λ x. Clears s (here_listed s x ++ everywhere_listed s x) x (rules_deleted s x))
              seen (all-Clears c)))

    pub ensure_rbac_deleted-Runs :
        (c : C) (w : World)
        → view c ≡ w
        → Leaves view (ensure_rbac_deleted cli kind_of s) c (rules_deleted s w)
    unfolding ensure_rbac_deleted
    ensure_rbac_deleted-Runs c w seen =
        bind-Runs view _ _ c w _ (wrapping-Runs view _ _ c w (unshared-Runs c w seen))
          (λ shared c1 e1 seen1. rw e1 (
            bind-Runs view _ _ c1 w _ (here-Runs cli kind_of view store s c1 w seen1)
              (λ here c2 e2 seen2.
                bind-Runs view _ _ c2 w _ (wrapping-Runs view _ _ c2 w (others-Runs c2 w seen2))
                  (λ others c3 e3 seen3. rw e3 (
                    bind-Runs view _ _ c3 w _ (everywhere-Runs cli kind_of view store s c3 w seen3)
                      (λ everywhere c4 e4 seen4.
                        cleared-Runs cli kind_of view store s (here ++ everywhere) c4 w
                          (rules_deleted s w) seen4 (found_all here everywhere c w seen e2 e4)))))))
