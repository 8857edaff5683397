-- ===== src/Access/Refines.antt =====
-- The access rules of a cluster that works as a store: what a run of `EnsureRBAC` makes of them.
use sesame_operator.Prelude.{
  String, List, [], ◌∷◌, ◌≡◌, refl, sym, ◌==◌, if◌then◌else◌, Bool-cases, inl, inr,
}
use sesame_operator.Errors.{ok}
use sesame_operator.Api.{Sesame}
use sesame_operator.Kube.{ServiceAccount}
use sesame_operator.Cluster.{Client}
use sesame_operator.Equality.{Semantic}
use sesame_operator.Access.{cert_gen_rbac_name}
use sesame_operator.Access.Rbac.{account_names, no_account, ensure_accounts, ensure_rbac}
use sesame_operator.Access.Rules.{with_account, with_accounts, rules_after}
use sesame_operator.World.{World, IsClusterStore, account_part}
use sesame_operator.Owned.Tables.{over}
use sesame_operator.Owned.Runs.{Runs, Leaves, wrapping-Runs, bind-Runs, pure-Runs}
use sesame_operator.Access.Runs.{
  account-Runs, cluster_role-Runs, cluster_role_binding-Runs, role-Runs, role_binding-Runs,
}

module _ {C : Type 0} (cli : Client C) (eq : Semantic) (view : C → World)
    (store : IsClusterStore cli view) (s : Sesame) where
  -- The name of the account that `certSvcAct` holds after the loop.
  abbrev cert_name : List String → String → String
  cert_name [] held = held
  cert_name (name ∷ names) held =
      cert_name names (if name == cert_gen_rbac_name then name else held)

  kept_name :
      (svc_act cert : ServiceAccount) (name held : String)
      → svc_act.name ≡ name
      → cert.name ≡ held
      → (if svc_act.name == cert_gen_rbac_name then svc_act else cert).name
        ≡ (if name == cert_gen_rbac_name then name else held)
  kept_name svc_act cert name held named same =
      elim (Bool-cases (svc_act.name == cert_gen_rbac_name)) [
        | inl e ↦ rw (sym named, e) refl
        | inr e ↦ rw (sym named, e) same
      ]

  accounts-Runs :
      (names : List String) (cert : ServiceAccount) (held : String) (c : C) (w : World)
      → cert.name ≡ held
      → view c ≡ w
      → Runs view
          (ensure_accounts cli eq s names cert)
          c
          (λ o. o.name ≡ cert_name names held)
          (over account_part (with_accounts cli eq s names) w)
  unfolding ensure_accounts
  accounts-Runs [] cert held c w same seen = pure-Runs view cert c w same seen
  accounts-Runs (name ∷ names) cert held c w same seen =
      bind-Runs view _ _ c (over account_part (with_account cli eq s name) w) _
        (wrapping-Runs view _ _ c _ (account-Runs cli eq view store s name c w seen))
        (λ svc_act c' named seen'.
          accounts-Runs names _ _ c' _ (kept_name svc_act cert name held named same) seen')

  -- The run for the access rules from tables `w`.
  pub ensure_rbac-Runs :
      (c : C) (w : World)
      → view c ≡ w
      → Leaves view (ensure_rbac cli eq s) c (rules_after cli eq s w)
  unfolding ensure_rbac
  ensure_rbac-Runs c w seen =
      bind-Runs view _ _ c _ _ (accounts-Runs account_names no_account "" c _ refl seen)
        (λ cert c1 named1 seen1.
          bind-Runs view _ _ c1 _ _
            (wrapping-Runs view _ _ c1 _ (cluster_role-Runs cli eq view store s c1 _ seen1))
            (λ cr c2 named2 seen2.
              bind-Runs view _ _ c2 _ _
                (wrapping-Runs view _ _ c2 _
                  (cluster_role_binding-Runs cli eq view store s cr.name c2 _ named2 seen2))
                (λ _ c3 _ seen3.
                  bind-Runs view _ _ c3 _ _
                    (wrapping-Runs view _ _ c3 _ (role-Runs cli eq view store s c3 _ seen3))
                    (λ cert_role c4 named4 seen4. wrapping-Runs view _ _ c4 _ (
                      role_binding-Runs cli eq view store s cert.name cert_role.name c4 _ named1
                        named4 seen4)))))

  -- On a cluster that works as a store, `EnsureRBAC` returns no error, and leaves the tables that
  -- `rules_after` says: each of the three service accounts, the cluster role, its binding, the role,
  -- and its binding is created where there is none, rewritten where it carries the owner labels and
  -- differs, and else left as it is, and so is all else; the bindings lead to the cluster role, the
  -- role and the accounts of these names.
  pub ensure_rbac-Refines :
      (c : C)
      → ((ensure_rbac cli eq s c).0 ≡ ok tt)
        × (view (ensure_rbac cli eq s c).1 ≡ rules_after cli eq s (view c))
  ensure_rbac-Refines c = let (_, h, _, seen) = ensure_rbac-Runs c (view c) refl in (h, seen)
