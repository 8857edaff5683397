-- ===== src/Owned/Confined.antt =====
-- What a program for one sesame may do to the whole cluster, and a property of it still holds.
use sesame_operator.Prelude.{String, List}
use sesame_operator.Api.{Sesame}
use sesame_operator.Cluster.{Client}
use sesame_operator.Cluster.Keeps.{Harmless}
use sesame_operator.Owned.{Guards}

-- It may list the sesames, read every object, and create, update and delete those objects that carry
-- the owner labels of `s`. Of the sesames themselves, it may write every status, and the finalizers
-- of `s`.
pub record Confined {C : Type 0} (P : C → Type 0) (s : Sesame) (cli : Client C) : Type 0 where
  pub lists : Harmless P cli.list_sesames
  pub sesames : (ns name : String) → Harmless P (cli.sesames.get ns name)
  pub statuses : (o : Sesame) → Harmless P (cli.update_status o)
  pub finalizers :
      (fs : List String) → Harmless P (cli.sesames.update (record s { finalizers = fs }))
  pub namespaces : Guards P (λ o. o.labels) s cli.namespaces
  pub services : Guards P (λ o. o.labels) s cli.services
  pub deployments : Guards P (λ o. o.labels) s cli.deployments
  pub daemon_sets : Guards P (λ o. o.labels) s cli.daemon_sets
  pub jobs : Guards P (λ o. o.labels) s cli.jobs
  pub config_maps : Guards P (λ o. o.labels) s cli.config_maps
  pub service_accounts : Guards P (λ o. o.labels) s cli.service_accounts
  pub roles : Guards P (λ o. o.labels) s cli.roles
  pub role_bindings : Guards P (λ o. o.labels) s cli.role_bindings
  pub cluster_roles : Guards P (λ o. o.labels) s cli.cluster_roles
  pub cluster_role_bindings : Guards P (λ o. o.labels) s cli.cluster_role_bindings
