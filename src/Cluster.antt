-- ===== src/Cluster.antt =====
-- The API client (`client.Client` of controller-runtime) as an interface, and the monad of the code
-- that calls it. The state is the cluster, of which nothing is assumed: a call answers anything, and
-- may change the cluster in any way, so that other actors and failing calls are included.
pub mod Keeps
pub mod Yields
use sesame_operator.Prelude.{String, List, arith, ◌≡◌, ◌↔◌, Option, none, some}
use sesame_operator.Errors.{ClientError, Err, Result, ok, err, panic, unfinished}
use sesame_operator.Api.{Sesame}
use sesame_operator.Kube.{
  Namespace, Service, Deployment, DaemonSet, Job, ConfigMap, ServiceAccount, Role, RoleBinding,
  ClusterRole, ClusterRoleBinding,
}

pub data Answer (A : Type 0) : Type 0 where
  answer : A → Answer A
  failed : ClientError → Answer A

abbrev pub Request : Type 0 → Type 0 → Type 0
Request C A = C → Answer A × C

-- The calls on the objects of one kind: `Get` by namespace and name, and the writes. The namespace
-- of a kind that has none is the empty text.
pub record Access (C K : Type 0) : Type 0 where
  pub get : String → String → Request C K
  pub create : K → Request C Unit
  pub update : K → Request C Unit
  pub delete : K → Request C Unit

pub record Client (C : Type 0) : Type 0 where
  pub sesames : Access C Sesame
  pub list_sesames : Request C (List Sesame)
  pub update_status : Sesame → Request C Unit
  pub namespaces : Access C Namespace
  pub services : Access C Service
  pub deployments : Access C Deployment
  pub daemon_sets : Access C DaemonSet
  pub jobs : Access C Job
  pub config_maps : Access C ConfigMap
  pub service_accounts : Access C ServiceAccount
  pub roles : Access C Role
  pub role_bindings : Access C RoleBinding
  pub cluster_roles : Access C ClusterRole
  pub cluster_role_bindings : Access C ClusterRoleBinding

abbrev pub Exec : Type 0 → Type 0 → Type 0
Exec C A = C → Result A × C

module _ {A : Type 0} where
  -- The error of a step as a value. A panic goes on.
  abbrev pub caught : Result A → Result (Option Err)
  caught (ok a) = ok none
  caught (err e) = ok (some e)
  caught panic = panic
  caught unfinished = unfinished

  abbrev pub rewrap : (Err → Err) → Result A → Result A
  rewrap f (err e) = err (f e)
  rewrap f (ok a) = ok a
  rewrap f panic = panic
  rewrap f unfinished = unfinished

  -- The result of `if err := …; err != nil { return f(err) }` after a call.
  abbrev pub outcome : (ClientError → Err) → Answer A → Result A
  outcome f (answer a) = ok a
  outcome f (failed e) = err (f e)

  pub outcome-ok_iff :
      (f : ClientError → Err) (a : Answer A) (x : A) → (outcome f a ≡ ok x) ↔ (a ≡ answer x)
  outcome-ok_iff f (answer a) x = (λ h. ground arith, λ h. ground arith)
  outcome-ok_iff f (failed e) x = (λ h. cc, λ h. cc)

module _ {C A : Type 0} where
  -- A call whose error is returned as `f` makes it.
  unfoldable pub attempt : (ClientError → Err) → Request C A → Exec C A
  attempt f m c = let (a, c') = m c in (outcome f a, c')

  unfoldable pub lift : Result A → Exec C A
  lift r c = (r, c)

  unfoldable pub pure : A → Exec C A
  pure a c = (ok a, c)

  unfoldable pub fail : Err → Exec C A
  fail e c = (err e, c)

  unfoldable pub call : Request C A → Exec C (Answer A)
  call m c = let (a, c') = m c in (ok a, c')

  unfoldable pub try : Exec C A → Exec C (Option Err)
  try m c = let (r, c') = m c in (caught r, c')

module _ {C A B : Type 0} where
  unfoldable pub continue : Result A → (A → Exec C B) → Exec C B
  continue (ok a) f c = f a c
  continue (err e) f c = (err e, c)
  continue panic f c = (panic, c)
  continue unfinished f c = (unfinished, c)

  infixl 5 ◌>>=◌ ◌>>◌
  -- What is unfolded with it makes a whole block compute.
  unfoldable pub ◌>>=◌ : Exec C A → (A → Exec C B) → Exec C B
  unfolding continue lift pure fail call try attempt
  ◌>>=◌ m f c = let (r, c') = m c in continue r f c'

  abbrev pub ◌>>◌ : Exec C A → Exec C B → Exec C B
  m >> n = m >>= λ _. n

  -- The two ways on after a call of the client.
  unfoldable pub on_answer : (A → Exec C B) → (ClientError → Exec C B) → Answer A → Exec C B
  on_answer f g (answer a) = f a
  on_answer f g (failed e) = g e

-- `if err := m; err != nil { return fmt.Errorf(…, err) }`
module _ {C A : Type 0} where
  unfoldable pub wrapping : (Err → Err) → Exec C A → Exec C A
  wrapping f m c = let (r, c') = m c in (rewrap f r, c')

module _ {C A : Type 0} where
  -- A step that is taken only where there is something to do it with.
  unfoldable pub when_some : (A → Exec C Unit) → Option A → Exec C Unit
  unfolding pure
  when_some f none = pure tt
  when_some f (some a) = f a
