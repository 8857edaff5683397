-- ===== src/Access/Erased.antt =====
-- What the last loop of `EnsureRBACDeleted` of internal/objects/rbac.go makes of the access rules of a
-- cluster that works as a store, from the objects that were found.
use sesame_operator.Prelude.{
  String, true, List, [], ◌∷◌, Option, none, some, ◌≡◌, refl, sym, if◌then◌else◌, Bool-cases, inl,
  inr,
}
use sesame_operator.Api.{Sesame}
use sesame_operator.Labels.{exist, owner_labels}
use sesame_operator.Cluster.{Client, call, continue, ◌>>=◌, on_answer, pure}
use sesame_operator.Owned.Tables.{over, erase}
use sesame_operator.Owned.Runs.{Leaves, bind-Runs, pure-Runs}
use sesame_operator.Access.Rbac.{
  Object, role_binding, role, service_account, cluster_role_binding, cluster_role, object_labels,
  delete_object, delete_owned_object, delete_owned_objects,
}
use sesame_operator.World.{
  World, IsClusterStore, account_part, cluster_role_part, cluster_role_binding_part, role_part,
  role_binding_part,
}

-- The tables have the object.
abbrev pub Stored : Object → World → Type 0
Stored (role_binding o) w = w.role_bindings o.namespace o.name ≡ some o
Stored (role o) w = w.roles o.namespace o.name ≡ some o
Stored (service_account o) w = w.service_accounts o.namespace o.name ≡ some o
Stored (cluster_role_binding o) w = w.cluster_role_bindings "" o.name ≡ some o
Stored (cluster_role o) w = w.cluster_roles "" o.name ≡ some o

abbrev pub erase_object : Object → World → World
erase_object (role_binding o) w = over role_binding_part (erase o.namespace o.name) w
erase_object (role o) w = over role_part (erase o.namespace o.name) w
erase_object (service_account o) w = over account_part (erase o.namespace o.name) w
erase_object (cluster_role_binding o) w = over cluster_role_binding_part (erase "" o.name) w
erase_object (cluster_role o) w = over cluster_role_part (erase "" o.name) w

module _ (s : Sesame) where
  abbrev pub without : Object → World → World
  without o w = if exist (object_labels o) (owner_labels s) then erase_object o w else w

  -- In turn the tables have each of the objects, and lose those with the owner labels.
  pub data Clears : List Object → World → World → Type 0 where
    no_more : {w : World} → Clears [] w w
    one_more :
        {o : Object} {l : List Object} {w w' : World}
        → Stored o w
        → Clears l (without o w) w'
        → Clears (o ∷ l) w w'

abbrev pub listed : {K : Type 0} → (K → Object) → Option K → List Object
listed make none = []
listed make (some o) = make o ∷ []

module _ {C : Type 0} (cli : Client C) (kind_of : Object → String) (view : C → World)
    (store : IsClusterStore cli view) (s : Sesame) where
  erased-Runs :
      (o : Object) (c : C) (w : World)
      → view c ≡ w
      → Stored o w
      → exist (object_labels o) (owner_labels s) ≡ true
      → Leaves view (delete_owned_object cli kind_of s o) c (erase_object o w)
  unfolding delete_owned_object delete_object ◌>>=◌ call continue on_answer pure
  erased-Runs (role_binding o) c w seen stored owned =
      let (done, after) = store.role_bindings.erasable.deletes o o c (rw seen stored) in
      rw (owned, done) (tt, refl, tt, rw (sym seen) after)
  erased-Runs (role o) c w seen stored owned =
      let (done, after) = store.roles.erasable.deletes o o c (rw seen stored) in
      rw (owned, done) (tt, refl, tt, rw (sym seen) after)
  erased-Runs (service_account o) c w seen stored owned =
      let (done, after) = store.service_accounts.erasable.deletes o o c (rw seen stored) in
      rw (owned, done) (tt, refl, tt, rw (sym seen) after)
  erased-Runs (cluster_role_binding o) c w seen stored owned =
      let (done, after) = store.cluster_role_bindings.erasable.deletes o o c (rw seen stored) in
      rw (owned, done) (tt, refl, tt, rw (sym seen) after)
  erased-Runs (cluster_role o) c w seen stored owned =
      let (done, after) = store.cluster_roles.erasable.deletes o o c (rw seen stored) in
      rw (owned, done) (tt, refl, tt, rw (sym seen) after)

  without-Runs :
      (o : Object) (c : C) (w : World)
      → view c ≡ w
      → Stored o w
      → Leaves view (delete_owned_object cli kind_of s o) c (without s o w)
  unfolding delete_owned_object
  without-Runs o c w seen stored = elim (Bool-cases (exist (object_labels o) (owner_labels s))) [
    | inl owned ↦
        let left : without s o w ≡ erase_object o w = rw owned refl in
        rw left (erased-Runs o c w seen stored owned)
    | inr foreign ↦ rw foreign (pure-Runs view tt c w tt seen)
  ]

  pub cleared-Runs :
      (l : List Object) (c : C) (w w' : World)
      → view c ≡ w
      → Clears s l w w'
      → Leaves view (delete_owned_objects cli kind_of s l) c w'
  unfolding delete_owned_objects
  cleared-Runs [] c w w' seen no_more = pure-Runs view tt c w tt seen
  cleared-Runs (o ∷ l) c w w' seen (one_more stored rest) =
      bind-Runs view _ _ c (without s o w) _ (without-Runs o c w seen stored)
        (λ _ c' _ after. cleared-Runs l c' (without s o w) w' after rest)
