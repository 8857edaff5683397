-- ===== src/Namespaces.antt =====
-- internal/objects/namespace/namespace.go: the namespace of a sesame's resources.
pub mod Safety
pub mod Refines
use sesame_operator.Prelude.{
  String, Bool, true, false, not, ◌||◌, List, [], ◌∷◌, some, sprintf, ◌==◌, if◌then◌else◌,
}
use sesame_operator.Errors.{client, wrap}
use sesame_operator.Api.{Sesame}
use sesame_operator.Kube.{Namespace}
use sesame_operator.Labels.{exist, owner_labels}
use sesame_operator.Sesames.{other_sesames_exist_in_spec_ns}
use sesame_operator.Equality.{Semantic, namespace_config_changed}
use sesame_operator.Cluster.{
  Request, Exec, Client, pure, fail, call, attempt, ◌>>=◌, on_answer, wrapping, when_some,
}

abbrev pub namespace_core_list : List String
namespace_core_list = "sesame-operator" ∷ "default" ∷ "kube-system" ∷ []

-- The loop over `namespaceCoreList`.
unfoldable pub is_core : String → List String → Bool
is_core name [] = false
is_core name (ns ∷ rest) = name == ns || is_core name rest

unfoldable pub desired_namespace : Sesame → Namespace
unfolding owner_labels
desired_namespace s = record {
  name = s.spec.namespace.name;
  labels = some (owner_labels s);
  resource_version = "";
}

module _ {C : Type 0} (cli : Client C) where
  -- A namespace has no namespace of its own.
  unfoldable pub current_spec_ns_name : String → Request C Namespace
  current_spec_ns_name name = cli.namespaces.get "" name

  unfoldable pub create_namespace : Namespace → Exec C Unit
  create_namespace ns =
      attempt (λ e. wrap (sprintf ("failed to create namespace " ∷ ns.name ∷ [])) (client e))
        (cli.namespaces.create ns)

  unfoldable pub update_namespace_if_needed :
      Semantic → Sesame → Namespace → Namespace → Exec C Unit
  unfolding exist owner_labels namespace_config_changed
  update_namespace_if_needed eq s current desired =
      if exist current.labels (owner_labels s)
      then when_some
          (λ ns.
            attempt (λ e. wrap (sprintf ("failed to update namespace " ∷ ns.name ∷ [])) (client e))
              (cli.namespaces.update ns))
          (namespace_config_changed eq current desired)
      else pure tt

  unfoldable pub ensure_namespace : Semantic → Sesame → Exec C Unit
  unfolding current_spec_ns_name
  ensure_namespace eq s = do
    let desired = desired_namespace s
    found ← call (current_spec_ns_name s.spec.namespace.name)
    on_answer
        (λ current.
          wrapping (wrap (sprintf ("failed to update namespace " ∷ desired.name ∷ [])))
            (update_namespace_if_needed eq s current desired))
        (λ e.
          if e.is_not_found
          then create_namespace desired
          else fail (wrap (sprintf ("failed to get namespace " ∷ desired.name ∷ [])) (client e)))
        found

  -- The last part of `EnsureNamespaceDeleted`: the deletion of a namespace that was found.
  unfoldable pub delete_namespace : Sesame → Namespace → Exec C Bool
  unfolding exist owner_labels
  delete_namespace s ns =
      if exist ns.labels (owner_labels s)
      then (do
        shared ←
            wrapping
              (wrap (
                sprintf
                  ("failed to verify if Sesames exist in namespace " ∷ s.spec.namespace.name ∷ [])))
              (other_sesames_exist_in_spec_ns cli s)
        if shared then pure true else do
          deleted ← call (cli.namespaces.delete ns)
          on_answer (λ _. pure true)
              (λ e.
                if e.is_not_found
                then pure true
                else fail
                    (wrap (sprintf ("failed to delete namespace " ∷ ns.name ∷ [])) (client e)))
              deleted)
      else pure true

  -- The code returns whether a deletion was expected beside the error, and it is true beside every
  -- error; so an error here stands for the pair of true and that error.
  unfoldable pub ensure_namespace_deleted : Sesame → Exec C Bool
  unfolding is_core current_spec_ns_name
  ensure_namespace_deleted s =
      if not s.spec.namespace.remove_on_deletion
        || is_core s.spec.namespace.name namespace_core_list
      then pure false
      else do
        found ← call (current_spec_ns_name s.spec.namespace.name)
        on_answer (delete_namespace s) (λ e. if e.is_not_found then pure true else fail (client e))
            found
