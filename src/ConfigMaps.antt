-- ===== src/ConfigMaps.antt =====
-- internal/objects/configmap/configmap.go: the config map with the configuration of Sesame.
pub mod Template
pub mod Refines
use sesame_operator.Prelude.{String, Bool, false, [], ◌∷◌, Option, none, some, StringMap}
use sesame_operator.Api.{Sesame}
use sesame_operator.Kube.{ConfigMap}
use sesame_operator.Labels.{owner_labels, Owned, owner_labels-Owned}
use sesame_operator.Cluster.{Request, Exec, Client, pure, ◌>>=◌, ◌>>◌, wrapping}
use sesame_operator.Cluster.Keeps.{Keeps, Keeps-bind, Keeps-pure, Keeps-wrapping}
use sesame_operator.Owned.{Guards, delete_owned, delete_owned-Keeps}
use sesame_operator.Owned.Ensure.{
  Kind, titled, failed_to, on_current, create_object, update_object_if_needed, on_current-Keeps,
  create_object-Keeps, update_object_if_needed-Keeps,
}
use sesame_operator.Equality.{Semantic}
use sesame_operator.Equality.Objects.{cfg_map_changed}
use sesame_operator.Equality.Owners.{cfg_map_changed-KeepsOwner}
use Template.{SesameConfig, sesame_config_map_template}

abbrev pub sesame_config_map_name : String
sesame_config_map_name = "sesame"

pub record ConfigMapParams : Type 0 where
  pub namespace : String
  pub name : String
  pub labels : StringMap
  pub sesame : SesameConfig

-- `*p`, or the zero value of its type where `p` is nil.
abbrev text_or_empty : Option String → String
text_or_empty none = ""
text_or_empty (some t) = t

abbrev bool_or_false : Option Bool → Bool
bool_or_false none = false
bool_or_false (some b) = b

unfoldable pub config_for_sesame : Sesame → ConfigMapParams
unfolding owner_labels
config_for_sesame s = record {
  namespace = s.spec.namespace.name;
  name = sesame_config_map_name;
  labels = owner_labels s;
  sesame = record {
    gateway_controller_name = text_or_empty s.spec.gateway_controller_name;
    enable_external_name_service = bool_or_false s.spec.enable_external_name_service;
  };
}

unfoldable pub desired_config_map : ConfigMapParams → ConfigMap
unfolding sesame_config_map_template
desired_config_map cfg = record {
  namespace = cfg.namespace;
  name = cfg.name;
  labels = some cfg.labels;
  contents = ("sesame.yaml", sesame_config_map_template cfg.sesame) ∷ [];
}

module _ {C : Type 0} (cli : Client C) where
  unfoldable pub current_config_map : ConfigMapParams → Request C ConfigMap
  current_config_map cfg = cli.config_maps.get cfg.namespace cfg.name

  -- `cfg.Labels` are the owner labels.
  unfoldable pub ensure_config_map_deleted : Sesame → Exec C Unit
  unfolding delete_owned current_config_map config_for_sesame
  ensure_config_map_deleted s =
      delete_owned (λ m. m.labels) cli.config_maps s (current_config_map (config_for_sesame s))

module _ {C : Type 0} (cli : Client C) (eq : Semantic) where
  abbrev pub config_maps : Kind C ConfigMap
  config_maps = record {
    access = cli.config_maps;
    labels_of = λ m. m.labels;
    changed = cfg_map_changed eq;
    title = λ m. titled "configmap" m.namespace m.name;
    update_title = λ m. "configmap";
  }

  unfoldable pub ensure_config_map : Sesame → Exec C Unit
  unfolding on_current create_object update_object_if_needed current_config_map config_for_sesame
      desired_config_map
  ensure_config_map s =
      let cfg = config_for_sesame s in
      let desired = desired_config_map cfg in
      on_current config_maps (current_config_map cli cfg) desired
        (λ current. do
          wrapping (failed_to "update" (titled "configmap" desired.namespace desired.name))
              (update_object_if_needed config_maps s current desired)
          pure tt)
        (create_object config_maps desired)

module _ {C : Type 0} (cli : Client C) (s : Sesame) {P : C → Type 0}
    (g : Guards P (λ o. o.labels) s cli.config_maps) where
  desired_config_map-Owned : Owned s (desired_config_map (config_for_sesame s)).labels
  unfolding desired_config_map config_for_sesame
  desired_config_map-Owned = owner_labels-Owned s

  -- Whatever the run for the config map meets, it keeps each property that reads of config maps, and
  -- writes of those with the owner labels of the sesame, keep.
  pub ensure_config_map-Keeps : (eq : Semantic) → Keeps P (ensure_config_map cli eq s)
  unfolding ensure_config_map current_config_map
  ensure_config_map-Keeps eq =
      let desired = desired_config_map (config_for_sesame s) in
      on_current-Keeps (config_maps cli eq) _ desired _ _ (g.reads _ _)
        (λ current.
          Keeps-bind _ _
            (Keeps-wrapping _ (
              update_object_if_needed-Keeps (config_maps cli eq) g (cfg_map_changed-KeepsOwner eq)
                current desired desired_config_map-Owned))
            (λ _. Keeps-pure tt))
        (create_object-Keeps (config_maps cli eq) g desired desired_config_map-Owned)

  pub ensure_config_map_deleted-Keeps : Keeps P (ensure_config_map_deleted cli s)
  unfolding ensure_config_map_deleted current_config_map
  ensure_config_map_deleted-Keeps =
      delete_owned-Keeps (λ m. m.labels) cli.config_maps s g _ (g.reads _ _)
