-- ===== src/ConfigMaps/Refines.antt =====
-- `EnsureConfigMap` of internal/objects/configmap/configmap.go on a cluster that works as a store.
use sesame_operator.Prelude.{◌≡◌, refl, ap, ◌∙◌}
use sesame_operator.Api.{Sesame}
use sesame_operator.Kube.{ConfigMap}
use sesame_operator.Cluster.{Client}
use sesame_operator.Equality.{Semantic}
use sesame_operator.Equality.Settles.{the_answer}
use sesame_operator.Equality.Objects.{cfg_map_changed}
use sesame_operator.Owned.Tables.{Table, KeepsKey, over}
use sesame_operator.Owned.Runs.{Leaves, wrapping-Runs, bind-Runs, pure-Runs}
use sesame_operator.Owned.Refines.{
  with_written, on_current-Runs, create_object-Runs, update_object_if_needed-Runs,
}
use sesame_operator.Owned.Settles.{Settling, store_settles}
use sesame_operator.World.{World, IsClusterStore, config_map_key, config_map_part}
use sesame_operator.ConfigMaps.{
  config_for_sesame, desired_config_map, config_maps, current_config_map, ensure_config_map,
}

module _ (eq : Semantic) where
  config_map-KeepsKey : KeepsKey config_map_key (cfg_map_changed eq)
  unfolding cfg_map_changed
  config_map-KeepsKey a b u h same = ap config_map_key (the_answer _ _ h) ∙ same

  config_map-Settling : (b : ConfigMap) → Settling (cfg_map_changed eq) b
  unfolding cfg_map_changed
  config_map-Settling b = record {
    same = rw (eq.string_map.equal_refl b.contents) refl;
    answered = λ a u h. rw (the_answer _ _ h, eq.string_map.equal_refl b.contents) refl;
  }

module _ {C : Type 0} (cli : Client C) (eq : Semantic) where
  abbrev pub with_config_map : Sesame → Table ConfigMap → Table ConfigMap
  with_config_map s =
      with_written (config_maps cli eq) config_map_key s (desired_config_map (config_for_sesame s))

module _ {C : Type 0} (cli : Client C) (eq : Semantic) (view : C → World)
    (store : IsClusterStore cli view) (s : Sesame) where
  pub ensure_config_map-Runs :
      (c : C) (w : World)
      → view c ≡ w
      → Leaves view
          (ensure_config_map cli eq s)
          c
          (over config_map_part (with_config_map cli eq s) w)
  unfolding ensure_config_map current_config_map desired_config_map config_for_sesame
  ensure_config_map-Runs c w seen =
      let desired = desired_config_map (config_for_sesame s) in
      on_current-Runs (config_maps cli eq) config_map_key view config_map_part store.config_maps s
        desired _ _ c w _ seen
        (λ c' missing after.
          create_object-Runs (config_maps cli eq) config_map_key view config_map_part
            store.config_maps s desired c' w after missing)
        (λ current c' found after.
          bind-Runs view _ _ c' _ _
            (wrapping-Runs view _ _ c' _ (
              update_object_if_needed-Runs (config_maps cli eq) config_map_key view config_map_part
                store.config_maps s desired (config_map-KeepsKey eq) current c' w after found))
            (λ _ c'' _ end. pure-Runs view tt c'' _ tt end))

  pub with_config_map_twice :
      (c : C)
      → with_config_map cli eq s (with_config_map cli eq s (view c).config_maps)
        ≡ with_config_map cli eq s (view c).config_maps
  unfolding desired_config_map config_for_sesame
  with_config_map_twice c =
      store_settles (config_maps cli eq) config_map_key view config_map_part store.config_maps s
        (desired_config_map (config_for_sesame s)) (config_map-Settling eq _)
        (config_map-KeepsKey eq) c
