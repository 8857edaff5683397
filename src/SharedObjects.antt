-- ===== src/SharedObjects.antt =====
-- What the workloads share: internal/objects/object.go, internal/objects/sharedconfig/shared_config.go
-- and internal/config/config.go, and the texts that `fmt` and `path/filepath` make.
use Prim.Native.Nat.{◌/◌, ◌%◌}
use Prim.Native.String.{len}
use text.Mathlib.Text.{find?, get?}
use sesame_operator.Prelude.{
  ℕ, zero, suc, ◌+◌, String, Bool, true, false, [], ◌∷◌, Option, none, some, ltb, sprintf,
}
use sesame_operator.Kube.Pods.{PodSecurityContext, EnvVar}

abbrev pub envoy_insecure_container_port : ℕ
envoy_insecure_container_port = 8080

abbrev pub envoy_secure_container_port : ℕ
envoy_secure_container_port = 8443

abbrev pub default_sesame_image : String
default_sesame_image = "ghcr.io/projectsesame/sesame:main"

abbrev pub default_envoy_image : String
default_envoy_image = "docker.io/envoyproxy/envoy:v1.20.1"

-- `Config` of internal/config, and its defaults.
pub record OperatorConfig : Type 0 where
  pub sesame_image : String
  pub envoy_image : String
  pub metrics_bind_address : String
  pub leader_election : Bool
  pub leader_election_id : String

abbrev pub default_config : OperatorConfig
default_config = record {
  sesame_image = default_sesame_image;
  envoy_image = default_envoy_image;
  metrics_bind_address = ":8080";
  leader_election = false;
  leader_election_id = "0d879e31.projectsesame.io";
}

abbrev pub new_unprivileged_pod_security : PodSecurityContext
new_unprivileged_pod_security = record {
  run_as_user = some 65534;
  run_as_group = some 65534;
  run_as_non_root = some true;
}

-- What `strings.Split(s, ":")` has before the first colon, and what is behind it, if there is one.
abbrev before_colon : String → String
before_colon s = elim (find? s ":") [
  | none ↦ s
  | some i ↦ elim (get? s 0 i) [ none ↦ s | some piece ↦ piece ]
]

abbrev behind_colon : String → Option String
behind_colon s = elim (find? s ":") [ none ↦ none | some i ↦ get? s (i + 1) (len s) ]

-- The second piece of the split at the colons.
unfoldable pub tag_from_image : String → String
tag_from_image image = elim (behind_colon image) [ none ↦ "" | some rest ↦ before_colon rest ]

abbrev digit : ℕ → String
digit n = elim (get? "0123456789" n (n + 1)) [ none ↦ "" | some d ↦ d ]

-- The last `count` decimal digits of a number, without leading zeros.
last_digits : ℕ → ℕ → String
last_digits zero n = ""
last_digits (suc count) n = elim (ltb n 10) [
  | true ↦ digit n
  | false ↦ sprintf (last_digits count (n / 10) ∷ digit (n % 10) ∷ [])
]

-- `%d` of an int32 that is not negative: it has ten digits at most.
unfoldable pub decimal : ℕ → String
unfolding last_digits
decimal n = last_digits 10 n

-- `filepath.Join("/", dir)` and `filepath.Join("/", dir, file)` of plain names.
abbrev pub rooted : String → String
rooted dir = sprintf ("/" ∷ dir ∷ [])

abbrev pub rooted_file : String → String → String
rooted_file dir file = sprintf ("/" ∷ dir ∷ "/" ∷ file ∷ [])

-- An environment variable that holds a field of the pod.
abbrev pub field_env : String → String → EnvVar
field_env name path = record { name = name; api_version = "v1"; field_path = path }
