-- ===== src/Tests/Process.antt =====
-- The start of the process and the commands in pods at work.
use sesame_operator.Prelude.{ℕ, String, List, [], ◌∷◌, ◌++◌, Option, none, ◌≡◌, ◌↔◌, refl}
use sesame_operator.Errors.{Err, ok}
use sesame_operator.Cluster.{answer, Request, wrapping, ◌>>=◌}
use sesame_operator.SharedObjects.{default_config}
use sesame_operator.Parse.{image, string_in_pod_exec}
use sesame_operator.Parse.PodExec.{Executes, string_in_pod_exec_iff}
use sesame_operator.Operator.{Runtime, done, main}
use sesame_operator.Operator.Starts.{Watch, all_watches, IsLog, main_serves}

-- A cluster that keeps its watches, and a manager that runs until the signal.
abbrev runtime : Runtime (List Watch) Unit Unit Unit Unit
runtime = record {
  get_config_or_die = λ c. (ok tt, c);
  new_manager = λ rest o c. (ok tt, c);
  new_controller = λ name m cfg c. (ok tt, c);
  watch = λ k w h c. (ok tt, c ++ (w, h) ∷ []);
  new_rest_mapper = λ rest c. (ok tt, c);
  ended = λ m c. (done, c);
}

runtime-IsLog : IsLog runtime (λ c. c)
runtime-IsLog = record {
  configs = λ c. refl;
  managers = λ rest o c. refl;
  controllers = λ name m cfg c. refl;
  mappers = λ rest c. refl;
  ends = λ m c. refl;
  watches = λ k w h c e. refl;
}

-- Every name of an image is valid.
abbrev parse : String → Option Err
parse s = none

main_serves_example :
    (image parse "ghcr.io/projectsesame/sesame:main" ≡ ok tt)
    × (image parse "docker.io/envoyproxy/envoy:v1.20.1" ≡ ok tt)
    × ((main runtime parse default_config []).1 ≡ [] ++ all_watches)
unfolding main ◌>>=◌ wrapping
main_serves_example = main_serves runtime (λ c. c) runtime-IsLog parse default_config [] refl

-- kubectl is there, and each command puts out one text.
abbrev look_path : String → Request ℕ String
look_path name c = (answer "/usr/bin/kubectl", c)

abbrev output : String → List String → Request ℕ String
output cmd args c = (answer "404", c)

string_in_pod_exec_iff_example :
    ((string_in_pod_exec look_path output
        (λ s. s)
        (λ l. "")
        "default"
        "client"
        "200"
        ("curl" ∷ "local.projectsesame.io" ∷ [])
        7).0
      ≡ ok tt)
    ↔ Executes look_path output
        (λ s. s)
        (λ l. "")
        "default"
        "client"
        "200"
        ("curl" ∷ "local.projectsesame.io" ∷ [])
        7
string_in_pod_exec_iff_example =
    string_in_pod_exec_iff look_path output (λ s. s) (λ l. "") "default" "client" "200"
      ("curl" ∷ "local.projectsesame.io" ∷ []) 7
