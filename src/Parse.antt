-- ===== src/Parse.antt =====
-- internal/parse/parse.go: names of images, and commands that the end-to-end tests run in a pod.
pub mod PodExec
use text.Mathlib.Text.{find?, starts_with}
use sesame_operator.Prelude.{
  String, Bool, true, false, List, [], ◌∷◌, Option, none, some, sprintf, ◌||◌, if◌then◌else◌,
}
use sesame_operator.Errors.{Err, Result, ok, err, message, client, wrap}
use sesame_operator.Cluster.{Request, Exec, pure, fail, call, ◌>>=◌, on_answer}

-- `Image`, where `parse` is `reference.Parse`, of which only the error is used.
unfoldable pub image : (String → Option Err) → String → Result Unit
image parse s = elim (parse s) [
  | none ↦ ok tt
  | some e ↦ err (wrap (sprintf ("failed to parse s " ∷ s ∷ [])) e)
]

-- `strings.Contains`
abbrev contains : String → String → Bool
contains s piece = elim (find? s piece) [ none ↦ false | some i ↦ true ]

-- The first argument that is refused.
unfoldable pub invalid_argument : List String → Option String
invalid_argument [] = none
invalid_argument (arg ∷ args) =
    let rest = invalid_argument args in
    if starts_with arg "/" || starts_with arg "." then some arg else rest

-- The arguments of kubectl.
abbrev pub exec_args : String → String → List String → List String
exec_args ns name cmd = "exec" ∷ name ∷ sprintf ("--namespace=" ∷ ns ∷ []) ∷ "--" ∷ cmd

-- `output` runs a command, and `look_path` finds one. Their errors are taken by their texts. `quoted`
-- and `all_quoted` are the verb `%q` of fmt.
module _ {C : Type 0} (look_path : String → Request C String)
    (output : String → List String → Request C String) (quoted : String → String)
    (all_quoted : List String → String) where
  -- `runCmd` after its loop over the arguments.
  unfoldable pub run_checked : String → List String → Option String → Exec C String
  run_checked cmd args (some arg) = fail (message (sprintf ("invalid argument " ∷ quoted arg ∷ [])))
  run_checked cmd args none = do
    result ← call (output cmd args)
    on_answer pure
        (λ e. fail (
          message (
            sprintf (
              "failed to run command "
              ∷ quoted cmd
              ∷ " with args "
              ∷ all_quoted args
              ∷ ": "
              ∷ e.text
              ∷ []))))
        result

  unfoldable pub run_cmd : String → List String → Exec C String
  unfolding run_checked invalid_argument
  run_cmd cmd args = run_checked cmd args (invalid_argument args)

  unfoldable pub look_for_string : String → List String → String → Exec C Bool
  unfolding run_cmd
  look_for_string cmd args expected_string = do
    result ← run_cmd cmd args
    pure (contains result expected_string)

  unfoldable pub string_in_pod_exec : String → String → String → List String → Exec C Unit
  unfolding look_for_string
  string_in_pod_exec ns name expected_string cmd = do
    cmd_path ← call (look_path "kubectl")
    on_answer
        (λ path. do found ← look_for_string path (exec_args ns name cmd) expected_string; pure tt)
        (λ e. fail (client e)) cmd_path
