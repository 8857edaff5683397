-- ===== src/Parse/PodExec.antt =====
-- What `StringInPodExec` of internal/parse/parse.go says of a command.
use sesame_operator.Prelude.{String, List, Option, none, some, ◌≡◌, ◌↔◌, refl}
use sesame_operator.Errors.{client, ok}
use sesame_operator.Cluster.{
  Answer, answer, failed, Request, Exec, pure, fail, lift, call, continue, ◌>>=◌, on_answer,
}
use sesame_operator.Parse.{
  invalid_argument, run_cmd, run_checked, look_for_string, exec_args, string_in_pod_exec,
}

module _ {C : Type 0} (look_path : String → Request C String)
    (output : String → List String → Request C String) (quoted : String → String)
    (all_quoted : List String → String) (ns name expected_string : String) (cmd : List String) where
  -- kubectl is found, none of its arguments is refused, and it runs.
  abbrev pub Executes : C → Type 0
  Executes c =
      (path : String) × ((look_path "kubectl" c).0 ≡ answer path)
      × (invalid_argument (exec_args ns name cmd) ≡ none)
      × (text : String) × ((output path (exec_args ns name cmd) (look_path "kubectl" c).1).0
          ≡ answer text)

  -- The search of the output, and what is made of it.
  abbrev search_in : List String → String → Exec C Unit
  search_in args path =
      look_for_string look_path output quoted all_quoted path args expected_string >>= λ found.
      pure tt

  answered :
      (args : List String) (path : String) (c : C) (invalid : Option String) (a : Answer String)
      → invalid_argument args ≡ invalid
      → (output path args c).0 ≡ a
      → ((search_in args path c).0 ≡ ok tt)
        ↔ ((invalid ≡ none) × (text : String) × (a ≡ answer text))
  unfolding look_for_string run_cmd run_checked ◌>>=◌ call continue on_answer pure fail lift
  answered args path c (some arg) a refused ran = rw refused (λ h. cc, λ h. cc)
  answered args path c none (answer text) refused ran =
      rw (refused, ran) (λ h. (refl, text, refl), λ h. refl)
  answered args path c none (failed e) refused ran =
      rw (refused, ran) (λ h. cc, λ (same, text, h). cc)

  looked_up :
      (a : Answer String) (c : C)
      → ((on_answer (search_in (exec_args ns name cmd)) (λ e. fail (client e)) a c).0 ≡ ok tt) ↔ (
          (path : String) × (a ≡ answer path)
          × ((search_in (exec_args ns name cmd) path c).0 ≡ ok tt))
  unfolding on_answer fail lift
  looked_up (answer path) c = (λ h. (path, refl, h), λ (path', same, h). cc)
  looked_up (failed e) c = (λ h. cc, λ (path', same, h). cc)

  -- Whatever text is expected, `StringInPodExec` returns no error exactly if kubectl is found, none of
  -- its arguments starts with a slash or a dot, and it runs: what the command puts out does not matter.
  pub string_in_pod_exec_iff :
      (c : C)
      → ((string_in_pod_exec look_path output quoted all_quoted ns name expected_string cmd c).0
          ≡ ok tt)
        ↔ Executes c
  unfolding string_in_pod_exec ◌>>=◌ call continue
  string_in_pod_exec_iff c =
      let args = exec_args ns name cmd in
      let c' = (look_path "kubectl" c).1 in
      let found = looked_up (look_path "kubectl" c).0 c' in
      (
        λ h.
            let (path, same, h') = found.0 h in
            let (allowed, text, ran) = (answered args path c' _ _ refl refl).0 h' in
            (path, same, allowed, text, ran),
        λ (path, same, allowed, text, ran).
            found.1 (path, same, (answered args path c' _ _ refl refl).1 (allowed, text, ran)),
      )
