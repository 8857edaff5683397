-- ===== src/Operator/Starts.antt =====
-- What the process of cmd/sesame-operator.go has done when it ends.
use sesame_operator.Prelude.{arith, String, List, [], ◌∷◌, ◌++◌, Option, ◌≡◌, refl, sym, ◌∙◌, ap}
use mathlib.Core.List.{append-nil, append_assoc}
use sesame_operator.Errors.{Err, Result, ok, err, panic, unfinished}
use sesame_operator.Cluster.{Exec, lift, pure, continue, ◌>>=◌, wrapping, rewrap}
use sesame_operator.SharedObjects.{OperatorConfig, default_config}
use sesame_operator.Controller.{Config}
use sesame_operator.Parse.{image}
use sesame_operator.Operator.{
  ManagerOptions, Watched, sesames, deployments, daemon_sets, Handler, enqueue_object,
  enqueue_owning_sesame, Runtime, new_controller, new_operator, start, check_images, run_operator,
  exit_code, main,
}

rewrap-returns : {A : Type 0} (f : Err → Err) (r : Result A) (a : A) → rewrap f r ≡ ok a → r ≡ ok a
rewrap-returns f (ok x) a h = h
rewrap-returns f (err e) a h = cc
rewrap-returns f panic a h = cc
rewrap-returns f unfinished a h = cc

exit-zero : (r : Result Unit) → exit_code r ≡ ok 0 → r ≡ ok tt
unfolding exit_code
exit-zero (ok _) h = refl
exit-zero (err e) h = ground arith
exit-zero panic h = cc
exit-zero unfinished h = cc

images_checked :
    (r rest : Result Unit)
    → elim r [ ok _ ↦ rest | err e ↦ err e | panic ↦ panic | unfinished ↦ unfinished ] ≡ ok tt
    → (r ≡ ok tt) × (rest ≡ ok tt)
images_checked (ok _) rest h = (refl, h)
images_checked (err e) rest h = cc
images_checked panic rest h = cc
images_checked unfinished rest h = cc

-- The watches that are started.
abbrev pub Watch : Type 0
Watch = Watched × Handler

abbrev pub all_watches : List Watch
all_watches =
    (sesames, enqueue_object)
    ∷ (deployments, enqueue_owning_sesame)
    ∷ (daemon_sets, enqueue_owning_sesame)
    ∷ []

module _ {C Rest Manager Controller Mapper : Type 0}
    (runtime : Runtime C Rest Manager Controller Mapper) (log : C → List Watch) where
  -- `log` has the watches in their order, and the other calls leave it.
  pub record IsLog : Type 0 where
    pub configs : (c : C) → log (runtime.get_config_or_die c).1 ≡ log c
    pub managers :
        (rest : Rest) (o : ManagerOptions) (c : C) → log (runtime.new_manager rest o c).1 ≡ log c
    pub controllers :
        (name : String) (m : Manager) (cfg : Config) (c : C)
        → log (runtime.new_controller name m cfg c).1 ≡ log c
    pub mappers : (rest : Rest) (c : C) → log (runtime.new_rest_mapper rest c).1 ≡ log c
    pub ends : (m : Manager) (c : C) → log (runtime.ended m c).1 ≡ log c
    pub watches :
        (k : Controller) (w : Watched) (h : Handler) (c : C)
        → (runtime.watch k w h c).0 ≡ ok tt
        → log (runtime.watch k w h c).1 ≡ log c ++ (w, h) ∷ []

module _ {C : Type 0} (log : C → List Watch) where
  -- Where the program returns, it has added `ws`.
  record Adds {A : Type 0} (ws : List Watch) (m : Exec C A) : Type 0 where
    added : (c : C) (a : A) → (m c).0 ≡ ok a → log (m c).1 ≡ log c ++ ws

  module _ {A : Type 0} where
    unwatched : (m : Exec C A) → ((c : C) → log (m c).1 ≡ log c) → Adds [] m
    unwatched m same = record { added = λ c a h. same c ∙ sym (append-nil (log c)) }

    Adds-wrapping :
        (f : Err → Err) (ws : List Watch) (m : Exec C A) → Adds ws m → Adds ws (wrapping f m)
    unfolding wrapping
    Adds-wrapping f ws m adds = record {
      added = λ c a h. adds.added c a (rewrap-returns f (m c).0 a h);
    }

  module _ {A B : Type 0} where
    Adds-continue :
        (ws : List Watch) (r : Result A) (f : A → Exec C B)
        → ((a : A) → Adds ws (f a))
        → (c : C) (b : B) → (continue r f c).0 ≡ ok b
        → log (continue r f c).1 ≡ log c ++ ws
    unfolding continue
    Adds-continue ws (ok a) f adds c b h = (adds a).added c b h
    Adds-continue ws (err e) f adds c b h = cc
    Adds-continue ws panic f adds c b h = cc
    Adds-continue ws unfinished f adds c b h = cc

  module _ {A B : Type 0} where
    first_returned :
        (r : Result A) (f : A → Exec C B) (c : C) (b : B)
        → (continue r f c).0 ≡ ok b
        → (a : A) × (r ≡ ok a)
    unfolding continue
    first_returned (ok a) f c b h = (a, refl)
    first_returned (err e) f c b h = cc
    first_returned panic f c b h = cc
    first_returned unfinished f c b h = cc

    Adds-bind :
        (ws ws' : List Watch) (m : Exec C A) (f : A → Exec C B)
        → Adds ws m
        → ((a : A) → Adds ws' (f a))
        → Adds (ws ++ ws') (m >>= f)
    unfolding ◌>>=◌
    Adds-bind ws ws' m f first rest = record {
      added = λ c b h.
          let (a, returned) = first_returned (m c).0 f (m c).1 b h in
          Adds-continue ws' (m c).0 f rest (m c).1 b h
          ∙ ap (λ l. l ++ ws') (first.added c a returned)
          ∙ append_assoc (log c) ws ws';
    }

module _ {C Rest Manager Controller Mapper : Type 0}
    (runtime : Runtime C Rest Manager Controller Mapper) (log : C → List Watch)
    (is : IsLog runtime log) where
  watch-Adds :
      (k : Controller) (w : Watched) (h : Handler) → Adds log ((w, h) ∷ []) (runtime.watch k w h)
  watch-Adds k w h = record { added = λ c a e. is.watches k w h c e }

  controller-Adds :
      (m : Manager) (cfg : Config) → Adds log all_watches (new_controller runtime m cfg)
  unfolding new_controller pure
  controller-Adds m cfg =
      Adds-bind log [] all_watches _ _ (unwatched log _ (λ c. is.controllers _ m cfg c)) (λ k.
        Adds-bind log (_ ∷ []) (_ ∷ _ ∷ []) _ _ (watch-Adds k _ _) (λ _.
          Adds-bind log (_ ∷ []) (_ ∷ []) _ _ (watch-Adds k _ _) (λ _.
            Adds-bind log (_ ∷ []) [] _ _ (watch-Adds k _ _) (λ _. unwatched log _ (λ c. refl)))))

  -- `New` of internal/operator adds no other watch.
  operator-Adds :
      (rest : Rest) (op_cfg : OperatorConfig)
      → Adds log all_watches (new_operator runtime rest op_cfg)
  unfolding new_operator pure wrapping
  operator-Adds rest op_cfg =
      Adds-bind log [] all_watches _ _ (unwatched log _ (λ c. is.managers rest _ c)) (λ m.
        Adds-bind log all_watches [] _ _ (Adds-wrapping log _ _ _ (controller-Adds m _)) (λ _.
          Adds-bind log [] [] _ _ (unwatched log _ (λ c. is.mappers rest c))
            (λ _. unwatched log _ (λ c. refl))))

  module _ (parse : String → Option Err) where
    -- What `main` does behind the images.
    abbrev serve : OperatorConfig → Exec C Unit
    serve op_cfg = do
      cli_cfg ← runtime.get_config_or_die
      op ← new_operator runtime cli_cfg op_cfg
      start runtime op

    serve-Adds : (op_cfg : OperatorConfig) → Adds log all_watches (serve op_cfg)
    unfolding start
    serve-Adds op_cfg = Adds-bind log [] all_watches _ _ (unwatched log _ is.configs) (λ rest.
        Adds-bind log all_watches [] _ _ (operator-Adds rest op_cfg)
          (λ o. unwatched log _ (λ c. is.ends o.manager c)))

    -- The images are checked before that.
    run-continue :
        (flags : OperatorConfig) (c : C)
        → (run_operator runtime parse flags c).0 ≡ ok tt
        → (continue
            (check_images runtime parse (flags.sesame_image ∷ flags.envoy_image ∷ []))
            (λ _. serve (record flags { leader_election_id = default_config.leader_election_id }))
            c).0
          ≡ ok tt
    unfolding run_operator ◌>>=◌ lift
    run-continue flags c h = h

    -- A process that exits with 0 has found both images valid, and has started the watches of sesames, of
    -- deployments and of daemon sets, each once and in this order, the last two with the handler that
    -- asks for the owning sesame, if each call but the start of a watch leaves the watches, and one that
    -- succeeds adds its own.
    pub main_serves :
        (flags : OperatorConfig) (c : C)
        → (main runtime parse flags c).0 ≡ ok 0
        → (image parse flags.sesame_image ≡ ok tt)
          × (image parse flags.envoy_image ≡ ok tt)
          × (log (main runtime parse flags c).1 ≡ log c ++ all_watches)
    unfolding main run_operator lift check_images
    main_serves flags c h =
        let names : List String = flags.sesame_image ∷ flags.envoy_image ∷ [] in
        let op_cfg : OperatorConfig = record flags {
          leader_election_id = default_config.leader_election_id;
        } in
        let returned = exit-zero (run_operator runtime parse flags c).0 h in
        let (_, valid) =
          first_returned log (check_images runtime parse names) (λ _. serve op_cfg) c tt
            (run-continue flags c returned) in
        let (first, rest) =
          images_checked _ (check_images runtime parse (flags.envoy_image ∷ [])) valid in
        let (second, _) = images_checked _ (check_images runtime parse []) rest in
        (
          first,
          second,
          (Adds-bind log [] all_watches _ _
                (unwatched log (lift (check_images runtime parse names)) (λ c. refl))
                (λ _. serve-Adds op_cfg)).added
              c tt returned,
        )
