-- ===== src/Controller/Steps.antt =====
-- The steps of a reconciliation in their order, and what their errors lead to.
use sesame_operator.Prelude.{
  ℕ, String, sprintf, List, [], ◌∷◌, ◌++◌, none, some, map, ◌≡◌, refl, sym, ap, ◌∙◌, ◌↔◌, ◌≢◌, ◌⊎◌,
  inl, inr, present, unless_empty,
}
use sesame_operator.Errors.{Err, Result, ok, err, panic, unfinished, aggregate, to_errs}
use sesame_operator.Errors.Retryable.{after, NewAggregate, FiltersNil}
use sesame_operator.Api.{Sesame}
use sesame_operator.Cluster.{Client, caught, continue, pure, lift, try, ◌>>=◌}
use sesame_operator.Equality.{Semantic}
use sesame_operator.Sesames.{ensure_finalizer_removed}
use sesame_operator.Controller.{
  Step, Objects, Config, handle_result, handle_all, sesame_error, deletion_steps, remove_finalizer,
  ensure_sesame_deleted, aggregated, aggregated_from,
}

module _ {C : Type 0} where
  -- Run one after the other from `c`, all steps return without an error, and the last leaves `c'`.
  abbrev pub Succeed : List (Step C) → C → C → Type 0
  Succeed [] c c' = c ≡ c'
  Succeed (step ∷ steps) c c' = ((step.run c).0 ≡ ok tt) × Succeed steps (step.run c).1 c'

pub present-some : (es : List Err) → present (map some es) ≡ es
present-some [] = refl
present-some (e ∷ es) = ap (λ l. e ∷ l) (present-some es)

not_nil : {A : Type 0} (xs : List A) (x : A) → xs ++ x ∷ [] ≢ []
not_nil [] x = λ h. cc
not_nil (y ∷ xs) x = λ h. cc

pub Result-cases :
    (r : Result Unit) → (r ≡ ok tt) ⊎ (((e : Err) × (r ≡ err e)) ⊎ ((r ≡ panic) ⊎ (r ≡ unfinished)))
Result-cases (ok tt) = inl refl
Result-cases (err e) = inr (inl (e, refl))
Result-cases panic = inr (inr (inl refl))
Result-cases unfinished = inr (inr (inr refl))

module _ {C : Type 0} (verb : String) (s : Sesame) where
  -- One step, by how it ends.
  module _ (step : Step C) (steps : List (Step C)) (errs : List Err) (c : C) where
    pub after_ok :
        (step.run c).0 ≡ ok tt
        → handle_all verb s (step ∷ steps) errs c ≡ handle_all verb s steps errs (step.run c).1
    unfolding handle_all handle_result ◌>>=◌ try continue pure
    after_ok h = rw h

    pub after_error :
        (e : Err)
        → (step.run c).0 ≡ err e
        → (e' : Err) × (after e' ≡ none)
          × (handle_all verb s (step ∷ steps) errs c
              ≡ handle_all verb s steps (errs ++ e' ∷ []) (step.run c).1)
    unfolding handle_all handle_result ◌>>=◌ try continue pure
    after_error e h =
        (sesame_error (sprintf (verb ∷ " " ∷ step.resource ∷ " for" ∷ [])) s e, refl, rw h)

    pub after_panic : (step.run c).0 ≡ panic → (handle_all verb s (step ∷ steps) errs c).0 ≡ panic
    unfolding handle_all handle_result ◌>>=◌ try continue pure
    after_panic h = rw h

    pub after_unfinished :
        (step.run c).0 ≡ unfinished → (handle_all verb s (step ∷ steps) errs c).0 ≡ unfinished
    unfolding handle_all handle_result ◌>>=◌ try continue pure
    after_unfinished h = rw h

  -- An error is not forgotten.
  some_error :
      (steps : List (Step C)) (errs : List Err) (c c' : C)
      → errs ≢ []
      → handle_all verb s steps errs c ≢ (ok [], c')
  unfolding handle_all pure
  some_error [] errs c c' h = λ p. h (cc)
  some_error (step ∷ steps) errs c c' h = λ p. elim (Result-cases (step.run c).0) [
    | inl e ↦ some_error steps errs _ c' h (sym (after_ok step steps errs c e) ∙ p)
    | inr (inl (x, e)) ↦
        let (e', _, q) = after_error step steps errs c x e in
        some_error steps (errs ++ e' ∷ []) _ c' (not_nil errs e') (sym q ∙ p)
    | inr (inr (inl e)) ↦ cc (after_panic step steps errs c e, p)
    | inr (inr (inr e)) ↦ cc (after_unfinished step steps errs c e, p)
  ]

  handle_all_iff :
      (steps : List (Step C)) (c c' : C)
      → (handle_all verb s steps [] c ≡ (ok [], c')) ↔ Succeed steps c c'
  unfolding handle_all pure
  handle_all_iff [] c c' = (λ h. ap (λ x. x.1) h, λ h. ap (λ x. (ok [], x)) h)
  handle_all_iff (step ∷ steps) c c' = (
    λ p. elim (Result-cases (step.run c).0) [
      | inl e ↦ (e, (handle_all_iff steps _ c').0 (sym (after_ok step steps [] c e) ∙ p))
      | inr (inl (x, e)) ↦
          let (e', _, q) = after_error step steps [] c x e in
          absurd (some_error steps (e' ∷ []) _ c' (not_nil [] e') (sym q ∙ p))
      | inr (inr (inl e)) ↦ cc (after_panic step steps [] c e, p)
      | inr (inr (inr e)) ↦ cc (after_unfinished step steps [] c e, p)
    ],
    λ (e, h). after_ok step steps [] c e ∙ (handle_all_iff steps _ c').1 h,
  )

module _ {C : Type 0} (cli : Client C) (objects : Objects C) (eq : Semantic)
    (new_aggregate : NewAggregate) (to_lower : String → String) (clock : C → ℕ) (config : Config)
    (fuel : ℕ) (s : Sesame) (c : C) where
  module _ (filters : FiltersNil new_aggregate) where
    aggregated_nil : aggregated new_aggregate [] ≡ ok tt
    unfolding aggregated
    aggregated_nil = ap aggregated_from (filters [])

    aggregated_cons :
        (e : Err) (es : List Err)
        → aggregated new_aggregate (e ∷ es) ≡ err (aggregate (to_errs (e ∷ es)))
    unfolding aggregated
    aggregated_cons e es =
        ap aggregated_from
          (filters (some e ∷ map some es) ∙ ap (λ l. unless_empty (e ∷ l)) (present-some es))

    -- The removal of the finalizer, by how its update ended.
    removed_iff :
        (r : Result Unit) (d c' : C)
        → (continue
              (caught r)
              (λ result. lift (
                aggregated new_aggregate (elim result [
                  | none ↦ []
                  | some e ↦ sesame_error "remove finalizer from" s e ∷ []
                ])))
              d
            ≡ (ok tt, c'))
          ↔ (◌≡◌ {A = Result Unit × C} (r, d) (ok tt, c'))
    unfolding continue lift
    removed_iff (ok tt) d c' = rw aggregated_nil (λ h. h, λ h. h)
    removed_iff (err e) d c' =
        rw (aggregated_cons (sesame_error "remove finalizer from" s e) []) (λ h. cc, λ h. cc)
    removed_iff panic d c' = (λ h. cc, λ h. cc)
    removed_iff unfinished d c' = (λ h. cc, λ h. cc)

    -- What can come before a good end.
    no_errors :
        (r : Result (List Err)) (d c' : C)
        → continue r (remove_finalizer cli objects eq new_aggregate to_lower clock config fuel s) d
          ≡ (ok tt, c')
        → (r ≡ ok []) × (ensure_finalizer_removed cli s d ≡ (ok tt, c'))
    unfolding continue remove_finalizer lift ◌>>=◌ try
    no_errors (ok []) d c' h = (
      refl,
      (removed_iff (ensure_finalizer_removed cli s d).0 (ensure_finalizer_removed cli s d).1 c').0
          h,
    )
    no_errors (ok (e ∷ es)) d c' h = cc (rw (aggregated_cons e es) at h)
    no_errors (err e) d c' h = cc
    no_errors panic d c' h = cc
    no_errors unfinished d c' h = cc

    removed_lem :
        (d c' : C)
        → ensure_finalizer_removed cli s d ≡ (ok tt, c')
        → remove_finalizer cli objects eq new_aggregate to_lower clock config fuel s [] d
          ≡ (ok tt, c')
    unfolding remove_finalizer ◌>>=◌ try
    removed_lem d c' h =
        (removed_iff (ensure_finalizer_removed cli s d).0 (ensure_finalizer_removed cli s d).1 c').1
          h

    -- A deletion ends without an error exactly if all its steps succeed, each from the state that
    -- the one before leaves, and then the update that removes the finalizer succeeds.
    pub ensure_sesame_deleted_iff :
        (c' : C)
        → (ensure_sesame_deleted cli objects eq new_aggregate to_lower clock config fuel s c
            ≡ (ok tt, c'))
          ↔ ((done : C) × Succeed
                (deletion_steps cli objects eq new_aggregate to_lower clock config fuel s)
                c
                done
              × (ensure_finalizer_removed cli s done ≡ (ok tt, c')))
    unfolding ensure_sesame_deleted ◌>>=◌ continue
    ensure_sesame_deleted_iff c' =
        let steps = deletion_steps cli objects eq new_aggregate to_lower clock config fuel s in
        let run : Result (List Err) × C = handle_all "delete" s steps [] c in
        (
          λ h.
              let (clean, removed) = no_errors run.0 run.1 c' h in
              (
                run.1,
                (handle_all_iff "delete" s steps c run.1).0 (ap (λ r. (r, run.1)) clean),
                removed,
              ),
          λ (done, h, removed).
              rw ((handle_all_iff "delete" s steps c done).1 h) (removed_lem done c' removed),
        )
