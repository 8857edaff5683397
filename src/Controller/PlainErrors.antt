-- ===== src/Controller/PlainErrors.antt =====
-- The errors that `handleResult` collects are wrapped, and a wrapped error is not a retryable one: so
-- neither `ensureSesame` nor `ensureSesameDeleted` returns a retryable error.
use sesame_operator.Prelude.{
  ℕ, String, Bool, true, false, not, List, [], ◌∷◌, ◌++◌, none, some, map, ◌≡◌, refl, inl, inr, All,
  All-append, if◌then◌else◌,
}
use sesame_operator.Errors.{Err, Result, ok, err, panic, unfinished}
use sesame_operator.Errors.Retryable.{
  after, NewAggregate, FiltersNil, new_maybe_retryable_aggregate, aggregate_plain,
  aggregate_none_iff,
}
use sesame_operator.Api.{Sesame}
use sesame_operator.Cluster.{Exec, Client, caught, continue, pure, lift, try, ◌>>=◌}
use sesame_operator.Equality.{Semantic}
use sesame_operator.Status.Sync.{finish, returned}
use sesame_operator.Controller.{
  Step, Objects, Config, handle_all, sync_sesame_status, ensure_sesame, remove_finalizer,
  ensure_sesame_deleted, aggregated, aggregated_from, sesame_error, base_steps, deletion_steps,
  workload_steps, is_nil,
}
use sesame_operator.Controller.Steps.{
  Result-cases, after_ok, after_error, after_panic, after_unfinished,
}

abbrev pub Plain : Err → Type 0
Plain e = after e ≡ none

-- How the steps end: with plain errors, or not at all.
abbrev PlainEnd : Result (List Err) → Type 0
PlainEnd (ok es) = All Plain es
PlainEnd (err e) = ⊥
PlainEnd panic = Unit
PlainEnd unfinished = Unit

module _ {C : Type 0} (verb : String) (s : Sesame) where
  handle_all-PlainEnd :
      (steps : List (Step C)) (errs : List Err) (c : C)
      → All Plain errs
      → PlainEnd (handle_all verb s steps errs c).0
  unfolding handle_all pure
  handle_all-PlainEnd [] errs c h = h
  handle_all-PlainEnd (step ∷ steps) errs c h = elim (Result-cases (step.run c).0) [
    | inl e ↦
        rw (after_ok verb s step steps errs c e) (handle_all-PlainEnd steps errs (step.run c).1 h)
    | inr (inl (x, e)) ↦
        let (e', plain, q) = after_error verb s step steps errs c x e in
        rw q (
          handle_all-PlainEnd steps (errs ++ e' ∷ []) (step.run c).1
            (All-append _ errs (e' ∷ []) h (plain, tt)))
    | inr (inr (inl e)) ↦ rw (after_panic verb s step steps errs c e) tt
    | inr (inr (inr e)) ↦ rw (after_unfinished verb s step steps errs c e) tt
  ]

-- A result whose error, if it is one, is plain.
abbrev pub PlainError : Result Unit → Type 0
PlainError (err e) = Plain e
PlainError _ = Unit

module _ (new_aggregate : NewAggregate) (filters : FiltersNil new_aggregate) where
  returned-PlainError :
      (errs : List Err)
      → All Plain errs
      → PlainError (returned (new_maybe_retryable_aggregate new_aggregate (map some errs)))
  returned-PlainError [] h = rw ((aggregate_none_iff new_aggregate filters []).1 refl) tt
  returned-PlainError (e ∷ es) (p, h) =
      rw (aggregate_plain new_aggregate filters (map some (e ∷ es)) (λ ((t, q), _). cc)) refl

  aggregated-PlainError : (errs : List Err) → PlainError (aggregated new_aggregate errs)
  unfolding aggregated
  aggregated-PlainError errs =
      elim (new_aggregate (map some errs)) as (λ o. PlainError (aggregated_from o)) [
        | none ↦ tt
        | some es ↦ refl
      ]

module _ {C : Type 0} (cli : Client C) (objects : Objects C) (eq : Semantic)
    (new_aggregate : NewAggregate) (to_lower : String → String) (clock : C → ℕ) (config : Config)
    (fuel : ℕ) (filters : FiltersNil new_aggregate) where
  -- The end of `syncSesameStatus`, by how the synchronisation ended.
  synced-PlainError :
      (s : Sesame) (errs : List Err) (r : Result Unit) (c : C)
      → All Plain errs
      → PlainError
          (continue
            (caught r)
            (λ result. finish cli eq new_aggregate to_lower clock (elim result [
              | none ↦ errs
              | some e ↦ errs ++ sesame_error "sync status for" s e ∷ []
            ]))
            c).0
  unfolding continue finish lift
  synced-PlainError s errs (ok tt) c h = returned-PlainError new_aggregate filters errs h
  synced-PlainError s errs (err e) c h =
      returned-PlainError new_aggregate filters (errs ++ sesame_error "sync status for" s e ∷ [])
        (All-append _ errs _ h (refl, tt))
  synced-PlainError s errs panic c h = tt
  synced-PlainError s errs unfinished c h = tt

  sync_sesame_status-PlainError :
      (s : Sesame) (errs : List Err) (c : C)
      → All Plain errs
      → PlainError
          (sync_sesame_status cli objects eq new_aggregate to_lower clock config fuel s errs c).0
  unfolding sync_sesame_status ◌>>=◌ try
  sync_sesame_status-PlainError s errs c h = synced-PlainError s errs _ _ h

  after_steps-PlainError :
      (r : Result (List Err)) (f : List Err → Exec C Unit) (c : C)
      → PlainEnd r
      → ((errs : List Err) (d : C) → All Plain errs → PlainError (f errs d).0)
      → PlainError (continue r f c).0
  unfolding continue
  after_steps-PlainError (ok errs) f c h k = k errs c h
  after_steps-PlainError (err e) f c h k = absurd h
  after_steps-PlainError panic f c h k = tt
  after_steps-PlainError unfinished f c h k = tt

  -- What follows the base steps, with the test on their errors as an argument.
  rest-PlainError :
      (s : Sesame) (errs : List Err) (clean : Bool) (c : C)
      → All Plain errs
      → PlainError
          ((if not clean
              then sync_sesame_status cli objects eq new_aggregate to_lower clock config fuel s errs
              else handle_all "ensure" s
                  (workload_steps cli objects eq new_aggregate to_lower clock config fuel s)
                  errs
                >>= λ errs'.
                    sync_sesame_status cli objects eq new_aggregate to_lower clock config fuel s
                      errs')
            c).0
  unfolding ◌>>=◌
  rest-PlainError s errs true c h =
      after_steps-PlainError _ _ _ (handle_all-PlainEnd "ensure" s _ errs c h)
        (sync_sesame_status-PlainError s)
  rest-PlainError s errs false c h = sync_sesame_status-PlainError s errs c h

  pub ensure_sesame-PlainError :
      (s : Sesame) (c : C)
      → PlainError (ensure_sesame cli objects eq new_aggregate to_lower clock config fuel s c).0
  unfolding ensure_sesame ◌>>=◌
  ensure_sesame-PlainError s c =
      after_steps-PlainError _ _ _
        (handle_all-PlainEnd "ensure" s
          (base_steps cli objects eq new_aggregate to_lower clock config fuel s) [] c tt)
        (λ errs d h. rest-PlainError s errs (is_nil errs) d h)

  removed-PlainError :
      (s : Sesame) (r : Result Unit) (c : C)
      → PlainError
          (continue
            (caught r)
            (λ result. lift (
              aggregated new_aggregate (elim result [
                | none ↦ []
                | some e ↦ sesame_error "remove finalizer from" s e ∷ []
              ])))
            c).0
  unfolding continue lift
  removed-PlainError s (ok tt) c = aggregated-PlainError new_aggregate filters _
  removed-PlainError s (err e) c = aggregated-PlainError new_aggregate filters _
  removed-PlainError s panic c = tt
  removed-PlainError s unfinished c = tt

  remove_finalizer-PlainError :
      (s : Sesame) (errs : List Err) (c : C)
      → PlainError
          (remove_finalizer cli objects eq new_aggregate to_lower clock config fuel s errs c).0
  unfolding remove_finalizer ◌>>=◌ try lift
  remove_finalizer-PlainError s [] c = removed-PlainError s _ _
  remove_finalizer-PlainError s (e ∷ es) c = aggregated-PlainError new_aggregate filters (e ∷ es)

  pub ensure_sesame_deleted-PlainError :
      (s : Sesame) (c : C)
      → PlainError
          (ensure_sesame_deleted cli objects eq new_aggregate to_lower clock config fuel s c).0
  unfolding ensure_sesame_deleted ◌>>=◌
  ensure_sesame_deleted-PlainError s c =
      after_steps-PlainError _ _ _
        (handle_all-PlainEnd "delete" s
          (deletion_steps cli objects eq new_aggregate to_lower clock config fuel s) [] c tt)
        (λ errs d h. remove_finalizer-PlainError s errs d)
