-- ===== src/Errors/Retryable.antt =====
-- internal/retryableerror/retryableerror.go: when the errors of one reconciliation are retried.
-- A duration is a number of nanoseconds and is not negative.
use sesame_operator.Prelude.{
  ℕ, ◌≤◌, Bool, true, false, not, ◌||◌, List, [], ◌∷◌, Option, none, some, ◌≡◌, refl, ◌≢◌, ◌↔◌, ◌⊎◌,
  inl, inr, ap, In, Bool-cases, Option-cases, All, present, map, unless_empty, ltb, if◌then◌else◌,
  arith,
}
use sesame_operator.Errors.{
  Err, client, message, message_number, wrap, retryable, aggregate, to_errs,
}

-- `utilerrors.NewAggregate` answers with the errors that `Errors()` of the aggregate lists.
abbrev pub NewAggregate : Type 0
NewAggregate = List (Option Err) → Option (List Err)

-- Its documented behaviour: nil errors are left out, and with none left the answer is nil.
abbrev pub FiltersNil : NewAggregate → Type 0
FiltersNil new_aggregate =
    (errs : List (Option Err)) → new_aggregate errs ≡ unless_empty (present errs)

abbrev pub after : Err → Option ℕ
after (retryable e t) = some t
after _ = none

-- The loop of `NewMaybeRetryableAggregate`; `none` is its early return of the aggregate.
scan : List Err → Bool → ℕ → Option ℕ
scan [] has_initial shortest = some shortest
scan (retryable _ t ∷ es) has_initial shortest =
    scan es true (if not has_initial || ltb t shortest then t else shortest)
scan (_ ∷ es) has_initial shortest = none

aggregated : Option (List Err) → Option Err
unfolding scan
aggregated none = none
aggregated (some agg) = elim (scan agg false 0) [
  | none ↦ some (aggregate (to_errs agg))
  | some shortest ↦ some (retryable (aggregate (to_errs agg)) shortest)
]

unfoldable pub new_maybe_retryable_aggregate : NewAggregate → List (Option Err) → Option Err
unfolding aggregated
new_maybe_retryable_aggregate new_aggregate errs = aggregated (new_aggregate errs)

abbrev pub IsRetryable : Err → Type 0
IsRetryable e = (t : ℕ) × (after e ≡ some t)

abbrev AtLeast : ℕ → Err → Type 0
AtLeast t (retryable _ u) = t ≤ u
AtLeast t _ = Unit

-- `t` is the waiting time of one of `es`, and none of them waits for less.
pub record IsShortest (t : ℕ) (es : List Err) : Type 0 where
  pub attained : In (some t) (map after es)
  pub least : All (AtLeast t) es

shorter_cases :
    (t u s : ℕ) → t ≡ (if ltb u s then u else s) → (t ≡ s) ⊎ (◌≡◌ {A = Option ℕ} (some t) (some u))
shorter_cases t u s e = elim (Bool-cases (ltb u s)) [
  | inl h ↦ inr (ap some (rw h at e))
  | inr h ↦ inl (rw h at e)
]

-- Once the loop has a time, it ends with the least of that time and those of the list.
scan_started :
    (es : List Err) (s : ℕ)
    → All IsRetryable es
    → (t : ℕ) × (scan es true s ≡ some t)
      × (t ≤ s)
      × ((t ≡ s) ⊎ In (some t) (map after es))
      × All (AtLeast t) es
unfolding scan
scan_started [] s h = (s, refl, omega arith, inl refl, tt)
scan_started (retryable e u ∷ es) s (r, h) =
    let (t, run, le, from, rest) = scan_started es (if ltb u s then u else s) h in
    (
      t,
      run,
      ground arith,
      elim from [
        | inl e ↦ elim (shorter_cases t u s e) [ inl a ↦ inl a | inr b ↦ inr (inl b) ]
        | inr m ↦ inr (inr m)
      ],
      (ground arith, rest),
    )
scan_started (client e ∷ es) s ((t, r), h) = cc
scan_started (message m ∷ es) s ((t, r), h) = cc
scan_started (wrap m e ∷ es) s ((t, r), h) = cc
scan_started (message_number m n ∷ es) s ((t, r), h) = cc
scan_started (aggregate a ∷ es) s ((t, r), h) = cc

scan_refuses : (es : List Err) (has : Bool) (s : ℕ) → ¬ All IsRetryable es → scan es has s ≡ none
unfolding scan
scan_refuses [] has s h = absurd (h tt)
scan_refuses (retryable e u ∷ es) has s h =
    scan_refuses es true (if not has || ltb u s then u else s) (λ all. h ((u, refl), all))
scan_refuses _ has s h = refl

aggregated-All :
    (es : List Err)
    → es ≢ []
    → All IsRetryable es
    → (t : ℕ) × (aggregated (unless_empty es) ≡ some (retryable (aggregate (to_errs es)) t))
      × IsShortest t es
unfolding aggregated
aggregated-All [] ne h = absurd (ne refl)
aggregated-All (retryable e u ∷ es) ne (r, h) =
    let (t, run, le, from, rest) = scan_started es u h in
    (
      t,
      rw (run, aggregated),
      record {
        attained = elim from [ inl e ↦ inl (ap some e) | inr m ↦ inr m ];
        least = (le, rest);
      },
    )
aggregated-All (client e ∷ es) ne ((t, r), h) = cc
aggregated-All (message m ∷ es) ne ((t, r), h) = cc
aggregated-All (wrap m e ∷ es) ne ((t, r), h) = cc
aggregated-All (message_number m n ∷ es) ne ((t, r), h) = cc
aggregated-All (aggregate a ∷ es) ne ((t, r), h) = cc

aggregated-some :
    (es : List Err)
    → ¬ All IsRetryable es
    → aggregated (unless_empty es) ≡ some (aggregate (to_errs es))
unfolding aggregated
aggregated-some [] h = absurd (h tt)
aggregated-some (e ∷ es) h = rw (scan_refuses (e ∷ es) false 0 h, aggregated)

aggregated-none : (o : Option (List Err)) → (aggregated o ≡ none) ↔ (o ≡ none)
unfolding aggregated
aggregated-none none = (λ e. refl, λ e. refl)
aggregated-none (some agg) = elim (Option-cases (scan agg false 0)) [
  | inl e ↦ rw (e, aggregated) (λ h. cc, λ h. cc)
  | inr (t, e) ↦ rw (e, aggregated) (λ h. cc, λ h. cc)
]

unless_empty-none : (es : List Err) → (unless_empty es ≡ none) ↔ (es ≡ [])
unless_empty-none [] = (λ e. refl, λ e. refl)
unless_empty-none (e ∷ es) = (λ h. cc, λ h. cc)

module _ (new_aggregate : NewAggregate) (filters : FiltersNil new_aggregate) where
  -- If there are errors and all of them are retryable, the result is a retryable error around the
  -- aggregate of all, and it waits for the shortest of their times.
  pub aggregate_retryable :
      (errs : List (Option Err))
      → present errs ≢ []
      → All IsRetryable (present errs)
      → (t : ℕ) × (new_maybe_retryable_aggregate new_aggregate errs
          ≡ some (retryable (aggregate (to_errs (present errs))) t))
        × IsShortest t (present errs)
  unfolding new_maybe_retryable_aggregate
  aggregate_retryable errs ne h = rw (filters errs) (aggregated-All (present errs) ne h)

  -- If one of the errors is not retryable, the result is the plain aggregate of all.
  pub aggregate_plain :
      (errs : List (Option Err))
      → ¬ All IsRetryable (present errs)
      → new_maybe_retryable_aggregate new_aggregate errs ≡ some (aggregate (to_errs (present errs)))
  unfolding new_maybe_retryable_aggregate
  aggregate_plain errs h = rw (filters errs) (aggregated-some (present errs) h)

  -- There is no error exactly if every value of the list is nil.
  pub aggregate_none_iff :
      (errs : List (Option Err))
      → (new_maybe_retryable_aggregate new_aggregate errs ≡ none) ↔ (present errs ≡ [])
  unfolding new_maybe_retryable_aggregate
  aggregate_none_iff errs = rw (filters errs) (
    λ e. (unless_empty-none (present errs)).0 ((aggregated-none _).0 e),
    λ e. (aggregated-none _).1 ((unless_empty-none (present errs)).1 e),
  )
