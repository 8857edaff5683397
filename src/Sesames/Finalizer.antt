-- ===== src/Sesames/Finalizer.antt =====
-- The finalizer of a `Sesame`: what is written to the cluster, and that it is written once.
use sesame_operator.Prelude.{String, true, false, List, [], ◌∷◌, ◌++◌, ◌≡◌, ◌↔◌, refl, sym, ap, ◌∙◌}
use sesame_operator.Errors.{ok}
use sesame_operator.Api.{Sesame, is_finalized, sesame_finalizer, has_finalizer}
use sesame_operator.Slice.{contains_string, remove_string, contains-append, remove-append}
use sesame_operator.Cluster.{Client, attempt, answer, outcome-ok_iff}
use sesame_operator.Sesames.{ensure_finalizer, ensure_finalizer_removed}

abbrev with_finalizer : Sesame → Sesame
with_finalizer s = record s { finalizers = s.finalizers ++ sesame_finalizer ∷ [] }

abbrev without_finalizer : Sesame → Sesame
without_finalizer s = record s { finalizers = remove_string s.finalizers sesame_finalizer }

has_finalizer_lem : (l : List String) → has_finalizer l ≡ contains_string l sesame_finalizer
unfolding has_finalizer contains_string
has_finalizer_lem [] = refl
has_finalizer_lem (x ∷ xs) = rw (has_finalizer_lem xs)

-- The two tests for the finalizer, that of the API and that of pkg/slice, agree.
is_finalized-contains :
    (s : Sesame) → is_finalized s ≡ contains_string s.finalizers sesame_finalizer
unfolding is_finalized
is_finalized-contains s = has_finalizer_lem s.finalizers

module _ {C : Type 0} (cli : Client C) (s : Sesame) (c : C) where
  -- A finalized Sesame is left alone: there is no call, and the cluster is as before.
  pub ensure_finalizer_done : is_finalized s ≡ true → ensure_finalizer cli s c ≡ (ok tt, c)
  unfolding ensure_finalizer
  ensure_finalizer_done h = rw (sym (is_finalized-contains s) ∙ h, ensure_finalizer)

  -- One that is not gets the finalizer in one update, with which it is finalized, and whose
  -- failure is returned.
  ensure_finalizer_adds :
      is_finalized s ≡ false
      → (is_finalized (with_finalizer s) ≡ true)
        × ((ensure_finalizer cli s c).1 ≡ (cli.sesames.update (with_finalizer s) c).1)
        × (((ensure_finalizer cli s c).0 ≡ ok tt)
            ↔ ((cli.sesames.update (with_finalizer s) c).0 ≡ answer tt))
  unfolding ensure_finalizer
  ensure_finalizer_adds h =
      rw (sym (is_finalized-contains s) ∙ h, ensure_finalizer)
        (
          is_finalized-contains (with_finalizer s) ∙ contains-append s.finalizers sesame_finalizer,
          refl,
          outcome-ok_iff _ _ tt,
        )

removed :
    (s : Sesame)
    → contains_string s.finalizers sesame_finalizer ≡ false
    → without_finalizer (with_finalizer s) ≡ s
removed s h = ap (λ l. record s { finalizers = l }) (remove-append s.finalizers sesame_finalizer h)

-- On a cluster that holds the sesame that was last updated, a sesame without the finalizer gets it by
-- `EnsureFinalizer` and loses it by `EnsureFinalizerRemoved`, without an error: in between the one that
-- is held is finalized, and in the end it is the first one again.
pub finalizer_round_trip :
    {C : Type 0} (cli : Client C) (held : C → Sesame)
    → ((o : Sesame) (c : C)
        → ((cli.sesames.update o c).0 ≡ answer tt) × (held (cli.sesames.update o c).1 ≡ o))
    → (s : Sesame) (c : C) → is_finalized s ≡ false
    → ((ensure_finalizer cli s c).0 ≡ ok tt)
      × (is_finalized (held (ensure_finalizer cli s c).1) ≡ true)
      × ((ensure_finalizer_removed cli
            (held (ensure_finalizer cli s c).1)
            (ensure_finalizer cli s c).1).0
          ≡ ok tt)
      × (held
            (ensure_finalizer_removed cli
              (held (ensure_finalizer cli s c).1)
              (ensure_finalizer cli s c).1).1
          ≡ s)
unfolding ensure_finalizer ensure_finalizer_removed attempt
finalizer_round_trip cli held updates s c h =
    let absent = sym (is_finalized-contains s) ∙ h in
    let (done, now) = updates (with_finalizer s) c in
    let present = contains-append s.finalizers sesame_finalizer in
    let c' = (cli.sesames.update (with_finalizer s) c).1 in
    let (done', now') = updates (without_finalizer (with_finalizer s)) c' in
    rw (absent, done, now, present, done')
      (refl, is_finalized-contains (with_finalizer s) ∙ present, refl, now' ∙ removed s absent)
