-- ===== src/Jobs/Refines.antt =====
-- `EnsureJob` of internal/objects/job/job.go on a cluster that works as a store.
use sesame_operator.Prelude.{
  ℕ, zero, suc, ◌<◌, true, false, Bool, String, ==_refl, Option, none, some, ◌≡◌, refl, sym, ap,
  ◌∙◌, arith, Bool-cases, inl, inr,
}
use sesame_operator.Api.{Sesame}
use sesame_operator.Kube.{Job}
use sesame_operator.Labels.{exist, owner_labels}
use sesame_operator.Cluster.{Exec, Client, pure, ◌>>=◌, call, continue, on_answer}
use sesame_operator.Equality.{Semantic}
use sesame_operator.Equality.Settles.{the_answer}
use sesame_operator.Equality.Objects.{job_config_changed, owner_keys_missing}
use sesame_operator.Owned.Tables.{Table, KeepsKey, over, put_at, put_some, erase, put-erase}
use sesame_operator.Owned.Runs.{Runs, Leaves, wrapping-Runs, bind-Runs, pure-Runs, delete-Runs}
use sesame_operator.Owned.Refines.{
  with_written, on_current-Runs, create_object-Runs, over-written, found-key,
}
use sesame_operator.Owned.Settles.{Settling, store_settles}
use sesame_operator.World.{World, IsClusterStore, job_key, job_part}
use sesame_operator.Sesames.{owning_selector}
use sesame_operator.Jobs.{
  jobs, desired_job, current_job, job_created, retry_job_create, recreate_changed,
  recreate_job_if_needed, ensure_job,
}
use sesame_operator.Jobs.Retry.{attempts, IsPoll}

module _ (eq : Semantic) where
  job-KeepsKey : KeepsKey job_key (job_config_changed eq)
  unfolding job_config_changed
  job-KeepsKey a b u h same = ap job_key (the_answer _ _ h)

  job_config_changed_self :
      (b : Job)
      → owner_keys_missing b.spec.template.labels ≡ false
      → job_config_changed eq b b ≡ none
  unfolding job_config_changed
  job_config_changed_self b h = ground (
    arith,
    h,
    eq.labels.equal_refl b.labels,
    eq.count.equal_refl b.spec.parallelism,
    eq.count.equal_refl b.spec.backoff_limit,
    eq.pod_spec.equal_refl b.spec.template.spec,
  )

  -- The desired job has the owner labels on its pods, without which it would always differ.
  desired_job-owned :
      (s : Sesame) (image : String)
      → owner_keys_missing (desired_job s image).spec.template.labels ≡ false
  unfolding owner_keys_missing desired_job owning_selector owner_labels
  desired_job-owned s image = refl

  job-Settling :
      (s : Sesame) (image : String) → Settling (job_config_changed eq) (desired_job s image)
  unfolding job_config_changed
  job-Settling s image =
      let self = job_config_changed_self (desired_job s image) (desired_job-owned s image) in
      record { same = self; answered = λ a u h. rw (the_answer _ _ h) self }

module _ {C : Type 0} (cli : Client C) (poll : Exec C Bool → Exec C Unit) (eq : Semantic) where
  abbrev pub with_job : Sesame → String → Table Job → Table Job
  with_job s image = with_written (jobs cli poll eq) job_key s (desired_job s image)

module _ {C : Type 0} (cli : Client C) (view : C → World) (store : IsClusterStore cli view)
    (poll : Exec C Bool → Exec C Unit) (least most : ℕ) (is : IsPoll least most poll)
    (some_round : 0 < least) where
  job_created-Runs :
      (job : Job) (c : C) (w : World)
      → view c ≡ w
      → w.jobs job.namespace job.name ≡ none
      → Runs view
          (job_created cli job)
          c
          (λ done. done ≡ true)
          (over job_part (put_at job_key job) w)
  unfolding job_created ◌>>=◌ call continue on_answer pure
  job_created-Runs job c w seen missing =
      let (done, after) = store.jobs.creates job c (rw seen missing) in
      rw done (true, refl, refl, rw (sym seen) after)

  -- The condition is true at once where the job is not there.
  attempts-Runs :
      (n : ℕ) (job : Job) (c : C) (w : World)
      → 0 < n
      → view c ≡ w
      → w.jobs job.namespace job.name ≡ none
      → Leaves view (attempts n (job_created cli job)) c (over job_part (put_at job_key job) w)
  unfolding attempts
  attempts-Runs zero job c w pos seen missing = absurd (omega arith)
  attempts-Runs (suc n) job c w pos seen missing =
      bind-Runs view (job_created cli job) _ c _ _ (job_created-Runs job c w seen missing)
        (λ done c' h after. rw h (pure-Runs view tt c' _ tt after))

  -- The old job is deleted, and the new one is created in its place.
  put_again :
      (u : Job) (w : World)
      → over job_part (put_at job_key u) (over job_part (erase u.namespace u.name) w)
        ≡ over job_part (put_at job_key u) w
  put_again u w = ap (λ t. job_part.set t w) (put-erase u.namespace u.name u w.jobs)

  recreate-Runs :
      (o : Option Job) (current : Job) (c : C) (w : World)
      → view c ≡ w
      → w.jobs current.namespace current.name ≡ some current
      → ((u : Job) → o ≡ some u → job_key u ≡ job_key current)
      → Leaves view (recreate_changed cli poll o) c (over job_part (put_some job_key o) w)
  unfolding recreate_changed retry_job_create
  recreate-Runs none current c w seen found named = pure-Runs view tt c w tt seen
  recreate-Runs (some u) current c w seen found named =
      bind-Runs view _ _ c (over job_part (erase u.namespace u.name) w) _
        (delete-Runs store.jobs.erasable u current c w seen
          (ap (λ p. w.jobs p.0 p.1) (named u refl) ∙ found))
        (λ _ c' _ after. wrapping-Runs view _ _ c' _ (
          let (n, above, below, same) = is.rounds (job_created cli u) c' in
          rw (same, sym (put_again u w))
            (attempts-Runs n u c' (over job_part (erase u.namespace u.name) w) (omega arith) after
              (rw (==_refl u.namespace, ==_refl u.name) refl))))

  module _ (eq : Semantic) (s : Sesame) (image : String) where
    pub ensure_job-Runs :
        (c : C) (w : World)
        → view c ≡ w
        → Leaves view
            (ensure_job cli poll eq s image)
            c
            (over job_part (with_job cli poll eq s image) w)
    unfolding ensure_job current_job recreate_job_if_needed desired_job
    ensure_job-Runs c w seen =
        let desired = desired_job s image in
        let k = jobs cli poll eq in
        on_current-Runs k job_key view job_part store.jobs s desired _ _ c w _ seen
          (λ c' missing after.
            create_object-Runs k job_key view job_part store.jobs s desired c' w after missing)
          (λ current c' found after.
            let same =
              found-key k job_key view job_part store.jobs s desired (job-KeepsKey eq) current c' w
                after found in
            let there : w.jobs current.namespace current.name ≡ some current =
              ap (λ p. w.jobs p.0 p.1) same ∙ found in
            wrapping-Runs view _ _ c' _ (elim (Bool-cases (exist current.labels (owner_labels s))) [
              | inl owned ↦
                  rw
                    (
                      over-written k job_key view job_part store.jobs s desired w (some current)
                          found,
                      owned,
                    )
                    (recreate-Runs (job_config_changed eq current desired) current c' w after there
                      (λ u h. job-KeepsKey eq current desired u h same ∙ sym same))
              | inr foreign ↦
                  rw
                    (
                      over-written k job_key view job_part store.jobs s desired w (some current)
                          found,
                      foreign,
                    )
                    (pure-Runs view tt c' w tt after)
            ]))

    pub with_job_twice :
        (c : C)
        → with_job cli poll eq s image (with_job cli poll eq s image (view c).jobs)
          ≡ with_job cli poll eq s image (view c).jobs
    unfolding desired_job
    with_job_twice c =
        store_settles (jobs cli poll eq) job_key view job_part store.jobs s (desired_job s image)
          (job-Settling eq s image) (job-KeepsKey eq) c
