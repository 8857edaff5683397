-- ===== src/Jobs/Safety.antt =====
-- The jobs of others are left alone.
use sesame_operator.Prelude.{Bool, ◌≡◌, refl, arith, ==_refl, String, some, Option, none}
use sesame_operator.Api.{Sesame}
use sesame_operator.Kube.{Job}
use sesame_operator.Labels.{exist, owner_labels, Owned}
use sesame_operator.Cluster.{Exec, Client}
use sesame_operator.Cluster.Keeps.{
  Keeps, keeps_rules, Keeps-bind, Keeps-if, Keeps-pure, Keeps-wrapping,
}
use sesame_operator.Owned.{Guards, delete_owned-Keeps, ignoring_not_found-Keeps}
use sesame_operator.Owned.Ensure.{on_current-Keeps, create_object-Keeps}
use sesame_operator.Equality.{Semantic}
use sesame_operator.Equality.Objects.{job_config_changed}
use sesame_operator.Equality.Owners.{job_config_changed-KeepsOwner}
use sesame_operator.Jobs.{
  jobs, job_labels, desired_job, current_job, job_created, retry_job_create, recreate_changed,
  recreate_job_if_needed, ensure_job, ensure_job_deleted,
}

pub desired_job-Owned : (s : Sesame) (image : String) → Owned s (desired_job s image).labels
unfolding exist owner_labels desired_job job_labels
desired_job-Owned s image = ground (arith, ==_refl s.name, ==_refl s.namespace)

-- Polling keeps what its condition keeps.
abbrev pub PollKeeps : {C : Type 0} → (C → Type 0) → (Exec C Bool → Exec C Unit) → Type 0
PollKeeps {C} P poll = (cond : Exec C Bool) → Keeps P cond → Keeps P (poll cond)

module _ {C : Type 0} (cli : Client C) (s : Sesame) {P : C → Type 0}
    (g : Guards P (λ o. o.labels) s cli.jobs) where
  module _ (poll : Exec C Bool → Exec C Unit) (polls : PollKeeps P poll) where
    retry_job_create-Keeps :
        (job : Job) → Owned s job.labels → Keeps P (retry_job_create cli poll job)
    unfolding retry_job_create job_created
    retry_job_create-Keeps job owned =
        Keeps-wrapping _ (polls _ (search (keeps_rules, g.creates job owned)))

    module _ (eq : Semantic) where
      recreate_changed-Keeps :
          (current desired : Job) (changed : Option Job)
          → job_config_changed eq current desired ≡ changed
          → Owned s current.labels
          → Owned s desired.labels
          → Keeps P (recreate_changed cli poll changed)
      unfolding recreate_changed
      recreate_changed-Keeps current desired none h owned wanted = Keeps-pure tt
      recreate_changed-Keeps current desired (some updated) h owned wanted =
          let kept =
            (job_config_changed-KeepsOwner eq).owner s current desired updated h owned wanted in
          Keeps-bind _ _
            (ignoring_not_found-Keeps (λ j. j.labels) cli.jobs s g (g.deletes updated kept))
            (λ _. retry_job_create-Keeps updated kept)

      recreate_job_if_needed-Keeps :
          (current desired : Job)
          → Owned s desired.labels
          → Keeps P (recreate_job_if_needed cli poll eq s current desired)
      unfolding recreate_job_if_needed
      recreate_job_if_needed-Keeps current desired wanted =
          Keeps-if (exist current.labels (owner_labels s)) _ _
            (λ owned. recreate_changed-Keeps current desired _ refl owned wanted)
            (λ _. Keeps-pure tt)

      -- Whatever the run for the job meets, it keeps each property that reads of jobs, and writes of
      -- those with the owner labels of the sesame, keep.
      pub ensure_job-Keeps : (image : String) → Keeps P (ensure_job cli poll eq s image)
      unfolding ensure_job current_job
      ensure_job-Keeps image =
          let desired = desired_job s image in
          let wanted = desired_job-Owned s image in
          on_current-Keeps (jobs cli poll eq) _ desired _ _ (g.reads _ _)
            (λ current. Keeps-wrapping _ (recreate_job_if_needed-Keeps current desired wanted))
            (create_object-Keeps (jobs cli poll eq) g desired wanted)

  pub ensure_job_deleted-Keeps : Keeps P (ensure_job_deleted cli s)
  unfolding ensure_job_deleted current_job
  ensure_job_deleted-Keeps = delete_owned-Keeps (λ j. j.labels) cli.jobs s g _ (g.reads _ _)
