-- ===== src/Jobs/Retry.antt =====
-- The repeated creation of a job whose old one is still being deleted.
use sesame_operator.Prelude.{
  ℕ, zero, suc, ◌+◌, ◌≤◌, ◌<◌, String, Bool, true, false, some, ◌≡◌, refl, arith, ◌⊎◌, inl, inr,
}
use sesame_operator.Errors.{ClientError, Err, ok, message}
use sesame_operator.Api.{Sesame}
use sesame_operator.Kube.{Job}
use sesame_operator.Labels.{Owned}
use sesame_operator.Cluster.{
  Answer, answer, failed, Exec, Client, pure, fail, ◌>>=◌, on_answer, wrapping,
}
use sesame_operator.Equality.{Semantic}
use sesame_operator.Equality.Objects.{job_config_changed}
use sesame_operator.Owned.{ignoring_not_found}
use sesame_operator.Owned.Ensure.{on_current}
use sesame_operator.Cluster.Keeps.{Keeps, Keeps-bind, Keeps-fail, Keeps-pure}
use sesame_operator.Jobs.Safety.{PollKeeps}
use sesame_operator.Jobs.{
  current_job, desired_job, job_created, retry_job_create, recreate_changed, recreate_job_if_needed,
  ensure_job,
}

-- `wait.ErrWaitTimeout`
abbrev timed_out : Err
timed_out = message "timed out waiting for the condition"

Answer-cases : (a : Answer Unit) → (a ≡ answer tt) ⊎ ((e : ClientError) × (a ≡ failed e))
Answer-cases (answer tt) = inl refl
Answer-cases (failed e) = inr (e, refl)

module _ {C : Type 0} where
  -- The condition is run until it is true, `n` times at most.
  unfoldable pub attempts : ℕ → Exec C Bool → Exec C Unit
  attempts zero cond = fail timed_out
  attempts (suc n) cond = do done ← cond; elim done [ true ↦ pure tt | false ↦ attempts n cond ]

  -- What `wait.PollImmediate` promises: it runs the condition at once and after each interval, until
  -- the condition is true or fails, or the time is up, after `least` rounds at the earliest, and
  -- `most` at the latest.
  pub record IsPoll (least most : ℕ) (poll : Exec C Bool → Exec C Unit) : Type 0 where
    pub rounds :
        (cond : Exec C Bool) (c : C)
        → (n : ℕ) × (least ≤ n) × (n ≤ most) × (poll cond c ≡ attempts n cond c)

module _ {C : Type 0} {P : C → Type 0} where
  next-Keeps :
      (rest : Exec C Unit)
      → Keeps P rest
      → (done : Bool) → Keeps P (elim done [ true ↦ pure tt | false ↦ rest ])
  next-Keeps rest k true = Keeps-pure tt
  next-Keeps rest k false = k

  attempts-Keeps : (n : ℕ) (cond : Exec C Bool) → Keeps P cond → Keeps P (attempts n cond)
  unfolding attempts
  attempts-Keeps zero cond k = Keeps-fail timed_out
  attempts-Keeps (suc n) cond k =
      Keeps-bind cond _ k (next-Keeps (attempts n cond) (attempts-Keeps n cond k))

  -- Polling keeps what its condition keeps.
  pub IsPoll-PollKeeps :
      {least most : ℕ} {poll : Exec C Bool → Exec C Unit}
      → IsPoll least most poll
      → PollKeeps P poll
  IsPoll-PollKeeps is cond k = record {
    at =
        λ c h. let (n, l, m, same) = is.rounds cond c in rw same ((attempts-Keeps n cond k).at c h);
  }

module _ {C : Type 0} (cli : Client C) (job : Job) where
  -- From `c` on, `Create` fails `k` times and then succeeds, which leaves `c'`.
  abbrev pub CreatedAfter : ℕ → C → C → Type 0
  CreatedAfter zero c c' = cli.jobs.create job c ≡ (answer tt, c')
  CreatedAfter (suc k) c c' =
      (e : ClientError) × (c'' : C) × (cli.jobs.create job c ≡ (failed e, c''))
      × CreatedAfter k c'' c'

  attempts_enough :
      (n k : ℕ) (c c' : C)
      → CreatedAfter k c c'
      → k < n
      → attempts n (job_created cli job) c ≡ (ok tt, c')
  unfolding attempts job_created ◌>>=◌ on_answer
  attempts_enough zero k c c' h l = absurd (omega arith)
  attempts_enough (suc n) zero c c' h l = rw h
  attempts_enough (suc n) (suc k) c c' (e, d, h, later) l =
      rw (h, attempts_enough n k d c' later (omega arith))

  module _ (count : C → ℕ)
      (counts : (c : C) → count (cli.jobs.create job c).1 ≤ suc (count c)) where
    attempts_bound : (n : ℕ) (c : C) → count (attempts n (job_created cli job) c).1 ≤ n + count c
    unfolding attempts job_created ◌>>=◌ on_answer
    attempts_bound zero c = omega arith
    attempts_bound (suc n) c =
        let once = counts c in
        elim (Answer-cases (cli.jobs.create job c).0) [
          | inl h ↦ rw h (omega arith)
          | inr (e, h) ↦ let rest = attempts_bound n (cli.jobs.create job c).1 in rw h (omega arith)
        ]

    -- If each call that creates the job raises a count by one at most, then the repeated creation
    -- raises it by `most` at most, which is the number of rounds that the polling allows.
    pub retry_job_create-bounded :
        (least most : ℕ) (poll : Exec C Bool → Exec C Unit)
        → IsPoll least most poll
        → (c : C) → count (retry_job_create cli poll job c).1 ≤ most + count c
    unfolding retry_job_create wrapping
    retry_job_create-bounded least most poll is c =
        let (n, l, m, same) = is.rounds (job_created cli job) c in
        let bound = attempts_bound n c in rw same (omega arith)

module _ {C : Type 0} (cli : Client C) (poll : Exec C Bool → Exec C Unit) (least most : ℕ)
    (is : IsPoll least most poll) where
  recreate_enough :
      (job : Job) (k : ℕ) (c c1 c2 : C)
      → cli.jobs.delete job c ≡ (answer tt, c1)
      → CreatedAfter cli job k c1 c2
      → k < least
      → recreate_changed cli poll (some job) c ≡ (ok tt, c2)
  unfolding recreate_changed ignoring_not_found ◌>>=◌ on_answer retry_job_create wrapping
  recreate_enough job k c c1 c2 deleted comes l =
      let (n, above, below, same) = is.rounds (job_created cli job) c1 in
      rw (deleted, same, attempts_enough cli job n k c1 c2 comes (omega arith))

  -- If the job that the cluster has carries the owner labels of the sesame and differs from the
  -- desired one, the deletion finds it, and the creations of the desired job that follow fail fewer
  -- times than the polling has rounds, then `EnsureJob` ends without an error in the state in which
  -- the desired job was created.
  pub ensure_job_recreated :
      (eq : Semantic) (s : Sesame) (image : String) (current : Job) (k : ℕ) (c c1 c2 c3 : C)
      → current_job cli s c ≡ (answer current, c1)
      → Owned s current.labels
      → job_config_changed eq current (desired_job s image) ≡ some (desired_job s image)
      → cli.jobs.delete (desired_job s image) c1 ≡ (answer tt, c2)
      → CreatedAfter cli (desired_job s image) k c2 c3
      → k < least
      → ensure_job cli poll eq s image c ≡ (ok tt, c3)
  unfolding ensure_job on_current recreate_job_if_needed ◌>>=◌ on_answer wrapping
  ensure_job_recreated eq s image current k c c1 c2 c3 found owned differs deleted comes l =
      rw (found, owned, differs, recreate_enough (desired_job s image) k c1 c2 c3 deleted comes l)
