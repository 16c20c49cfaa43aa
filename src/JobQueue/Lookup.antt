-- ===== src/JobQueue/Lookup.antt =====
-- Reading a job after the changes of src/job_queue.py.
use mathlib.Core.Option
use swift_route.Prelude.{String, ◌≡◌, arith, str_eq, eq_iff, if◌then◌else◌, Option-cases, inl, inr}
use swift_route.Prelude.Dict.{lookup, lookup-insert}
use swift_route.JobQueue.Jobs.{Job, JobQueue, put_job}

module _ {W : Type 0} where
  pub lookup-put_job :
      (k j : String) (change : Job W → Job W) (q : JobQueue W)
      → lookup j (put_job k change q).jobs
        ≡ (if str_eq k j then Option.map change (lookup j q.jobs) else lookup j q.jobs)
  unfolding put_job
  lookup-put_job k j change q = elim (Option-cases (lookup k q.jobs)) [
    | inl e ↦ ground (arith, eq_iff k j)
    | inr (job, e) ↦ ground (arith, eq_iff k j, lookup-insert k j (change job) q.jobs)
  ]
