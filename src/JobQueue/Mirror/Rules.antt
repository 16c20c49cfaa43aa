-- ===== src/JobQueue/Mirror/Rules.antt =====
-- When the statuses of rows and job objects (src/job_queue.py) agree, and how changes of either bear
-- on it.
use mathlib.Core.Option
use swift_route.Prelude.{
  String, ◌≡◌, refl, sym, ap, ◌∙◌, Option, none, some, str_eq, eq_iff, Bool-cases, inl, inr,
}
use swift_route.Prelude.Dict.{Dict, lookup, adjust, lookup-adjust}
use swift_route.Persistence.{JobRow}
use swift_route.JobQueue.Jobs.{Job, JobQueue, status_text, put_job}
use swift_route.JobQueue.Lookup.{lookup-put_job}

module _ {W : Type 0} where
  -- A job that the queue knows has a row, and the row has its status.
  abbrev pub Agrees : Option (Job W) → Option JobRow → Type 0
  Agrees none row = Unit
  Agrees (some job) none = ⊥
  Agrees (some job) (some row) = row.status ≡ status_text job.status

  pub record IsMirrored (jobs : Dict (Job W)) (rows : Dict JobRow) : Type 0 where
    pub at : (id : String) → Agrees (lookup id jobs) (lookup id rows)

  Agrees-map :
      (g : Job W → Job W) (h : JobRow → JobRow) (o : Option (Job W)) (r : Option JobRow)
      → ((job : Job W) (row : JobRow)
          → o ≡ some job
          → row.status ≡ status_text job.status
          → (h row).status ≡ status_text (g job).status)
      → Agrees o r
      → Agrees (Option.map g o) (Option.map h r)
  Agrees-map g h none r keep a = tt
  Agrees-map g h (some job) none keep a = a
  Agrees-map g h (some job) (some row) keep a = keep job row refl a

  -- The job and its row change together.
  pub change_both :
      (id : String) (g : Job W → Job W) (h : JobRow → JobRow) (q : JobQueue W) (rows : Dict JobRow)
      → ((job : Job W) (row : JobRow)
          → lookup id q.jobs ≡ some job
          → row.status ≡ status_text job.status
          → (h row).status ≡ status_text (g job).status)
      → IsMirrored q.jobs rows
      → IsMirrored (put_job id g q).jobs (adjust id h rows)
  change_both id g h q rows keep m = record {
    at = λ j.
        rw (lookup-put_job id j g q, lookup-adjust id j h rows)
          (elim (Bool-cases (str_eq id j)) [
            | inl e ↦ rw e (
                Agrees-map g h (lookup j q.jobs) (lookup j rows)
                  (λ job row found. keep job row (rw ((eq_iff id j).0 e) found)) (m.at j))
            | inr e ↦ rw e (m.at j)
          ]);
  }

  Agrees-row :
      (h : JobRow → JobRow) (keep : (row : JobRow) → (h row).status ≡ row.status)
      (o : Option (Job W)) (r : Option JobRow)
      → Agrees o r
      → Agrees o (Option.map h r)
  Agrees-row h keep none r a = tt
  Agrees-row h keep (some job) none a = a
  Agrees-row h keep (some job) (some row) a = keep row ∙ a

  -- A row changes and keeps its status.
  pub change_row :
      (id : String) (h : JobRow → JobRow) (jobs : Dict (Job W)) (rows : Dict JobRow)
      → ((row : JobRow) → (h row).status ≡ row.status)
      → IsMirrored jobs rows
      → IsMirrored jobs (adjust id h rows)
  change_row id h jobs rows keep m = record {
    at = λ j. rw (lookup-adjust id j h rows) (elim (Bool-cases (str_eq id j)) [
      | inl e ↦ rw e (Agrees-row h keep (lookup j jobs) (lookup j rows) (m.at j))
      | inr e ↦ rw e (m.at j)
    ]);
  }

  Agrees-job :
      (g : Job W → Job W) (keep : (job : Job W) → (g job).status ≡ job.status) (o : Option (Job W))
      (r : Option JobRow)
      → Agrees o r
      → Agrees (Option.map g o) r
  Agrees-job g keep none r a = tt
  Agrees-job g keep (some job) none a = a
  Agrees-job g keep (some job) (some row) a = a ∙ ap status_text (sym (keep job))

  -- The job changes and keeps its status.
  pub change_job :
      (id : String) (g : Job W → Job W) (q : JobQueue W) (rows : Dict JobRow)
      → ((job : Job W) → (g job).status ≡ job.status)
      → IsMirrored q.jobs rows
      → IsMirrored (put_job id g q).jobs rows
  change_job id g q rows keep m = record {
    at = λ j. rw (lookup-put_job id j g q) (elim (Bool-cases (str_eq id j)) [
      | inl e ↦ rw e (Agrees-job g keep (lookup j q.jobs) (lookup j rows) (m.at j))
      | inr e ↦ rw e (m.at j)
    ]);
  }
