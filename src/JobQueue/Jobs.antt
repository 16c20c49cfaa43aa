-- ===== src/JobQueue/Jobs.antt =====
-- src/job_queue.py: the jobs, their states and the queue. A job object is identified by its id, a
-- fresh uuid, so the queue holds ids.
use swift_route.Prelude.{
  String, Bool, true, false, Option, none, some, List, [], ◌∷◌, ◌++◌, if◌then◌else◌,
}
use swift_route.Prelude.Dict.{Dict, lookup, insert}
use swift_route.Json.{JsonObject}
use swift_route.Persistence.{Db, create_job, update_job_status}

pub data JobStatus : Type 0 where
  queued running frozen completed failed : JobStatus

-- JobStatus.….value
abbrev pub status_text : JobStatus → String
status_text queued = "queued"
status_text running = "running"
status_text frozen = "frozen"
status_text completed = "completed"
status_text failed = "failed"

-- The flags say which of the two events are set.
pub record Job (W : Type 0) : Type 0 where
  pub job_id : String
  pub script_b64 : String
  pub zone_id : String
  pub zone_name : String
  pub payment_id : String
  pub total_charge : W
  pub status : JobStatus
  pub vm_logs : JsonObject W
  pub receipt : JsonObject W
  pub payment_result : JsonObject W
  pub freeze_event : Bool
  pub resume_event : Bool

pub record JobQueue (W : Type 0) : Type 0 where
  pub queue : List String
  pub jobs : Dict (Job W)

abbrev pub is_running : JobStatus → Bool
is_running running = true
is_running _ = false

abbrev pub is_frozen : JobStatus → Bool
is_frozen frozen = true
is_frozen _ = false

module _ {W : Type 0} where
  -- The constructor's defaults and `__post_init__`.
  abbrev pub new_job : String → String → String → String → String → W → Job W
  new_job job_id script_b64 zone_id zone_name payment_id total_charge = record {
    job_id = job_id;
    script_b64 = script_b64;
    zone_id = zone_id;
    zone_name = zone_name;
    payment_id = payment_id;
    total_charge = total_charge;
    status = queued;
    vm_logs = [];
    receipt = [];
    payment_result = [];
    freeze_event = true;
    resume_event = false;
  }

  -- Job.freeze and Job.resume
  unfoldable pub freeze : Job W → Job W
  freeze job =
      if is_running job.status then record job { status = frozen; freeze_event = false } else job

  unfoldable pub resume : Job W → Job W
  resume job =
      if is_frozen job.status
      then record job { status = running; resume_event = true; freeze_event = true }
      else job

  -- `none` beside the queue is the IntegrityError of `create_job`, which comes after the queue has the
  -- job.
  unfoldable pub enqueue : String → Job W → JobQueue W → Db W → JobQueue W × Option (Db W)
  enqueue now job q db = (
    record { queue = q.queue ++ (job.job_id ∷ []); jobs = insert job.job_id job q.jobs },
    create_job job.job_id job.script_b64 job.zone_id job.zone_name now db,
  )

  unfoldable pub get_job : String → JobQueue W → Option (Job W)
  get_job job_id q = lookup job_id q.jobs

  abbrev pub job_is : (JobStatus → Bool) → Option (Job W) → Bool
  job_is test none = false
  job_is test (some job) = test job.status

  unfoldable pub put_job : String → (Job W → Job W) → JobQueue W → JobQueue W
  put_job job_id change q = elim (lookup job_id q.jobs) [
    | none ↦ q
    | some job ↦ record q { jobs = insert job_id (change job) q.jobs }
  ]

  unfoldable pub freeze_job : String → String → JobQueue W → Db W → JobQueue W × Db W × Bool
  unfolding freeze update_job_status
  freeze_job now job_id q db =
      if job_is is_running (lookup job_id q.jobs)
      then (put_job job_id freeze q, update_job_status job_id "frozen" now db, true)
      else (q, db, false)

  unfoldable pub resume_job : String → String → JobQueue W → Db W → JobQueue W × Db W × Bool
  unfolding resume update_job_status
  resume_job now job_id q db =
      if job_is is_frozen (lookup job_id q.jobs)
      then (put_job job_id resume q, update_job_status job_id "running" now db, true)
      else (q, db, false)
