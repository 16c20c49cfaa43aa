-- ===== src/JobQueue/Steps.antt =====
-- One step of the worker from wherever it stands, and the steps of the other tasks: the webhook's
-- freezes and resumes and the tickets' submissions (src/job_queue.py, src/gateway.py).
use swift_route.Prelude.{String, Option, none, some, List, [], ◌∷◌, str_eq, if◌then◌else◌}
use swift_route.Prelude.Dict.{lookup}
use swift_route.Float.{Float}
use swift_route.Persistence.{Db}
use swift_route.Tunnel.{TunnelConfig}
use swift_route.Vm.{MicroVm}
use swift_route.JobQueue.Jobs.{Job, is_frozen, job_is, freeze_job, resume_job, enqueue}
use swift_route.JobQueue.World.{
  World, Env, Phase, idle, before_execution, after_execution, after_capture, Wait, unchecked,
  parked, woken, register, prune_job_registry,
}
use swift_route.JobQueue.Worker.{start_job, run_vm, capture_payment, complete_job}

-- What `_freeze_event.set()` does to a task that waits for it.
abbrev pub wake_wait : Wait → Wait
wake_wait parked = woken
wake_wait unchecked = unchecked
wake_wait woken = woken

abbrev pub wake : String → Phase → Phase
wake id (before_execution j vm tunnel wait) =
    before_execution j vm tunnel (if str_eq j id then wake_wait wait else wait)
wake id (after_execution j vm tunnel wait) =
    after_execution j vm tunnel (if str_eq j id then wake_wait wait else wait)
wake id idle = idle
wake id (after_capture j vm tunnel) = after_capture j vm tunnel

module _ {W : Type 0} where
  unfoldable pub freeze_in : Env W → String → World W → World W
  unfolding freeze_job
  freeze_in env id w =
      let (jobs', db', _) = freeze_job env.now id w.jobs w.db in record w { jobs = jobs'; db = db' }

  unfoldable pub resume_in : Env W → String → World W → World W
  unfolding resume_job
  resume_in env id w =
      let (jobs', db', done) = resume_job env.now id w.jobs w.db in
      record w { jobs = jobs'; db = db'; phase = if done then wake id w.phase else w.phase }

  abbrev pub stored_or : Db W → Option (Db W) → Db W
  stored_or db none = db
  stored_or db (some db') = db'

  -- The end of `buy_ticket`: the id is registered, the registry is pruned by the jobs that the queue
  -- knows, which are those before this one, and the job is put into the queue.
  unfoldable pub submit_in : Env W → Job W → World W → World W
  unfolding enqueue register prune_job_registry
  submit_in env job w =
      let registry' =
        prune_job_registry env.settings.rate_limit_max_entries w.jobs.jobs
          (register job.job_id w.registry) in
      let (jobs', db') = enqueue env.now job w.jobs w.db in
      record w { jobs = jobs'; db = stored_or w.db db'; registry = registry' }

module _ {W : Type 0} ⦃f : Float W⦄ where
  -- The job of the queue's head, which `_queue.get()` has removed.
  abbrev pub take_job : Env W → World W → Option (Job W) → World W
  take_job env w none = w
  take_job env w (some job) = start_job env job w

  abbrev pub step_idle : Env W → World W → List String → World W
  step_idle env w [] = w
  step_idle env w (id ∷ rest) =
      take_job env (record w { jobs = record (w.jobs) { queue = rest } }) (lookup id w.jobs.jobs)

  abbrev pub capture_found : Env W → MicroVm → TunnelConfig → World W → Option (Job W) → World W
  capture_found env vm tunnel w none = w
  capture_found env vm tunnel w (some job) = capture_payment env job vm tunnel w

  abbrev pub complete_found : Env W → MicroVm → TunnelConfig → World W → Option (Job W) → World W
  complete_found env vm tunnel w none = w
  complete_found env vm tunnel w (some job) = complete_job env job vm tunnel w

  abbrev pub step_at : Env W → World W → Phase → World W
  step_at env w idle = step_idle env w w.jobs.queue
  step_at env w (before_execution id vm tunnel unchecked) =
      if job_is is_frozen (lookup id w.jobs.jobs)
      then record w { phase = before_execution id vm tunnel parked }
      else run_vm env id vm tunnel w
  step_at env w (before_execution id vm tunnel parked) = w
  step_at env w (before_execution id vm tunnel woken) = run_vm env id vm tunnel w
  step_at env w (after_execution id vm tunnel unchecked) =
      if job_is is_frozen (lookup id w.jobs.jobs)
      then record w { phase = after_execution id vm tunnel parked }
      else capture_found env vm tunnel w (lookup id w.jobs.jobs)
  step_at env w (after_execution id vm tunnel parked) = w
  step_at env w (after_execution id vm tunnel woken) =
      capture_found env vm tunnel w (lookup id w.jobs.jobs)
  step_at env w (after_capture id vm tunnel) =
      complete_found env vm tunnel w (lookup id w.jobs.jobs)

  -- The worker runs from where it stands to the next place where other tasks can run.
  unfoldable pub worker_step : Env W → World W → World W
  worker_step env w = step_at env w w.phase

pub data Event (W : Type 0) : Type 0 where
  work : Event W
  freeze_event resume_event : String → Event W
  submit : Job W → Event W

module _ {W : Type 0} ⦃f : Float W⦄ where
  unfoldable pub step : Env W → Event W → World W → World W
  step env work w = worker_step env w
  step env (freeze_event id) w = freeze_in env id w
  step env (resume_event id) w = resume_in env id w
  step env (submit job) w = submit_in env job w

  -- A run: each event with the outside world that it meets.
  unfoldable pub run : List (Env W × Event W) → World W → World W
  run [] w = w
  run ((env, e) ∷ es) w = run es (step env e w)
