-- ===== src/Tests/Endings.antt =====
-- A job that comes to its end.
use swift_route.Prelude.{refl, [], ◌∷◌}
use swift_route.Prelude.Dict.{lookup}
use swift_route.Prelude.Int.{ℤ}
use swift_route.Fixed.{fixed_float}
use swift_route.Vm.{MicroVm, fresh_vm}
use swift_route.JobQueue.Jobs.{Job, JobQueue, running}
use swift_route.JobQueue.World.{World, before_execution, unchecked}
use swift_route.JobQueue.Worker.{complete_job}
use swift_route.JobQueue.Steps.{run, work}
use swift_route.JobQueue.Cleanup.{IsOver, complete_job-IsOver}
use swift_route.JobQueue.Ending.{prepared_job-IsOver}
use swift_route.Tests.Data.{env, world, job, tunnel, real_host}

abbrev vm : MicroVm
vm = fresh_vm real_host "vm-1"

abbrev running_job : Job ℤ
running_job = record job { status = running }

abbrev running_queue : JobQueue ℤ
running_queue = record { queue = []; jobs = ("j-1", running_job) ∷ [] }

abbrev prepared_world : World ℤ
prepared_world = record world {
  jobs = running_queue;
  registry = "j-1" ∷ [];
  phase = before_execution "j-1" vm tunnel unchecked;
}

complete_job-IsOver_example :
    IsOver "j-1" vm tunnel (complete_job env running_job vm tunnel prepared_world)
unfolding lookup
complete_job-IsOver_example = complete_job-IsOver vm tunnel refl env running_job prepared_world refl

prepared_job-IsOver_example :
    IsOver "j-1" vm tunnel (run ((env, work) ∷ (env, work) ∷ (env, work) ∷ []) prepared_world)
unfolding lookup
prepared_job-IsOver_example =
    prepared_job-IsOver "j-1" vm tunnel env env env prepared_world running_job refl refl refl refl
      refl
