-- ===== src/Tests/Jobs.antt =====
-- Runs of the worker.
use mathlib.Core.Option
use swift_route.Prelude.{◌≡◌, refl, some, List, [], ◌∷◌}
use swift_route.Prelude.Dict.{lookup, insert, erase, adjust}
use swift_route.Prelude.Int.{ℤ, pos, ◌+ℤ◌, ◌-ℤ◌}
use swift_route.Fixed.{fixed_float}
use swift_route.Persistence.{
  create_job, update_job_status, update_job_result, store_receipt, set_balances,
}
use swift_route.Payments.{net_of, fee_of, earned_of, captured_result}
use swift_route.Payments.Mock.{mock_capture, mock_save}
use swift_route.Payments.Processor.{capture, held_balance}
use swift_route.Pricing.{
  calculate_pricing, minus, calculate_fees, local_state, total_optimized_value,
}
use swift_route.Router.{find_optimal_zone, fetch_zones, best_zone, zone_score, zone_to_state}
use swift_route.Tunnel.{create_tunnel, write_config, tear_down}
use swift_route.Vm.{create_vm, execute, destroy}
use swift_route.Receipts.{generate}
use swift_route.JobQueue.Jobs.{put_job, freeze_job, resume_job, freeze, resume, enqueue, completed}
use swift_route.JobQueue.Worker.{
  start_job, set_status, prepare_job, run_vm, capture_payment, complete_job, finish, fail_job,
}
use swift_route.JobQueue.World.{Env, idle, register, unregister, registered}
use swift_route.JobQueue.Steps.{
  Event, work, freeze_event, resume_event, submit, step, run, worker_step, submit_in, freeze_in,
  resume_in,
}
use swift_route.JobQueue.Mirror.{Mirrored, AllFresh, run-Mirrored}
use swift_route.Tests.Data.{env, world, job}

-- A ticket, and the worker's steps with a freeze and a resume between them.
abbrev events : List (Env ℤ × Event ℤ)
events =
    (env, submit job)
    ∷ (env, work)
    ∷ (env, freeze_event "j-1")
    ∷ (env, work)
    ∷ (env, resume_event "j-1")
    ∷ (env, work)
    ∷ (env, work)
    ∷ (env, work)
    ∷ []

pub world-Mirrored : Mirrored world
unfolding lookup
world-Mirrored = record { at = λ id. tt }

events-AllFresh : AllFresh events world
unfolding lookup
events-AllFresh = ((refl, refl), (tt, (tt, (tt, (tt, (tt, (tt, (tt, tt))))))))

run-Mirrored_example : Mirrored (run events world)
run-Mirrored_example = run-Mirrored events world events-AllFresh world-Mirrored

abbrev while_frozen : List (Env ℤ × Event ℤ)
while_frozen =
    (env, work) ∷ (env, freeze_event "j-1") ∷ (env, resume_event "j-2") ∷ (env, work) ∷ []

-- The job is frozen, resumed, executed, captured and completed, and what it held is taken down.
-- No payment was authorized: the capture fails, and the job is completed unpaid.
run-events :
    let w = run events world in
    (Option.map (λ j. j.status) (lookup "j-1" w.jobs.jobs) ≡ some completed)
    × (w.registry ≡ [])
    × (w.phase ≡ idle)
    × (held_balance w.payment ≡ pos 0)
unfolding run step worker_step submit_in enqueue register create_job freeze_in freeze_job freeze
    resume_in resume_job resume put_job start_job set_status update_job_status prepare_job
    create_tunnel write_config create_vm run_vm execute capture_payment capture mock_capture
    complete_job find_optimal_zone fetch_zones best_zone zone_score zone_to_state calculate_pricing
    minus generate store_receipt update_job_result registered set_balances net_of fee_of earned_of
    captured_result mock_save calculate_fees local_state total_optimized_value finish destroy
    tear_down unregister fail_job lookup insert adjust erase ◌+ℤ◌ ◌-ℤ◌
run-events = (refl, refl, refl, refl)
