-- ===== src/Gateway/Grid.antt =====
-- src/gateway.py: `grid_webhook`, the events of the grid.

use swift_route.Prelude.{String, not, Option, none, some, if◌then◌else◌}
use swift_route.Float.{Float}
use swift_route.Sge.{
  GridEvent, SgeEventType, SgeAction, frozen, resumed, ignored, SyntheticGridElasticity,
  parse_event_type, process_event,
}
use swift_route.JobQueue.World.{World, Env, registered}
use swift_route.JobQueue.Steps.{freeze_in, resume_in}
use swift_route.Gateway.{
  Answer, answer, refused, unknown_job, sge_not_ready, invalid_event_type, server_error,
}

pub record GridWebhook (W : Type 0) : Type 0 where
  pub event_type : String
  pub zone_id : String
  pub price_usd_per_mwh : W
  pub timestamp : String
  pub job_id : String

module _ {W : Type 0} ⦃f : Float W⦄ where
  -- The engine's result, and what it does to the job.
  abbrev pub apply_action :
      Env W → String → World W → Option (SgeAction W) → World W × Answer (SgeAction W)
  apply_action env job_id w none = (w, refused server_error)
  apply_action env job_id w (some (frozen j minutes payout)) =
      (freeze_in env job_id w, answer (frozen j minutes payout))
  apply_action env job_id w (some (resumed j)) = (resume_in env job_id w, answer (resumed j))
  apply_action env job_id w (some (ignored reason)) = (w, answer (ignored reason))

  abbrev pub run_event :
      Env W
      → GridWebhook W
      → SyntheticGridElasticity W
      → World W
      → Option SgeEventType
      → Option (SyntheticGridElasticity W) × World W × Answer (SgeAction W)
  run_event env webhook sge w none = (some sge, w, refused invalid_event_type)
  run_event env webhook sge w (some event_type) =
      let event : GridEvent W = record {
        event_type = event_type;
        zone_id = webhook.zone_id;
        price_usd_per_mwh = webhook.price_usd_per_mwh;
        timestamp = webhook.timestamp;
      } in
      let result = process_event env.settings event webhook.job_id sge in
      let (w', result_answer) = apply_action env webhook.job_id w result.action in
      (some result.state, w', result_answer)

  -- `none` for the engine is `sge is None`.
  unfoldable pub grid_webhook :
      Env W
      → GridWebhook W
      → Option (SyntheticGridElasticity W)
      → World W
      → Option (SyntheticGridElasticity W) × World W × Answer (SgeAction W)
  grid_webhook env webhook none w = (none, w, refused sge_not_ready)
  grid_webhook env webhook (some sge) w =
      if not (registered webhook.job_id w.registry)
      then (some sge, w, refused unknown_job)
      else run_event env webhook sge w (parse_event_type webhook.event_type)
