-- ===== src/Gateway/Webhook.antt =====
-- What a grid event does to the jobs (src/gateway.py, `grid_webhook`).
use mathlib.Core.Option
use swift_route.Prelude.{◌≡◌, ◌≢◌, some, arith}
use swift_route.Float.{Float}
use swift_route.Sge.{SyntheticGridElasticity}
use swift_route.JobQueue.World.{World, Env}
use swift_route.Gateway.{GatewayError, server_error, refused}
use swift_route.Gateway.Grid.{GridWebhook, grid_webhook}

module _ {W : Type 0} ⦃f : Float W⦄ (env : Env W) (webhook : GridWebhook W)
    (sge : SyntheticGridElasticity W) (w : World W) where
  -- An event that is refused changes neither the engine nor the jobs, unless a handler raised.
  pub refused_webhook_unchanged :
      (e : GatewayError)
      → e ≢ server_error
      → (grid_webhook env webhook (some sge) w).2 ≡ refused e
      → grid_webhook env webhook (some sge) w ≡ (some sge, w, refused e)
  unfolding grid_webhook
  refused_webhook_unchanged e caught h = ground arith
