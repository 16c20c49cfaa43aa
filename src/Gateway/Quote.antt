-- ===== src/Gateway/Quote.antt =====
-- src/gateway.py: `tunnel_route_and_price`, beside the tickets that are sold.
use swift_route.Prelude.{◌≡◌, true, arith, none, String}
use swift_route.Float.{Float}
use swift_route.Config.{Settings}
use swift_route.Pricing.{PricingResult, calculate_pricing}
use swift_route.Router.{
  Zone, HttpClient, routed, failed as route_failed, find_optimal_zone, default_workload,
}
use swift_route.JobQueue.World.{World, Env}
use swift_route.Gateway.{
  Answer, answer, refused, routing_failed, TicketRequest, TicketResponse, ScriptTools, buy_ticket,
}

module _ {W : Type 0} ⦃f : Float W⦄ where
  -- The zone and the pricing stand for the entries that are read off them; the entries on the ticket
  -- endpoint are constants.
  unfoldable pub tunnel_route_and_price :
      Settings W → HttpClient W → Answer (Zone W × PricingResult W)
  unfolding find_optimal_zone calculate_pricing
  tunnel_route_and_price settings http =
      elim (find_optimal_zone settings http default_workload none) [
        | route_failed e ↦ refused (routing_failed e)
        | routed (zone, remote_state) ↦ answer (zone, calculate_pricing settings remote_state)
      ]

  -- A ticket that is sold has the zone and the pricing that `tunnel_route_and_price` answers under the
  -- same settings and zone data, and its pricing is profitable.
  pub buy_ticket-quoted :
      {Bytes : Type 0} (env : Env W) (tools : ScriptTools Bytes) (pid job_id : String)
      (req : TicketRequest W) (w : World W) (t : TicketResponse W)
      → (buy_ticket env tools pid job_id req w).1 ≡ answer t
      → (tunnel_route_and_price env.settings env.http ≡ answer (t.zone, t.pricing))
        × (t.pricing.is_profitable ≡ true)
  unfolding buy_ticket tunnel_route_and_price
  buy_ticket-quoted env tools pid job_id req w t sold = ground (arith, sold)
