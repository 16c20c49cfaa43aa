-- ===== src/Tests/Tickets.antt =====
-- Tickets and grid events at the gateway.
use mathlib.Core.Option
use swift_route.Prelude.{String, ◌≡◌, ◌≢◌, refl, arith, true, some, none, [], ◌∷◌}
use swift_route.Prelude.Dict.{lookup}
use swift_route.Prelude.Int.{ℤ, pos, ◌+ℤ◌, ◌-ℤ◌}
use swift_route.Fixed.{fixed_float}
use swift_route.Pricing.{calculate_pricing}
use swift_route.Payments.{net_of}
use swift_route.Payments.Mock.{mock_authorize}
use swift_route.Payments.Processor.{authorize}
use swift_route.Router.{
  find_optimal_zone, fetch_zones, best_zone, zone_score, zone_to_state, default_workload,
}
use swift_route.Sge.{new_sge}
use swift_route.JobQueue.Jobs.{queued, JobQueue, running}
use swift_route.JobQueue.World.{World, registered}
use swift_route.JobQueue.Mirror.{Mirrored}
use swift_route.ScriptValidator.{
  validate_script, validate_tree, walk, size, nodes, check_node, is_in, validate_call,
  get_dotted_name, dotted_parts, is_dangerous, ends_with,
}
use swift_route.Gateway.{
  TicketRequest, TicketResponse, ScriptTools, answer, refused, unknown_job, over_budget,
  server_error, check_script, total_charge_of, buy_ticket,
}
use swift_route.Gateway.Grid.{GridWebhook, grid_webhook}
use swift_route.Gateway.Ticket.{
  IsSold, refused_ticket_unchanged, buy_ticket-IsSold, buy_ticket-Mirrored,
}
use swift_route.Gateway.Quote.{tunnel_route_and_price, buy_ticket-quoted}
use swift_route.Gateway.Webhook.{refused_webhook_unchanged}
use swift_route.Tests.Data.{hydro, env, settings, world, job}
use swift_route.Tests.Jobs.{world-Mirrored}
use swift_route.Tests.Scripts.{print_hello}

-- Texts for bytes, and one tree for every text.
abbrev tools : ScriptTools String
tools = record {
  b64decode = λ s. some s;
  len = λ _. 14;
  decode = λ s. some s;
  parse = λ _. some print_hello;
}

abbrev request : TicketRequest ℤ
request = record {
  action = "buy_subgrid_compute_ticket";
  execution_script_b64 = "print('hello')";
  max_budget_usd = some (pos 1_000_000);
  stripe_payment_method_id = none;
}

-- A budget of 0.10 USD.
abbrev poor_request : TicketRequest ℤ
poor_request = record request { max_budget_usd = some (pos 100_000) }

-- The charge is 0.25 + 0.19 USD.
abbrev ticket : TicketResponse ℤ
ticket =
    let pricing = calculate_pricing settings (zone_to_state hydro default_workload) in
    record {
      job_id = "j-9";
      status = queued;
      zone = hydro;
      pricing = pricing;
      receipt = [];
      vm_logs = [];
      payment =
          (authorize env.api settings "pay-9" (pos 440_000)
            "SAP compute ticket: Quebec Hydro Overflow" "" world.payment).1;
    }

buy_ticket-IsSold_example :
    IsSold env tools "pay-9" "j-9" request world ticket
      (buy_ticket env tools "pay-9" "j-9" request world).0
unfolding buy_ticket check_script validate_script validate_tree walk size nodes check_node is_in
    validate_call get_dotted_name dotted_parts is_dangerous ends_with find_optimal_zone fetch_zones
    best_zone zone_score zone_to_state calculate_pricing total_charge_of authorize mock_authorize
    net_of lookup ◌+ℤ◌ ◌-ℤ◌
buy_ticket-IsSold_example = buy_ticket-IsSold env tools "pay-9" "j-9" request world ticket refl

refused_ticket_unchanged_example : (buy_ticket env tools "pay-9" "j-9" poor_request world).0 ≡ world
unfolding buy_ticket check_script validate_script validate_tree walk size nodes check_node is_in
    validate_call get_dotted_name dotted_parts is_dangerous ends_with find_optimal_zone fetch_zones
    best_zone zone_score zone_to_state calculate_pricing total_charge_of lookup ◌+ℤ◌ ◌-ℤ◌
refused_ticket_unchanged_example =
    refused_ticket_unchanged env tools "pay-9" "j-9" poor_request world over_budget refl refl

buy_ticket-Mirrored_example : Mirrored (buy_ticket env tools "pay-9" "j-9" request world).0
unfolding lookup
buy_ticket-Mirrored_example =
    buy_ticket-Mirrored env tools "pay-9" "j-9" request world refl world-Mirrored

buy_ticket-quoted_example :
    (tunnel_route_and_price settings env.http ≡ answer (hydro, ticket.pricing))
    × (ticket.pricing.is_profitable ≡ true)
unfolding buy_ticket check_script validate_script validate_tree walk size nodes check_node is_in
    validate_call get_dotted_name dotted_parts is_dangerous ends_with find_optimal_zone fetch_zones
    best_zone zone_score zone_to_state calculate_pricing total_charge_of authorize mock_authorize
    net_of lookup ◌+ℤ◌ ◌-ℤ◌
buy_ticket-quoted_example = buy_ticket-quoted env tools "pay-9" "j-9" request world ticket refl

abbrev webhook : GridWebhook ℤ
webhook = record {
  event_type = "peak_demand";
  zone_id = "ca-hydro-03";
  price_usd_per_mwh = pos 6_500_000_000;
  timestamp = "2026-01-02T10:00:00Z";
  job_id = "j-1";
}

abbrev jobs_running : JobQueue ℤ
jobs_running = record { queue = []; jobs = ("j-1", record job { status = running }) ∷ [] }

abbrev busy_world : World ℤ
busy_world = record world { jobs = jobs_running; registry = "j-1" ∷ [] }

unknown_is_no_server_error : unknown_job ≢ server_error
unknown_is_no_server_error e = ground arith

-- The world without the job does not know its id.
refused_webhook_unchanged_example :
    grid_webhook env webhook (some (new_sge settings)) world
    ≡ (some (new_sge settings), world, refused unknown_job)
unfolding grid_webhook registered
refused_webhook_unchanged_example =
    refused_webhook_unchanged env webhook (new_sge settings) world unknown_job
      unknown_is_no_server_error refl
