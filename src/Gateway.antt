-- ===== src/Gateway.antt =====
-- src/gateway.py: the purchase of a ticket, the look-up of a job and the errors of all endpoints. The
-- requests are those that FastAPI has parsed; an uncaught exception is a server error.
pub mod Ticket
pub mod Grid
pub mod Webhook
pub mod Checkout
pub mod RateLimit
pub mod Payouts
pub mod StripeEvents
pub mod StripeCalls
pub mod Lifespan
pub mod Quote
use Prim.Native.String
use swift_route.Prelude.{
  ℕ, ◌*◌, ltb, String, Bool, true, false, not, ◌&&◌, Option, none, some, List, [], ◌∷◌, str_eq,
  if◌then◌else◌,
}
use swift_route.Prelude.Dict.{lookup, contains}
use swift_route.Float.{Float}
use swift_route.Json.{JsonObject}
use swift_route.Persistence.{Db}
use swift_route.Payments.{
  PaymentResult, PaymentStatus, authorized, captured, failed as payment_failed, refunded,
}
use swift_route.Payments.Processor.{PaymentProcessor, authorize}
use swift_route.Pricing.{StateVector, PricingResult, calculate_pricing}
use swift_route.Router.{
  RouterError, Zone, Routed, routed, failed as route_failed, find_optimal_zone, default_workload,
}
use swift_route.ScriptValidator.{
  Forest, ScriptValidationError, Validated, accepted, rejected, unfinished, validate_script,
}
use swift_route.Sge.{
  GridEvent, SgeEventType, SgeAction, frozen, resumed, ignored, SyntheticGridElasticity,
  parse_event_type, process_event,
}
use swift_route.JobQueue.Jobs.{Job, JobStatus, queued, new_job, get_job}
use swift_route.JobQueue.World.{World, Env, registered}
use swift_route.JobQueue.Steps.{freeze_in, resume_in, submit_in}

pub record TicketRequest (W : Type 0) : Type 0 where
  pub action : String
  pub execution_script_b64 : String
  pub max_budget_usd : Option W
  pub stripe_payment_method_id : Option String

-- base64.b64decode, which may raise, len, bytes.decode and ast.parse.
pub record ScriptTools (Bytes : Type 0) : Type 0 where
  pub b64decode : String → Option Bytes
  pub len : Bytes → ℕ
  pub decode : Bytes → Option String
  pub parse : String → Option Forest

-- The HTTPExceptions, with their status codes below, and the errors that are not caught.
pub data GatewayError : Type 0 where
  unknown_action invalid_base64 script_too_large : GatewayError
  invalid_script : ScriptValidationError → GatewayError
  not_profitable over_budget payment_refused : GatewayError
  unknown_job sge_not_ready invalid_event_type : GatewayError
  amount_not_positive balance_too_low : GatewayError
  stripe_not_configured stripe_missing webhook_unverified stripe_failed : GatewayError
  routing_failed : RouterError → GatewayError
  -- The validator did not end, the id of the job is taken, or a handler of the engine raised.
  server_error : GatewayError

abbrev pub status_code : GatewayError → ℕ
status_code unknown_action = 400
status_code invalid_base64 = 400
status_code script_too_large = 400
status_code (invalid_script e) = 400
status_code not_profitable = 409
status_code over_budget = 402
status_code payment_refused = 402
status_code unknown_job = 404
status_code sge_not_ready = 503
status_code invalid_event_type = 400
status_code amount_not_positive = 400
status_code balance_too_low = 402
status_code stripe_not_configured = 503
status_code stripe_missing = 503
status_code webhook_unverified = 400
status_code stripe_failed = 502
status_code (routing_failed e) = 500
status_code server_error = 500

pub data Answer {ℓ} (A : Type ℓ) : Type ℓ where
  answer : A → Answer A
  refused : GatewayError → Answer A

-- The zone and the pricing stand for the entries that are read off them.
pub record TicketResponse (W : Type 0) : Type 0 where
  pub job_id : String
  pub status : JobStatus
  pub zone : Zone W
  pub pricing : PricingResult W
  pub receipt : JsonObject W
  pub vm_logs : JsonObject W
  pub payment : PaymentResult W

abbrev pub script_answer : Validated → Option GatewayError
script_answer accepted = none
script_answer (rejected e) = some (invalid_script e)
script_answer unfinished = some server_error

-- The guards of a ticket's script: `none` where it passes.
unfoldable pub check_script : {Bytes : Type 0} → ScriptTools Bytes → String → Option GatewayError
check_script tools script_b64 = elim (tools.b64decode script_b64) [
  | none ↦ some invalid_base64
  | some decoded ↦
      if ltb (10 * 1024 * 1024) (tools.len decoded)
      then some script_too_large
      else script_answer (validate_script tools.decode tools.parse decoded)
]

abbrev pub is_failed : PaymentStatus → Bool
is_failed payment_failed = true
is_failed _ = false

abbrev pub text_or_empty : Option String → String
text_or_empty none = ""
text_or_empty (some t) = t

module _ {W : Type 0} ⦃f : Float W⦄ where
  -- remote_state.compute_cost_usd > req.max_budget_usd, where there is a budget
  abbrev pub exceeds : W → Option W → Bool
  exceeds cost none = false
  exceeds cost (some budget) = f.lt budget cost

  unfoldable pub total_charge_of : StateVector W → PricingResult W → W
  total_charge_of remote_state pricing =
      f.round (f.add remote_state.compute_cost_usd pricing.creator_yield_usd) 2

  -- The job of an authorized ticket, and its submission.
  abbrev pub sell :
      Env W
      → String
      → TicketRequest W
      → Zone W
      → StateVector W
      → PricingResult W
      → World W
      → PaymentProcessor W × PaymentResult W
      → World W × Answer (TicketResponse W)
  sell env job_id req zone remote_state pricing w (payment', payment) =
      let w' = record w { payment = payment' } in
      let job =
        new_job job_id req.execution_script_b64 zone.id zone.name payment.payment_id
          (total_charge_of remote_state pricing) in
      let ticket : TicketResponse W = record {
        job_id = job_id;
        status = queued;
        zone = zone;
        pricing = pricing;
        receipt = [];
        vm_logs = [];
        payment = payment;
      } in
      if is_failed payment.status then (w', refused payment_refused) else (
        submit_in env job w',
        if contains job_id w.db.jobs then refused server_error else answer ticket,
      )

  abbrev pub price_and_sell :
      Env W
      → String
      → String
      → TicketRequest W
      → World W
      → Routed (Zone W × StateVector W)
      → World W × Answer (TicketResponse W)
  price_and_sell env pid job_id req w (route_failed e) = (w, refused (routing_failed e))
  price_and_sell env pid job_id req w (routed (zone, remote_state)) =
      let pricing = calculate_pricing env.settings remote_state in
      if not pricing.is_profitable
      then (w, refused not_profitable)
      else if exceeds remote_state.compute_cost_usd req.max_budget_usd
      then (w, refused over_budget)
      else sell env job_id req zone remote_state pricing w (
          authorize env.api env.settings pid (total_charge_of remote_state pricing)
            (String.◌++◌ "SAP compute ticket: " zone.name)
            (text_or_empty req.stripe_payment_method_id) w.payment)

  -- `pid` and `job_id` are the fresh ids of the payment and of the job.
  unfoldable pub buy_ticket :
      {Bytes : Type 0}
      → Env W
      → ScriptTools Bytes
      → String
      → String
      → TicketRequest W
      → World W
      → World W × Answer (TicketResponse W)
  buy_ticket env tools pid job_id req w =
      if not (str_eq req.action "buy_subgrid_compute_ticket")
      then (w, refused unknown_action)
      else elim (check_script tools req.execution_script_b64) [
        | some e ↦ (w, refused e)
        | none ↦
            price_and_sell env pid job_id req w
              (find_optimal_zone env.settings env.http default_workload none)
      ]

pub record JobStatusResponse (W : Type 0) : Type 0 where
  pub job_id : String
  pub status : JobStatus
  pub zone : Option (String × String)
  pub receipt : Option (JsonObject W)
  pub vm_logs : Option (JsonObject W)
  pub payment : Option (JsonObject W)

-- `o if o else None`: the empty dict is falsy.
abbrev pub or_none : {W : Type 0} → JsonObject W → Option (JsonObject W)
or_none [] = none
or_none (e ∷ o) = some (e ∷ o)

abbrev pub job_response : {W : Type 0} → Job W → JobStatusResponse W
job_response job = record {
  job_id = job.job_id;
  status = job.status;
  zone = if str_eq job.zone_id "" then none else some (job.zone_id, job.zone_name);
  receipt = or_none job.receipt;
  vm_logs = or_none job.vm_logs;
  payment = or_none job.payment_result;
}

unfoldable pub get_job_status : {W : Type 0} → String → World W → Answer (JobStatusResponse W)
get_job_status job_id w = elim (get_job job_id w.jobs) [
  | none ↦ refused unknown_job
  | some job ↦ answer (job_response job)
]
