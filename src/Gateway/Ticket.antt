-- ===== src/Gateway/Ticket.antt =====
-- What buying a ticket does (src/gateway.py, `buy_ticket`).
use Prim.Native.String
use swift_route.Prelude.{
  String, Bool, true, false, not, ◌≡◌, refl, none, some, [], ◌∷◌, ◌++◌, ◌&&◌, ◌||◌, List, ℕ, length,
  leb, eq_iff, arith, str_eq, Option-cases, Bool-cases, inl, inr, if◌then◌else◌,
}
use swift_route.Prelude.Dict.{Dict, lookup, contains, lookup-insert_self}
use swift_route.Float.{Float}
use swift_route.Config.{Settings}
use swift_route.Payments.{StripeApi, PaymentResult}
use swift_route.Payments.Processor.{PaymentProcessor, mock, stripe, authorize}
use swift_route.Payments.Mock.{mock_authorize}
use swift_route.Pricing.{StateVector, calculate_pricing, PricingResult}
use swift_route.Router.{Zone, Routed, routed, failed, find_optimal_zone, default_workload}
use swift_route.JobQueue.Jobs.{Job, new_job, enqueue}
use swift_route.JobQueue.World.{World, Env, registered, register, keep_known, prune_job_registry}
use swift_route.JobQueue.Steps.{submit_in, submit, step}
use swift_route.JobQueue.Mirror.{Mirrored, step-Mirrored}
use swift_route.Gateway.{
  TicketRequest, ScriptTools, GatewayError, Answer, answer, refused, TicketResponse, check_script,
  is_failed, text_or_empty, exceeds, total_charge_of, sell, price_and_sell, buy_ticket,
}

-- What holds of both branches holds of the conditional.
either {ℓ} : {A : Type ℓ} (P : A → Type 0) (b : Bool) {x y : A} → P x → P y → P (if b then x else y)
either P true px py = px
either P false px py = py

registered-register :
    (id job_id : String) (ids : List String)
    → registered id (register job_id ids) ≡ (str_eq job_id id || registered id ids)
unfolding register registered
registered-register id job_id ids = elim (Bool-cases (registered job_id ids)) [
  | inl e ↦ ground (arith, eq_iff job_id id, e)
  | inr e ↦ ground (arith, e)
]

registered-keep_known :
    {W : Type 0} (id : String) (jobs : Dict (Job W)) (ids : List String)
    → registered id (keep_known jobs ids) ≡ (registered id ids && contains id jobs)
unfolding keep_known registered
registered-keep_known id jobs [] = refl
registered-keep_known id jobs (x ∷ xs) =
    ground (arith, eq_iff x id, registered-keep_known id jobs xs)

-- Pruning keeps an id if the registry is within its limit or the queue knows the id.
registered-prune_job_registry :
    {W : Type 0} (id : String) (max_jobs : ℕ) (jobs : Dict (Job W)) (ids : List String)
    → registered id (prune_job_registry max_jobs jobs ids)
      ≡ (registered id ids && (leb (length ids) max_jobs || contains id jobs))
unfolding prune_job_registry
registered-prune_job_registry id max_jobs jobs ids =
    ground (arith, registered-keep_known id jobs ids)

module _ {W : Type 0} ⦃f : Float W⦄ where
  -- An authorization that failed leaves the processor as it was.
  authorize-failed :
      (api : StripeApi) (settings : Settings W) (pid : String) (amount : W) (text method : String)
      (p : PaymentProcessor W)
      → is_failed (authorize api settings pid amount text method p).1.status ≡ true
      → (authorize api settings pid amount text method p).0 ≡ p
  unfolding authorize mock_authorize
  authorize-failed api settings pid amount text method (mock p) h = ground arith
  authorize-failed api settings pid amount text method (stripe p) h = refl

  module _ {Bytes : Type 0} (env : Env W) (tools : ScriptTools Bytes) (pid job_id : String)
      (req : TicketRequest W) (w : World W) where
    sell-refused :
        (zone : Zone W) (remote : StateVector W) (pricing : PricingResult W) (amount : W)
        (text method : String) (e : GatewayError)
        → contains job_id w.db.jobs ≡ false
        → (sell env job_id req zone remote pricing w
            (authorize env.api env.settings pid amount text method w.payment)).1
          ≡ refused e
        → (sell env job_id req zone remote pricing w
            (authorize env.api env.settings pid amount text method w.payment)).0
          ≡ w
    sell-refused zone remote pricing amount text method e fresh h =
        ground (arith, authorize-failed env.api env.settings pid amount text method w.payment)

    price_and_sell-refused :
        (r : Routed (Zone W × StateVector W)) (e : GatewayError)
        → contains job_id w.db.jobs ≡ false
        → (price_and_sell env pid job_id req w r).1 ≡ refused e
        → (price_and_sell env pid job_id req w r).0 ≡ w
    price_and_sell-refused (failed err) e fresh h = refl
    price_and_sell-refused (routed (zone, remote)) e fresh h =
        let pricing = calculate_pricing env.settings remote in
        ground (
          arith,
          sell-refused zone remote pricing (total_charge_of remote pricing)
              (String.◌++◌ "SAP compute ticket: " zone.name)
              (text_or_empty req.stripe_payment_method_id) e fresh,
        )

    -- A ticket that is refused under a fresh job id changes nothing: no job, no row, no registered id and
    -- no balance.
    pub refused_ticket_unchanged :
        (e : GatewayError)
        → contains job_id w.db.jobs ≡ false
        → (buy_ticket env tools pid job_id req w).1 ≡ refused e
        → (buy_ticket env tools pid job_id req w).0 ≡ w
    unfolding buy_ticket
    refused_ticket_unchanged e fresh h = ground (
      arith,
      price_and_sell-refused (find_optimal_zone env.settings env.http default_workload none) e
          fresh,
    )

    -- What a ticket that was sold says, and what it left in the world.
    pub record IsSold (t : TicketResponse W) (w' : World W) : Type 0 where
      pub script_passed : check_script tools req.execution_script_b64 ≡ none
      pub profitable : t.pricing.is_profitable ≡ true
      pub within_budget : exceeds t.pricing.v_remote.compute_cost_usd req.max_budget_usd ≡ false
      pub paid : is_failed t.payment.status ≡ false
      pub same_id : t.job_id ≡ job_id
      pub queued_last : w'.jobs.queue ≡ w.jobs.queue ++ (job_id ∷ [])
      pub job_kept :
          lookup job_id w'.jobs.jobs
          ≡ some (
              new_job job_id req.execution_script_b64 t.zone.id t.zone.name t.payment.payment_id
                (total_charge_of t.pricing.v_remote t.pricing))
      -- An id is registered if it is the ticket's or was registered before; but if that makes more ids
      -- than the limit, only if it belongs to a job that the queue knew before the ticket.
      pub registry_pruned :
          (id : String)
          → registered id w'.registry ≡ (
              (str_eq job_id id || registered id w.registry)
              && (leb (length (register job_id w.registry)) env.settings.rate_limit_max_entries
                  || contains id w.jobs.jobs))

    submit_in-kept :
        (job : Job W) (v : World W)
        → let v' = submit_in env job v in
          (v'.jobs.queue ≡ v.jobs.queue ++ (job.job_id ∷ []))
          × (lookup job.job_id v'.jobs.jobs ≡ some job)
          × ((id : String)
              → registered id v'.registry ≡ (
                  (str_eq job.job_id id || registered id v.registry)
                  && (leb
                        (length (register job.job_id v.registry))
                        env.settings.rate_limit_max_entries
                      || contains id v.jobs.jobs)))
    unfolding submit_in enqueue
    submit_in-kept job v = (
      refl,
      lookup-insert_self job.job_id job v.jobs.jobs,
      λ id.
          rw
            (
              registered-prune_job_registry id env.settings.rate_limit_max_entries v.jobs.jobs
                  (register job.job_id v.registry),
              registered-register id job.job_id v.registry,
            )
            refl,
    )

    sell-IsSold :
        (zone : Zone W) (remote : StateVector W) (r : PaymentProcessor W × PaymentResult W)
        (t : TicketResponse W)
        → let pricing = calculate_pricing env.settings remote in
          check_script tools req.execution_script_b64 ≡ none
          → pricing.is_profitable ≡ true
          → exceeds remote.compute_cost_usd req.max_budget_usd ≡ false
          → (sell env job_id req zone remote pricing w r).1 ≡ answer t
          → IsSold t (sell env job_id req zone remote pricing w r).0
    unfolding calculate_pricing
    sell-IsSold zone remote (p, payment) t passed gain cheap h =
        let pricing = calculate_pricing env.settings remote in
        let job =
          new_job job_id req.execution_script_b64 zone.id zone.name payment.payment_id
            (total_charge_of remote pricing) in
        ground (arith, submit_in-kept job (record w { payment = p }))

    price_and_sell-IsSold :
        (r : Routed (Zone W × StateVector W)) (t : TicketResponse W)
        → check_script tools req.execution_script_b64 ≡ none
        → (price_and_sell env pid job_id req w r).1 ≡ answer t
        → IsSold t (price_and_sell env pid job_id req w r).0
    price_and_sell-IsSold (failed err) t passed h = ground arith
    price_and_sell-IsSold (routed (zone, remote)) t passed h =
        let charge = total_charge_of remote (calculate_pricing env.settings remote) in
        ground (
          arith,
          sell-IsSold zone remote
              (authorize env.api env.settings pid charge
                (String.◌++◌ "SAP compute ticket: " zone.name)
                (text_or_empty req.stripe_payment_method_id) w.payment)
              t passed,
        )

    -- A ticket that was answered has a script that passed every guard, a profitable route within the
    -- budget and a payment that did not fail; its job, with the sum of the remote cost and the
    -- creator's yield as its charge, is the last of the queue. Its id is registered beside those that
    -- were, but above the registry's limit only the ids of jobs that the queue knew before stay, so
    -- that the ticket's own, if it is new, is dropped.
    pub buy_ticket-IsSold :
        (t : TicketResponse W)
        → (buy_ticket env tools pid job_id req w).1 ≡ answer t
        → IsSold t (buy_ticket env tools pid job_id req w).0
    unfolding buy_ticket
    buy_ticket-IsSold t h = ground (
      arith,
      price_and_sell-IsSold (find_optimal_zone env.settings env.http default_workload none) t,
    )

    sell-Mirrored :
        (zone : Zone W) (remote : StateVector W) (pricing : PricingResult W)
        (r : PaymentProcessor W × PaymentResult W)
        → lookup job_id w.db.jobs ≡ none
        → Mirrored w
        → Mirrored (sell env job_id req zone remote pricing w r).0
    unfolding step
    sell-Mirrored zone remote pricing (p, payment) fresh m =
        let job =
          new_job job_id req.execution_script_b64 zone.id zone.name payment.payment_id
            (total_charge_of remote pricing) in
        elim (Bool-cases (is_failed payment.status)) [
          | inl e ↦ rw e m
          | inr e ↦ rw e (step-Mirrored env (submit job) (record w { payment = p }) (refl, fresh) m)
        ]

    price_and_sell-Mirrored :
        (r : Routed (Zone W × StateVector W))
        → lookup job_id w.db.jobs ≡ none
        → Mirrored w
        → Mirrored (price_and_sell env pid job_id req w r).0
    price_and_sell-Mirrored (failed err) fresh m = m
    price_and_sell-Mirrored (routed (zone, remote)) fresh m =
        let pricing = calculate_pricing env.settings remote in
        let paid =
          authorize env.api env.settings pid (total_charge_of remote pricing)
            (String.◌++◌ "SAP compute ticket: " zone.name)
            (text_or_empty req.stripe_payment_method_id) w.payment in
        either (λ (r : World W × Answer (TicketResponse W)). Mirrored r.0)
          (not pricing.is_profitable) m
          (either (λ (r : World W × Answer (TicketResponse W)). Mirrored r.0)
            (exceeds remote.compute_cost_usd req.max_budget_usd) m
            (sell-Mirrored zone remote pricing paid fresh m))

    -- Buying a ticket under a fresh job id, whatever the answer, keeps the status of every job's row in
    -- the database that of the job object.
    pub buy_ticket-Mirrored :
        lookup job_id w.db.jobs ≡ none
        → Mirrored w
        → Mirrored (buy_ticket env tools pid job_id req w).0
    unfolding buy_ticket
    buy_ticket-Mirrored fresh m =
        elim (Bool-cases (str_eq req.action "buy_subgrid_compute_ticket")) [
          | inl known ↦ elim (Option-cases (check_script tools req.execution_script_b64)) [
            | inl passed ↦
                rw (known, passed)
                  (price_and_sell-Mirrored
                    (find_optimal_zone env.settings env.http default_workload none) fresh m)
            | inr (err, e) ↦ rw (known, e) m
          ]
          | inr unknown ↦ rw unknown m
        ]
