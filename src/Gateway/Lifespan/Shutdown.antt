-- ===== src/Gateway/Lifespan/Shutdown.antt =====
-- What the end of the program (`lifespan` of src/gateway.py) leaves behind.
use swift_route.Prelude.{
  String, Bool, true, false, ◌≡◌, refl, subst, List, ◌∙◌, none, some, arith, Option-cases, inl, inr,
}
use swift_route.Prelude.Dict.{lookup, lookup-erase}
use swift_route.Tunnel.{TunnelConfig, tear_down}
use swift_route.Tunnel.Teardown.{teardown_all_effect}
use swift_route.Vm.{MicroVm, destroy}
use swift_route.Vm.Destroy.{lookup-destroy, destroy_all_effect}
use swift_route.JobQueue.World.{
  World, Phase, idle, before_execution, after_execution, after_capture,
}
use swift_route.JobQueue.Worker.{finish}
use swift_route.JobQueue.Cleanup.{kept_vm, kept_tunnel}
use swift_route.JobQueue.Kept.{IsKept, run-IsKept}
use swift_route.JobQueue.Kept.Managers.{VmsOf, TunnelsOf, vm_of, tunnel_of}
use swift_route.JobQueue.Steps.{Event, run}
use swift_route.JobQueue.World.{Env}
use swift_route.Float.{Float}
use swift_route.Config.{Settings}
use swift_route.Gateway.Lifespan.{
  Server, no_task, live, start_up, Health, health, done, shut_down, cancel_task, destroy_vms,
  tear_down_tunnels, interrupt,
}

module _ {W : Type 0} where
  -- The managers hold nothing.
  pub record IsEmpty (w : World W) : Type 0 where
    pub no_vm : (id : String) → kept_vm id w ≡ none
    pub no_tunnel : (id : String) → kept_tunnel id w ≡ none

  -- The money and the jobs of two worlds are the same.
  pub record SameBooks (w w' : World W) : Type 0 where
    pub jobs : w'.jobs ≡ w.jobs
    pub db : w'.db ≡ w.db
    pub payment : w'.payment ≡ w.payment

  finish-no_vm :
      (j id : String) (vm : MicroVm) (tunnel : TunnelConfig) (w : World W)
      → kept_vm id w ≡ none
      → kept_vm id (finish j (some vm) (some tunnel) w) ≡ none
  unfolding finish destroy tear_down
  finish-no_vm j id vm tunnel w gone = elim (Option-cases w.vms) [
    | inl e ↦ ground (arith, e)
    | inr (m, e) ↦ ground (arith, e, gone, lookup-destroy id vm m w.files)
  ]

  finish-no_tunnel :
      (j id : String) (vm : MicroVm) (tunnel : TunnelConfig) (w : World W)
      → kept_tunnel id w ≡ none
      → kept_tunnel id (finish j (some vm) (some tunnel) w) ≡ none
  unfolding finish destroy tear_down
  finish-no_tunnel j id vm tunnel w gone = elim (Option-cases w.tunnels) [
    | inl e ↦ ground (arith, e)
    | inr (m, e) ↦ ground (arith, e, gone, lookup-erase tunnel.tunnel_id id m.tunnels)
  ]

  finish-SameBooks :
      (j : String) (vm : MicroVm) (tunnel : TunnelConfig) (w : World W)
      → SameBooks w (finish j (some vm) (some tunnel) w)
  unfolding finish
  finish-SameBooks j vm tunnel w = record {
    jobs = ground arith;
    db = ground arith;
    payment = ground arith;
  }

  destroy_vms-no_vm :
      (id : String) (w : World W) → IsKept w → kept_vm id (tear_down_tunnels (destroy_vms w)) ≡ none
  destroy_vms-no_vm id w kept = elim (Option-cases w.vms) [
    | inl e ↦ ground (arith, e)
    | inr (m, e) ↦
        ground
          (arith, e, (destroy_all_effect m w.files (subst (VmsOf (vm_of w.phase)) e kept.0).0).0 id)
  ]

  tear_down_tunnels-no_tunnel :
      (id : String) (w : World W)
      → IsKept w
      → kept_tunnel id (tear_down_tunnels (destroy_vms w)) ≡ none
  tear_down_tunnels-no_tunnel id w kept = elim (Option-cases w.tunnels) [
    | inl e ↦ ground (arith, e)
    | inr (m, e) ↦ ground (
      arith,
      e,
      (teardown_all_effect m (destroy_vms w).files
            (subst (TunnelsOf (tunnel_of w.phase)) e kept.1).0).0
          id,
    )
  ]

  tear_down_tunnels-SameBooks : (w : World W) → SameBooks w (tear_down_tunnels (destroy_vms w))
  tear_down_tunnels-SameBooks w = record {
    jobs = ground arith;
    db = ground arith;
    payment = ground arith;
  }

  finish-IsEmpty :
      (j : String) (vm : MicroVm) (tunnel : TunnelConfig) (w : World W)
      → IsEmpty w
      → IsEmpty (finish j (some vm) (some tunnel) w)
  finish-IsEmpty j vm tunnel w empty = record {
    no_vm = λ id. finish-no_vm j id vm tunnel w (empty.no_vm id);
    no_tunnel = λ id. finish-no_tunnel j id vm tunnel w (empty.no_tunnel id);
  }

  interrupt-IsEmpty : (w : World W) (phase : Phase) → IsEmpty w → IsEmpty (interrupt w phase)
  interrupt-IsEmpty w idle empty = empty
  interrupt-IsEmpty w (before_execution j vm tunnel wait) empty = finish-IsEmpty j vm tunnel w empty
  interrupt-IsEmpty w (after_execution j vm tunnel wait) empty = finish-IsEmpty j vm tunnel w empty
  interrupt-IsEmpty w (after_capture j vm tunnel) empty = finish-IsEmpty j vm tunnel w empty

  interrupt-SameBooks : (w : World W) (phase : Phase) → SameBooks w (interrupt w phase)
  interrupt-SameBooks w idle = record { jobs = refl; db = refl; payment = refl }
  interrupt-SameBooks w (before_execution j vm tunnel wait) = finish-SameBooks j vm tunnel w
  interrupt-SameBooks w (after_execution j vm tunnel wait) = finish-SameBooks j vm tunnel w
  interrupt-SameBooks w (after_capture j vm tunnel) = finish-SameBooks j vm tunnel w

  interrupt-idle :
      (w : World W) (phase : Phase) → w.phase ≡ phase → (interrupt w phase).phase ≡ idle
  unfolding finish
  interrupt-idle w idle e = e
  interrupt-idle w (before_execution j vm tunnel wait) e = refl
  interrupt-idle w (after_execution j vm tunnel wait) e = refl
  interrupt-idle w (after_capture j vm tunnel) e = refl

  SameBooks-trans : (a b c : World W) → SameBooks a b → SameBooks b c → SameBooks a c
  SameBooks-trans a b c p q = record {
    jobs = q.jobs ∙ p.jobs;
    db = q.db ∙ p.db;
    payment = q.payment ∙ p.payment;
  }

  shut_down_lem :
      (s : Server W)
      → s.task ≡ live
      → IsKept s.world
      → let s' = cancel_task (shut_down s) in
        IsEmpty s'.world × (s'.world.phase ≡ idle) × (s'.task ≡ done) × SameBooks s.world s'.world
  unfolding shut_down cancel_task
  shut_down_lem s running kept =
      let w = tear_down_tunnels (destroy_vms s.world) in
      let empty : IsEmpty w = record {
        no_vm = λ id. destroy_vms-no_vm id s.world kept;
        no_tunnel = λ id. tear_down_tunnels-no_tunnel id s.world kept;
      } in
      rw running (
        interrupt-IsEmpty w w.phase empty,
        interrupt-idle w w.phase refl,
        refl,
        SameBooks-trans s.world w (interrupt w w.phase) (tear_down_tunnels-SameBooks s.world)
            (interrupt-SameBooks w w.phase),
      )

module _ {W : Type 0} ⦃f : Float W⦄ (settings : Settings W) (s : Server W) where
  -- The server after the start, and after a run of its tasks.
  abbrev pub after_run : List (Env W × Event W) → Server W
  after_run es = let s' : Server W = start_up settings s in record s' { world = run es s'.world }

  -- However the tasks ran since the start of a process without a worker, the end of the program and
  -- the cancelled task together leave no VM and no tunnel, and an idle worker that is done. A job that
  -- was interrupted keeps its status, in memory and in the database, and the payments are as they
  -- were: it is neither failed nor refunded.
  pub shut_down-IsEmpty :
      (es : List (Env W × Event W))
      → s.task ≡ no_task
      → let s' = cancel_task (shut_down (after_run es)) in
        IsEmpty s'.world
        × (s'.world.phase ≡ idle)
        × (s'.task ≡ done)
        × SameBooks (after_run es).world s'.world
  unfolding start_up lookup
  shut_down-IsEmpty es fresh =
      shut_down_lem (after_run es) (rw fresh refl)
        (run-IsKept es (start_up settings s).world ((tt, λ id other. refl), (tt, λ id other. refl)))

  -- A process without a worker, with no job under way, is healthy after the start; it still says so while the cancelled task
  -- stands, and is degraded, for the worker alone, when that has ended.
  health-start_up :
      s.task ≡ no_task
      → s.world.phase ≡ idle
      → let s' = start_up settings s in
        let up : Bool → Health = λ b. record {
          vm_manager = true;
          tunnel_manager = true;
          sge = true;
          payment = true;
          job_queue = b;
        } in
        (health s' ≡ ("ok", up true))
        × (health (shut_down s') ≡ ("ok", up true))
        × (health (cancel_task (shut_down s')) ≡ ("degraded", up false))
  unfolding start_up shut_down cancel_task health
  health-start_up fresh free = rw (fresh, free) (refl, refl, refl)
