-- ===== src/Gateway/RateLimit/Window.antt =====
-- The rate limiter of src/gateway.py against a reference that never forgets a request.
mod Recent
pub mod Reference
mod Tracked
use swift_route.Prelude.{
  ℕ, suc, ◌+◌, ◌≤◌, String, Bool, true, false, ◌≡◌, refl, sym, subst, ap, ◌∙◌, Option, none, some,
  List, [], ◌∷◌, ◌++◌, All, All-append, arith, length, leb, ltb, str_eq, eq_iff, Bool-cases, inl,
  inr, if◌then◌else◌,
}
use mathlib.Core.List.{append_assoc}
use text.Mathlib.TextPositions.{eq_refl}
use swift_route.Prelude.Dict.{lookup, insert, contains, lookup-insert}
use swift_route.Float.{Float, IsIeee, IsNum, ◌≼◌, ◌≺◌}
use swift_route.Float.Order.{lt_of_lt_of_le, le_of_not_lt}
use swift_route.Gateway.RateLimit.{
  RateLimit, Store, requests_of, client_ip, prune, refresh, record_request, limit_request, Verdict,
  passed, limited,
}
unfoldable pub use Reference.{
  Request, Log, times_of, limit_reference, run_limiter, run_reference, Timely, Roomy,
}
use Tracked.{IsTracked, limit_request-next, same_verdict, next-IsTracked, next}

module _ {W : Type 0} ⦃f : Float W⦄ (laws : IsIeee W) (limit : RateLimit W) where
  open laws use {le_trans, sub_mono, sub_num, num_of_le}

  -- What the reference's log becomes.
  reference-log :
      (now : W) (client : Option String) (log : Log W)
      → (limit_reference limit now client log).0
        ≡ elim (limit_reference limit now client log).1 as (λ _. Log W) [
          | limited ↦ log
          | passed ↦ log ++ ((client_ip client, now) ∷ [])
        ]
  unfolding limit_reference
  reference-log now client log = ground arith

  step-IsTracked :
      (last cutoff now : W) (client : Option String) (store : Store W) (log : Log W)
      → IsTracked last cutoff store log
      → last ≼ now
      → IsNum now
      → cutoff ≼ f.sub now limit.window_seconds
      → length (
          insert
            (client_ip client)
            (prune (f.sub now limit.window_seconds) (requests_of (client_ip client) store))
            store)
        ≤ limit.max_entries
      → IsTracked now
          (f.sub now limit.window_seconds)
          (limit_request limit now client store).0
          (limit_reference limit now client log).0
  step-IsTracked last cutoff now client store log t le num later room =
      let ip = client_ip client in
      let c = f.sub now limit.window_seconds in
      let v = (limit_request limit now client store).1 in
      let log_of = λ (u : Verdict). elim u as (λ _. Log W) [
        | limited ↦ log
        | passed ↦ log ++ ((ip, now) ∷ [])
      ] in
      let same_log =
        reference-log now client log
        ∙ ap log_of (same_verdict laws limit last cutoff now client store log t later room) in
      subst (λ s. IsTracked now c s (limit_reference limit now client log).0)
        (sym (limit_request-next laws limit now client store room).0)
        (subst (IsTracked now c (next laws limit now ip v store)) (sym same_log)
          (next-IsTracked laws limit last cutoff now ip store log t v le num later))

  start_later :
      (last now : W)
      → last ≼ now
      → IsNum (f.sub last limit.window_seconds)
      → IsNum (f.sub now limit.window_seconds)
      → f.sub last limit.window_seconds ≼ f.sub now limit.window_seconds
  start_later last now le num num' =
      let w = limit.window_seconds in sub_mono last now w w le (sub_num now w num').1 num num'

  runs_agree :
      (reqs : List (Request W)) (last cutoff : W) (store : Store W) (log : Log W)
      → IsTracked last cutoff store log
      → cutoff ≼ f.sub last limit.window_seconds
      → Timely limit last reqs
      → Roomy limit reqs store
      → run_limiter limit reqs store ≡ run_reference limit reqs log
  unfolding run_limiter run_reference
  runs_agree [] last cutoff store log t le time room = refl
  runs_agree ((now, client) ∷ rest) last cutoff store log t le (later, num, time) (room, rooms) =
      let reached =
        le_trans cutoff (f.sub last limit.window_seconds) (f.sub now limit.window_seconds) le (
          start_later last now later (num_of_le cutoff (f.sub last limit.window_seconds) le).1
            num) in
      let t' =
        step-IsTracked last cutoff now client store log t later (num_of_le last now later).1 reached
          room in
      rw (same_verdict laws limit last cutoff now client store log t reached room) (
        ap (◌∷◌ (limit_request limit now client store).1)
          (runs_agree rest now (f.sub now limit.window_seconds) _ _ t' num time rooms))

  -- While the clock does not go back and the store has room, the limiter that starts empty answers any
  -- run of requests as the reference does, which keeps all requests: one passes exactly if fewer
  -- than the allowed number of its client's requests passed since the start of its window.
  pub run_limiter-eq-reference :
      (reqs : List (Request W)) (start_time : W)
      → IsNum (f.sub start_time limit.window_seconds)
      → Timely limit start_time reqs
      → Roomy limit reqs []
      → run_limiter limit reqs [] ≡ run_reference limit reqs []
  unfolding times_of lookup
  run_limiter-eq-reference reqs start_time num time room =
      runs_agree reqs start_time (f.sub start_time limit.window_seconds) [] []
        (record { forgotten = λ ip. []; kept = λ ip. refl; old = λ ip. tt; rising = λ ip. tt }) num
        time room
