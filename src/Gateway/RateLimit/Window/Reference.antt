-- ===== src/Gateway/RateLimit/Window/Reference.antt =====
-- A rate limiter that keeps every request that passed, as the reference for `RateLimitMiddleware`
-- (src/gateway.py), and the runs of both.
use swift_route.Prelude.{
  ◌≤◌, String, Option, List, [], ◌∷◌, ◌++◌, length, leb, str_eq, if◌then◌else◌,
}
use swift_route.Prelude.Dict.{insert}
use swift_route.Float.{Float, IsNum, ◌≼◌}
use swift_route.Gateway.RateLimit.{
  RateLimit, Store, requests_of, client_ip, prune, limit_request, Verdict, passed, limited,
}
use swift_route.Gateway.RateLimit.Window.Recent.{count_recent}

-- A request: its time and its client.
abbrev pub Request : Type 0 → Type 0
Request W = W × Option String

-- The reference's log: every request that passed, oldest first.
abbrev pub Log : Type 0 → Type 0
Log W = List (String × W)

unfoldable pub times_of : {W : Type 0} → String → Log W → List W
times_of ip [] = []
times_of ip ((j, t) ∷ log) = if str_eq j ip then t ∷ times_of ip log else times_of ip log

module _ {W : Type 0} ⦃f : Float W⦄ where
  -- A request passes if fewer than the allowed number of its client's requests passed in the window.
  unfoldable pub limit_reference : RateLimit W → W → Option String → Log W → Log W × Verdict
  unfolding times_of
  limit_reference limit now client log =
      let ip = client_ip client in
      if leb limit.max_requests (count_recent (f.sub now limit.window_seconds) (times_of ip log))
      then (log, limited)
      else (log ++ ((ip, now) ∷ []), passed)

  unfoldable pub run_limiter : RateLimit W → List (Request W) → Store W → List Verdict
  run_limiter limit [] store = []
  run_limiter limit ((now, client) ∷ rest) store =
      let (store', v) = limit_request limit now client store in v ∷ run_limiter limit rest store'

  unfoldable pub run_reference : RateLimit W → List (Request W) → Log W → List Verdict
  run_reference limit [] log = []
  run_reference limit ((now, client) ∷ rest) log =
      let (log', v) = limit_reference limit now client log in v ∷ run_reference limit rest log'

  -- The clock does not go back, and the start of every window is a number.
  abbrev pub Timely : RateLimit W → W → List (Request W) → Type 0
  Timely limit last [] = Unit
  Timely limit last ((now, client) ∷ rest) =
      (last ≼ now) × IsNum (f.sub now limit.window_seconds) × Timely limit now rest

  -- At no request does the store hold more clients than the settings allow.
  abbrev pub Roomy : RateLimit W → List (Request W) → Store W → Type 0
  Roomy limit [] store = Unit
  Roomy limit ((now, client) ∷ rest) store =
      (length (
          insert (client_ip client)
            (prune (f.sub now limit.window_seconds) (requests_of (client_ip client) store)) store)
        ≤ limit.max_entries)
      × Roomy limit rest (limit_request limit now client store).0
