-- ===== src/Gateway/RateLimit.antt =====
-- src/gateway.py, `RateLimitMiddleware`: the requests of each client in a sliding window of time, kept
-- in a store of bounded size. Between two of its awaits a call runs alone, so a call is one step.
pub mod Bounds
pub mod Window
use swift_route.Prelude.{
  ℕ, String, Bool, true, false, Option, none, some, List, [], ◌∷◌, ◌++◌, length, leb, ltb,
  if◌then◌else◌,
}
use swift_route.Prelude.Dict.{Dict, lookup, insert, erase, contains}
use swift_route.Float.{Float}

-- The request goes on to the application, or is answered with status 429.
pub data Verdict : Type 0 where
  passed limited : Verdict

pub record RateLimit (W : Type 0) : Type 0 where
  pub max_requests : ℕ
  pub window_seconds : W
  -- settings.rate_limit_max_entries
  pub max_entries : ℕ

abbrev pub Store : Type 0 → Type 0
Store W = Dict (List W)

-- store.get(ip, [])
abbrev pub requests_of : {W : Type 0} → String → Store W → List W
requests_of ip store = elim (lookup ip store) [ none ↦ [] | some reqs ↦ reqs ]

-- request.client.host if request.client else "unknown"
abbrev pub client_ip : Option String → String
client_ip none = "unknown"
client_ip (some host) = host

module _ {W : Type 0} ⦃f : Float W⦄ where
  -- while reqs and reqs[0] < cutoff: reqs.pop(0)
  unfoldable pub prune : W → List W → List W
  prune cutoff [] = []
  prune cutoff (t ∷ ts) = let rest = prune cutoff ts in if f.lt t cutoff then rest else t ∷ ts

  -- The key of the `min`: the first request, or the present for a client that has none.
  abbrev pub first_request : W → List W → W
  first_request now [] = now
  first_request now (t ∷ ts) = t

  -- The loop of `min`: the client found so far, with its key.
  unfoldable pub oldest_of : W → String → W → Store W → String
  oldest_of now ip t [] = ip
  oldest_of now ip t ((other, reqs) ∷ store) =
      let u = first_request now reqs in
      oldest_of now (if f.lt u t then other else ip) (if f.lt u t then u else t) store

  unfoldable pub evict_oldest : W → Store W → Store W
  unfolding oldest_of
  evict_oldest now [] = []
  evict_oldest now ((ip, reqs) ∷ store) =
      erase (oldest_of now ip (first_request now reqs) store) ((ip, reqs) ∷ store)

  -- `setdefault` and the pruning in place, and then the bound on the store.
  unfoldable pub refresh : RateLimit W → W → String → Store W → Store W
  unfolding prune evict_oldest
  refresh limit now ip store =
      let reqs = prune (f.sub now limit.window_seconds) (requests_of ip store) in
      let store' = insert ip reqs store in
      if ltb limit.max_entries (length store') then evict_oldest now store' else store'

  -- `reqs.append(now)`: the list is seen in the store if the store still holds it.
  abbrev pub record_request : W → String → List W → Store W → Store W
  record_request now ip reqs store =
      if contains ip store then insert ip (reqs ++ (now ∷ [])) store else store

  -- A call for an HTTP request; other scopes are passed on untouched.
  unfoldable pub limit_request : RateLimit W → W → Option String → Store W → Store W × Verdict
  unfolding prune refresh
  limit_request limit now client store =
      let ip = client_ip client in
      let reqs = prune (f.sub now limit.window_seconds) (requests_of ip store) in
      let store' = refresh limit now ip store in
      if leb limit.max_requests (length reqs)
      then (store', limited)
      else (record_request now ip reqs store', passed)
