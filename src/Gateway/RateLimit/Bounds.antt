-- ===== src/Gateway/RateLimit/Bounds.antt =====
-- How much the rate limiter of src/gateway.py keeps.
use swift_route.Prelude.{
  ℕ, suc, ◌-◌, ◌≤◌, ◌<◌, String, ◌||◌, true, ◌≡◌, refl, Option, List, [], ◌∷◌, ◌++◌, All, arith,
  length, length-append, str_eq, if◌then◌else◌,
}
use text.Mathlib.TextPositions.{eq_refl}
use swift_route.Prelude.Dict.{lookup, insert, erase, contains}
use swift_route.Float.{Float}
use swift_route.Gateway.RateLimit.{
  RateLimit, Store, requests_of, client_ip, prune, first_request, oldest_of, evict_oldest, refresh,
  limit_request,
}

-- No client has more than so many requests on record.
abbrev pub Within : {W : Type 0} → ℕ → Store W → Type 0
Within n = All λ e. length e.1 ≤ n

-- The bounds that the middleware's store is meant to keep.
pub record IsBounded {W : Type 0} (limit : RateLimit W) (store : Store W) : Type 0 where
  pub within : Within limit.max_requests store
  pub few : length store ≤ limit.max_entries

module _ {W : Type 0} where
  insert-Within :
      (n : ℕ) (ip : String) (reqs : List W) (store : Store W)
      → length reqs ≤ n
      → Within n store
      → Within n (insert ip reqs store)
  unfolding insert
  insert-Within n ip reqs [] h w = (h, tt)
  insert-Within n ip reqs ((j, r) ∷ store) h w = ground (arith, insert-Within n ip reqs store h w.1)

  erase-Within :
      (n : ℕ) (ip : String) (store : Store W) → Within n store → Within n (erase ip store)
  unfolding erase
  erase-Within n ip [] w = tt
  erase-Within n ip ((j, r) ∷ store) w = ground (arith, erase-Within n ip store w.1)

  requests_of-le :
      (n : ℕ) (ip : String) (store : Store W) → Within n store → length (requests_of ip store) ≤ n
  unfolding lookup
  requests_of-le n ip [] w = omega arith
  requests_of-le n ip ((j, r) ∷ store) w = ground (arith, requests_of-le n ip store w.1)

  length-insert :
      (ip : String) (reqs : List W) (store : Store W)
      → length (insert ip reqs store)
        ≡ (if contains ip store then length store else suc (length store))
  unfolding insert lookup
  length-insert ip reqs [] = refl
  length-insert ip reqs ((j, r) ∷ store) = ground (arith, length-insert ip reqs store)

  length-erase-le : (ip : String) (store : Store W) → length (erase ip store) ≤ length store
  unfolding erase
  length-erase-le ip [] = omega arith
  length-erase-le ip ((j, r) ∷ store) = ground (arith, length-erase-le ip store)

  length-erase-lt :
      (ip : String) (store : Store W)
      → contains ip store ≡ true
      → length (erase ip store) < length store
  unfolding erase lookup
  length-erase-lt ip [] h = ground arith
  length-erase-lt ip ((j, r) ∷ store) h =
      ground (arith, length-erase-lt ip store, length-erase-le ip store)

module _ {W : Type 0} ⦃f : Float W⦄ where
  length-prune-le : (cutoff : W) (ts : List W) → length (prune cutoff ts) ≤ length ts
  unfolding prune
  length-prune-le cutoff [] = omega arith
  length-prune-le cutoff (t ∷ ts) = ground (arith, length-prune-le cutoff ts)

  oldest_of-known :
      (now : W) (ip : String) (t : W) (store : Store W)
      → let k = oldest_of now ip t store in (str_eq ip k || contains k store) ≡ true
  unfolding oldest_of lookup
  oldest_of-known now ip t [] = ground (arith, eq_refl ip)
  oldest_of-known now ip t ((j, r) ∷ store) =
      let u = first_request now r in
      let ip' = if f.lt u t then j else ip in
      let t' = if f.lt u t then u else t in ground (arith, oldest_of-known now ip' t' store)

  evict_oldest-smaller :
      (now : W) (store : Store W) → length (evict_oldest now store) ≤ length store - 1
  unfolding evict_oldest lookup
  evict_oldest-smaller now [] = omega arith
  evict_oldest-smaller now ((j, r) ∷ store) =
      let k = oldest_of now j (first_request now r) store in
      ground (
        arith,
        oldest_of-known now j (first_request now r) store,
        length-erase-lt k ((j, r) ∷ store),
      )

  evict_oldest-Within :
      (n : ℕ) (now : W) (store : Store W) → Within n store → Within n (evict_oldest now store)
  unfolding evict_oldest
  evict_oldest-Within n now [] w = w
  evict_oldest-Within n now ((j, r) ∷ store) w =
      erase-Within n (oldest_of now j (first_request now r) store) ((j, r) ∷ store) w

  refresh-IsBounded :
      (limit : RateLimit W) (now : W) (ip : String) (store : Store W)
      → IsBounded limit store
      → IsBounded limit (refresh limit now ip store)
  unfolding refresh
  refresh-IsBounded limit now ip store b =
      let reqs = prune (f.sub now limit.window_seconds) (requests_of ip store) in
      let store' = insert ip reqs store in
      ground (
        arith,
        insert-Within limit.max_requests ip reqs store,
        length-prune-le (f.sub now limit.window_seconds) (requests_of ip store),
        requests_of-le limit.max_requests ip store,
        evict_oldest-Within limit.max_requests now store',
        evict_oldest-smaller now store',
        length-insert ip reqs store,
      )

  -- Whatever the clock says, a request from any client keeps the store bounded: no client has more than
  -- the allowed number of requests on record, and no more clients are kept than the settings allow.
  pub limit_request-IsBounded :
      (limit : RateLimit W) (now : W) (client : Option String) (store : Store W)
      → IsBounded limit store
      → IsBounded limit (limit_request limit now client store).0
  unfolding limit_request
  limit_request-IsBounded limit now client store b =
      let ip = client_ip client in
      let reqs = prune (f.sub now limit.window_seconds) (requests_of ip store) in
      let store' = refresh limit now ip store in
      ground (
        arith,
        refresh-IsBounded limit now ip store b,
        insert-Within limit.max_requests ip (reqs ++ (now ∷ [])) store',
        length-insert ip (reqs ++ (now ∷ [])) store',
        length-append reqs (now ∷ []),
      )
