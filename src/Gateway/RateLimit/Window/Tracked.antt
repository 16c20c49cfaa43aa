-- ===== src/Gateway/RateLimit/Window/Tracked.antt =====
-- How the store of `RateLimitMiddleware` (src/gateway.py) and the reference's log belong together.
use swift_route.Prelude.{
  ◌≤◌, String, ◌≡◌, sym, ap, ◌∙◌, Option, List, [], ◌∷◌, ◌++◌, All, All-append, arith, length, leb,
  str_eq, eq_iff, Bool-cases, inl, inr, if◌then◌else◌,
}
use mathlib.Core.List.{append_assoc}
use text.Mathlib.TextPositions.{eq_refl}
use swift_route.Prelude.Dict.{insert, lookup-insert}
use swift_route.Float.{Float, IsIeee, IsNum, ◌≼◌, ◌≺◌}
use swift_route.Gateway.RateLimit.{
  RateLimit, Store, requests_of, client_ip, prune, refresh, limit_request, Verdict, passed, limited,
}
use swift_route.Gateway.RateLimit.Window.Recent.{
  Rising, dropped, count-kept, prune-split, dropped-old, All-old, Rising-prune, Rising-later,
  Rising-snoc,
}
use swift_route.Gateway.RateLimit.Window.Reference.{Log, times_of, limit_reference}

-- For each client the store keeps the end of its log, and what it forgot is before the cutoff.
pub record IsTracked {W : Type 0} ⦃f : Float W⦄ (last cutoff : W) (store : Store W) (log : Log W)
    : Type 0 where
  pub forgotten : String → List W
  pub kept : (ip : String) → times_of ip log ≡ forgotten ip ++ requests_of ip store
  pub old : (ip : String) → All (λ t. t ≺ cutoff) (forgotten ip)
  pub rising : (ip : String) → Rising last (requests_of ip store)

module _ {W : Type 0} where
  times_of-snoc :
      (ip j : String) (t : W) (log : Log W)
      → times_of ip (log ++ ((j, t) ∷ []))
        ≡ (if str_eq j ip then times_of ip log ++ (t ∷ []) else times_of ip log)
  unfolding times_of
  times_of-snoc ip j t [] = ground arith
  times_of-snoc ip j t ((k, u) ∷ log) = ground (arith, times_of-snoc ip j t log)

  requests_of-insert :
      (ip j : String) (reqs : List W) (store : Store W)
      → requests_of ip (insert j reqs store) ≡ (if str_eq j ip then reqs else requests_of ip store)
  requests_of-insert ip j reqs store = ground (arith, lookup-insert j ip reqs store)

module _ {W : Type 0} ⦃f : Float W⦄ (laws : IsIeee W) (limit : RateLimit W) where
  open laws use {le_trans, sub_mono, sub_num, num_of_le}

  -- The store after a request, where there is room.
  abbrev pub next : W → String → Verdict → Store W → Store W
  next now ip v store =
      let reqs = prune (f.sub now limit.window_seconds) (requests_of ip store) in
      elim v [
        | limited ↦ insert ip reqs store
        | passed ↦ insert ip (reqs ++ (now ∷ [])) (insert ip reqs store)
      ]

  pub limit_request-next :
      (now : W) (client : Option String) (store : Store W)
      → length (
          insert
            (client_ip client)
            (prune (f.sub now limit.window_seconds) (requests_of (client_ip client) store))
            store)
        ≤ limit.max_entries
      → let (store', v) = limit_request limit now client store in
        (store' ≡ next now (client_ip client) v store)
        × (v ≡ (
            if leb limit.max_requests (
              length
                (prune (f.sub now limit.window_seconds) (requests_of (client_ip client) store)))
            then limited
            else passed))
  unfolding limit_request refresh
  limit_request-next now client store room =
      let ip = client_ip client in
      let reqs = prune (f.sub now limit.window_seconds) (requests_of ip store) in
      ground (arith, lookup-insert ip ip reqs store, eq_refl ip)

  pub same_verdict :
      (last cutoff now : W) (client : Option String) (store : Store W) (log : Log W)
      → IsTracked last cutoff store log
      → cutoff ≼ f.sub now limit.window_seconds
      → length (
          insert
            (client_ip client)
            (prune (f.sub now limit.window_seconds) (requests_of (client_ip client) store))
            store)
        ≤ limit.max_entries
      → (limit_reference limit now client log).1 ≡ (limit_request limit now client store).1
  unfolding limit_reference
  same_verdict last cutoff now client store log t le room =
      let ip = client_ip client in
      let c = f.sub now limit.window_seconds in
      ground (
        arith,
        limit_request-next now client store room,
        t.kept ip,
        count-kept laws last c (t.forgotten ip) (requests_of ip store)
            (All-old laws cutoff c (t.forgotten ip) le (t.old ip)) (t.rising ip),
      )

  module _ (last cutoff now : W) (ip : String) (store : Store W) (log : Log W)
      (t : IsTracked last cutoff store log) where
    abbrev start : W
    start = f.sub now limit.window_seconds

    -- What the store has forgotten after the request.
    abbrev forgotten' : String → List W
    forgotten' j =
        if str_eq ip j then t.forgotten j ++ dropped start (requests_of j store) else t.forgotten j

    times-split :
        (j : String)
        → times_of j log
          ≡ (t.forgotten j ++ dropped start (requests_of j store))
            ++ prune start (requests_of j store)
    times-split j =
        t.kept j
        ∙ ap (λ l. t.forgotten j ++ l) (prune-split start (requests_of j store))
        ∙ sym (
            append_assoc (t.forgotten j) (dropped start (requests_of j store))
              (prune start (requests_of j store)))

    limited-kept :
        (j : String) → times_of j log ≡ forgotten' j ++ requests_of j (next now ip limited store)
    limited-kept j = ground (
      arith,
      eq_iff ip j,
      t.kept j,
      times-split j,
      requests_of-insert j ip (prune start (requests_of ip store)) store,
    )

    passed-kept :
        (j : String)
        → times_of j (log ++ ((ip, now) ∷ []))
          ≡ forgotten' j ++ requests_of j (next now ip passed store)
    passed-kept j =
        let reqs = prune start (requests_of ip store) in
        ground (
          arith,
          eq_iff ip j,
          t.kept j,
          times-split j,
          times_of-snoc j ip now log,
          requests_of-insert j ip reqs store,
          requests_of-insert j ip (reqs ++ (now ∷ [])) (insert ip reqs store),
          append_assoc (t.forgotten j ++ dropped start (requests_of j store)) reqs (now ∷ []),
        )

    old' : cutoff ≼ start → (j : String) → All (λ u. u ≺ start) (forgotten' j)
    old' le j =
        let before = All-old laws cutoff start (t.forgotten j) le (t.old j) in
        elim (Bool-cases (str_eq ip j)) [
          | inl e ↦ rw e (
              All-append (λ u. u ≺ start) (t.forgotten j) (dropped start (requests_of j store))
                before (dropped-old start (requests_of j store)))
          | inr e ↦ rw e before
        ]

    limited-Rising :
        last ≼ now → (j : String) → Rising now (requests_of j (next now ip limited store))
    limited-Rising le j =
        let reqs = prune start (requests_of ip store) in
        ground (
          arith,
          requests_of-insert j ip reqs store,
          Rising-later laws last now (requests_of j store) le (t.rising j),
          Rising-later laws last now reqs le
              (Rising-prune last start (requests_of ip store) (t.rising ip)),
        )

    passed-Rising :
        last ≼ now
        → IsNum now
        → (j : String) → Rising now (requests_of j (next now ip passed store))
    passed-Rising le num j =
        let reqs = prune start (requests_of ip store) in
        ground (
          arith,
          requests_of-insert j ip reqs store,
          requests_of-insert j ip (reqs ++ (now ∷ [])) (insert ip reqs store),
          Rising-later laws last now (requests_of j store) le (t.rising j),
          Rising-snoc laws now reqs num (
              Rising-later laws last now reqs le
                (Rising-prune last start (requests_of ip store) (t.rising ip))),
        )

    pub next-IsTracked :
        (v : Verdict)
        → last ≼ now
        → IsNum now
        → cutoff ≼ start
        → IsTracked now start
            (next now ip v store)
            (elim v [ limited ↦ log | passed ↦ log ++ ((ip, now) ∷ []) ])
    next-IsTracked limited le num later = record {
      forgotten = forgotten';
      kept = limited-kept;
      old = old' later;
      rising = limited-Rising le;
    }
    next-IsTracked passed le num later = record {
      forgotten = forgotten';
      kept = passed-kept;
      old = old' later;
      rising = passed-Rising le num;
    }
