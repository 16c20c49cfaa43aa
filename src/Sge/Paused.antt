-- ===== src/Sge/Paused.antt =====
-- Which jobs are paused after a run of events (src/sge.py).
use swift_route.Prelude.{
  String, Bool, true, false, ◌≡◌, refl, List, [], ◌∷◌, arith, str_eq, eq_iff, if◌then◌else◌,
}
use swift_route.Prelude.Dict.{lookup-insert, lookup-erase}
use swift_route.Float.{Float}
use swift_route.Config.{Settings}
use swift_route.Sge.{
  SgeEventType, grid_stabilized, GridEvent, SyntheticGridElasticity, process_event, is_paused,
}

module _ {W : Type 0} ⦃f : Float W⦄ (settings : Settings W) where
  -- A run of webhook events, each with its job.
  unfoldable pub run_events :
      List (GridEvent W × String) → SyntheticGridElasticity W → SyntheticGridElasticity W
  run_events [] s = s
  run_events ((event, job) ∷ rest) s = run_events rest (process_event settings event job s).state

  -- What an event does to the flag of the job that it names.
  abbrev pub flag_after : SgeEventType → GridEvent W → Bool → Bool
  flag_after grid_stabilized event b = false
  flag_after _ event b =
      if f.lt event.price_usd_per_mwh settings.sge_peak_threshold_usd_per_mwh then b else true

  -- The specification: one flag for one job, which the events of other jobs leave alone.
  unfoldable pub flag_of : String → List (GridEvent W × String) → Bool → Bool
  flag_of job [] b = b
  flag_of job ((event, j) ∷ rest) b =
      flag_of job rest (if str_eq j job then flag_after event.event_type event b else b)

  process_event-flag :
      (event : GridEvent W) (j job : String) (s : SyntheticGridElasticity W)
      → s.enabled ≡ true
      → is_paused job (process_event settings event j s).state ≡ (
          if str_eq j job
          then flag_after event.event_type event (is_paused job s)
          else is_paused job s)
  unfolding process_event is_paused
  process_event-flag event j job s on = ground (
    arith,
    eq_iff j job,
    lookup-insert j job event s.paused_jobs,
    lookup-erase j job s.paused_jobs,
  )

  process_event-enabled :
      (event : GridEvent W) (j : String) (s : SyntheticGridElasticity W)
      → (process_event settings event j s).state.enabled ≡ s.enabled
  unfolding process_event
  process_event-enabled event j s = ground arith

  -- With the engine enabled, a job is paused after any run of events exactly when its flag is set in
  -- the specification, whatever handlers are registered and whether or not they raise.
  pub paused-eq-flag :
      (job : String) (events : List (GridEvent W × String)) (s : SyntheticGridElasticity W)
      → s.enabled ≡ true
      → is_paused job (run_events events s) ≡ flag_of job events (is_paused job s)
  unfolding run_events flag_of
  paused-eq-flag job [] s on = refl
  paused-eq-flag job ((event, j) ∷ rest) s on = rw (← process_event-flag event j job s on) (
      paused-eq-flag job rest (process_event settings event j s).state
        (rw process_event-enabled on))
