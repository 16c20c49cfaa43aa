-- ===== src/Sge.antt =====
-- src/sge.py: synthetic grid elasticity. A handler is a function that says of a call whether it
-- returned (`true`) or raised; the calls that were made come back beside the state.
pub mod Paused
pub mod Payout
use swift_route.Prelude.{
  ℕ, String, Bool, true, false, Option, none, some, List, [], ◌∷◌, ◌++◌, str_eq, if◌then◌else◌,
}
use swift_route.Prelude.Dict.{Dict, insert, erase, contains}
use swift_route.Float.{Float, one, float_min}
use swift_route.Config.{Settings}

pub data SgeEventType : Type 0 where
  peak_demand emergency_spike grid_stabilized : SgeEventType

-- SGEEventType(value), which raises `ValueError` on any other text.
unfoldable pub parse_event_type : String → Option SgeEventType
parse_event_type value =
    if str_eq value "peak_demand"
    then some peak_demand
    else if str_eq value "emergency_spike"
    then some emergency_spike
    else if str_eq value "grid_stabilized"
    then some grid_stabilized
    else none

pub record GridEvent (W : Type 0) : Type 0 where
  pub event_type : SgeEventType
  pub zone_id : String
  pub price_usd_per_mwh : W
  pub timestamp : String

pub data HandlerCall (W : Type 0) : Type 0 where
  on_freeze : String → GridEvent W → HandlerCall W
  on_resume : String → GridEvent W → HandlerCall W
  on_payout : String → W → HandlerCall W

abbrev pub SgeHandler : Type 0 → Type 0
SgeHandler W = HandlerCall W → Bool

pub data IgnoreReason : Type 0 where
  sge_disabled below_peak_threshold job_not_paused : IgnoreReason

pub data SgeAction (W : Type 0) : Type 0 where
  ignored : IgnoreReason → SgeAction W
  -- the job, the minutes of the pause and the payout
  frozen : String → ℕ → W → SgeAction W
  resumed : String → SgeAction W

pub record SyntheticGridElasticity (W : Type 0) : Type 0 where
  pub paused_jobs : Dict (GridEvent W)
  pub handlers : List (SgeHandler W)
  pub enabled : Bool

-- What a call of the engine leaves: its state, the handlers' calls, and the result, or `none` where a
-- handler raised.
pub record Processed (W : Type 0) : Type 0 where
  pub state : SyntheticGridElasticity W
  pub calls : List (HandlerCall W)
  pub action : Option (SgeAction W)

module _ {W : Type 0} where
  -- `for handler in self._handlers: await handler.…`, and whether the loop came to its end.
  unfoldable pub notify : List (SgeHandler W) → HandlerCall W → List (HandlerCall W) × Bool
  notify [] call = ([], true)
  notify (h ∷ hs) call =
      let (calls, done) = notify hs call in
      if h call then (call ∷ calls, done) else (call ∷ [], false)

  unfoldable pub register_handler :
      SgeHandler W → SyntheticGridElasticity W → SyntheticGridElasticity W
  register_handler h s = record s { handlers = s.handlers ++ (h ∷ []) }

  unfoldable pub is_paused : String → SyntheticGridElasticity W → Bool
  is_paused job_id s = contains job_id s.paused_jobs

module _ {W : Type 0} ⦃f : Float W⦄ where
  -- SyntheticGridElasticity.__init__
  abbrev pub new_sge : Settings W → SyntheticGridElasticity W
  new_sge settings = record { paused_jobs = []; handlers = []; enabled = settings.sge_enabled }

  unfoldable pub payout_of : W → W
  payout_of price =
      let base_payout = one in
      let premium_multiplier = float_min (f.div price (f.decimal 1000 0)) (f.decimal 5 0) in
      f.round (f.mul base_payout premium_multiplier) 2

  unfoldable pub handle_peak :
      Settings W → GridEvent W → String → SyntheticGridElasticity W → Processed W
  unfolding notify payout_of
  handle_peak settings event job_id s =
      let s' = record s { paused_jobs = insert job_id event s.paused_jobs } in
      let payout = payout_of event.price_usd_per_mwh in
      let (frozen_calls, told) = notify s.handlers (on_freeze job_id event) in
      let (payout_calls, paid) = notify s.handlers (on_payout job_id payout) in
      if f.lt event.price_usd_per_mwh settings.sge_peak_threshold_usd_per_mwh
      then record { state = s; calls = []; action = some (ignored below_peak_threshold) }
      else if told
      then record {
        state = s';
        calls = frozen_calls ++ payout_calls;
        action = if paid then some (frozen job_id settings.sge_pause_minutes payout) else none;
      }
      else record { state = s'; calls = frozen_calls; action = none }

  unfoldable pub handle_stabilized : GridEvent W → String → SyntheticGridElasticity W → Processed W
  unfolding notify
  handle_stabilized event job_id s =
      let s' = record s { paused_jobs = erase job_id s.paused_jobs } in
      let (calls, told) = notify s.handlers (on_resume job_id event) in
      if contains job_id s.paused_jobs
      then record {
        state = s';
        calls = calls;
        action = if told then some (resumed job_id) else none;
      }
      else record { state = s; calls = []; action = some (ignored job_not_paused) }

  abbrev pub dispatch_event :
      Settings W → SgeEventType → GridEvent W → String → SyntheticGridElasticity W → Processed W
  dispatch_event settings peak_demand event job_id s = handle_peak settings event job_id s
  dispatch_event settings emergency_spike event job_id s = handle_peak settings event job_id s
  dispatch_event settings grid_stabilized event job_id s = handle_stabilized event job_id s

  unfoldable pub process_event :
      Settings W → GridEvent W → String → SyntheticGridElasticity W → Processed W
  unfolding handle_peak handle_stabilized
  process_event settings event job_id s =
      if s.enabled
      then dispatch_event settings event.event_type event job_id s
      else record { state = s; calls = []; action = some (ignored sge_disabled) }
