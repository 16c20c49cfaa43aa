-- ===== src/Router.antt =====
-- src/router.py: the surplus zones, their score and the choice of the best one.
pub mod Optimal
use Prim.Native.Char.{code}
use Prim.Native.String
use swift_route.Prelude.{
  ℕ, String, not, length, Bool, Option, none, some, List, [], ◌∷◌, ◌==◌, str_eq, ◌&&◌,
  if◌then◌else◌,
}
use swift_route.Float.{Float}
use swift_route.Config.{Settings}
use swift_route.Pricing.{StateVector}

pub record Zone (W : Type 0) : Type 0 where
  pub id : String
  pub name : String
  pub region : String
  pub compute_cost_usd_per_kwh : W
  pub carbon_g_per_kwh : W
  pub tax_credit_usd_per_kwh : W
  pub available_mw : W
  pub lat : W
  pub lon : W

-- The message of a `RouterError`.
pub data RouterError : Type 0 where
  no_zones : RouterError
  unreachable : RouterError
  -- An exception of another class: no JSON object, or a zone with missing or extra fields.
  malformed : RouterError

pub data Routed {ℓ} (A : Type ℓ) : Type ℓ where
  routed : A → Routed A
  failed : RouterError → Routed A

-- What the HTTP library and the JSON decoder make of a GET: an `HTTPError` or `DecodingError`, a body
-- that is no JSON object, or the list under "zones", if there is one, with `none` for an entry that
-- is no zone.
pub data Reply (W : Type 0) : Type 0 where
  http_error : Reply W
  not_json : Reply W
  zones : Option (List (Option (Zone W))) → Reply W

pub record HttpClient (W : Type 0) : Type 0 where
  pub get : String → List (String × String) → Reply W

pub data GridClient (W : Type 0) : Type 0 where
  static_grid : GridClient W
  http_grid : (base_url api_key : String) → HttpClient W → GridClient W

-- `text.rstrip("/")`
unfoldable pub rstrip_slash : String → String
rstrip_slash String.[] = ""
rstrip_slash (String.◌∷◌ c s) =
    let rest = rstrip_slash s in if str_eq rest "" && code c == b'/' then "" else String.◌∷◌ c rest

-- [Zone(**z) for z in zones]
unfoldable pub build_zones : {W : Type 0} → List (Option (Zone W)) → Routed (List (Zone W))
build_zones [] = routed []
build_zones (none ∷ zs) = failed malformed
build_zones (some z ∷ zs) = elim (build_zones zs) [
  | routed rest ↦ routed (z ∷ rest)
  | failed e ↦ failed e
]

unfoldable pub read_reply : {W : Type 0} → Reply W → Routed (List (Zone W))
unfolding build_zones
read_reply http_error = failed unreachable
read_reply not_json = failed malformed
read_reply (zones none) = routed []
read_reply (zones (some zs)) = build_zones zs

-- StaticGridClient.fetch_zones
abbrev pub static_zones : {W : Type 0} ⦃f : Float W⦄ → List (Zone W)
static_zones ⦃f⦄ =
    record {
      id = "tx-solar-01";
      name = "West Texas Solar Surplus";
      region = "us-south";
      compute_cost_usd_per_kwh = f.decimal 4 2;
      carbon_g_per_kwh = f.decimal 350 1;
      tax_credit_usd_per_kwh = f.decimal 21 3;
      available_mw = f.decimal 4500 1;
      lat = f.decimal 310 1;
      lon = f.neg (f.decimal 1020 1);
    }
    ∷ record {
      id = "no-wind-02";
      name = "North Sea Wind Curtailment";
      region = "eu-north";
      compute_cost_usd_per_kwh = f.decimal 3 2;
      carbon_g_per_kwh = f.decimal 120 1;
      tax_credit_usd_per_kwh = f.decimal 18 3;
      available_mw = f.decimal 8200 1;
      lat = f.decimal 560 1;
      lon = f.decimal 30 1;
    }
    ∷ record {
      id = "ca-hydro-03";
      name = "Quebec Hydro Overflow";
      region = "ca-east";
      compute_cost_usd_per_kwh = f.decimal 25 3;
      carbon_g_per_kwh = f.decimal 80 1;
      tax_credit_usd_per_kwh = f.decimal 15 3;
      available_mw = f.decimal 12000 1;
      lat = f.decimal 520 1;
      lon = f.neg (f.decimal 720 1);
    }
    ∷ []

module _ {W : Type 0} ⦃f : Float W⦄ where
  -- HttpGridClient.fetch_zones, and that of the static client.
  unfoldable pub fetch_zones : GridClient W → Routed (List (Zone W))
  unfolding rstrip_slash read_reply
  fetch_zones static_grid = routed static_zones
  fetch_zones (http_grid base_url api_key client) =
      let headers : List (String × String) =
        if str_eq api_key "" then [] else ("Authorization", String.◌++◌ "Bearer " api_key) ∷ [] in
      read_reply (client.get (String.◌++◌ (rstrip_slash base_url) "/zones") headers)

  unfoldable pub zone_to_state : Zone W → W → StateVector W
  zone_to_state zone workload_kwh = record {
    compute_cost_usd = f.round (f.mul zone.compute_cost_usd_per_kwh workload_kwh) 2;
    carbon_g = f.round (f.mul zone.carbon_g_per_kwh workload_kwh) 1;
    tax_value_usd = f.round (f.mul zone.tax_credit_usd_per_kwh workload_kwh) 2;
  }

  unfoldable pub zone_score : Zone W → W → W
  unfolding zone_to_state
  zone_score zone workload_kwh =
      let state = zone_to_state zone workload_kwh in
      let cost_score = f.div state.compute_cost_usd (f.decimal 10 0) in
      let carbon_score = f.div state.carbon_g (f.decimal 5000 0) in
      let tax_score = f.div (f.neg state.tax_value_usd) (f.decimal 1 0) in
      f.add (f.add (f.mul cost_score (f.decimal 7 1)) (f.mul carbon_score (f.decimal 2 1)))
        (f.mul tax_score (f.decimal 1 1))

  -- The loop of Python's `min`: a later zone replaces the best one only if its score is lower.
  unfoldable pub best_zone : W → Zone W → List (Zone W) → Zone W
  best_zone workload_kwh best [] = best
  best_zone workload_kwh best (z ∷ zs) =
      best_zone workload_kwh
        (if f.lt (zone_score z workload_kwh) (zone_score best workload_kwh) then z else best) zs

  abbrev pub choose_zone : W → List (Zone W) → Routed (Zone W × StateVector W)
  choose_zone workload_kwh [] = failed no_zones
  choose_zone workload_kwh (z ∷ zs) =
      let best = best_zone workload_kwh z zs in routed (best, zone_to_state best workload_kwh)

  abbrev pub default_grid : Settings W → HttpClient W → GridClient W
  default_grid settings http =
      if str_eq settings.grid_api_key ""
      then static_grid
      else http_grid settings.grid_api_url settings.grid_api_key http

  -- The client that is passed in, or the one that the settings call for.
  unfoldable pub find_optimal_zone :
      Settings W → HttpClient W → W → Option (GridClient W) → Routed (Zone W × StateVector W)
  find_optimal_zone settings http workload_kwh client =
      let grid : GridClient W = elim client [ some g ↦ g | none ↦ default_grid settings http ] in
      elim (fetch_zones grid) [ routed zs ↦ choose_zone workload_kwh zs | failed e ↦ failed e ]

  -- The default of the parameter `workload_kwh`.
  abbrev pub default_workload : W
  default_workload = f.decimal 10 0
