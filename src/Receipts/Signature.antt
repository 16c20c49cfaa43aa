-- ===== src/Receipts/Signature.antt =====
-- What the signature of a receipt (src/receipts.py) covers.
use swift_route.Prelude.{String, ◌≡◌, true}
use swift_route.Json.{JsonObject}
use swift_route.Receipts.{Keypair, IsKeypair, verify, generate}

module _ {W : Type 0} (keys : Keypair) (dumps : JsonObject W → String) where
  -- A receipt that was generated passes `verify` under the same keys, and goes on passing it when its
  -- remote carbon, its local carbon and its region are replaced, whatever by: these are not signed.
  pub verify-generate :
      (receipt_id timestamp job_id zone_name zone_region region' : String)
      (diverted remote local tax remote' local' : W)
      → IsKeypair keys
      → let r =
          generate keys dumps receipt_id timestamp job_id diverted remote local tax zone_name
            zone_region in
        (verify keys dumps r ≡ true)
        × (verify keys dumps (record r {
          carbon_remote_g = remote';
          carbon_local_g = local';
          zone_region = region';
        })
            ≡ true)
  unfolding verify generate
  verify-generate receipt_id timestamp job_id zone_name zone_region region' diverted remote local
        tax remote' local' law =
      (law.check-sign _, law.check-sign _)
