-- ===== src/Receipts.antt =====
-- src/receipts.py: the signed compliance receipts. The key pair of the cryptography library, the text
-- that `json.dumps` makes of an object, the fresh id and the clock's reading are arguments.
pub mod Keys
pub mod Signature
use swift_route.Prelude.{String, Bool, [], ◌∷◌, ◌≡◌, true}
use swift_route.Json.{Json, text, number, JsonObject}

pub record GhgReceipt (W : Type 0) : Type 0 where
  pub receipt_id : String
  pub job_id : String
  pub timestamp_utc : String
  pub scope : String
  pub carbon_diverted_g : W
  pub carbon_remote_g : W
  pub carbon_local_g : W
  pub tax_credit_usd : W
  pub zone_name : String
  pub zone_region : String
  pub signature : String

-- The pair of Ed25519 keys: a signature in hex, and the check of one. A text that is no hex, or a
-- signature that does not fit, raises, which is `false` here.
pub record Keypair : Type 0 where
  pub sign : String → String
  pub check : String → String → Bool

-- A signature that the private key makes passes the check of the public key.
pub record IsKeypair (keys : Keypair) : Type 0 where
  pub check-sign : (payload : String) → keys.check (keys.sign payload) payload ≡ true

module _ {W : Type 0} where
  -- The object that is signed, in the order of `sort_keys`.
  abbrev pub signed_object : String → String → String → String → W → W → String → JsonObject W
  signed_object receipt_id job_id timestamp scope carbon_diverted_g tax_credit_usd zone =
      ("carbon_diverted_g", number carbon_diverted_g)
      ∷ ("job_id", text job_id)
      ∷ ("receipt_id", text receipt_id)
      ∷ ("scope", text scope)
      ∷ ("tax_credit_usd", number tax_credit_usd)
      ∷ ("timestamp", text timestamp)
      ∷ ("zone", text zone)
      ∷ []

  unfoldable pub verify : Keypair → (JsonObject W → String) → GhgReceipt W → Bool
  verify keys dumps r = keys.check r.signature (
      dumps (
        signed_object r.receipt_id r.job_id r.timestamp_utc r.scope r.carbon_diverted_g
          r.tax_credit_usd r.zone_name))

  unfoldable pub generate :
      Keypair
      → (JsonObject W → String)
      → String
      → String
      → String
      → W
      → W
      → W
      → W
      → String
      → String
      → GhgReceipt W
  generate keys dumps receipt_id timestamp job_id carbon_diverted_g carbon_remote_g carbon_local_g
        tax_credit_usd zone_name zone_region =
      let payload = dumps (
        signed_object receipt_id job_id timestamp "Scope 3" carbon_diverted_g tax_credit_usd
          zone_name) in
      record {
        receipt_id = receipt_id;
        job_id = job_id;
        timestamp_utc = timestamp;
        scope = "Scope 3";
        carbon_diverted_g = carbon_diverted_g;
        carbon_remote_g = carbon_remote_g;
        carbon_local_g = carbon_local_g;
        tax_credit_usd = tax_credit_usd;
        zone_name = zone_name;
        zone_region = zone_region;
        signature = keys.sign payload;
      }

  -- asdict(receipt), which `to_json` prints.
  abbrev pub receipt_object : GhgReceipt W → JsonObject W
  receipt_object r =
      ("receipt_id", text r.receipt_id)
      ∷ ("job_id", text r.job_id)
      ∷ ("timestamp_utc", text r.timestamp_utc)
      ∷ ("scope", text r.scope)
      ∷ ("carbon_diverted_g", number r.carbon_diverted_g)
      ∷ ("carbon_remote_g", number r.carbon_remote_g)
      ∷ ("carbon_local_g", number r.carbon_local_g)
      ∷ ("tax_credit_usd", number r.tax_credit_usd)
      ∷ ("zone_name", text r.zone_name)
      ∷ ("zone_region", text r.zone_region)
      ∷ ("signature", text r.signature)
      ∷ []
