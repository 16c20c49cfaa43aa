-- ===== src/Persistence.antt =====
-- src/persistence.py: the tables of the SQLite database and the statements that the program runs on
-- them. A failing statement leaves the database as it was; faults of the disk are not modelled,
-- and neither is a balance that is NaN, which SQLite takes for NULL and refuses. The clock's readings
-- are arguments.
pub mod Purge
use Prim.Native.String.{compare}
use text.Mathlib.Text.{is_lt}
use swift_route.Prelude.{
  ℕ, zero, suc, ◌+◌, String, Bool, true, false, not, Option, none, some, List, [], ◌∷◌, ◌++◌,
  str_eq, length, if◌then◌else◌,
}
use swift_route.Prelude.Dict.{Dict, lookup, insert, adjust, contains}
use swift_route.Float.{Float, nought, float_max}
use swift_route.Json.{JsonObject, dumps_or_none}

pub record BalanceRow (W : Type 0) : Type 0 where
  pub creator_balance : W
  pub node_payout_usd : W
  pub updated_at : String

pub record JobRow : Type 0 where
  pub status : String
  pub zone_id : String
  pub zone_name : String
  pub created_at : String
  pub completed_at : Option String
  pub script_b64 : String
  pub vm_logs_json : Option String
  pub receipt_json : Option String
  pub payment_json : Option String

pub record ReceiptRow : Type 0 where
  pub job_id : String
  pub receipt_json : String
  pub created_at : String

-- The one row of `balances`, and the rows of `jobs` and `receipts` by their primary keys.
pub record Db (W : Type 0) : Type 0 where
  pub balances : Option (BalanceRow W)
  pub jobs : Dict JobRow
  pub receipts : Dict ReceiptRow

abbrev pub empty_db : {W : Type 0} → Db W
empty_db = record { balances = none; jobs = []; receipts = [] }

module _ {W : Type 0} ⦃f : Float W⦄ where
  -- The tables are there or are created; `INSERT OR IGNORE` adds the row of balances once.
  unfoldable pub init_db : Db W → Db W
  init_db db =
      let first : BalanceRow W = record {
        creator_balance = nought;
        node_payout_usd = nought;
        updated_at = "";
      } in
      record db { balances = elim db.balances [ none ↦ some first | some row ↦ some row ] }

  unfoldable pub get_balances : Db W → W × W
  get_balances db = elim db.balances [
    | none ↦ (nought, nought)
    | some row ↦ (row.creator_balance, row.node_payout_usd)
  ]

  abbrev add_balances : W → W → String → BalanceRow W → BalanceRow W
  add_balances creator_delta node_delta now row = record {
    creator_balance = float_max nought (f.add row.creator_balance creator_delta);
    node_payout_usd = float_max nought (f.add row.node_payout_usd node_delta);
    updated_at = now;
  }

  unfoldable pub update_balances : W → W → String → Db W → Db W
  update_balances creator_delta node_delta now db = record db {
    balances = elim db.balances [
      | none ↦ none
      | some row ↦ some (add_balances creator_delta node_delta now row)
    ];
  }

  unfoldable pub set_balances : W → W → String → Db W → Db W
  set_balances creator_balance node_payout_usd now db =
      let row : BalanceRow W = record {
        creator_balance = creator_balance;
        node_payout_usd = node_payout_usd;
        updated_at = now;
      } in
      record db { balances = elim db.balances [ none ↦ none | some old ↦ some row ] }

abbrev pub with_status : String → String → JobRow → JobRow
with_status status now row =
    if not (str_eq status "completed")
    then record row { status = status }
    else record row { status = status; completed_at = some now }

-- COALESCE(?, old)
abbrev pub coalesce : Option String → Option String → Option String
coalesce none old = old
coalesce (some new) old = some new

abbrev pub with_result : Option String → Option String → Option String → JobRow → JobRow
with_result vm_logs receipt payment row = record row {
  vm_logs_json = coalesce vm_logs row.vm_logs_json;
  receipt_json = coalesce receipt row.receipt_json;
  payment_json = coalesce payment row.payment_json;
}

-- `WHERE completed_at < cutoff` compares texts, and NULL passes no test.
abbrev pub is_purged : String → JobRow → Bool
is_purged cutoff row = elim row.completed_at [ none ↦ false | some at ↦ is_lt (compare at cutoff) ]

unfoldable pub keep_rows : String → Dict JobRow → Dict JobRow
keep_rows cutoff [] = []
keep_rows cutoff ((k, row) ∷ rows) =
    let rest = keep_rows cutoff rows in if is_purged cutoff row then rest else (k, row) ∷ rest

unfoldable pub count_purged : String → Dict JobRow → ℕ
count_purged cutoff [] = 0
count_purged cutoff ((k, row) ∷ rows) =
    (if is_purged cutoff row then 1 else 0) + count_purged cutoff rows

-- The row that `create_job` inserts.
abbrev pub new_row : String → String → String → String → JobRow
new_row script_b64 zone_id zone_name now = record {
  status = "queued";
  zone_id = zone_id;
  zone_name = zone_name;
  created_at = now;
  completed_at = none;
  script_b64 = script_b64;
  vm_logs_json = none;
  receipt_json = none;
  payment_json = none;
}

module _ {W : Type 0} where
  -- `none` is sqlite3's IntegrityError: the key is taken.
  unfoldable pub create_job : String → String → String → String → String → Db W → Option (Db W)
  create_job job_id script_b64 zone_id zone_name now db =
      let row = new_row script_b64 zone_id zone_name now in
      if contains job_id db.jobs
      then none
      else some (record db { jobs = insert job_id row db.jobs })

  unfoldable pub update_job_status : String → String → String → Db W → Db W
  update_job_status job_id status now db = record db {
    jobs = adjust job_id (with_status status now) db.jobs;
  }

  unfoldable pub update_job_result :
      (JsonObject W → String) → String → JsonObject W → JsonObject W → JsonObject W → Db W → Db W
  update_job_result dumps job_id vm_logs receipt payment db = record db {
    jobs =
        adjust job_id
          (with_result (dumps_or_none dumps vm_logs) (dumps_or_none dumps receipt)
            (dumps_or_none dumps payment))
          db.jobs;
  }

  unfoldable pub get_job : String → Db W → Option JobRow
  get_job job_id db = lookup job_id db.jobs

  -- `cutoff` is SQLite's datetime('now', '-… seconds').
  unfoldable pub purge_old_jobs : String → Db W → Db W × ℕ
  unfolding keep_rows count_purged
  purge_old_jobs cutoff db =
      (record db { jobs = keep_rows cutoff db.jobs }, count_purged cutoff db.jobs)

  -- `none` is sqlite3's IntegrityError.
  unfoldable pub store_receipt : String → String → String → String → Db W → Option (Db W)
  store_receipt receipt_id job_id receipt_json now db =
      let row : ReceiptRow = record {
        job_id = job_id;
        receipt_json = receipt_json;
        created_at = now;
      } in
      if contains receipt_id db.receipts
      then none
      else some (record db { receipts = insert receipt_id row db.receipts })

  unfoldable pub get_receipt : String → Db W → Option ReceiptRow
  get_receipt receipt_id db = lookup receipt_id db.receipts
