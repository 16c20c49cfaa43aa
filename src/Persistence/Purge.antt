-- ===== src/Persistence/Purge.antt =====
-- What `purge_old_jobs` (src/persistence.py) deletes.
use Prim.Native.String.{compare}
use Prim.Native.String.compare
use Prim.Native.String
use text.Mathlib.Text.{is_lt}
use text.Mathlib.TextLemmas.{nil-append, cons-append}
use text.Mathlib.TextPositions.{compare_self}
use swift_route.Prelude.{
  String, false, ◌≡◌, refl, ap, ◌∙◌, some, [], ◌∷◌, arith, eq_iff, length, All, ◌+◌,
}
use swift_route.Prelude.Dict.{Dict, lookup}
use swift_route.Persistence.{
  JobRow, Db, is_purged, keep_rows, count_purged, purge_old_jobs, get_job,
}

compare_prefix : (d t u : String) → compare (String.◌++◌ d t) (String.◌++◌ d u) ≡ compare t u
compare_prefix String.[] t u = simp nil-append
compare_prefix (String.◌∷◌ c d) t u =
    rw (cons-append, cons-append)
      (compare.cons-cons c c (String.◌++◌ d t) (String.◌++◌ d u)
        ∙ rw compare_self (compare_prefix d t u))

-- The texts of datetime.isoformat() and of SQLite's datetime(), on a date.
abbrev pub iso_text : String → String → String
iso_text date time = String.◌++◌ date (String.◌++◌ "T" time)

abbrev pub sqlite_text : String → String → String
sqlite_text date time = String.◌++◌ date (String.◌++◌ " " time)

same_day_later :
    (date t u : String) → is_lt (compare (iso_text date t) (sqlite_text date u)) ≡ false
same_day_later date t u = rw compare_prefix (
    rw (cons-append, cons-append)
      (ap is_lt (compare.cons-cons "T" " " (String.◌++◌ "" t) (String.◌++◌ "" u))))

module _ (cutoff : String) where
  lookup-keep_rows :
      (k : String) (row : JobRow) (d : Dict JobRow)
      → is_purged cutoff row ≡ false
      → lookup k d ≡ some row
      → lookup k (keep_rows cutoff d) ≡ some row
  unfolding lookup keep_rows
  lookup-keep_rows k row [] h e = cc
  lookup-keep_rows k row ((j, r) ∷ d) h e = ground (arith, eq_iff j k, lookup-keep_rows k row d h)

  length-keep_rows :
      (d : Dict JobRow) → length (keep_rows cutoff d) + count_purged cutoff d ≡ length d
  unfolding keep_rows count_purged
  length-keep_rows [] = omega arith
  length-keep_rows ((k, row) ∷ d) = ground (arith, length-keep_rows d)

  keep_rows-kept : (d : Dict JobRow) → All (λ e. is_purged cutoff e.1 ≡ false) (keep_rows cutoff d)
  unfolding keep_rows
  keep_rows-kept [] = tt
  keep_rows-kept ((k, row) ∷ d) = ground (arith, keep_rows-kept d)

  -- A purge leaves only rows that are not completed before the cutoff, as texts compare, and every
  -- such row stays as it is under its job's id; the number that it returns is the number of rows that
  -- are gone; receipts and balances stay.
  pub purge_old_jobs_effect :
      {W : Type 0} (db : Db W)
      → let (db', count) = purge_old_jobs cutoff db in
        All (λ e. is_purged cutoff e.1 ≡ false) db'.jobs
        × ((job_id : String) (row : JobRow)
            → get_job job_id db ≡ some row
            → is_purged cutoff row ≡ false
            → get_job job_id db' ≡ some row)
        × (length db'.jobs + count ≡ length db.jobs)
        × (db'.receipts ≡ db.receipts)
        × (db'.balances ≡ db.balances)
  unfolding purge_old_jobs get_job
  purge_old_jobs_effect db = (
    keep_rows-kept db.jobs,
    λ job_id row found kept. lookup-keep_rows job_id row db.jobs kept found,
    length-keep_rows db.jobs,
    refl,
    refl,
  )

-- A job that was completed on the date of the cutoff survives the purge, at whatever time of that
-- date it was completed and wherever in the date the cutoff lies: `isoformat()` writes a "T" where
-- SQLite's `datetime` writes a space, and the texts are compared.
pub purge_keeps_same_day :
    {W : Type 0} (date t u job_id : String) (row : JobRow) (db : Db W)
    → row.completed_at ≡ some (iso_text date t)
    → get_job job_id db ≡ some row
    → get_job job_id (purge_old_jobs (sqlite_text date u) db).0 ≡ some row
unfolding get_job purge_old_jobs
purge_keeps_same_day date t u job_id row db e found =
    lookup-keep_rows (sqlite_text date u) job_id row db.jobs (rw e (same_day_later date t u)) found
