-- ===== src/Capi/Exports.antt =====
-- nteedb-js/capi/exports.go: the exported functions on their handles.
use ntee_db.Base.{ℕ, Option, none, some}
use ntee_db.Base.Int.{ℤ}
use ntee_db.Bytes.{Bytes}
use ntee_db.Result.{Result, ok, err}
use ntee_db.Record.{AnyValue}
use ntee_db.Server.State.{Moment}
use ntee_db.Db.{Env, Db}
use ntee_db.Db.Read
use ntee_db.Capi.Registry.{Registry, reg_put, reg_get, reg_delete, at_pointer}
use ntee_db.Capi.Values.{Decoders, core, invalid_handle, handle, Reply, done, result, failed}
use ntee_db.Capi.Calls.{
  Op, nteedb_put, nteedb_incr, nteedb_topup, nteedb_take, nteedb_get_json, nteedb_has,
  nteedb_delete, nteedb_get_many_json, nteedb_put_batch, nteedb_put_batch_bin, nteedb_prefix_scan,
  nteedb_prefix_scan_records_json, nteedb_by_index, nteedb_by_index_records_json,
  nteedb_by_index_prefix, nteedb_by_index_prefix_records_json, nteedb_by_index_has,
  nteedb_by_index_range, nteedb_remove_by_pk_less, nteedb_remove_by_pk_greater, nteedb_stats,
  nteedb_compact, nteedb_reindex, nteedb_relieve, nteedb_blob_usage, nteedb_details,
  nteedb_dropped_indexes, nteedb_prospective_indexes,
}

-- The exports that work on the store of a handle.
pub data Call : Type 0 where
  put : Bytes → Bytes → Bytes → ℤ → Call
  incr : Bytes → ℤ → ℤ → Call
  topup take : Bytes → ℤ → ℤ → ℤ → Call
  get_json has delete : Bytes → Call
  get_many_json put_batch : Bytes → Call
  put_batch_bin : Bytes → Bytes → Call
  prefix_scan prefix_scan_records_json : Bytes → Call
  by_index by_index_records_json by_index_prefix by_index_prefix_records_json :
      Bytes → Bytes → ℤ → Call
  by_index_has : Bytes → Bytes → Call
  by_index_range : Bytes → Bytes → Bytes → Call
  remove_by_pk_less remove_by_pk_greater : Bytes → Call
  get_stats compact reindex relieve blob_usage get_details get_dropped get_prospective : Call

module _ (env : Env) (print : AnyValue → Bytes) (dec : Decoders) (m : Moment) where
  unfoldable pub run_call : Call → Op env print dec m
  run_call (put key val ix ttl) = nteedb_put env print dec m key val ix ttl
  run_call (incr key delta ttl) = nteedb_incr env print dec m key delta ttl
  run_call (topup key amount max ttl) = nteedb_topup env print dec m key amount max ttl
  run_call (take key amount left ttl) = nteedb_take env print dec m key amount left ttl
  run_call (get_json key) = nteedb_get_json env print dec m key
  run_call (has key) = nteedb_has env print dec m key
  run_call (delete key) = nteedb_delete env print dec m key
  run_call (get_many_json json) = nteedb_get_many_json env print dec m json
  run_call (put_batch json) = nteedb_put_batch env print dec m json
  run_call (put_batch_bin json buf) = nteedb_put_batch_bin env print dec m json buf
  run_call (prefix_scan p) = nteedb_prefix_scan env print dec m p
  run_call (prefix_scan_records_json p) = nteedb_prefix_scan_records_json env print dec m p
  run_call (by_index name val limit) = nteedb_by_index env print dec m name val limit
  run_call (by_index_records_json name val limit) =
      nteedb_by_index_records_json env print dec m name val limit
  run_call (by_index_prefix name p limit) = nteedb_by_index_prefix env print dec m name p limit
  run_call (by_index_prefix_records_json name p limit) =
      nteedb_by_index_prefix_records_json env print dec m name p limit
  run_call (by_index_has name val) = nteedb_by_index_has env print dec m name val
  run_call (by_index_range name lo hi) = nteedb_by_index_range env print dec m name lo hi
  run_call (remove_by_pk_less cutoff) = nteedb_remove_by_pk_less env print dec m cutoff
  run_call (remove_by_pk_greater cutoff) = nteedb_remove_by_pk_greater env print dec m cutoff
  run_call get_stats = nteedb_stats env print dec m
  run_call compact = nteedb_compact env print dec m
  run_call reindex = nteedb_reindex env print dec m
  run_call relieve = nteedb_relieve env print dec m
  run_call blob_usage = nteedb_blob_usage env print dec m
  run_call get_details = nteedb_details env print dec m
  run_call get_dropped = nteedb_dropped_indexes env print dec m
  run_call get_prospective = nteedb_prospective_indexes env print dec m

  abbrev at_store : ℕ → Registry (Db env) → Reply × Db env → Reply × Registry (Db env)
  at_store h reg (r, db) = (r, at_pointer h db reg)

  -- An export on a handle.
  unfoldable pub call : ℕ → Call → Registry (Db env) → Reply × Registry (Db env)
  unfolding run_call
  call h c reg = elim (reg_get h reg) [
    | none ↦ (failed invalid_handle, reg)
    | some db ↦ at_store h reg (run_call c db)
  ]

module _ (env : Env) where
  -- `nteedb_open`, of what Open returns.
  unfoldable pub nteedb_open : Result (Db env) → Registry (Db env) → Reply × Registry (Db env)
  nteedb_open (err e) reg = (failed (core e), reg)
  nteedb_open (ok db) reg = let (h, reg') = reg_put db reg in (result (handle h), reg')

  abbrev closing : Option (Db env) → Reply
  closing none = done
  closing (some db) = elim (Read.close env db).0 [ ok _ ↦ done | err e ↦ failed (core e) ]

  -- `nteedb_close`: the store that is released is closed.
  unfoldable pub nteedb_close : ℕ → Registry (Db env) → Reply × Registry (Db env)
  nteedb_close h reg = let (db, reg') = reg_delete h reg in (closing db, reg')
