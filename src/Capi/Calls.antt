-- ===== src/Capi/Calls.antt =====
-- nteedb-js/capi/exports.go: what the exported functions do with the store of a handle. A string
-- is what C.GoString makes of its pointer, a value what C.GoBytes makes of pointer and length.
use ntee_db.Base.{ℕ, ◌^◌, List, [], ◌∷◌, map, length, if◌then◌else◌}
use ntee_db.Base.Int.{ℤ, pos, eqb_ℤ}
use ntee_db.Bytes.{Bytes}
use ntee_db.Result.{Result, ok, err}
use ntee_db.Run.{Run}
use ntee_db.Record.{AnyValue}
use ntee_db.Server.Settings.{times}
use ntee_db.Server.State.{Moment}
use ntee_db.Db.{Env, Db}
use ntee_db.Db.Write
use ntee_db.Db.Read
use ntee_db.Db.Batch
use ntee_db.Db.Counters
use ntee_db.Db.Ranges
use ntee_db.Db.Queries
use ntee_db.Db.Compact
use ntee_db.Db.Schema.{prospective_indexes, dropped_indexes}
use ntee_db.Capi.Values.{
  Decoders, core, Payload, integer, truth, keys, value, values, records, stats, usage, details,
  Reply, done, result, failed, Made, made, refused, decoded, encode_val_json, encode_records,
}
use ntee_db.Capi.Batches.{inline_items, cut_items}

-- `ttlArg`: the milliseconds as a Duration, whose product wraps.
abbrev pub ttl_arg : ℤ → List ℤ
ttl_arg ms = if eqb_ℤ ms (pos 0) then [] else times ms (10 ^ 6) ∷ []

abbrev pub number_of : ℕ → Payload
number_of n = integer (pos n)

module _ (env : Env) (print : AnyValue → Bytes) (dec : Decoders) (m : Moment) where
  abbrev pub Op : Type 0
  Op = Db env → Reply × Db env

  -- `reply(f(r), nil)`, or `reply(nil, err)`
  abbrev answer : {A : Type 0} → (A → Payload) → Run (Db env) A → Op
  answer f run db =
      let (r, db') = run db in ((elim r [ ok a ↦ result (f a) | err e ↦ failed (core e) ]), db')

  -- `reply(nil, err)` of a method that returns an error alone.
  abbrev plain : Run (Db env) (Unit {0}) → Op
  plain run db = let (r, db') = run db in ((elim r [ ok _ ↦ done | err e ↦ failed (core e) ]), db')

  abbrev with_made : {A : Type 0} → Made A → (A → Op) → Op
  with_made (made a) op = op a
  with_made (refused e) op = λ db. (failed e, db)

  abbrev query : {A : Type 0} → (Db env → Result A) → Run (Db env) A
  query q db = (q db, db)

  -- readRecordsReply
  abbrev read_records : Run (Db env) (List Bytes) → Op
  read_records run db =
      let (r, db') = run db in
      (elim r as (λ _. Op) [
        | err e ↦ λ db. (failed (core e), db)
        | ok ks ↦ answer (λ vs. records (encode_records dec ks vs)) (Read.get_many env m.now ks)
      ])
        db'

  -- The number of the items, once they are stored.
  abbrev put_all : List Batch.PutItem → Op
  put_all items = answer (λ _. number_of (length items)) (Batch.put_batch env print m.now items)

  abbrev put_value : Bytes → Bytes → Bytes → List ℤ → Op
  put_value key val [] ttl = plain (Write.put env m.now key val ttl)
  put_value key val (c ∷ cs) ttl =
      with_made (decoded (dec.index_values (c ∷ cs)))
        (λ ix. plain (Write.put_indexed env m.now key val ix ttl))

  abbrev details_of : Db env → Result Read.Stats
  details_of db = ok (Read.stats env db)

  abbrev pub nteedb_put : Bytes → Bytes → Bytes → ℤ → Op
  nteedb_put key val ix ttl = put_value key val ix (ttl_arg ttl)

  abbrev pub nteedb_incr : Bytes → ℤ → ℤ → Op
  nteedb_incr key delta ttl = answer integer (Counters.incr env m.now key delta (ttl_arg ttl))

  abbrev pub nteedb_topup : Bytes → ℤ → ℤ → ℤ → Op
  nteedb_topup key amount max ttl =
      answer integer (Counters.topup env m.now key amount max (ttl_arg ttl))

  abbrev pub nteedb_take : Bytes → ℤ → ℤ → ℤ → Op
  nteedb_take key amount left ttl =
      answer truth (Counters.take_from env m.now key amount left (ttl_arg ttl))

  abbrev pub nteedb_get_json : Bytes → Op
  nteedb_get_json key = answer (λ v. value (encode_val_json dec v)) (Read.get env m.now key)

  abbrev pub nteedb_has : Bytes → Op
  nteedb_has key = λ db. let (b, db') = Read.has env m.now key db in (result (truth b), db')

  abbrev pub nteedb_delete : Bytes → Op
  nteedb_delete key = plain (Write.delete env key)

  abbrev pub nteedb_get_many_json : Bytes → Op
  nteedb_get_many_json json =
      with_made (decoded (dec.key_list json))
        (λ ks. answer (λ vs. values (map (encode_val_json dec) vs)) (Read.get_many env m.now ks))

  abbrev pub nteedb_put_batch : Bytes → Op
  nteedb_put_batch json =
      with_made (decoded (dec.batch_items json)) (λ its. with_made (inline_items dec its) put_all)

  abbrev pub nteedb_put_batch_bin : Bytes → Bytes → Op
  nteedb_put_batch_bin json buf =
      with_made (decoded (dec.bin_items json)) (λ its. with_made (cut_items buf 0 its) put_all)

  abbrev pub nteedb_prefix_scan : Bytes → Op
  nteedb_prefix_scan p = answer keys (Read.prefix_scan env m.now p)

  abbrev pub nteedb_prefix_scan_records_json : Bytes → Op
  nteedb_prefix_scan_records_json p = read_records (Read.prefix_scan env m.now p)

  abbrev pub nteedb_by_index : Bytes → Bytes → ℤ → Op
  nteedb_by_index name val limit =
      with_made (decoded (dec.any val))
        (λ v. answer keys (query (λ db. Queries.by_index env db name v limit)))

  abbrev pub nteedb_by_index_records_json : Bytes → Bytes → ℤ → Op
  nteedb_by_index_records_json name val limit =
      with_made (decoded (dec.any val))
        (λ v. read_records (query (λ db. Queries.by_index env db name v limit)))

  abbrev pub nteedb_by_index_prefix : Bytes → Bytes → ℤ → Op
  nteedb_by_index_prefix name p limit =
      answer keys (query (λ db. Queries.by_index_prefix env db name p limit))

  abbrev pub nteedb_by_index_prefix_records_json : Bytes → Bytes → ℤ → Op
  nteedb_by_index_prefix_records_json name p limit =
      read_records (query (λ db. Queries.by_index_prefix env db name p limit))

  abbrev pub nteedb_by_index_has : Bytes → Bytes → Op
  nteedb_by_index_has name val =
      with_made (decoded (dec.any val))
        (λ v. answer truth (query (λ db. Queries.by_index_has env db name v)))

  abbrev pub nteedb_by_index_range : Bytes → Bytes → Bytes → Op
  nteedb_by_index_range name lo hi = with_made (decoded (dec.any lo)) (λ l.
      with_made (decoded (dec.any hi))
        (λ h. answer keys (query (λ db. Queries.by_index_range env db name l h))))

  abbrev pub nteedb_remove_by_pk_less : Bytes → Op
  nteedb_remove_by_pk_less cutoff = answer number_of (Ranges.remove_by_pk_less env cutoff)

  abbrev pub nteedb_remove_by_pk_greater : Bytes → Op
  nteedb_remove_by_pk_greater cutoff = answer number_of (Ranges.remove_by_pk_greater env cutoff)

  abbrev pub nteedb_stats : Op
  nteedb_stats = λ db. (result (stats (Read.stats env db)), db)

  abbrev pub nteedb_compact : Op
  nteedb_compact = plain (Compact.compact env m.swap m.now)

  abbrev pub nteedb_reindex : Op
  nteedb_reindex = plain (Compact.reindex env m.swap m.now)

  abbrev pub nteedb_relieve : Op
  nteedb_relieve = plain (Compact.blobs_relieve env m.swap m.now m.blob_file)

  abbrev pub nteedb_blob_usage : Op
  nteedb_blob_usage = answer usage (Compact.blob_usage env)

  abbrev pub nteedb_details : Op
  nteedb_details = λ db.
      answer
        (λ u.
          details (record { stats = Read.stats env db; live = Read.live_bytes env db; usage = u }))
        (Compact.blob_usage env) db

  abbrev pub nteedb_dropped_indexes : Op
  nteedb_dropped_indexes = λ db. (result (keys (dropped_indexes env db)), db)

  abbrev pub nteedb_prospective_indexes : Op
  nteedb_prospective_indexes = λ db. (result (keys (prospective_indexes env db)), db)
