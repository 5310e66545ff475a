-- ===== src/Db/Read.antt =====
-- nteedb-core/db.go: the reads. A read that finds an expired entry queues it for the reaper.
use ntee_db.Base.{
  ℕ, ◌+◌, ◌-◌, ◌^◌, Bool, true, false, Option, none, some, List, [], ◌∷◌, ◌++◌, length, ltb,
  if◌then◌else◌,
}
use ntee_db.Base.Int.{ℤ, pos, to_int64, add64}
use ntee_db.Bytes.{Bytes}
use ntee_db.Result.{Result, ok, err}
use ntee_db.Run.{Run, continue, ◌>>=◌, pure}
use ntee_db.Record.{Record}
use ntee_db.Blob.{BlobStore}
use ntee_db.PkIndex
use ntee_db.PkIndex.{PkEntry, expired_at}
use ntee_db.Db.{Env, Db, read_record, blob_read_at, write_hint, write_hint_async}
use ntee_db.Db.Write.{open_only}

-- Stats
pub record Stats : Type 0 where
  pub records : ℕ
  pub main_bytes : ℕ
  pub blob_bytes : ℕ

-- int64 of an int32 by its bit pattern
abbrev pub int64_of_int32 : ℕ → ℤ
int64_of_int32 n = if ltb n (2 ^ 31) then pos n else to_int64 (n + (2 ^ 64 - 2 ^ 32))

unfoldable pub sum_sizes : List (ℕ × BlobStore) → ℕ
sum_sizes [] = 0
sum_sizes ((g, b) ∷ rest) = b.size + sum_sizes rest

unfoldable pub sum_lengths : List PkEntry → ℤ → ℤ
sum_lengths [] n = n
sum_lengths (e ∷ rest) n = sum_lengths rest (add64 n (int64_of_int32 e.n))

module _ (env : Env) where
  -- A send that finds the queue full is dropped.
  unfoldable pub reap_async : PkEntry → Db env → Db env
  reap_async e db =
      if ltb (length db.reap_queue) 1024
      then record db { reap_queue = db.reap_queue ++ (e.key, e.off) ∷ [] }
      else db

  -- `if e.expiredAt(nowMillis()) { db.reapAsync(e); … }`
  abbrev pub live_entry : ℤ → Option PkEntry → Db env → Option PkEntry × Db env
  live_entry now none db = (none, db)
  live_entry now (some e) db = if expired_at e now then (none, reap_async e db) else (some e, db)

  unfoldable pub pk_get_live : ℤ → Bytes → Db env → Option PkEntry × Db env
  pk_get_live now key db = live_entry now (PkIndex.get env.trees.pk db.index.pk key) db

  -- The value of a record, which may stand in a blob file.
  abbrev pub value_of : Db env → Result Record → Result Bytes
  value_of db (err e) = err e
  value_of db (ok r) = elim r.blob [ none ↦ ok r.value | some ref ↦ blob_read_at env db ref ]

  abbrev pub read_value : Option PkEntry → Run (Db env) (Option Bytes)
  read_value none = pure none
  read_value (some e) = λ db. continue (value_of db (read_record env db e), db) (λ v. pure (some v))

  abbrev pub get_value : ℤ → Bytes → Run (Db env) (Option Bytes)
  get_value now key db = let (e, db') = pk_get_live now key db in read_value e db'

  unfoldable pub get : ℤ → Bytes → Run (Db env) (Option Bytes)
  unfolding pk_get_live
  get now key = open_only env (get_value now key)

  -- The loop of GetMany; its results are aligned to the keys.
  unfoldable pub get_each : ℤ → List Bytes → Run (Db env) (List (Option Bytes))
  unfolding pk_get_live
  get_each now [] = pure []
  get_each now (key ∷ rest) = do v ← get_value now key; vs ← get_each now rest; pure (v ∷ vs)

  unfoldable pub get_many : ℤ → List Bytes → Run (Db env) (List (Option Bytes))
  unfolding get_each
  get_many now keys = open_only env (get_each now keys)

  abbrev pub is_some : {A : Type 0} → Option A → Bool
  is_some none = false
  is_some (some _) = true

  unfoldable pub has : ℤ → Bytes → Db env → Bool × Db env
  unfolding pk_get_live
  has now key db =
      if db.closed then (false, db) else let (e, db') = pk_get_live now key db in (is_some e, db')

  -- The loop of PrefixScan.
  unfoldable pub live_keys : ℤ → List PkEntry → Db env → List Bytes × Db env
  live_keys now [] db = ([], db)
  live_keys now (e ∷ rest) db =
      let (skipped, db') = live_keys now rest (reap_async e db) in
      let (kept, db'') = live_keys now rest db in
      if expired_at e now then (skipped, db') else (e.key ∷ kept, db'')

  unfoldable pub prefix_scan : ℤ → Bytes → Run (Db env) (List Bytes)
  unfolding live_keys
  prefix_scan now p = open_only env (λ db.
      let (keys, db') = live_keys now (PkIndex.prefix env.trees.pk db.index.pk p) db in
      (ok keys, db'))

  unfoldable pub stats : Db env → Stats
  unfolding sum_sizes
  stats db = if db.closed then record { records = 0; main_bytes = 0; blob_bytes = 0 } else record {
    records = env.trees.pk.len db.index.pk;
    main_bytes = db.main.size;
    blob_bytes = sum_sizes db.blobs;
  }

  unfoldable pub live_bytes : Db env → ℤ
  unfolding sum_lengths
  live_bytes db = if db.closed then pos 0 else sum_lengths (env.trees.pk.scan db.index.pk) (pos 0)

  -- Close waits for the hint writer, then writes a last hint; the handles' own close is no part
  -- of the state.
  unfoldable pub close : Run (Db env) (Unit {0})
  unfolding write_hint_async
  close db =
      if db.closed
      then (ok tt, db)
      else write_hint env (write_hint_async env (record db { closed = true }))
