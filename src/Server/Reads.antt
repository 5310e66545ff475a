-- ===== src/Server/Reads.antt =====
-- nteedb-server/handlers.go: the commands that read.
use ntee_db.Base.{Bool, true, false, Option, none, some, List, [], ◌∷◌}
use ntee_db.Bytes.{Bytes}
use ntee_db.Record.{AnyValue}
use ntee_db.Result
use ntee_db.Run
use ntee_db.Run.{Run}
use ntee_db.Db.{Env, Db}
use ntee_db.Db.Read
use ntee_db.Db.Queries
use ntee_db.Db.Compact.{Usage, blob_usage}
use ntee_db.Db.Schema.{prospective_indexes, dropped_indexes}
use ntee_db.Server.Proto.{
  JsonValue, json_value, Counts, truth, null, value, keys, values, records, counts, Envelope, found,
  usage, fine, ◌>>=◌,
}
use ntee_db.Server.Settings.{Floats}
use ntee_db.Server.State.{
  Std, Moment, Handler, Conn, say, on_db, on_query, given, index_args, index_value, parse_limit,
}

-- GetMany's results beside the keys: `getm` shows every key, `ixrec` those that are found.
unfoldable pub aligned :
    (Bytes → Bool) → List Bytes → List (Option Bytes) → List (Bytes × Option JsonValue)
aligned valid [] vs = []
aligned valid (k ∷ ks) [] = []
aligned valid (k ∷ ks) (none ∷ vs) = (k, none) ∷ aligned valid ks vs
aligned valid (k ∷ ks) (some v ∷ vs) = (k, some (json_value valid v)) ∷ aligned valid ks vs

unfoldable pub found_only :
    (Bytes → Bool) → List Bytes → List (Option Bytes) → List (Bytes × JsonValue)
found_only valid [] vs = []
found_only valid (k ∷ ks) [] = []
found_only valid (k ∷ ks) (none ∷ vs) = found_only valid ks vs
found_only valid (k ∷ ks) (some v ∷ vs) = (k, json_value valid v) ∷ found_only valid ks vs

abbrev pub ok_keys : List Bytes → Envelope
ok_keys ks = Envelope.ok (keys ks)

-- The answer to `get`.
abbrev pub get_answer : (Bytes → Bool) → Option Bytes → Envelope
get_answer valid none = found false null
get_answer valid (some v) = found true (value (json_value valid v))

module _ (env : Env) (floats : Floats) (std : Std) (moment : Moment) where
  unfoldable pub get : Bytes → List Bytes → Handler env floats
  get cmd (key ∷ []) = on_db env floats (Read.get env moment.now key) (get_answer std.valid_json)
  get cmd _ = say env floats (Envelope.fail (usage cmd))

  unfoldable pub getm : Bytes → List Bytes → Handler env floats
  getm cmd [] = say env floats (Envelope.fail (usage cmd))
  getm cmd (key ∷ rest) =
      on_db env floats (Read.get_many env moment.now (key ∷ rest))
        (λ vs. Envelope.ok (values (aligned std.valid_json (key ∷ rest) vs)))

  unfoldable pub has : Bytes → List Bytes → Handler env floats
  has cmd (key ∷ []) =
      on_db env floats (λ db. let (b, db') = Read.has env moment.now key db in (Result.ok b, db'))
        (λ b. Envelope.ok (truth b))
  has cmd _ = say env floats (Envelope.fail (usage cmd))

  abbrev scan_prefix : Bytes → Handler env floats
  scan_prefix p = on_db env floats (Read.prefix_scan env moment.now p) ok_keys

  unfoldable pub scan : Bytes → List Bytes → Handler env floats
  scan cmd [] = scan_prefix []
  scan cmd (p ∷ []) = scan_prefix p
  scan cmd _ = say env floats (Envelope.fail (usage cmd))

  unfoldable pub ix : Bytes → List Bytes → Handler env floats
  ix cmd args c =
      given env floats (index_args std c.server.schema cmd args true)
        (λ a. on_query env floats (λ db. Queries.by_index env db a.0 a.1 a.2) ok_keys) c

  unfoldable pub ixh : Bytes → List Bytes → Handler env floats
  ixh cmd args c =
      given env floats (index_args std c.server.schema cmd args false)
        (λ a.
          on_query env floats (λ db. Queries.by_index_has env db a.0 a.1)
            (λ b. Envelope.ok (truth b)))
        c

  abbrev by_prefix : Bytes → Bytes → List Bytes → Handler env floats
  by_prefix name p rest =
      given env floats (parse_limit rest)
        (λ n. on_query env floats (λ db. Queries.by_index_prefix env db name p n) ok_keys)

  unfoldable pub ixp : Bytes → List Bytes → Handler env floats
  ixp cmd (name ∷ p ∷ []) = by_prefix name p []
  ixp cmd (name ∷ p ∷ limit ∷ []) = by_prefix name p (limit ∷ [])
  ixp cmd _ = say env floats (Envelope.fail (usage cmd))

  unfoldable pub ixr : Bytes → List Bytes → Handler env floats
  ixr cmd (name ∷ lo ∷ hi ∷ []) c =
      given env floats {A = AnyValue × AnyValue}
        (do
          l ← index_value std c.server.schema name lo
          h ← index_value std c.server.schema name hi
          fine (l, h))
        (λ b. on_query env floats (λ db. Queries.by_index_range env db name b.0 b.1) ok_keys) c
  ixr cmd _ c = say env floats (Envelope.fail (usage cmd)) c

  -- The query and the reads are two calls of the store.
  abbrev read_found : List Bytes → Run (Db env) (List (Bytes × JsonValue))
  read_found ks =
      Run.◌>>=◌ (Read.get_many env moment.now ks) (λ vs. Run.pure (found_only std.valid_json ks vs))

  unfoldable pub ixrec : Bytes → List Bytes → Handler env floats
  ixrec cmd args c =
      given env floats (index_args std c.server.schema cmd args true)
        (λ a.
          on_db env floats (Run.◌>>=◌ (λ db. (Queries.by_index env db a.0 a.1 a.2, db)) read_found)
            (λ out. Envelope.ok (records out)))
        c

  -- The statistics, behind the scan of the blobs, which may fail.
  abbrev counts_of : Conn env floats → Usage → Counts
  counts_of c u = record {
    stats = Read.stats env c.server.db;
    live = Read.live_bytes env c.server.db;
    usage = u;
    connections = c.server.connections;
    total_conns = c.server.total_conns;
    commands = c.server.commands;
    auto_compacts = c.server.auto_compacts;
    blob_compacts = c.server.blob_compacts;
  }

  unfoldable pub stats : Handler env floats
  stats c = on_db env floats (blob_usage env) (λ u. Envelope.ok (counts (counts_of c u))) c

  unfoldable pub dropped : Handler env floats
  dropped c = say env floats (ok_keys (dropped_indexes env c.server.db)) c

  unfoldable pub prospective : Handler env floats
  prospective c = say env floats (ok_keys (prospective_indexes env c.server.db)) c
