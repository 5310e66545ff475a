-- ===== src/Server/State.antt =====
-- nteedb-server/server.go and handlers.go: the state that the handlers work on, and the helpers that
-- they share.
use ntee_db.Base.{ℕ, ◌^◌, Bool, true, Option, none, some, List, [], ◌∷◌, if◌then◌else◌}
use ntee_db.Base.Int.{ℤ, pos, leb_ℤ}
use ntee_db.Bytes.{Bytes}
use ntee_db.Record.{AnyValue, IndexValues, text, number}
use ntee_db.Result.{Result}
use ntee_db.Run.{Run}
use ntee_db.File.{File}
use ntee_db.SecIndex.{kind_string, kind_number}
use ntee_db.Db.{Env, Db}
use ntee_db.Db.Compact.{Swap}
use ntee_db.Server.Text.{parse_int}
use ntee_db.Server.Proto.{
  ReadError, Reader, Got, got, lost, read_data, Failure, Envelope, Checked, fine, refused, ◌>>=◌,
  usage, bad_ttl, not_a_number, bad_limit,
}
use ntee_db.Server.Accounts.{AuthStore, Role}
use ntee_db.Server.Settings.{Floats, Config, SchemaIndex, kind_of, times}

-- Of encoding/json and strconv, at what the handlers give them: json.Valid, ParseFloat, and
-- json.Unmarshal into index values.
pub record Std : Type 0 where
  pub valid_json : Bytes → Bool
  pub parse_float : Bytes → Option ℤ
  pub parse_index_values : Bytes → Option IndexValues

-- What a command meets outside the program: the clock, and the files of a rewrite.
pub record Moment : Type 0 where
  pub now : ℤ
  pub swap : Swap
  pub blob_file : File

-- connState
pub record Session : Type 0 where
  pub authed : Bool
  pub role : Role

-- What `dispatch` returns: an answer, an answer before the connection ends, or a fatal error.
pub data Outcome : Type 0 where
  answer : Envelope → Outcome
  quit : Envelope → Outcome
  fatal : ReadError → Outcome

-- `parseTTLMillis`: a duration in nanoseconds.
unfoldable pub parse_ttl_millis : Bytes → Bytes → Checked ℤ
unfolding parse_int
parse_ttl_millis cmd tok = elim (parse_int tok) [
  | none ↦ refused (bad_ttl cmd tok)
  | some ms ↦ if leb_ℤ ms (pos 0) then refused (bad_ttl cmd tok) else fine (times ms (10 ^ 6))
]

-- The optional ttlms token.
abbrev pub optional_ttl : Bytes → List Bytes → Checked (List ℤ)
optional_ttl cmd [] = fine []
optional_ttl cmd (tok ∷ rest) = do d ← parse_ttl_millis cmd tok; fine (d ∷ [])

-- An absent limit is 0.
unfoldable pub parse_limit : List Bytes → Checked ℤ
parse_limit [] = fine (pos 0)
parse_limit (tok ∷ rest) = elim (parse_int tok) [ none ↦ refused (bad_limit tok) | some n ↦ fine n ]

-- The `strconv.ParseInt` of an argument, with the message of a failure.
abbrev pub int_or : Failure → Bytes → Checked ℤ
int_or e tok = elim (parse_int tok) [ none ↦ refused e | some n ↦ fine n ]

unfoldable pub index_value : Std → List SchemaIndex → Bytes → Bytes → Checked AnyValue
unfolding kind_of
index_value std ixs name tok = elim (kind_of ixs name) [
  | kind_string ↦ fine (text tok)
  | kind_number ↦ elim (std.parse_float tok) [
    | none ↦ refused (not_a_number name tok)
    | some f ↦ fine (number f)
  ]
]

-- `indexArgs`: the name, the value and the limit.
unfoldable pub index_args :
    Std → List SchemaIndex → Bytes → List Bytes → Bool → Checked (Bytes × AnyValue × ℤ)
unfolding index_value parse_limit
index_args std ixs cmd (name ∷ tok ∷ []) with_limit = do
  val ← index_value std ixs name tok
  fine (name, val, pos 0)
index_args std ixs cmd (name ∷ tok ∷ limit ∷ []) true = do
  val ← index_value std ixs name tok
  n ← parse_limit (limit ∷ [])
  fine (name, val, n)
index_args std ixs cmd args with_limit = refused (usage cmd)

module _ (env : Env) (floats : Floats) where
  pub record Server : Type 0 where
    pub cfg : Config floats
    pub auth : AuthStore
    pub schema : List SchemaIndex
    pub db : Db env
    -- `len(s.conns)`, and the counters of the stats command.
    pub connections : ℕ
    pub total_conns : ℕ
    pub commands : ℕ
    pub auto_compacts : ℕ
    pub blob_compacts : ℕ

  -- The server, with the session and the reader of one connection.
  pub record Conn : Type 0 where
    pub server : Server
    pub session : Session
    pub reader : Reader

  abbrev pub Handler : Type 0
  Handler = Conn → Outcome × Conn

  abbrev pub say : Envelope → Handler
  say e c = (answer e, c)

  abbrev pub with_db : Db env → Conn → Conn
  with_db db c = record c { server = record c.server { db = db } }

  -- A result of the store, or its error.
  abbrev pub respond : {A : Type 0} → (A → Envelope) → Result A → Envelope
  respond f (Result.ok a) = f a
  respond f (Result.err e) = Envelope.fail (Failure.core e)

  -- A call of the store, and the answer to its result.
  abbrev pub on_db : {A : Type 0} → Run (Db env) A → (A → Envelope) → Handler
  on_db m f c = let (r, db) = m c.server.db in (answer (respond f r), with_db db c)

  abbrev pub on_query : {A : Type 0} → (Db env → Result A) → (A → Envelope) → Handler
  on_query q f = on_db (λ db. (q db, db)) f

  -- An argument that may be refused with a message.
  abbrev pub given : {A : Type 0} → Checked A → (A → Handler) → Handler
  given (fine a) k = k a
  given (refused e) k = say (Envelope.fail e)

  abbrev pub block_read : (Bytes → Handler) → Got Bytes × Reader → Handler
  block_read k (got block, r) c = k block (record c { reader = r })
  block_read k (lost e, r) c = (fatal e, record c { reader = r })

  -- `readData`, whose failure is fatal for the connection.
  unfoldable pub with_block : ℤ → (Bytes → Handler) → Handler
  with_block n k c = block_read k (read_data n c.server.cfg.max_value c.reader) c
