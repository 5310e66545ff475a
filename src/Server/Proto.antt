-- ===== src/Server/Proto.antt =====
-- nteedb-server/proto.go: requests are lines and raw data blocks, and each answer is one envelope.
use ntee_db.Base.{
  ℕ, zero, suc, Bool, Option, none, some, List, [], ◌∷◌, ◌||◌, length, take, drop, ltb, leb, ◌==◌,
  if◌then◌else◌,
}
use ntee_db.Base.Int.{ℤ, pos, pos_part, ltb_ℤ}
use ntee_db.Scanner.{trim_cr}
use ntee_db.Bytes.{Bytes}
use ntee_db.Result.{Error}
use ntee_db.Db.Compact.{Usage}
use ntee_db.Db.Read.{Stats}
use ntee_db.Server.Text.{cut, fields, to_lower}

-- Why a read on a connection fails; `broken` is a deadline or an error of the network.
pub data ReadError : Type 0 where
  eof unexpected_eof broken : ReadError
  line_too_long value_too_big bad_data_end : ReadError

-- A bufio.Reader: the bytes that are still to come, how they end, and the size of the buffer.
pub record Reader : Type 0 where
  pub rest : Bytes
  pub ending : ReadError
  pub size : ℕ

pub data Got (A : Type 0) : Type 0 where
  got : A → Got A
  lost : ReadError → Got A

abbrev pub Reading : Type 0 → Type 0
Reading A = Reader → Got A × Reader

-- bufio.NewReaderSize takes 16 bytes at least.
abbrev pub buffer_size : ℕ → ℕ
buffer_size n = if ltb n 16 then 16 else n

-- ReadSlice('\n') finds the newline in a full buffer, or fails.
unfoldable pub read_line : Reading Bytes
unfolding cut trim_cr
read_line r =
    let (line, after) = cut 10 r.rest in
    if ltb (length line) r.size
    then elim after [
      | some rest ↦ (got (trim_cr line), record r { rest = rest })
      | none ↦ (lost r.ending, record r { rest = [] })
    ]
    else (lost line_too_long, record r { rest = drop r.size r.rest })

-- The error of io.ReadFull when the bytes end.
abbrev short_read : Bytes → ReadError → ReadError
short_read [] e = e
short_read (c ∷ cs) eof = unexpected_eof
short_read (c ∷ cs) e = e

abbrev pub line_feed : Bytes → Reader → Bytes → Got Bytes × Reader
line_feed buf r [] = (lost r.ending, record r { rest = [] })
line_feed buf r (c ∷ cs) =
    if c == 10
    then (got buf, record r { rest = cs })
    else (lost bad_data_end, record r { rest = cs })

-- What stands behind a data block: a newline, or a carriage return and a newline.
abbrev pub block_end : Bytes → Reader → Bytes → Got Bytes × Reader
block_end buf r [] = (lost r.ending, record r { rest = [] })
block_end buf r (c ∷ cs) = if c == 13 then line_feed buf r cs else line_feed buf r (c ∷ cs)

unfoldable pub read_data : ℤ → ℤ → Reading Bytes
read_data n max r =
    if ltb_ℤ n (pos 0) || ltb_ℤ max n
    then (lost value_too_big, r)
    else if leb (pos_part n) (length r.rest)
    then block_end (take (pos_part n) r.rest) r (drop (pos_part n) r.rest)
    else (lost (short_read r.rest r.ending), record r { rest = [] })

unfoldable pub split_command : Bytes → Bytes × List Bytes
split_command line = elim (fields line) [ [] ↦ ([], []) | cmd ∷ args ↦ (to_lower cmd, args) ]

-- bytes.TrimLeft(s, " ")
unfoldable pub skip_blanks : Bytes → Bytes
skip_blanks [] = []
skip_blanks (c ∷ cs) = let rest = skip_blanks cs in if c == b' ' then rest else c ∷ cs

-- The loop of `restAfterTokens`; nil is the empty slice.
unfoldable pub drop_tokens : ℕ → Bytes → Bytes
drop_tokens zero rest = rest
drop_tokens (suc n) rest = elim (cut b' ' rest).1 [
  | none ↦ []
  | some after ↦ drop_tokens n (skip_blanks after)
]

unfoldable pub rest_after_tokens : Bytes → ℕ → Bytes
unfolding skip_blanks drop_tokens cut
rest_after_tokens line n = drop_tokens n (skip_blanks line)

-- A value in an answer: JSON as it is, or wrapped.
pub data JsonValue : Type 0 where
  verbatim : Bytes → JsonValue
  base64 : Bytes → JsonValue

unfoldable pub json_value : (Bytes → Bool) → Bytes → JsonValue
json_value valid value = if valid value then verbatim value else base64 value

-- Why a command fails: the message, by its format and its arguments.
pub data Failure : Type 0 where
  core : Error → Failure
  usage unknown_command needs_admin : Bytes → Failure
  auth_required invalid_password invalid_user : Failure
  bad_ttl bad_delta bad_amount bad_bound : Bytes → Bytes → Failure
  decr_range not_an_object : Failure
  not_a_number : Bytes → Bytes → Failure
  bad_limit : Bytes → Failure
  protocol : ReadError → Failure

-- What a command answers; `handshake` is that of hello, with the indexes if they are shown.
pub record Counts : Type 0 where
  pub stats : Stats
  pub live : ℤ
  pub usage : Usage
  pub connections : ℕ
  pub total_conns : ℕ
  pub commands : ℕ
  pub auto_compacts : ℕ
  pub blob_compacts : ℕ

pub data Payload : Type 0 where
  truth : Bool → Payload
  pong : Payload
  null : Payload
  integer : ℤ → Payload
  value : JsonValue → Payload
  keys : List Bytes → Payload
  values : List (Bytes × Option JsonValue) → Payload
  records : List (Bytes × JsonValue) → Payload
  handshake : Bytes → Option (List (Bytes × Bytes)) → Payload
  counts : Counts → Payload

-- The response: `ok`, `ok` with `found`, or `fail`.
pub data Envelope : Type 0 where
  ok : Payload → Envelope
  found : Bool → Payload → Envelope
  fail : Failure → Envelope

-- A step of a handler that may fail with a message.
pub data Checked (A : Type 0) : Type 0 where
  fine : A → Checked A
  refused : Failure → Checked A

infixl 5 ◌>>=◌
abbrev pub ◌>>=◌ : {A B : Type 0} → Checked A → (A → Checked B) → Checked B
fine a >>= f = f a
refused e >>= f = refused e
