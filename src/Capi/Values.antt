-- ===== src/Capi/Values.antt =====
-- nteedb-js/capi/exports.go: the envelopes, before json.Marshal, and the values in them.
use ntee_db.Base.{ℕ, Bool, Option, none, some, List, [], ◌∷◌, if◌then◌else◌}
use ntee_db.Base.Int.{ℤ}
use ntee_db.Bytes.{Bytes}
use ntee_db.Result.{Error}
use ntee_db.Record.{AnyValue, IndexValues}
use ntee_db.Db.Read.{Stats}
use ntee_db.Db.Compact.{Usage}

-- jsonBatchItem, decoded.
pub record BatchItem : Type 0 where
  pub key : Bytes
  pub s : Bytes
  pub v : Bytes
  pub ix : IndexValues

-- binBatchItem, decoded.
pub record BinItem : Type 0 where
  pub key : Bytes
  pub n : ℤ
  pub ix : IndexValues

-- json.Valid, json.Unmarshal into the types that the exports use, and base64.DecodeString.
pub record Decoders : Type 0 where
  pub valid_json : Bytes → Bool
  pub index_values : Bytes → Option IndexValues
  pub any : Bytes → Option AnyValue
  pub key_list : Bytes → Option (List Bytes)
  pub batch_items : Bytes → Option (List BatchItem)
  pub bin_items : Bytes → Option (List BinItem)
  pub base64 : Bytes → Option Bytes

pub data Failure : Type 0 where
  core : Error → Failure
  invalid_handle bad_json bad_base64 length_mismatch : Failure

-- valJSON: no value, a value that is JSON, or the base64 form of another.
pub data ValJson : Type 0 where
  missing : ValJson
  json : Bytes → ValJson
  encoded : Bytes → ValJson

unfoldable pub encode_val_json : Decoders → Option Bytes → ValJson
encode_val_json dec none = missing
encode_val_json dec (some v) = if dec.valid_json v then json v else encoded v

-- What `nteedb_details` gathers.
pub record Details : Type 0 where
  pub stats : Stats
  pub live : ℤ
  pub usage : Usage

pub data Payload : Type 0 where
  handle : ℕ → Payload
  integer : ℤ → Payload
  truth : Bool → Payload
  keys : List Bytes → Payload
  value : ValJson → Payload
  values : List ValJson → Payload
  records : List (Bytes × ValJson) → Payload
  stats : Stats → Payload
  usage : Usage → Payload
  details : Details → Payload

-- The envelope of `reply`.
pub data Reply : Type 0 where
  done : Reply
  result : Payload → Reply
  failed : Failure → Reply

-- encodeRecords: the values are aligned to the keys.
unfoldable pub encode_records : Decoders → List Bytes → List (Option Bytes) → List (Bytes × ValJson)
unfolding encode_val_json
encode_records dec (k ∷ ks) (v ∷ vs) = (k, encode_val_json dec v) ∷ encode_records dec ks vs
encode_records dec _ _ = []

-- A step that may fail before it reaches the store.
pub data Made (A : Type 0) : Type 0 where
  made : A → Made A
  refused : Failure → Made A

infixl 5 ◌>>=◌
abbrev pub ◌>>=◌ : {A B : Type 0} → Made A → (A → Made B) → Made B
made a >>= f = f a
refused e >>= f = refused e

abbrev pub decoded : {A : Type 0} → Option A → Made A
decoded none = refused bad_json
decoded (some a) = made a
