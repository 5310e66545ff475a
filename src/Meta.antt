-- ===== src/Meta.antt =====
-- nteedb-core/meta.go: the declared indexes as meta.json keeps them.
use ntee_db.Base.{ℕ, Bool, List, Option, none, some, if◌then◌else◌, [], ◌∷◌}
use ntee_db.Bytes.{Bytes, bytes_eq}
use ntee_db.SecIndex.{ValueKind, kind_string, kind_number}

pub record MetaIndex : Type 0 where
  pub name : Bytes
  pub kind : Bytes
  pub complete : Bool
  pub dropped : Bool

-- metaData
pub record MetaData : Type 0 where
  pub version : ℕ
  pub indexes : List MetaIndex

-- encoding/json at metaData, whose encoding does not fail.
pub record MetaJson : Type 0 where
  pub marshal : MetaData → Bytes
  pub unmarshal : Bytes → Option MetaData

abbrev pub meta_version : ℕ
meta_version = 1

-- writeMeta: the content of meta.json.
abbrev pub write_meta : MetaJson → List MetaIndex → Option Bytes
write_meta json indexes = some (json.marshal (record { version = meta_version; indexes = indexes }))

abbrev pub indexes_of : Option MetaData → List MetaIndex
indexes_of none = []
indexes_of (some m) = m.indexes

-- The indexes that loadMeta finds: none in a file that is missing or does not decode.
unfoldable pub load_meta : MetaJson → Option Bytes → List MetaIndex
load_meta json none = []
load_meta json (some content) = indexes_of (json.unmarshal content)

-- ValueKind.String
unfoldable pub kind_name : ValueKind → Bytes
kind_name kind_number = b'n' ∷ b'u' ∷ b'm' ∷ b'b' ∷ b'e' ∷ b'r' ∷ []
kind_name kind_string = b's' ∷ b't' ∷ b'r' ∷ b'i' ∷ b'n' ∷ b'g' ∷ []

unfoldable pub parse_kind : Bytes → Option ValueKind
unfolding kind_name
parse_kind s =
    if bytes_eq s (kind_name kind_number)
    then some kind_number
    else if bytes_eq s (kind_name kind_string)
    then some kind_string
    else none
