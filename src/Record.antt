-- ===== src/Record.antt =====
-- nteedb-core/record.go: the record of a line of the main log, and its two on-disk forms.
use ntee_db.Base.{
  ℕ, zero, suc, ◌+◌, ◌<◌, ◌^◌, ◌≡◌, Bool, true, false, not, ◌&&◌, ◌⊎◌, Option, none, some, List, [],
  ◌∷◌, length, ltb, leb, ◌==◌, if◌then◌else◌,
}
use ntee_db.Base.Int.{ℤ, pos}
use ntee_db.Order.{by_key}
use ntee_db.Bytes.{Bytes, bytes_less}
use ntee_db.Btree.{All, IsSorted}
pub mod RoundTrip

-- A value of `map[string]any`. A float64 stands as the integer that is 2 ^ 1074 times its value,
-- which every finite float64 has; `other` is a boolean, a null, an array or an object.
pub data AnyValue : Type 0 where
  text : Bytes → AnyValue
  number : ℤ → AnyValue
  other : AnyValue

-- `map[string]any`, in the order of its names. The nil map and the empty one are not told apart.
abbrev pub IndexValues : Type 0
IndexValues = List (Bytes × AnyValue)

pub record BlobRef : Type 0 where
  pub off : ℕ
  pub size : ℕ
  pub gen : ℕ

pub record Record : Type 0 where
  pub key : Bytes
  pub text : Bytes
  pub value : Bytes
  pub blob : Option BlobRef
  pub deleted : Bool
  pub ix : IndexValues
  pub counter : Bool
  pub exp : ℤ

-- A record literal that leaves out all but the key.
abbrev pub blank : Bytes → Record
blank key = record {
  key = key;
  text = [];
  value = [];
  blob = none;
  deleted = false;
  ix = [];
  counter = false;
  exp = pos 0;
}

unfoldable pub is_tombstone : Record → Bool
is_tombstone r = r.deleted

-- The number of continuation bytes after a lead byte, and the range of the first of them.
unfoldable pub utf8_lead : ℕ → Option (ℕ × ℕ × ℕ)
utf8_lead c =
    if ltb c 0x80
    then some (0, 0x80, 0xbf)
    else if ltb c 0xc2
    then none
    else if ltb c 0xe0
    then some (1, 0x80, 0xbf)
    else if c == 0xe0
    then some (2, 0xa0, 0xbf)
    else if c == 0xed
    then some (2, 0x80, 0x9f)
    else if ltb c 0xf0
    then some (2, 0x80, 0xbf)
    else if c == 0xf0
    then some (3, 0x90, 0xbf)
    else if ltb c 0xf4
    then some (3, 0x80, 0xbf)
    else if c == 0xf4
    then some (3, 0x80, 0x8f)
    else none

-- utf8.Valid, inside a rune that wants so many more bytes, the next of them in a range.
unfoldable pub utf8_rest : ℕ → ℕ → ℕ → Bytes → Bool
unfolding utf8_lead
utf8_rest more lo hi [] = more == 0
utf8_rest zero lo hi (c ∷ cs) = elim (utf8_lead c) [
  | none ↦ false
  | some (more, lo', hi') ↦ utf8_rest more lo' hi' cs
]
utf8_rest (suc more) lo hi (c ∷ cs) =
    let rest = utf8_rest more 0x80 0xbf cs in leb lo c && leb c hi && rest

unfoldable pub utf8_valid : Bytes → Bool
unfolding utf8_rest
utf8_valid b = utf8_rest 0 0x80 0xbf b

-- encoding/json at the type `record`.
pub record Json : Type 0 where
  pub marshal : Record → Option Bytes
  pub unmarshal : Bytes → Option Record

-- A valid, non-empty value moves to the readable field.
unfoldable pub to_disk : Record → Record
to_disk r =
    if ltb 0 (length r.value) && utf8_valid r.value
    then record r { text = r.value; value = [] }
    else r

unfoldable pub from_disk : Record → Record
from_disk r = if ltb 0 (length r.text) then record r { value = r.text; text = [] } else r

unfoldable pub marshal_record : Json → Record → Option Bytes
marshal_record json r = json.marshal (to_disk r)

unfoldable pub unmarshal_record : Json → Bytes → Option Record
unmarshal_record json line = elim (json.unmarshal line) [
  | none ↦ none
  | some r ↦ some (from_disk r)
]

abbrev pub newline : ℕ
newline = 10

abbrev pub IsLine : Bytes → Type 0
IsLine = All (λ c. (c == newline) ≡ false)

-- The values that JSON carries.
abbrev pub IsJsonValue : AnyValue → Type 0
IsJsonValue (text s) = utf8_valid s ≡ true
IsJsonValue (number n) = Unit
IsJsonValue other = Unit

-- What JSON carries without loss: strings of valid UTF-8, and the names of a map once each.
pub record IsJson (r : Record) : Type 0 where
  pub key : utf8_valid r.key ≡ true
  pub text : utf8_valid r.text ≡ true
  pub names : All (λ (e : Bytes × AnyValue). utf8_valid e.0 ≡ true) r.ix
  pub values : All (λ (e : Bytes × AnyValue). IsJsonValue e.1) r.ix
  pub sorted : IsSorted (λ (a b : Bytes × AnyValue). bytes_less a.0 b.0) r.ix

-- What the documentation of encoding/json promises of such records: one line, with its control
-- characters escaped, which decodes to the record.
pub record IsJsonCodec (json : Json) : Type 0 where
  pub encodes :
      (r : Record)
      → IsJson r
      → (line : Bytes) × (json.marshal r ≡ some line) × IsLine line × (json.unmarshal line ≡ some r)
