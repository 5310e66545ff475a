-- ===== src/Record/RoundTrip.antt =====
-- nteedb-core/record.go: a record and its line.
use ntee_db.Base.{◌≡◌, refl, Bool-cases, inl, inr, true, ◌&&◌, some, [], length, ltb, arith}
use ntee_db.Bytes.{Bytes}
use ntee_db.Btree.{All, IsSorted}
use ntee_db.Bytes.{bytes_less}
use ntee_db.Record.{
  Record, AnyValue, Json, IsJson, IsJsonCodec, IsLine, IsJsonValue, to_disk, from_disk, utf8_valid,
  marshal_record, unmarshal_record,
}

-- The record in memory: the readable field is empty, and key and index values are JSON's.
pub record IsCanonical (r : Record) : Type 0 where
  pub text : r.text ≡ []
  pub key : utf8_valid r.key ≡ true
  pub names : All (λ (e : Bytes × AnyValue). utf8_valid e.0 ≡ true) r.ix
  pub values : All (λ (e : Bytes × AnyValue). IsJsonValue e.1) r.ix
  pub sorted : IsSorted (λ (a b : Bytes × AnyValue). bytes_less a.0 b.0) r.ix

pub from_disk-to_disk : (r : Record) → r.text ≡ [] → from_disk (to_disk r) ≡ r
unfolding from_disk to_disk
from_disk-to_disk r h = ground arith

utf8_valid-nil : utf8_valid [] ≡ true
unfolding utf8_valid
utf8_valid-nil = refl

to_disk-IsJson : (r : Record) → IsCanonical r → IsJson (to_disk r)
unfolding to_disk
to_disk-IsJson r c = elim (Bool-cases (ltb 0 (length r.value) && utf8_valid r.value)) [
  | inl moves ↦
      rw (moves, to_disk)
        (record {
          key = c.key;
          text = ground arith;
          names = c.names;
          values = c.values;
          sorted = c.sorted;
        })
  | inr stays ↦
      rw (stays, to_disk)
        (record {
          key = c.key;
          text = rw c.text utf8_valid-nil;
          names = c.names;
          values = c.values;
          sorted = c.sorted;
        })
]

-- A record with an empty readable field whose key and index values are valid UTF-8 is written as
-- one line, whatever bytes its value holds, and the line is read back as the record.
pub unmarshal-marshal_record :
    (json : Json)
    → IsJsonCodec json
    → (r : Record) → IsCanonical r
    → (line : Bytes) × (marshal_record json r ≡ some line)
      × IsLine line
      × (unmarshal_record json line ≡ some r)
unfolding marshal_record unmarshal_record
unmarshal-marshal_record json law r c =
    let (line, encoded, one, decoded) = law.encodes (to_disk r) (to_disk-IsJson r c) in
    (line, encoded, one, ground (arith, from_disk-to_disk r c.text))
