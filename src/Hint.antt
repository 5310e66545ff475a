-- ===== src/Hint.antt =====
-- nteedb-core/indexhint.go: the hint file, a line for its version and watermark and one for each
-- entry. Its decoding, a pure optimisation, fails for a line that is too long or does not decode.
use ntee_db.Base.{
  ℕ, ◌*◌, ◌^◌, Bool, Option, none, some, List, [], ◌∷◌, ◌++◌, true, false, ◌==◌, if◌then◌else◌,
}
use ntee_db.Bytes.{Bytes}
use ntee_db.Scanner.{scan_lines}
use ntee_db.Record.{newline}
use ntee_db.PkIndex.{PkEntry}
pub mod RoundTrip

-- indexHintMeta
pub record HintMeta : Type 0 where
  pub version : ℕ
  pub covers : ℕ

-- encoding/json at indexHintMeta and at indexHintLine, whose fields are those of an entry.
-- json.Marshal does not fail here: the index values have been encoded in a record before.
pub record HintJson : Type 0 where
  pub marshal_meta : HintMeta → Bytes
  pub unmarshal_meta : Bytes → Option HintMeta
  pub marshal_line : PkEntry → Bytes
  pub unmarshal_line : Bytes → Option PkEntry

abbrev pub hint_version : ℕ
hint_version = 2

-- The size of the scanner's buffer.
abbrev pub hint_buffer : ℕ
hint_buffer = 16 * 2 ^ 20

unfoldable pub encode_lines : HintJson → List PkEntry → Bytes
encode_lines json [] = []
encode_lines json (e ∷ rest) = json.marshal_line e ++ newline ∷ encode_lines json rest

-- writeIndexHint, of the entries in order.
unfoldable pub write_index_hint : HintJson → List PkEntry → ℕ → Bytes
unfolding encode_lines
write_index_hint json entries covers =
    json.marshal_meta (record { version = hint_version; covers = covers })
    ++ newline ∷ encode_lines json entries

unfoldable pub decode_lines : HintJson → List Bytes → Option (List PkEntry)
decode_lines json [] = some []
decode_lines json (line ∷ rest) = elim (json.unmarshal_line line) [
  | none ↦ none
  | some e ↦ elim (decode_lines json rest) [ none ↦ none | some es ↦ some (e ∷ es) ]
]

abbrev pub hint_entries : HintMeta → Option (List PkEntry) → Option (List PkEntry × ℕ)
hint_entries meta none = none
hint_entries meta (some es) = if meta.version == hint_version then some (es, meta.covers) else none

-- The lines that were scanned, and whether the scan has failed.
unfoldable pub decode_hint : HintJson → List Bytes × Bool → Option (List PkEntry × ℕ)
unfolding decode_lines
decode_hint json (lines, true) = none
decode_hint json ([], false) = none
decode_hint json (first ∷ rest, false) = elim (json.unmarshal_meta first) [
  | none ↦ none
  | some meta ↦ hint_entries meta (decode_lines json rest)
]

-- loadIndexHint, of the file if there is one.
unfoldable pub load_index_hint : HintJson → Option Bytes → Option (List PkEntry × ℕ)
unfolding decode_hint
load_index_hint json none = none
load_index_hint json (some content) = decode_hint json (scan_lines hint_buffer 0 [] content)
