-- ===== src/Hint/RoundTrip.antt =====
-- nteedb-core/indexhint.go: a hint is read back as it was written.
use ntee_db.Base.{ℕ, ◌<◌, ◌≡◌, refl, ap, ◌∙◌, false, some, List, [], ◌∷◌, ◌++◌, map, length, arith}
use ntee_db.Bytes.{Bytes}
use ntee_db.Btree.{All}
use ntee_db.Scanner.{IsText, trim_cr_text, scan_lines, scan_line, in_front}
use ntee_db.Record.{IsJson, blank}
use ntee_db.PkIndex.{PkEntry}
use ntee_db.Hint.{
  HintMeta, HintJson, hint_version, hint_buffer, encode_lines, write_index_hint, decode_lines,
  decode_hint, load_index_hint, hint_entries,
}

-- An entry that JSON carries without loss: its strings are valid UTF-8.
abbrev pub IsJsonEntry : PkEntry → Type 0
IsJsonEntry e = IsJson (record (blank e.key) { ix = e.ix })

-- What the documentation of encoding/json promises: text without control characters, which
-- decodes to what was encoded.
pub record IsHintCodec (json : HintJson) : Type 0 where
  pub meta :
      (m : HintMeta)
      → IsText (json.marshal_meta m) × (json.unmarshal_meta (json.marshal_meta m) ≡ some m)
  pub line :
      (e : PkEntry)
      → IsJsonEntry e
      → IsText (json.marshal_line e) × (json.unmarshal_line (json.marshal_line e) ≡ some e)

module _ (json : HintJson) (law : IsHintCodec json) where
  abbrev pub first_line : ℕ → Bytes
  first_line covers = json.marshal_meta (record { version = hint_version; covers = covers })

  -- An entry of valid UTF-8 whose line fits the buffer of the scanner.
  pub record IsHinted (e : PkEntry) : Type 0 where
    pub valid : IsJsonEntry e
    pub fits : length (json.marshal_line e) < hint_buffer

  scan_hint_line :
      (line rest : Bytes)
      → IsText line
      → length line < hint_buffer
      → scan_lines hint_buffer 0 [] (line ++ 10 ∷ rest)
        ≡ in_front line (scan_lines hint_buffer 0 [] rest)
  scan_hint_line line rest t fits =
      scan_line hint_buffer 0 [] line rest t (omega arith)
      ∙ ap (λ l. in_front l (scan_lines hint_buffer 0 [] rest)) (trim_cr_text line t)

  scan_entries :
      (es : List PkEntry)
      → All IsHinted es
      → scan_lines hint_buffer 0 [] (encode_lines json es) ≡ (map json.marshal_line es, false)
  unfolding encode_lines scan_lines
  scan_entries [] h = refl
  scan_entries (e ∷ es) h =
      scan_hint_line (json.marshal_line e) (encode_lines json es) (law.line e h.0.valid).0 h.0.fits
      ∙ ap (in_front (json.marshal_line e)) (scan_entries es h.1)

  decode_entries :
      (es : List PkEntry) → All IsHinted es → decode_lines json (map json.marshal_line es) ≡ some es
  unfolding decode_lines
  decode_entries [] h = refl
  decode_entries (e ∷ es) h =
      rw ((law.line e h.0.valid).1, decode_lines) (rw (decode_entries es h.1) refl)

  -- A hint of entries of valid UTF-8, with lines that fit the buffer, is read back as it was
  -- written.
  pub load-write_index_hint :
      (es : List PkEntry) (covers : ℕ)
      → length (first_line covers) < hint_buffer
      → All IsHinted es
      → load_index_hint json (some (write_index_hint json es covers)) ≡ some (es, covers)
  unfolding load_index_hint write_index_hint decode_hint
  load-write_index_hint es covers fits h =
      let m : HintMeta = record { version = hint_version; covers = covers } in
      ap (decode_hint json) (
        scan_hint_line (first_line covers) (encode_lines json es) (law.meta m).0 fits
        ∙ ap (in_front (first_line covers)) (scan_entries es h))
      ∙ rw ((law.meta m).1, decode_hint) (ap (hint_entries m) (decode_entries es h))
