-- ===== src/Server/Framing.antt =====
-- nteedb-server/proto.go and handlers.go: raw data blocks, which may hold any bytes, are read exactly.
use ntee_db.Base.{
  ◌≡◌, refl, ap, ◌∙◌, some, List, [], ◌∷◌, ◌++◌, length, length-append, take_append, drop_append,
  arith,
}
use ntee_db.Base.Int.{ℤ, pos, ◌≤ℤ◌}
use ntee_db.Bytes.{Bytes}
use ntee_db.Db.{Env}
use ntee_db.Server.Text.{parse_int}
use ntee_db.Server.Proto.{Reader, got, read_data, Checked}
use ntee_db.Server.Settings.{Floats}
use ntee_db.Server.State.{Std, Moment, Conn, Outcome, given, optional_ttl, with_block}
use ntee_db.Server.Writes

-- A block as a client sends it: its bytes, a carriage return and a newline.
abbrev pub framed_bytes : Bytes → Bytes → Bytes
framed_bytes block rest = block ++ (13 ∷ 10 ∷ rest)

pub read_data-framed_bytes :
    (block rest : Bytes) (max : ℤ) (r : Reader)
    → pos (length block) ≤ℤ max
    → r.rest ≡ framed_bytes block rest
    → read_data (pos (length block)) max r ≡ (got block, record r { rest = rest })
unfolding read_data
read_data-framed_bytes block rest max r fits e = ground (
  arith,
  length-append block (13 ∷ 10 ∷ rest),
  take_append block (13 ∷ 10 ∷ rest),
  drop_append block (13 ∷ 10 ∷ rest),
)

module _ (env : Env) (floats : Floats) (std : Std) (moment : Moment) where
  abbrev pub with_rest : Bytes → Conn env floats → Conn env floats
  with_rest rest c = record c { reader = record c.reader { rest = rest } }

  module _ (c : Conn env floats) (key raw value rest : Bytes) where
    abbrev pub stored_with : Checked (List ℤ) → Outcome × Conn env floats
    stored_with ttl =
        given env floats ttl (Writes.store_indexed env floats std moment key raw value)
          (with_rest rest c)

    reader-stored_with : (ttl : Checked (List ℤ)) → (stored_with ttl).1.reader.rest ≡ rest
    reader-stored_with ttl = ground arith

    framed-stored_with :
        (ttl : Checked (List ℤ))
        → pos (length raw) ≤ℤ c.server.cfg.max_value
        → pos (length value) ≤ℤ c.server.cfg.max_value
        → c.reader.rest ≡ framed_bytes raw (framed_bytes value rest)
        → Writes.framed env floats std moment key (pos (length raw)) (pos (length value)) ttl c
          ≡ stored_with ttl
    unfolding Writes.framed with_block
    framed-stored_with ttl fa fb e =
        let behind = record c.reader { rest = framed_bytes value rest } in
        rw
          (read_data-framed_bytes raw (framed_bytes value rest) c.server.cfg.max_value c.reader fa
            e)
          (rw (read_data-framed_bytes value rest c.server.cfg.max_value behind fb refl) refl)

    -- A putx with two framed blocks of the announced lengths, of any bytes and within the limit,
    -- takes exactly the two blocks from the input, whatever its TTL token is, and then refuses the
    -- TTL or stores the second block with the index values that the first holds.
    pub putx-framed_bytes :
        (cmd ix_size size ttl : Bytes)
        → parse_int ix_size ≡ some (pos (length raw))
        → parse_int size ≡ some (pos (length value))
        → pos (length raw) ≤ℤ c.server.cfg.max_value
        → pos (length value) ≤ℤ c.server.cfg.max_value
        → c.reader.rest ≡ framed_bytes raw (framed_bytes value rest)
        → (Writes.putx env floats std moment cmd (key ∷ ix_size ∷ size ∷ ttl ∷ []) c
            ≡ stored_with (optional_ttl cmd (ttl ∷ [])))
          × ((Writes.putx env floats std moment cmd
                (key ∷ ix_size ∷ size ∷ ttl ∷ [])
                c).1.reader.rest
              ≡ rest)
    unfolding Writes.putx Writes.sized
    putx-framed_bytes cmd ix_size size ttl a b fa fb e =
        let same = framed-stored_with (optional_ttl cmd (ttl ∷ [])) fa fb e in
        rw (a, b)
          (same, ap (λ o. o.1.reader.rest) same ∙ reader-stored_with (optional_ttl cmd (ttl ∷ [])))
