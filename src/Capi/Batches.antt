-- ===== src/Capi/Batches.antt =====
-- nteedb-js/capi/exports.go: the items of a batch, inline or cut from one block of bytes.
use ntee_db.Base.{ℕ, ◌+◌, ◌||◌, none, some, List, [], ◌∷◌, length, take, drop, ◌==◌, if◌then◌else◌}
use ntee_db.Base.Int.{pos, pos_part, add64, ltb_ℤ}
use ntee_db.Bytes.{Bytes}
use ntee_db.Result.{panic}
use ntee_db.Record.{IndexValues}
use ntee_db.Db.Batch.{PutItem}
use ntee_db.Capi.Values.{
  Decoders, BatchItem, BinItem, core, bad_base64, length_mismatch, Made, made, refused, ◌>>=◌,
}

-- A PutItem without a TTL.
abbrev pub item_of : Bytes → Bytes → IndexValues → PutItem
item_of key value ix = record { key = key; value = value; ix = ix; ttl = pos 0 }

abbrev pub inline_value : Decoders → BatchItem → Made Bytes
inline_value dec ji =
    if length ji.s == 0
    then if length ji.v == 0
      then made []
      else (elim (dec.base64 ji.v) [ none ↦ refused bad_base64 | some v ↦ made v ])
    else made ji.s

-- The loop of `nteedb_put_batch`.
unfoldable pub inline_items : Decoders → List BatchItem → Made (List PutItem)
inline_items dec [] = made []
inline_items dec (ji ∷ rest) = do
  v ← inline_value dec ji
  items ← inline_items dec rest
  made (item_of ji.key v ji.ix ∷ items)

-- The loop of `nteedb_put_batch_bin`, whose `off` is a sum of lengths so far. An `off+m.N` that
-- wraps passes the guard, and the slice up to it panics.
unfoldable pub cut_items : Bytes → ℕ → List BinItem → Made (List PutItem)
cut_items buf off [] = if off == length buf then made [] else refused length_mismatch
cut_items buf off (m ∷ rest) =
    let end = add64 (pos off) m.n in
    let later = cut_items buf (off + pos_part m.n) rest in
    if ltb_ℤ m.n (pos 0) || ltb_ℤ (pos (length buf)) end
    then refused length_mismatch
    else if ltb_ℤ end (pos 0)
    then refused (core panic)
    else do items ← later; made (item_of m.key (take (pos_part m.n) (drop off buf)) m.ix ∷ items)
