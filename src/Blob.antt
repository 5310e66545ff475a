-- ===== src/Blob.antt =====
-- nteedb-core/blob.go: the append-only side file of large values.
use ntee_db.Base.{ℕ, ◌+◌, Option, none, some, List, [], ◌∷◌, length, ltb, ◌==◌, ◌^◌, if◌then◌else◌}
use ntee_db.Bytes.{Bytes}
use ntee_db.File.{File, write, sync, read_at}
use ntee_db.MainLog.{int32}
use ntee_db.Record.{BlobRef}
use ntee_db.Result.{Result, ok, err, io, panic}

pub record BlobStore : Type 0 where
  pub wf : File
  pub size : ℕ

-- openBlobs: the size is that of the file.
unfoldable pub open_blobs : File → BlobStore
open_blobs f = record { wf = f; size = length f.content }

-- The generation of the ref is filled in by the caller.
unfoldable pub append : BlobStore → Bytes → Result BlobRef × BlobStore
append b value =
    let (done, f) = write b.wf value in
    if done
    then (
      ok (record { off = b.size; size = int32 (length value); gen = 0 }),
      record { wf = f; size = b.size + length value },
    )
    else (err io, record b { wf = f })

-- A negative size panics in `make`.
unfoldable pub read_blob : BlobStore → BlobRef → Result Bytes
read_blob b ref =
    if ltb ref.size (2 ^ 31)
    then elim (read_at b.wf.content ref.off ref.size) [ none ↦ err io | some v ↦ ok v ]
    else err panic

unfoldable pub flush : BlobStore → Result (Unit {0}) × BlobStore
flush b = let (done, f) = sync b.wf in ((if done then ok tt else err io), record b { wf = f })

-- `db.blobs[gen]`
unfoldable pub find_gen : ℕ → List (ℕ × BlobStore) → Option BlobStore
find_gen gen [] = none
find_gen gen ((g, b) ∷ rest) = if g == gen then some b else find_gen gen rest

-- The store of a generation after a call on it.
unfoldable pub set_gen : ℕ → BlobStore → List (ℕ × BlobStore) → List (ℕ × BlobStore)
set_gen gen b [] = []
set_gen gen b ((g, old) ∷ rest) =
    let others = set_gen gen b rest in if g == gen then (g, b) ∷ rest else (g, old) ∷ others

-- `blobSizeOf`: the size of the file of a generation, 0 if there is none.
unfoldable pub blob_size_of : List (ℕ × BlobStore) → ℕ → ℕ
unfolding find_gen
blob_size_of blobs gen = elim (find_gen gen blobs) [ none ↦ 0 | some b ↦ length b.wf.content ]
