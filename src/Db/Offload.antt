-- ===== src/Db/Offload.antt =====
-- nteedb-core/secindex.go: a value that goes to the blob file, its ref, and the replay of its record.
use ntee_db.Base.{
  ℕ, ◌+◌, ◌≤◌, ◌<◌, ◌^◌, ◌≡◌, refl, ap, sym, ◌∙◌, false, Option, none, some, List, [], ◌∷◌, ◌++◌,
  length, length-append, arith, ◌==◌, if◌then◌else◌, Bool-cases, inl, inr,
}
use mathlib.Core.Path.{subst}
use ntee_db.Bytes.{Bytes}
use ntee_db.Btree.{All}
use ntee_db.Result.{ok}
use ntee_db.Record.{Record, BlobRef, Json}
use ntee_db.MainLog.{go, int32}
use ntee_db.MainLog.Lines.{Scanned, scanned, scans}
use ntee_db.MainLog.Appends.{write_quiet, sync_quiet}
use ntee_db.Blob
use ntee_db.Blob.{BlobStore, find_gen, set_gen, blob_size_of}
use ntee_db.Index.{Index, is_dangling, replay_record}
use ntee_db.Db.{Env, Db}
use ntee_db.Db.Write.{offload}
use ntee_db.Db.Logged.{Logged}

-- No call on the file fails from here on, and its size is known.
pub record BlobIsSound (b : BlobStore) : Type 0 where
  pub size : b.size ≡ length b.wf.content
  pub quiet : b.wf.coming ≡ []

abbrev pub BlobsSound : List (ℕ × BlobStore) → Type 0
BlobsSound = All (λ (p : ℕ × BlobStore). BlobIsSound p.1)

-- The store with the value at its end.
abbrev pub grown : BlobStore → Bytes → BlobStore
grown b value = record {
  wf = record b.wf { content = b.wf.content ++ value };
  size = b.size + length value;
}

append-grown :
    (b : BlobStore) (value : Bytes)
    → BlobIsSound b
    → Blob.append b value
      ≡ (ok (record { off = b.size; size = int32 (length value); gen = 0 }), grown b value)
unfolding Blob.append
append-grown b value s = ground (arith, write_quiet b.wf value s.quiet)

pub flush_quiet : (b : BlobStore) → b.wf.coming ≡ [] → Blob.flush b ≡ (ok tt, b)
unfolding Blob.flush
flush_quiet b h = ground (arith, sync_quiet b.wf h)

pub find_gen-BlobIsSound :
    (gen : ℕ) (blobs : List (ℕ × BlobStore)) (b : BlobStore)
    → find_gen gen blobs ≡ some b
    → BlobsSound blobs
    → BlobIsSound b
unfolding find_gen
find_gen-BlobIsSound gen [] b f s = absurd (cc)
find_gen-BlobIsSound gen ((g, c) ∷ rest) b f s = elim (Bool-cases (g == gen)) [
  | inl here ↦ let same : c ≡ b = ground arith in subst BlobIsSound same s.0
  | inr there ↦ find_gen-BlobIsSound gen rest b (ground arith) s.1
]

set_gen-BlobsSound :
    (gen : ℕ) (b : BlobStore) (blobs : List (ℕ × BlobStore))
    → BlobIsSound b
    → BlobsSound blobs
    → BlobsSound (set_gen gen b blobs)
unfolding set_gen
set_gen-BlobsSound gen b [] h s = tt
set_gen-BlobsSound gen b ((g, c) ∷ rest) h s = elim (Bool-cases (g == gen)) [
  | inl here ↦ rw (here, set_gen) (h, s.1)
  | inr there ↦ rw (there, set_gen) (s.0, set_gen-BlobsSound gen b rest h s.1)
]

-- What is found after a store is set, where one was.
find_gen-set_gen :
    (gen g : ℕ) (b c : BlobStore) (blobs : List (ℕ × BlobStore))
    → find_gen gen blobs ≡ some c
    → find_gen g (set_gen gen b blobs) ≡ (if g == gen then some b else find_gen g blobs)
unfolding find_gen set_gen
find_gen-set_gen gen g b c [] f = ground arith
find_gen-set_gen gen g b c ((h, d) ∷ rest) f = ground (arith, find_gen-set_gen gen g b c rest)

-- The stores after the value was appended, and after its flush.
abbrev pub regrown : ℕ → BlobStore → Bytes → List (ℕ × BlobStore) → List (ℕ × BlobStore)
regrown gen b value blobs = set_gen gen (grown b value) (set_gen gen (grown b value) blobs)

pub find_gen-regrown :
    (gen g : ℕ) (b : BlobStore) (value : Bytes) (blobs : List (ℕ × BlobStore))
    → find_gen gen blobs ≡ some b
    → find_gen g (regrown gen b value blobs)
      ≡ (if g == gen then some (grown b value) else find_gen g blobs)
find_gen-regrown gen g b value blobs f =
    let found : find_gen gen (set_gen gen (grown b value) blobs) ≡ some (grown b value) =
      ground (arith, find_gen-set_gen gen gen (grown b value) b blobs f) in
    ground (
      arith,
      find_gen-set_gen gen g (grown b value) (grown b value) _ found,
      find_gen-set_gen gen g (grown b value) b blobs f,
    )

blob_size_of-regrown :
    (gen g : ℕ) (b : BlobStore) (value : Bytes) (blobs : List (ℕ × BlobStore))
    → find_gen gen blobs ≡ some b
    → blob_size_of blobs g ≤ blob_size_of (regrown gen b value blobs) g
unfolding blob_size_of
blob_size_of-regrown gen g b value blobs f =
    ground (arith, find_gen-regrown gen g b value blobs f, length-append b.wf.content value)

-- The ref of a value that goes to the end of the current blob file.
abbrev pub ref_of : ℕ → BlobStore → Bytes → BlobRef
ref_of gen b value = record { off = b.size; size = int32 (length value); gen = gen }

module _ (env : Env) (db : Db env) where
  -- The store after a value went to the end of the current blob file, which was this one.
  abbrev pub offloaded : BlobStore → Bytes → Db env
  offloaded b value = record db {
    blobs = set_gen db.cur_gen (grown b value) (set_gen db.cur_gen (grown b value) db.blobs);
  }

  pub offload_lem :
      (b : BlobStore) (value : Bytes)
      → find_gen db.cur_gen db.blobs ≡ some b
      → BlobIsSound b
      → offload env value db ≡ (ok (ref_of db.cur_gen b value), offloaded b value)
  unfolding offload
  offload_lem b value f s =
      ground (arith, append-grown b value s, flush_quiet (grown b value) s.quiet)

-- Replay that goes through with these blob files goes through with larger ones.
module _ (env : Env) (small large : ℕ → ℕ) (grows : (g : ℕ) → small g ≤ large g) where
  dangling_grows :
      (o : Option BlobRef)
      → is_dangling env.trees small o ≡ false
      → is_dangling env.trees large o ≡ false
  dangling_grows none h = refl
  dangling_grows (some ref) h = ground (arith, grows ref.gen)

  replay_record-grows :
      (idx idx' : Index env.trees) (r : Record) (off n : ℕ)
      → replay_record env.trees small idx r off n ≡ go idx'
      → replay_record env.trees large idx r off n ≡ go idx'
  unfolding replay_record
  replay_record-grows idx idx' r off n h = ground (arith, dangling_grows r.blob)

  pub Scanned-grows :
      {json : Json} {off end : ℕ} {s t : Index env.trees} {lines : List Bytes}
      → Scanned json (replay_record env.trees small) off s lines end t
      → Scanned json (replay_record env.trees large) off s lines end t
  Scanned-grows scanned = scanned
  Scanned-grows (scans {off = o} {s = s} {s' = s'} {line = l} r f d v rest) =
      scans r f d (replay_record-grows s s' r o (length l + 1) v) (Scanned-grows rest)

module _ (env : Env) (db : Db env) where
  -- The log stays as good as it was when a value goes to the blob file.
  pub Logged-offloaded :
      (b : BlobStore) (value : Bytes)
      → find_gen db.cur_gen db.blobs ≡ some b
      → Logged env db.main db.blobs db.index db.index_defs
      → Logged env db.main (offloaded env db b value).blobs db.index db.index_defs
  Logged-offloaded b value f g = record {
    lines = g.lines;
    final = g.final;
    sound = g.sound;
    holds = g.holds;
    whole = g.whole;
    replays =
        Scanned-grows env (blob_size_of db.blobs) (blob_size_of (offloaded env db b value).blobs)
          grows g.replays;
    same = g.same;
  }
    where
      grows : (g : ℕ) → blob_size_of db.blobs g ≤ blob_size_of (offloaded env db b value).blobs g
      grows g = blob_size_of-regrown db.cur_gen g b value db.blobs f

  pub BlobsSound-offloaded :
      (b : BlobStore) (value : Bytes)
      → BlobIsSound b
      → BlobsSound db.blobs
      → BlobsSound (offloaded env db b value).blobs
  BlobsSound-offloaded b value h s =
      let grown_sound : BlobIsSound (grown b value) = record {
        size = ap (λ n. n + length value) h.size ∙ sym (length-append b.wf.content value);
        quiet = h.quiet;
      } in
      set_gen-BlobsSound db.cur_gen (grown b value) _ grown_sound
        (set_gen-BlobsSound db.cur_gen (grown b value) db.blobs grown_sound s)

  -- The ref of the value lies inside the file.
  pub ref_of-inside :
      (b : BlobStore) (value : Bytes)
      → find_gen db.cur_gen db.blobs ≡ some b
      → BlobIsSound b
      → length value < 2 ^ 31
      → is_dangling env.trees
          (blob_size_of (offloaded env db b value).blobs)
          (some (ref_of db.cur_gen b value))
        ≡ false
  unfolding blob_size_of
  ref_of-inside b value f s h = ground (
    arith,
    find_gen-regrown db.cur_gen db.cur_gen b value db.blobs f,
    length-append b.wf.content value,
    s.size,
  )
