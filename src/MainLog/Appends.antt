-- ===== src/MainLog/Appends.antt =====
-- Appends to a log whose size is that of its file, and where a failed one leaves it.
use ntee_db.Base.{
  ℕ, ◌+◌, ◌≡◌, ◌≢◌, refl, ap, sym, ◌∙◌, Bool, true, false, some, [], ◌∷◌, ◌++◌, length, take, arith,
  length-append,
}
use ntee_db.Bytes.{Bytes}
use ntee_db.Result.{ok, err, io}
use ntee_db.File.{File, fails, write, sync}
use ntee_db.Record.{Record, Json, newline, marshal_record}
use ntee_db.MainLog.{MainLog, append_sync, wrote, flushed, advance}
use ntee_db.MainLog.Lines.{Fits, int32-Fits, add_int32-Fits}

-- No call on the log's file fails from here on, and its size is known.
pub record IsSound (l : MainLog) : Type 0 where
  pub size : l.size ≡ length l.f.content
  pub quiet : l.f.coming ≡ []

-- The log after the append of a line.
abbrev pub appended : MainLog → Bytes → MainLog
appended l line = record l {
  f = record l.f { content = l.f.content ++ (line ++ newline ∷ []) };
  size = l.size + (length line + 1);
}

pub write_quiet :
    (f : File) (b : Bytes)
    → f.coming ≡ []
    → write f b ≡ (true, record f { content = f.content ++ b })
unfolding write
write_quiet f b h = ground arith

pub sync_quiet : (f : File) → f.coming ≡ [] → sync f ≡ (true, f)
unfolding sync
sync_quiet f h = ground arith

wrote_quiet :
    (len : ℕ) (durable : Bool) (l : MainLog) (f : File)
    → f.coming ≡ []
    → wrote len durable l (true, f) ≡ advance len (record l { f = f })
wrote_quiet len false l f h = refl
wrote_quiet len true l f h = ap (flushed len (record l { f = f })) (sync_quiet f h)

length-line : (line : Bytes) → length (line ++ newline ∷ []) ≡ length line + 1
length-line line = length-append line (newline ∷ [])

-- On a log whose size is that of its file and whose calls do not fail, the append of a record
-- whose line is shorter than 2 ^ 31 bytes returns the old size and the length of the line with its
-- newline, and leaves the file and the size longer by that line.
pub append_sync_lem :
    (json : Json) (r : Record) (durable : Bool) (l : MainLog) (line : Bytes)
    → IsSound l
    → marshal_record json r ≡ some line
    → Fits line
    → append_sync json r durable l ≡ (ok (l.size, length line + 1), appended l line)
unfolding append_sync
append_sync_lem json r durable l line s m f =
    let b = line ++ newline ∷ [] in
    let f' : File = record l.f { content = l.f.content ++ b } in
    rw (m, append_sync)
      (ap (wrote (length b) durable l) (write_quiet l.f b s.quiet)
        ∙ wrote_quiet (length b) durable l f' s.quiet
        ∙ ap (λ n. advance n (record l { f = f' })) (length-line line)
        ∙ ground (arith, int32-Fits line f, add_int32-Fits l.size line f))

pub appended-IsSound : (l : MainLog) (line : Bytes) → IsSound l → IsSound (appended l line)
appended-IsSound l line s = record {
  size =
      ap (λ n. n + (length line + 1)) s.size
      ∙ ap (λ n. length l.f.content + n) (sym (length-line line))
      ∙ sym (length-append l.f.content (line ++ newline ∷ []));
  quiet = s.quiet;
}

-- When the write of an append fails after a part of the line has reached the file, the append
-- returns the error, and the size that the log keeps is no longer that of its file.
pub append_short :
    (json : Json) (r : Record) (durable : Bool) (l : MainLog) (line : Bytes) (n : ℕ) (b : ℕ)
    → marshal_record json r ≡ some (b ∷ line)
    → l.size ≡ length l.f.content
    → l.f.coming ≡ fails (n + 1) ∷ []
    → ((append_sync json r durable l).0 ≡ err io)
      × ((append_sync json r durable l).1.size ≢ length (append_sync json r durable l).1.f.content)
unfolding append_sync write sync
append_short json r durable l line n b m z c =
    ground (arith, length-append l.f.content (b ∷ take n (line ++ newline ∷ [])))
