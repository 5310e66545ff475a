-- ===== src/MainLog.antt =====
-- nteedb-core/mainlog.go: the writer of main.jsonl and the scan of its lines.
use ntee_db.Base.{
  ℕ, ◌+◌, ◌-◌, ◌%◌, ◌^◌, ◌≡◌, Bool, true, false, Option, none, some, List, [], ◌∷◌, ◌++◌, length,
  drop, ltb, ◌==◌, if◌then◌else◌,
}
use ntee_db.Bytes.{Bytes}
use ntee_db.Result.{Result, ok, err, io, encoding}
use ntee_db.File.{File, write, sync}
use ntee_db.Record.{Record, Json, marshal_record, unmarshal_record, newline}
pub mod Lines
pub mod Appends

pub record MainLog : Type 0 where
  pub f : File
  pub size : ℕ
  -- fsync after every append
  pub sync : Bool

-- openMainLog: the size is that of the file.
unfoldable pub open_main_log : File → Bool → MainLog
open_main_log f sync = record { f = f; size = length f.content; sync = sync }

-- The bit pattern of `int32(n)`, and what adding it to an int64 adds.
abbrev pub int32 : ℕ → ℕ
int32 n = n % 2 ^ 32

abbrev pub add_int32 : ℕ → ℕ → ℕ
add_int32 size n = if ltb n (2 ^ 31) then size + n else size + n - 2 ^ 32

-- The rest of `appendSync` after the write and the fsync.
abbrev pub advance : ℕ → MainLog → Result (ℕ × ℕ) × MainLog
advance len l = (ok (l.size, int32 len), record l { size = add_int32 l.size (int32 len) })

abbrev pub flushed : ℕ → MainLog → Bool × File → Result (ℕ × ℕ) × MainLog
flushed len l (true, f) = advance len (record l { f = f })
flushed len l (false, f) = (err io, record l { f = f })

abbrev pub wrote : ℕ → Bool → MainLog → Bool × File → Result (ℕ × ℕ) × MainLog
wrote len durable l (true, f) =
    if durable then flushed len (record l { f = f }) (sync f) else advance len (record l { f = f })
wrote len durable l (false, f) = (err io, record l { f = f })

-- The offset and the length of the line, or an error.
unfoldable pub append_sync : Json → Record → Bool → MainLog → Result (ℕ × ℕ) × MainLog
append_sync json r durable l = elim (marshal_record json r) [
  | none ↦ (err encoding, l)
  | some line ↦
      let content : Bytes = line ++ newline ∷ [] in
      wrote (length content) durable l (write l.f content)
]

unfoldable pub append : Json → Record → MainLog → Result (ℕ × ℕ) × MainLog
append json r l = append_sync json r l.sync l

-- ReadBytes('\n') until the end of the file: the lines, without their newlines. What follows the
-- last newline is the torn tail.
unfoldable pub complete_lines : Bytes → Bytes → List Bytes
complete_lines acc [] = []
complete_lines acc (c ∷ cs) = elim (c == newline) [
  | true ↦ acc ∷ complete_lines [] cs
  | false ↦ complete_lines (acc ++ c ∷ []) cs
]

-- What the callback of the scan returns: `stop` is errStopScan.
pub data Visit (S : Type 0) : Type 0 where
  go : S → Visit S
  stop : Visit S

-- The loop of `scanMainLog`: the state that the callback has built, and goodEnd.
unfoldable pub scan_lines :
    {S : Type 0} → Json → (S → Record → ℕ → ℕ → Visit S) → ℕ → S → List Bytes → S × ℕ
scan_lines json fn off s [] = (s, off)
scan_lines json fn off s (line ∷ rest) = elim (unmarshal_record json line) [
  | none ↦ (s, off)
  | some r ↦ elim (fn s r off (int32 (length line + 1))) [
    | stop ↦ (s, off)
    | go s' ↦ scan_lines json fn (add_int32 off (int32 (length line + 1))) s' rest
  ]
]

unfoldable pub scan_main_log :
    {S : Type 0} → Json → (S → Record → ℕ → ℕ → Visit S) → ℕ → S → Bytes → S × ℕ
scan_main_log json fn from s content =
    scan_lines json fn from s (complete_lines [] (drop from content))
