-- ===== src/MainLog/Lines.antt =====
-- The lines of a file, and the scan of a file of whole lines with a torn tail behind them.
use ntee_db.Base.{
  ℕ, ◌+◌, ◌<◌, ◌^◌, ◌≡◌, refl, ap, sym, ◌∙◌, some, List, [], ◌∷◌, ◌++◌, length, arith,
}
use mathlib.Core.List.{append_assoc, append-nil}
use ntee_db.Bytes.{Bytes}
use ntee_db.Btree.{All}
use ntee_db.Record.{Record, Json, IsLine, newline, unmarshal_record}
use ntee_db.MainLog.{complete_lines, scan_lines, Visit, go, int32, add_int32}

-- The bytes of a file that holds these lines.
unfoldable pub image : List Bytes → Bytes
image [] = []
image (line ∷ rest) = line ++ newline ∷ image rest

complete_lines-line :
    (acc line rest : Bytes)
    → IsLine line
    → complete_lines acc (line ++ newline ∷ rest) ≡ (acc ++ line) ∷ complete_lines [] rest
unfolding complete_lines
complete_lines-line acc [] rest h = ap (λ x. x ∷ complete_lines [] rest) (sym (append-nil acc))
complete_lines-line acc (c ∷ cs) rest h =
    ground (arith, complete_lines-line (acc ++ c ∷ []) cs rest h.1, append_assoc acc (c ∷ []) cs)

complete_lines_torn : (acc torn : Bytes) → IsLine torn → complete_lines acc torn ≡ []
unfolding complete_lines
complete_lines_torn acc [] h = refl
complete_lines_torn acc (c ∷ cs) h = ground (arith, complete_lines_torn (acc ++ c ∷ []) cs h.1)

-- The scan of a file of whole lines, with a torn line of any bytes but a newline behind them,
-- finds exactly those lines.
pub complete_lines-image :
    (lines : List Bytes) (torn : Bytes)
    → All IsLine lines
    → IsLine torn
    → complete_lines [] (image lines ++ torn) ≡ lines
unfolding image
complete_lines-image [] torn h t = complete_lines_torn [] torn t
complete_lines-image (line ∷ rest) torn h t =
    ap (complete_lines []) (append_assoc line (newline ∷ image rest) torn)
    ∙ complete_lines-line [] line (image rest ++ torn) h.0
    ∙ ap (◌∷◌ line) (complete_lines-image rest torn h.1 t)

pub image-append : (xs ys : List Bytes) → image (xs ++ ys) ≡ image xs ++ image ys
unfolding image
image-append [] ys = refl
image-append (x ∷ xs) ys =
    ap (λ b. x ++ newline ∷ b) (image-append xs ys)
    ∙ sym (append_assoc x (newline ∷ image xs) (image ys))

-- The lengths that an int32 holds.
abbrev pub Fits : Bytes → Type 0
Fits line = length line + 1 < 2 ^ 31

pub int32-Fits : (line : Bytes) → Fits line → int32 (length line + 1) ≡ length line + 1
int32-Fits line h = omega arith

pub add_int32-Fits :
    (off : ℕ) (line : Bytes) → Fits line → add_int32 off (length line + 1) ≡ off + (length line + 1)
add_int32-Fits off line h = ground arith

-- A scan that goes through all of these lines, from one offset and state to another.
pub data Scanned {S : Type 0} (json : Json) (fn : S → Record → ℕ → ℕ → Visit S)
    : ℕ → S → List Bytes → ℕ → S → Type 0 where
  scanned : {off : ℕ} {s : S} → Scanned json fn off s [] off s
  scans :
      {off end : ℕ} {s s' t : S} {line : Bytes} {rest : List Bytes} (r : Record)
      → Fits line
      → unmarshal_record json line ≡ some r
      → fn s r off (length line + 1) ≡ go s'
      → Scanned json fn (off + (length line + 1)) s' rest end t
      → Scanned json fn off s (line ∷ rest) end t

scan_lines_step :
    {S : Type 0} (json : Json) (fn : S → Record → ℕ → ℕ → Visit S) (off : ℕ) (s : S) (line : Bytes)
    (rest : List Bytes) (r : Record) (s' : S)
    → Fits line
    → unmarshal_record json line ≡ some r
    → fn s r off (length line + 1) ≡ go s'
    → scan_lines json fn off s (line ∷ rest) ≡ scan_lines json fn (off + (length line + 1)) s' rest
unfolding scan_lines
scan_lines_step json fn off s line rest r s' f d v =
    ground (arith, int32-Fits line f, add_int32-Fits off line f)

module _ {S : Type 0} {json : Json} {fn : S → Record → ℕ → ℕ → Visit S} where
  -- Such a scan is what the loop computes.
  pub scan_lines-Scanned :
      {off end : ℕ} {s t : S} {lines : List Bytes}
      → Scanned json fn off s lines end t
      → scan_lines json fn off s lines ≡ (t, end)
  unfolding scan_lines
  scan_lines-Scanned scanned = refl
  scan_lines-Scanned (scans {off = o} {s = s} {s' = s'} {line = l} {rest = ls} r f d v rest) =
      scan_lines_step json fn o s l ls r s' f d v ∙ scan_lines-Scanned rest

  -- It goes on where it ended.
  pub Scanned-append :
      {off mid end : ℕ} {s t u : S} {xs ys : List Bytes}
      → Scanned json fn off s xs mid t
      → Scanned json fn mid t ys end u
      → Scanned json fn off s (xs ++ ys) end u
  Scanned-append scanned next = next
  Scanned-append (scans r f d v rest) next = scans r f d v (Scanned-append rest next)
