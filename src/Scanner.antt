-- ===== src/Scanner.antt =====
-- bufio.Scanner over a whole file, with a buffer of a given size.
use ntee_db.Base.{
  ℕ, suc, ◌+◌, ◌<◌, ◌≡◌, refl, ap, ◌∙◌, Bool, true, false, List, [], ◌∷◌, ◌++◌, length, ◌==◌, leb,
  arith, if◌then◌else◌,
}
use mathlib.Core.List.{append_assoc, append-nil}
use ntee_db.Bytes.{Bytes}
use ntee_db.Btree.{All}

-- bytes.TrimSuffix(line, "\r")
unfoldable pub trim_cr : Bytes → Bytes
trim_cr [] = []
trim_cr (c ∷ []) = if c == 13 then [] else c ∷ []
trim_cr (c ∷ d ∷ cs) = c ∷ trim_cr (d ∷ cs)

abbrev pub last_line : Bytes → List Bytes
last_line [] = []
last_line (c ∷ cs) = trim_cr (c ∷ cs) ∷ []

abbrev pub in_front : Bytes → List Bytes × Bool → List Bytes × Bool
in_front line (rest, long) = (line ∷ rest, long)

-- The lines, and whether the scan stops at a line that does not fit the buffer; `acc` is the line so
-- far, of `n` bytes.
unfoldable pub scan_lines : ℕ → ℕ → Bytes → Bytes → List Bytes × Bool
unfolding trim_cr
scan_lines size n acc [] = (last_line acc, false)
scan_lines size n acc (c ∷ cs) = elim (c == 10) [
  | true ↦ in_front (trim_cr acc) (scan_lines size 0 [] cs)
  | false ↦ elim (suc n == size) [
    | true ↦ ([], true)
    | false ↦ scan_lines size (suc n) (acc ++ c ∷ []) cs
  ]
]

-- No control character.
abbrev pub IsText : Bytes → Type 0
IsText = All (λ c. leb 32 c ≡ true)

pub trim_cr_text : (w : Bytes) → IsText w → trim_cr w ≡ w
unfolding trim_cr
trim_cr_text [] h = refl
trim_cr_text (c ∷ []) h = ground arith
trim_cr_text (c ∷ d ∷ cs) h = ap (◌∷◌ c) (trim_cr_text (d ∷ cs) h.1)

-- The scan takes a line without control characters that fits the buffer.
pub scan_line :
    (size n : ℕ) (acc line rest : Bytes)
    → IsText line
    → n + length line < size
    → scan_lines size n acc (line ++ 10 ∷ rest)
      ≡ in_front (trim_cr (acc ++ line)) (scan_lines size 0 [] rest)
unfolding scan_lines
scan_line size n acc [] rest h fits = rw (append-nil acc) refl
scan_line size n acc (c ∷ line) rest h fits =
    let no_newline : (c == 10) ≡ false = ground arith in
    let has_room : (suc n == size) ≡ false = ground arith in
    rw (no_newline, scan_lines)
      (rw has_room (
        scan_line size (suc n) (acc ++ c ∷ []) line rest h.1 (omega arith)
        ∙ rw (append_assoc acc (c ∷ []) line) refl))
