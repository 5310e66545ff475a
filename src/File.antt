-- ===== src/File.antt =====
-- The calls of package os that the store makes on an open file. Which of the coming calls fail is
-- part of the state: a failed write may have written a part of its bytes.
use ntee_db.Base.{
  ℕ, ◌+◌, Bool, true, false, Option, none, some, List, [], ◌∷◌, ◌++◌, length, take, drop, leb,
  if◌then◌else◌,
}
use ntee_db.Bytes.{Bytes}

pub data Outcome : Type 0 where
  done : Outcome
  fails : ℕ → Outcome

pub record File : Type 0 where
  pub content : Bytes
  pub coming : List Outcome

-- The outcome of the next call, and those after it.
abbrev pub next_outcome : List Outcome → Outcome × List Outcome
next_outcome [] = (done, [])
next_outcome (o ∷ rest) = (o, rest)

abbrev written : Outcome → Bytes → Bytes → Bytes
written done b content = content ++ b
written (fails n) b content = content ++ take n b

abbrev succeeds : Outcome → Bool
succeeds done = true
succeeds (fails n) = false

-- Write on a handle that was opened with O_APPEND.
unfoldable pub write : File → Bytes → Bool × File
write f b =
    let (o, rest) = next_outcome f.coming in
    (succeeds o, record { content = written o b f.content; coming = rest })

unfoldable pub sync : File → Bool × File
sync f = let (o, rest) = next_outcome f.coming in (succeeds o, record f { coming = rest })

-- ReadAt into a buffer of `n` bytes; a read past the end fails.
unfoldable pub read_at : Bytes → ℕ → ℕ → Option Bytes
read_at content off n =
    if leb (off + n) (length content) then some (take n (drop off content)) else none
