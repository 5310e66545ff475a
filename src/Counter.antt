-- ===== src/Counter.antt =====
-- nteedb-core/counter.go: the fixed-width form of a counter, and the steps of Incr, Topup and
-- Take, as the closures that are handed to `counterUpdate`. Integers are int64 and wrap.
use ntee_db.Base.{
  ℕ, zero, suc, ◌-◌, ◌+◌, ◌*◌, ◌/◌, ◌%◌, ◌^◌, Bool, true, false, not, ◌&&◌, ◌||◌, Option, none,
  some, List, [], ◌∷◌, length, ltb, leb, ◌==◌, if◌then◌else◌,
}
use ntee_db.Result.{Error, counter_overflow}
use ntee_db.Base.Int.{
  ℤ, pos, negsuc, max_int64, min_int64, to_uint64, to_int64, add64, sub64, ltb_ℤ, leb_ℤ,
}
pub mod Format
pub mod Steps

abbrev pub counter_width : ℕ
counter_width = 20

-- `for i := counterWidth - 1; i >= 1; i--`: the loop writes from the right.
unfoldable pub put_digits : ℕ → ℕ → List ℕ → List ℕ
put_digits zero mag rest = rest
put_digits (suc i) mag rest = put_digits i (mag / 10) ((b'0' + mag % 10) ∷ rest)

-- `mag`, with the negation that does not overflow on the least int64.
abbrev pub magnitude : ℤ → ℕ
magnitude v =
    if ltb_ℤ v (pos 0)
    then (to_uint64 (sub64 (pos 0) (add64 v (pos 1))) + 1) % 2 ^ 64
    else to_uint64 v

unfoldable pub format_counter : ℤ → List ℕ
format_counter v =
    (if ltb_ℤ v (pos 0) then b'-' else b'+') ∷ put_digits (counter_width - 1) (magnitude v) []

-- The loop over `b[1:]`; `none` is the early return.
unfoldable pub read_digits : ℕ → List ℕ → Option ℕ
read_digits mag [] = some mag
read_digits mag (c ∷ rest) =
    if ltb c b'0' || ltb b'9' c then none else read_digits ((mag * 10 + (c - b'0')) % 2 ^ 64) rest

-- The two bounds and the negation at the end of `parseCounter`.
unfoldable pub signed_of : ℕ → ℕ → Option ℤ
signed_of sign mag =
    if sign == b'+'
    then (if ltb (2 ^ 63 - 1) mag then none else some (to_int64 mag))
    else if ltb (2 ^ 63 - 1 + 1) mag
    then none
    else some (sub64 (sub64 (pos 0) (to_int64 ((mag + 2 ^ 64 - 1) % 2 ^ 64))) (pos 1))

unfoldable pub parse_counter : List ℕ → Option ℤ
parse_counter [] = none
parse_counter (sign ∷ rest) =
    if not (length (sign ∷ rest) == counter_width) || (not (sign == b'+') && not (sign == b'-'))
    then none
    else elim (read_digits 0 rest) [ none ↦ none | some mag ↦ signed_of sign mag ]

-- What a step closure returns: the next value and `apply`, or an error.
pub data Step : Type 0 where
  apply : ℤ → Step
  decline : Step
  fail : Error → Step

-- The closure of `incr`.
unfoldable pub incr_step : ℤ → ℤ → Step
incr_step delta cur =
    if (ltb_ℤ (pos 0) delta && ltb_ℤ (sub64 max_int64 delta) cur)
      || (ltb_ℤ delta (pos 0) && ltb_ℤ cur (sub64 min_int64 delta))
    then fail counter_overflow
    else apply (add64 cur delta)

-- `applied`, by the switch in the closure of `Topup`.
unfoldable pub topup_applied : ℤ → ℤ → ℤ → ℤ
topup_applied amount max cur =
    if leb_ℤ max cur
    then pos 0
    else if ltb_ℤ (sub64 max_int64 amount) cur || ltb_ℤ max (add64 cur amount)
    then sub64 max cur
    else amount

-- The closure of `Topup`: the step, and the `overflow` that it leaves behind.
unfoldable pub topup_step : ℤ → ℤ → ℤ → Step × ℤ
topup_step amount max cur =
    let applied = topup_applied amount max cur in
    (
      (if leb_ℤ applied (pos 0) && leb_ℤ (pos 0) applied
          then decline
          else apply (add64 cur applied)),
      sub64 amount applied,
    )

-- The closure of `Take`.
unfoldable pub take_step : ℤ → ℤ → ℤ → Step
take_step amount left cur =
    if ltb_ℤ cur (add64 min_int64 amount)
    then decline
    else if ltb_ℤ (sub64 cur amount) left
    then decline
    else apply (sub64 cur amount)
