-- ===== src/Counter/Steps.antt =====
-- nteedb-core/counter.go: the steps of Incr, Topup and Take against exact arithmetic.
use native.Mathlib.Decide.{dec_lt}
use ntee_db.Base.{◌+◌, ◌^◌, ◌≡◌, ◌⊎◌, inl, inr, arith, if◌then◌else◌}
use ntee_db.Base.Int.{ℤ, pos, negsuc, IsInt64, ◌+ℤ◌, ◌-ℤ◌, ◌≤ℤ◌, ◌<ℤ◌, leb_ℤ, wrap64}
use ntee_db.Result.{counter_overflow}
use ntee_db.Counter.{Step, apply, decline, fail, incr_step, topup_applied, topup_step, take_step}

-- The value that a step leaves in the counter.
pub after : Step → ℤ → ℤ
after (apply next) cur = next
after decline cur = cur
after (fail e) cur = cur

-- Of int64 values, the step of Incr adds exactly where the sum is an int64, and fails with the
-- overflow error exactly where it is not.
pub incr_step_lem :
    (delta cur : ℤ)
    → IsInt64 delta
    → IsInt64 cur
    → (IsInt64 (cur +ℤ delta) × (incr_step delta cur ≡ apply (cur +ℤ delta)))
      ⊎ ((¬ IsInt64 (cur +ℤ delta)) × (incr_step delta cur ≡ fail counter_overflow))
unfolding incr_step ◌+ℤ◌ ◌-ℤ◌ wrap64
incr_step_lem (pos m) (pos n) d c = elim (dec_lt (m + n) (2 ^ 63)) [
  | yes h ↦ inl (ground arith, ground arith)
  | no h ↦ inr (ground arith, ground arith)
]
incr_step_lem (pos m) (negsuc n) d c = inl (ground arith, ground arith)
incr_step_lem (negsuc m) (pos n) d c = inl (ground arith, ground arith)
incr_step_lem (negsuc m) (negsuc n) d c = elim (dec_lt (m + n + 1) (2 ^ 63)) [
  | yes h ↦ inl (ground arith, ground arith)
  | no h ↦ inr (ground arith, ground arith)
]

-- Of int64 values and an amount that is not negative, the step of Take subtracts exactly where the
-- exact difference stays at left or above, and declines elsewhere.
pub take_step_lem :
    (amount left cur : ℤ)
    → pos 0 ≤ℤ amount
    → IsInt64 amount
    → IsInt64 left
    → IsInt64 cur
    → take_step amount left cur
      ≡ (if leb_ℤ left (cur -ℤ amount) then apply (cur -ℤ amount) else decline)
unfolding take_step ◌+ℤ◌ ◌-ℤ◌ wrap64
take_step_lem (pos m) left (pos n) b a l c = ground arith
take_step_lem (pos m) left (negsuc n) b a l c = ground arith
take_step_lem (negsuc m) left cur b a l c = absurd (omega arith)

-- `applied` in exact arithmetic: nothing at or above `max`, else the smaller of the room and `amount`.
topup_applied_lem :
    (amount max cur : ℤ)
    → pos 0 ≤ℤ amount
    → IsInt64 amount
    → IsInt64 max
    → IsInt64 cur
    → topup_applied amount max cur
      ≡ (if leb_ℤ max cur then pos 0 else if leb_ℤ (max -ℤ cur) amount then max -ℤ cur else amount)
unfolding topup_applied ◌+ℤ◌ ◌-ℤ◌ wrap64
topup_applied_lem (pos m) (pos x) (pos n) b a l c = ground arith
topup_applied_lem (pos m) (pos x) (negsuc n) b a l c = ground arith
topup_applied_lem (pos m) (negsuc x) (pos n) b a l c = ground arith
topup_applied_lem (pos m) (negsuc x) (negsuc n) b a l c = ground arith
topup_applied_lem (negsuc m) max cur b a l c = absurd (omega arith)

-- What a topup by `amount` up to `max` has to leave behind, exactly: `value` in the counter and
-- `over` in the result. Nothing is lost, the counter never falls, it passes `max` only if it was
-- there before, and something is left over only if the counter is full.
pub record Filled (amount max cur value over : ℤ) : Type 0 where
  pub conserves : value +ℤ over ≡ cur +ℤ amount
  pub rises : cur ≤ℤ value
  pub leftover : pos 0 ≤ℤ over
  pub bounded : cur ≤ℤ max → value ≤ℤ max
  pub untouched : max ≤ℤ cur → value ≡ cur
  pub full : pos 0 <ℤ over → max ≤ℤ value

-- Of int64 values and an amount that is not negative, the step of Topup loses nothing between the
-- counter and the overflow that it reports, never lowers the counter, leaves it alone at or above
-- max, raises it above max never, and reports an overflow only with the counter at max or above.
pub topup_step-Filled :
    (amount max cur : ℤ)
    → pos 0 ≤ℤ amount
    → IsInt64 amount
    → IsInt64 max
    → IsInt64 cur
    → Filled amount max cur (after (topup_step amount max cur).0 cur) (topup_step amount max cur).1
unfolding topup_step after ◌+ℤ◌ ◌-ℤ◌ wrap64
topup_step-Filled (pos m) (pos x) (pos n) b a l c =
    ground (arith, topup_applied_lem (pos m) (pos x) (pos n))
topup_step-Filled (pos m) (pos x) (negsuc n) b a l c =
    ground (arith, topup_applied_lem (pos m) (pos x) (negsuc n))
topup_step-Filled (pos m) (negsuc x) (pos n) b a l c =
    ground (arith, topup_applied_lem (pos m) (negsuc x) (pos n))
topup_step-Filled (pos m) (negsuc x) (negsuc n) b a l c =
    ground (arith, topup_applied_lem (pos m) (negsuc x) (negsuc n))
topup_step-Filled (negsuc m) max cur b a l c = absurd (omega arith)
