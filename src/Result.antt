-- ===== src/Result.antt =====
-- The errors of nteedb-core, and what a call that may fail returns.

pub data Error : Type 0 where
  closed invalid_ttl not_counter counter_overflow negative_amount : Error
  -- A failed call of the operating system; a value that JSON does not encode, a line that it does
  -- not decode; a negative length, which panics.
  io encoding decoding panic : Error
  unknown_index wrong_kind immediate_value self_eviction : Error
  missing_generation : Error

pub data Result {ℓ} (A : Type ℓ) : Type ℓ where
  ok : A → Result A
  err : Error → Result A

infixl 5 ◌>>=◌
abbrev pub ◌>>=◌ {ℓ κ} : {A : Type ℓ} {B : Type κ} → Result A → (A → Result B) → Result B
ok a >>= f = f a
err e >>= f = err e
