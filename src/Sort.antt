-- ===== src/Sort.antt =====
-- sort.Search of the standard library, which the index's bounds call.
use ntee_db.Base.{ℕ, zero, suc, ◌+◌, ◌/◌, ◌≤◌, ◌<◌, ◌≡◌, Bool, true, false, arith, ltb}

-- `for i < j { h := (i + j) / 2; if !f(h) { i = h + 1 } else { j = h } }`, with fuel.
unfoldable pub search_from : ℕ → (ℕ → Bool) → ℕ → ℕ → ℕ
search_from zero f i j = i
search_from (suc fuel) f i j = elim (ltb i j) [
  | false ↦ i
  | true ↦ elim (f ((i + j) / 2)) [
    | false ↦ search_from fuel f ((i + j) / 2 + 1) j
    | true ↦ search_from fuel f i ((i + j) / 2)
  ]
]

-- `n` rounds are enough: each halves the range.
unfoldable pub sort_search : ℕ → (ℕ → Bool) → ℕ
unfolding search_from
sort_search n f = search_from n f 0 n

search_from_lem :
    (fuel : ℕ) (f : ℕ → Bool) (i j k n : ℕ)
    → ((m : ℕ) → m < k → f m ≡ false)
    → ((m : ℕ) → k ≤ m → m < n → f m ≡ true)
    → i ≤ k
    → k ≤ j
    → j ≤ i + fuel
    → j ≤ n
    → search_from fuel f i j ≡ k
unfolding search_from
search_from_lem zero f i j k n below above a b c d = omega arith
search_from_lem (suc fuel) f i j k n below above a b c d =
    let h = (i + j) / 2 in
    ground (
      arith,
      below h,
      above h,
      search_from_lem fuel f (h + 1) j k n below above,
      search_from_lem fuel f i h k n below above,
    )

-- Of a test that fails below `k` and holds from `k` to `n`, the search finds `k`, if that
-- is at most `n`.
pub sort_search_lem :
    (n : ℕ) (f : ℕ → Bool) (k : ℕ)
    → ((m : ℕ) → m < k → f m ≡ false)
    → ((m : ℕ) → k ≤ m → m < n → f m ≡ true)
    → k ≤ n
    → sort_search n f ≡ k
unfolding sort_search
sort_search_lem n f k below above h =
    search_from_lem n f 0 n k n below above (omega arith) h (omega arith) (omega arith)

search_from-le : (fuel : ℕ) (f : ℕ → Bool) (i j n : ℕ) → i ≤ n → j ≤ n → search_from fuel f i j ≤ n
unfolding search_from
search_from-le zero f i j n a b = a
search_from-le (suc fuel) f i j n a b =
    let h = (i + j) / 2 in
    ground (arith, search_from-le fuel f (h + 1) j n, search_from-le fuel f i h n)

-- Of any test, the search stays in range.
pub sort_search-le : (n : ℕ) (f : ℕ → Bool) → sort_search n f ≤ n
unfolding sort_search
sort_search-le n f = search_from-le n f 0 n n (omega arith) (omega arith)
