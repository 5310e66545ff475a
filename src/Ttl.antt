-- ===== src/Ttl.antt =====
-- nteedb-core/ttl.go: the optional ttl argument as an absolute expiry.
use ntee_db.Base.{◌/◌, List, [], ◌∷◌, if◌then◌else◌}
use ntee_db.Base.Int.{ℤ, pos, pos_part, add64, leb_ℤ}
use ntee_db.Result.{Result, ok, err, invalid_ttl}

-- `Milliseconds` of a duration of so many nanoseconds, which is positive here.
abbrev pub milliseconds : ℤ → ℤ
milliseconds d = pos (pos_part d / 1_000_000)

unfoldable pub resolve_ttl : ℤ → List ℤ → Result ℤ
resolve_ttl now [] = ok (pos 0)
resolve_ttl now (d ∷ []) =
    if leb_ℤ d (pos 0) then err invalid_ttl else ok (add64 now (milliseconds d))
resolve_ttl now (d ∷ d' ∷ rest) = err invalid_ttl
