-- ===== src/Tests/Parts.antt =====
-- Examples of the theorems on counters, lines, records and indexes.
use ntee_db.Base.{◌+◌, ◌≡◌, ◌≢◌, ◌⊎◌, refl, true, some, [], ◌∷◌, ◌++◌, length, arith, if◌then◌else◌}
use ntee_db.Base.Int.{pos, negsuc, IsInt64, ◌+ℤ◌, ◌-ℤ◌, leb_ℤ}
use ntee_db.Bytes.{Bytes}
use ntee_db.Result.{ok, err, io, counter_overflow}
use ntee_db.Counter.{
  apply, decline, fail, format_counter, parse_counter, incr_step, topup_step, take_step,
}
use ntee_db.Counter.Format.{parse-format_counter}
use ntee_db.Counter.Steps.{after, Filled, incr_step_lem, take_step_lem, topup_step-Filled}
use ntee_db.File.{fails}
use ntee_db.Record.{Record, utf8_valid, IsLine, blank, marshal_record, unmarshal_record, to_disk}
use ntee_db.Record.RoundTrip.{IsCanonical, unmarshal-marshal_record}
use ntee_db.MainLog.{MainLog, open_main_log, append_sync, complete_lines}
use ntee_db.MainLog.Lines.{image, Fits, complete_lines-image}
use ntee_db.MainLog.Appends.{IsSound, appended, append_sync_lem, append_short}
use ntee_db.Tests.Codec.{
  codec, codec-IsJsonCodec, put_record, raise, after_key, put_values, put_ref, put_flag,
  put_integer,
}

parse-format_counter_example : parse_counter (format_counter (negsuc 41)) ≡ some (negsuc 41)
parse-format_counter_example = parse-format_counter (negsuc 41) (ground arith)

incr_step_lem_example :
    (IsInt64 (pos 40 +ℤ pos 2) × (incr_step (pos 2) (pos 40) ≡ apply (pos 40 +ℤ pos 2)))
    ⊎ ((¬ IsInt64 (pos 40 +ℤ pos 2)) × (incr_step (pos 2) (pos 40) ≡ fail counter_overflow))
incr_step_lem_example = incr_step_lem (pos 2) (pos 40) (ground arith) (ground arith)

take_step_lem_example :
    take_step (pos 3) (pos 0) (pos 5)
    ≡ (if leb_ℤ (pos 0) (pos 5 -ℤ pos 3) then apply (pos 5 -ℤ pos 3) else decline)
take_step_lem_example =
    take_step_lem (pos 3) (pos 0) (pos 5) (ground arith) (ground arith) (ground arith)
      (ground arith)

topup_step-Filled_example :
    Filled
      (pos 8)
      (pos 10)
      (pos 5)
      (after (topup_step (pos 8) (pos 10) (pos 5)).0 (pos 5))
      (topup_step (pos 8) (pos 10) (pos 5)).1
topup_step-Filled_example =
    topup_step-Filled (pos 8) (pos 10) (pos 5) (ground arith) (ground arith) (ground arith)
      (ground arith)

complete_lines-image_example :
    complete_lines [] (image ((b'a' ∷ []) ∷ (b'b' ∷ []) ∷ []) ++ b'c' ∷ [])
    ≡ (b'a' ∷ []) ∷ (b'b' ∷ []) ∷ []
complete_lines-image_example =
    complete_lines-image ((b'a' ∷ []) ∷ (b'b' ∷ []) ∷ []) (b'c' ∷ []) ((refl, tt), ((refl, tt), tt))
      (refl, tt)

-- A value that is no text stays in the field of raw bytes.
abbrev raw : Record
raw = record (blank (b'k' ∷ [])) { value = 200 ∷ 10 ∷ [] }

raw-IsCanonical : IsCanonical raw
unfolding utf8_valid
raw-IsCanonical = record { text = refl; key = refl; names = tt; values = tt; sorted = tt }

unmarshal-marshal_record_example :
    (line : Bytes) × (marshal_record codec raw ≡ some line)
    × IsLine line
    × (unmarshal_record codec line ≡ some raw)
unmarshal-marshal_record_example =
    unmarshal-marshal_record codec codec-IsJsonCodec raw raw-IsCanonical

abbrev empty_log : MainLog
empty_log = open_main_log (record { content = []; coming = [] }) true

abbrev line_k : Bytes
line_k = raise (put_record (to_disk (blank (b'k' ∷ []))))

empty_log-IsSound : IsSound empty_log
unfolding open_main_log
empty_log-IsSound = record { size = refl; quiet = refl }

line_k_marshal : marshal_record codec (blank (b'k' ∷ [])) ≡ some line_k
unfolding marshal_record
line_k_marshal = refl

line_k-Fits : Fits line_k
unfolding to_disk put_values put_ref put_flag put_integer
line_k-Fits = ground arith

append_sync_lem_example :
    append_sync codec (blank (b'k' ∷ [])) true empty_log
    ≡ (ok (empty_log.size, length line_k + 1), appended empty_log line_k)
append_sync_lem_example =
    append_sync_lem codec (blank (b'k' ∷ [])) true empty_log line_k empty_log-IsSound line_k_marshal
      line_k-Fits

abbrev failing_log : MainLog
failing_log = open_main_log (record { content = []; coming = fails 1 ∷ [] }) true

abbrev line_k_tail : Bytes
line_k_tail = raise (b'k' ∷ after_key (to_disk (blank (b'k' ∷ []))))

line_k_head : marshal_record codec (blank (b'k' ∷ [])) ≡ some (12 ∷ line_k_tail)
unfolding marshal_record to_disk
line_k_head = refl

failing_size : failing_log.size ≡ length failing_log.f.content
unfolding open_main_log
failing_size = refl

failing_coming : failing_log.f.coming ≡ fails 1 ∷ []
unfolding open_main_log
failing_coming = refl

append_short_example :
    ((append_sync codec (blank (b'k' ∷ [])) true failing_log).0 ≡ err io)
    × ((append_sync codec (blank (b'k' ∷ [])) true failing_log).1.size
        ≢ length (append_sync codec (blank (b'k' ∷ [])) true failing_log).1.f.content)
append_short_example =
    append_short codec (blank (b'k' ∷ [])) true failing_log line_k_tail 0 12 line_k_head
      failing_size failing_coming
