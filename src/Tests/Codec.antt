-- ===== src/Tests/Codec.antt =====
-- A codec that keeps what encoding/json promises of records, to run the store on: every field
-- with its length, in numbers above those of control characters.
use ntee_db.Base.{
  ℕ, zero, suc, ◌+◌, ◌-◌, ◌≡◌, refl, ap, ◌∙◌, Bool, true, false, Option, none, some, List, [], ◌∷◌,
  ◌++◌, length, take, drop, take_append, drop_append, map, arith,
}
use ntee_db.Base.Int.{ℤ, pos, negsuc}
use ntee_db.Bytes.{Bytes}
use ntee_db.Record.{
  Record, BlobRef, AnyValue, text, number, other, IndexValues, Json, IsJsonCodec, IsLine,
}

abbrev pub bind : {A B : Type 0} → Option (A × List ℕ) → (A → List ℕ → Option B) → Option B
bind none f = none
bind (some p) f = f p.0 p.1

abbrev pub put_bytes : Bytes → List ℕ → List ℕ
put_bytes b rest = length b ∷ (b ++ rest)

unfoldable pub get_bytes : List ℕ → Option (Bytes × List ℕ)
get_bytes [] = none
get_bytes (n ∷ rest) = some (take n rest, drop n rest)

pub get_bytes-put_bytes :
    (b : Bytes) (rest : List ℕ) → get_bytes (put_bytes b rest) ≡ some (b, rest)
unfolding get_bytes
get_bytes-put_bytes b rest = ground (arith, take_append b rest, drop_append b rest)

unfoldable pub put_integer : ℤ → List ℕ → List ℕ
put_integer (pos n) rest = 0 ∷ n ∷ rest
put_integer (negsuc n) rest = 1 ∷ n ∷ rest

unfoldable pub get_integer : List ℕ → Option (ℤ × List ℕ)
get_integer (zero ∷ n ∷ rest) = some (pos n, rest)
get_integer (suc zero ∷ n ∷ rest) = some (negsuc n, rest)
get_integer _ = none

pub get_integer-put_integer :
    (z : ℤ) (rest : List ℕ) → get_integer (put_integer z rest) ≡ some (z, rest)
unfolding get_integer put_integer
get_integer-put_integer (pos n) rest = refl
get_integer-put_integer (negsuc n) rest = refl

unfoldable pub put_flag : Bool → List ℕ → List ℕ
put_flag true rest = 1 ∷ rest
put_flag false rest = 0 ∷ rest

unfoldable pub get_flag : List ℕ → Option (Bool × List ℕ)
get_flag (zero ∷ rest) = some (false, rest)
get_flag (suc zero ∷ rest) = some (true, rest)
get_flag _ = none

pub get_flag-put_flag : (b : Bool) (rest : List ℕ) → get_flag (put_flag b rest) ≡ some (b, rest)
unfolding get_flag put_flag
get_flag-put_flag true rest = refl
get_flag-put_flag false rest = refl

unfoldable pub put_ref : Option BlobRef → List ℕ → List ℕ
put_ref none rest = 0 ∷ rest
put_ref (some r) rest = 1 ∷ r.off ∷ r.size ∷ r.gen ∷ rest

unfoldable pub get_ref : List ℕ → Option (Option BlobRef × List ℕ)
get_ref (zero ∷ rest) = some (none, rest)
get_ref (suc zero ∷ off ∷ size ∷ gen ∷ rest) =
    some (some (record { off = off; size = size; gen = gen }), rest)
get_ref _ = none

get_ref-put_ref : (o : Option BlobRef) (rest : List ℕ) → get_ref (put_ref o rest) ≡ some (o, rest)
unfolding get_ref put_ref
get_ref-put_ref none rest = refl
get_ref-put_ref (some r) rest = refl

unfoldable pub put_value : AnyValue → List ℕ → List ℕ
put_value (text s) rest = 0 ∷ put_bytes s rest
put_value (number z) rest = 1 ∷ put_integer z rest
put_value other rest = 2 ∷ rest

unfoldable pub get_value : List ℕ → Option (AnyValue × List ℕ)
get_value (zero ∷ rest) = bind (get_bytes rest) (λ s rest'. some (text s, rest'))
get_value (suc zero ∷ rest) = bind (get_integer rest) (λ z rest'. some (number z, rest'))
get_value (suc (suc zero) ∷ rest) = some (other, rest)
get_value _ = none

get_value-put_value : (v : AnyValue) (rest : List ℕ) → get_value (put_value v rest) ≡ some (v, rest)
unfolding get_value put_value
get_value-put_value (text s) rest = ground (arith, get_bytes-put_bytes s rest)
get_value-put_value (number z) rest = ground (arith, get_integer-put_integer z rest)
get_value-put_value other rest = refl

unfoldable pub put_values : IndexValues → List ℕ → List ℕ
put_values [] rest = rest
put_values ((name, v) ∷ ix) rest = put_bytes name (put_value v (put_values ix rest))

unfoldable pub get_values : ℕ → List ℕ → Option (IndexValues × List ℕ)
get_values zero xs = some ([], xs)
get_values (suc n) xs = bind (get_bytes xs) (λ name ys.
    bind (get_value ys) (λ v zs. bind (get_values n zs) (λ ix rest. some ((name, v) ∷ ix, rest))))

pub get_values-put_values :
    (ix : IndexValues) (rest : List ℕ)
    → get_values (length ix) (put_values ix rest) ≡ some (ix, rest)
unfolding get_values put_values
get_values-put_values [] rest = refl
get_values-put_values ((name, v) ∷ ix) rest =
    rw
      (
        get_bytes-put_bytes name (put_value v (put_values ix rest)),
        get_value-put_value v (put_values ix rest),
        get_values-put_values ix rest,
      )
      refl

abbrev pub after_counter : Record → List ℕ
after_counter r = put_integer r.exp (length r.ix ∷ put_values r.ix [])

abbrev pub after_deleted : Record → List ℕ
after_deleted r = put_flag r.counter (after_counter r)

abbrev pub after_blob : Record → List ℕ
after_blob r = put_flag r.deleted (after_deleted r)

abbrev pub after_value : Record → List ℕ
after_value r = put_ref r.blob (after_blob r)

abbrev pub after_text : Record → List ℕ
after_text r = put_bytes r.value (after_value r)

abbrev pub after_key : Record → List ℕ
after_key r = put_bytes r.text (after_text r)

abbrev pub put_record : Record → List ℕ
put_record r = put_bytes r.key (after_key r)

unfoldable pub get_count : List ℕ → Option (ℕ × List ℕ)
get_count [] = none
get_count (n ∷ rest) = some (n, rest)

unfoldable pub get_record : List ℕ → Option Record
get_record xs = bind (get_bytes xs) (λ key xs. bind (get_bytes xs) (λ txt xs.
    bind (get_bytes xs) (λ value xs. bind (get_ref xs) (λ blob xs. bind (get_flag xs) (λ deleted xs.
      bind (get_flag xs) (λ counter xs. bind (get_integer xs) (λ exp xs.
        bind (get_count xs) (λ n xs. bind (get_values n xs) (λ ix xs. some (record {
          key = key;
          text = txt;
          value = value;
          blob = blob;
          deleted = deleted;
          ix = ix;
          counter = counter;
          exp = exp;
        }))))))))))

pub get_record-put_record : (r : Record) → get_record (put_record r) ≡ some r
unfolding get_record get_count
get_record-put_record r = ground (
  arith,
  get_bytes-put_bytes r.key (after_key r),
  get_bytes-put_bytes r.text (after_text r),
  get_bytes-put_bytes r.value (after_value r),
  get_ref-put_ref r.blob (after_blob r),
  get_flag-put_flag r.deleted (after_deleted r),
  get_flag-put_flag r.counter (after_counter r),
  get_integer-put_integer r.exp (length r.ix ∷ put_values r.ix []),
  get_values-put_values r.ix [],
)

abbrev pub raise : List ℕ → List ℕ
raise xs = map (λ c. c + 11) xs

abbrev pub lower : List ℕ → List ℕ
lower xs = map (λ c. c - 11) xs

pub lower-raise : (xs : List ℕ) → lower (raise xs) ≡ xs
lower-raise [] = refl
lower-raise (x ∷ xs) = ground (arith, lower-raise xs)

pub raise-IsLine : (xs : List ℕ) → IsLine (raise xs)
raise-IsLine [] = tt
raise-IsLine (x ∷ xs) = (ground arith, raise-IsLine xs)

abbrev pub codec : Json
codec = record {
  marshal = λ r. some (raise (put_record r));
  unmarshal = λ line. get_record (lower line);
}

pub codec-IsJsonCodec : IsJsonCodec codec
codec-IsJsonCodec = record {
  encodes = λ r j. (
    raise (put_record r),
    refl,
    raise-IsLine (put_record r),
    ap get_record (lower-raise (put_record r)) ∙ get_record-put_record r,
  );
}
