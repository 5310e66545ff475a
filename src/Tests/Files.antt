-- ===== src/Tests/Files.antt =====
-- Codecs for the hint and for meta.json that keep what encoding/json promises of them.
use ntee_db.Base.{
  ℕ, zero, suc, ◌+◌, ◌-◌, ◌≡◌, refl, ap, ◌∙◌, Option, none, some, List, [], ◌∷◌, length, map, arith,
}
use ntee_db.Bytes.{Bytes}
use ntee_db.Scanner.{IsText}
use ntee_db.PkIndex.{PkEntry}
use ntee_db.Meta.{MetaIndex, MetaData, MetaJson}
use ntee_db.Hint.{HintMeta, HintJson}
use ntee_db.Hint.RoundTrip.{IsHintCodec}
use ntee_db.Tests.Codec.{
  bind, put_bytes, get_bytes, get_bytes-put_bytes, put_integer, get_integer,
  get_integer-put_integer, put_flag, get_flag, get_flag-put_flag, put_values, get_values,
  get_values-put_values, get_count,
}

abbrev pub lift : List ℕ → Bytes
lift xs = map (λ c. c + 32) xs

abbrev pub lower : Bytes → List ℕ
lower xs = map (λ c. c - 32) xs

lower-lift : (xs : List ℕ) → lower (lift xs) ≡ xs
lower-lift [] = refl
lower-lift (x ∷ xs) = ground (arith, lower-lift xs)

lift-IsText : (xs : List ℕ) → IsText (lift xs)
lift-IsText [] = tt
lift-IsText (x ∷ xs) = (ground arith, lift-IsText xs)

abbrev pub put_hint_meta : HintMeta → List ℕ
put_hint_meta m = m.version ∷ m.covers ∷ []

abbrev get_hint_meta : List ℕ → Option HintMeta
get_hint_meta (v ∷ c ∷ []) = some (record { version = v; covers = c })
get_hint_meta _ = none

abbrev pub put_entry_line : PkEntry → List ℕ
put_entry_line e =
    put_bytes e.key (e.off ∷ e.n ∷ put_integer e.exp (length e.ix ∷ put_values e.ix []))

unfoldable pub get_entry_line : List ℕ → Option PkEntry
get_entry_line xs = bind (get_bytes xs) (λ key xs. bind (get_count xs) (λ off xs.
    bind (get_count xs) (λ n xs. bind (get_integer xs) (λ exp xs. bind (get_count xs) (λ k xs.
      bind (get_values k xs)
        (λ ix xs. some (record { key = key; off = off; n = n; ix = ix; exp = exp })))))))

get_entry_line-put : (e : PkEntry) → get_entry_line (put_entry_line e) ≡ some e
unfolding get_entry_line get_count
get_entry_line-put e = ground (
  arith,
  get_bytes-put_bytes e.key (e.off ∷ e.n ∷ put_integer e.exp (length e.ix ∷ put_values e.ix [])),
  get_integer-put_integer e.exp (length e.ix ∷ put_values e.ix []),
  get_values-put_values e.ix [],
)

abbrev pub hint_codec : HintJson
hint_codec = record {
  marshal_meta = λ m. lift (put_hint_meta m);
  unmarshal_meta = λ b. get_hint_meta (lower b);
  marshal_line = λ e. lift (put_entry_line e);
  unmarshal_line = λ b. get_entry_line (lower b);
}

pub hint_codec-IsHintCodec : IsHintCodec hint_codec
hint_codec-IsHintCodec = record {
  meta = λ m. (lift-IsText (put_hint_meta m), ap get_hint_meta (lower-lift (put_hint_meta m)));
  line = λ e j. (
    lift-IsText (put_entry_line e),
    ap get_entry_line (lower-lift (put_entry_line e)) ∙ get_entry_line-put e,
  );
}

unfoldable pub put_indexes : List MetaIndex → List ℕ
put_indexes [] = []
put_indexes (m ∷ ms) =
    put_bytes m.name (put_bytes m.kind (put_flag m.complete (put_flag m.dropped (put_indexes ms))))

unfoldable pub get_indexes : ℕ → List ℕ → Option (List MetaIndex)
get_indexes zero xs = some []
get_indexes (suc n) xs = bind (get_bytes xs) (λ name xs. bind (get_bytes xs) (λ kind xs.
    bind (get_flag xs) (λ complete xs. bind (get_flag xs) (λ dropped xs.
      more (record { name = name; kind = kind; complete = complete; dropped = dropped })
        (get_indexes n xs)))))
  where
    more : MetaIndex → Option (List MetaIndex) → Option (List MetaIndex)
    more m none = none
    more m (some ms) = some (m ∷ ms)

get_indexes-put : (ms : List MetaIndex) → get_indexes (length ms) (put_indexes ms) ≡ some ms
unfolding get_indexes put_indexes
get_indexes-put [] = refl
get_indexes-put (m ∷ ms) =
    rw
      (
        get_bytes-put_bytes m.name
            (put_bytes m.kind (put_flag m.complete (put_flag m.dropped (put_indexes ms)))),
        get_bytes-put_bytes m.kind (put_flag m.complete (put_flag m.dropped (put_indexes ms))),
        get_flag-put_flag m.complete (put_flag m.dropped (put_indexes ms)),
        get_flag-put_flag m.dropped (put_indexes ms),
        get_indexes-put ms,
      )
      refl

abbrev get_meta : List ℕ → Option MetaData
get_meta [] = none
get_meta (v ∷ []) = none
get_meta (v ∷ n ∷ xs) = elim (get_indexes n xs) [
  | none ↦ none
  | some ms ↦ some (record { version = v; indexes = ms })
]

abbrev pub meta_codec : MetaJson
meta_codec = record {
  marshal = λ m. lift (m.version ∷ length m.indexes ∷ put_indexes m.indexes);
  unmarshal = λ b. get_meta (lower b);
}

pub unmarshal-meta : (m : MetaData) → meta_codec.unmarshal (meta_codec.marshal m) ≡ some m
unmarshal-meta m =
    ap get_meta (lower-lift (m.version ∷ length m.indexes ∷ put_indexes m.indexes))
    ∙ ap
        (λ o. elim o as (λ _. Option MetaData) [
          | none ↦ none
          | some ms ↦ some (record { version = m.version; indexes = ms })
        ])
        (get_indexes-put m.indexes)
