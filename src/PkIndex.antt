-- ===== src/PkIndex.antt =====
-- nteedb-core/pkindex.go: the primary-key index, over a tree of the B-tree library.
use ntee_db.Base.{ℕ, Bool, true, false, not, ◌&&◌, Option, none, some, List, [], ◌∷◌, if◌then◌else◌}
use ntee_db.Base.Int.{ℤ, pos, leb_ℤ, eqb_ℤ}
use ntee_db.Order.{Order, by_key}
use ntee_db.Bytes.{Bytes, has_prefix}
use ntee_db.Bytes.Laws.{bytes_order}
use ntee_db.Btree.{Btree}
use ntee_db.Record.{IndexValues}
pub mod Laws

pub record PkEntry : Type 0 where
  pub key : Bytes
  pub off : ℕ
  pub n : ℕ
  pub ix : IndexValues
  pub exp : ℤ

unfoldable pub expired_at : PkEntry → ℤ → Bool
expired_at e now = not (eqb_ℤ e.exp (pos 0)) && leb_ℤ e.exp now

-- `pkLess`
abbrev pub pk_order : Order PkEntry
pk_order = by_key (λ e. e.key) bytes_order

-- `pkEntry{key: key}`
abbrev pub key_only : Bytes → PkEntry
key_only key = record { key = key; off = 0; n = 0; ix = []; exp = pos 0 }

-- What `prefix` collects until its callback returns false.
unfoldable pub take_prefix : Bytes → List PkEntry → List PkEntry
take_prefix p [] = []
take_prefix p (e ∷ rest) =
    let out = take_prefix p rest in if has_prefix e.key p then e ∷ out else []

-- `if prev, ok := …; ok { e.ix = prev.ix }`
abbrev pub inherits : Option PkEntry → PkEntry → PkEntry
inherits none e = e
inherits (some prev) e = record e { ix = prev.ix }

module _ (b : Btree PkEntry) where
  unfoldable pub get : b.Tree → Bytes → Option PkEntry
  get t key = b.get t (key_only key)

  unfoldable pub upsert : b.Tree → PkEntry → b.Tree
  upsert t e = b.set t (inherits (b.get t e) e)

  unfoldable pub set_ix : b.Tree → Bytes → IndexValues → b.Tree
  set_ix t key ixv = elim (b.get t (key_only key)) [
    | none ↦ t
    | some e ↦ b.set t (record e { ix = ixv })
  ]

  unfoldable pub remove : b.Tree → Bytes → b.Tree
  remove t key = b.delete t (key_only key)

  unfoldable pub prefix : b.Tree → Bytes → List PkEntry
  unfolding take_prefix
  prefix t p = take_prefix p (b.ascend t (key_only p))
