-- ===== src/SecIndex/Order.antt =====
-- The entries of an index are ordered by value, then by key: a strict weak order.
use ntee_db.Base.{◌≡◌, ◌⊎◌, true, false, arith}
use ntee_db.Order.{Order, less_asym}
use ntee_db.Bytes.Laws.{
  bytes_order, same-eq-bytes_eq, bytes_less_irrefl, bytes_less_trans, bytes_less_cotrans,
  bytes_eq→eq, bytes_eq_refl,
}
use ntee_db.SecIndex.{ValueKind, kind_string, kind_number, SecEntry, sec_less}

pub sec_less_irrefl : (k : ValueKind) (a : SecEntry) → sec_less k a a ≡ false
unfolding sec_less
sec_less_irrefl kind_number a = ground (arith, bytes_less_irrefl a.pk)
sec_less_irrefl kind_string a = ground (arith, bytes_less_irrefl a.pk, bytes_less_irrefl a.s)

pub sec_less_trans :
    (k : ValueKind) (a b c : SecEntry)
    → sec_less k a b ≡ true
    → sec_less k b c ≡ true
    → sec_less k a c ≡ true
unfolding sec_less
sec_less_trans kind_number a b c h j = ground (arith, bytes_less_trans a.pk b.pk c.pk)
sec_less_trans kind_string a b c h j = ground (
  arith,
  bytes_less_trans a.pk b.pk c.pk,
  bytes_less_trans a.s b.s c.s,
  bytes_eq→eq a.s b.s,
  bytes_eq→eq b.s c.s,
  bytes_eq→eq a.s c.s,
  bytes_eq_refl a.s,
  bytes_less_irrefl a.s,
  less_asym bytes_order a.s b.s,
)

pub sec_less_cotrans :
    (k : ValueKind) (a b c : SecEntry)
    → sec_less k a c ≡ true
    → (sec_less k a b ≡ true) ⊎ (sec_less k b c ≡ true)
unfolding sec_less
sec_less_cotrans kind_number a b c h = ground (arith, bytes_less_cotrans a.pk b.pk c.pk)
sec_less_cotrans kind_string a b c h = ground (
  arith,
  bytes_less_cotrans a.pk b.pk c.pk,
  bytes_less_cotrans a.s b.s c.s,
  bytes_eq→eq a.s b.s,
  bytes_eq→eq b.s c.s,
  bytes_eq→eq a.s c.s,
  bytes_eq_refl a.s,
  bytes_less_irrefl a.s,
  same-eq-bytes_eq a.s b.s,
  same-eq-bytes_eq b.s c.s,
)

-- `si.less`, for a tree of this kind.
abbrev pub sec_order : ValueKind → Order SecEntry
sec_order k = record {
  less = sec_less k;
  irrefl = sec_less_irrefl k;
  trans = sec_less_trans k;
  cotrans = sec_less_cotrans k;
}
