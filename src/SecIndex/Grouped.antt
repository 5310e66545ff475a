-- ===== src/SecIndex/Grouped.antt =====
-- nteedb-core/secindex.go: the values with a prefix, and the keys of each, for the query by a prefix.
use ntee_db.Base.{
  ◌≤◌, ◌≡◌, refl, ap, ◌∙◌, Bool, false, List, [], ◌∷◌, ◌++◌, length, if◌then◌else◌, arith,
}
use mathlib.Core.List.{reverse_aux, append-nil}
use ntee_db.Base.Int.{ℤ}
use ntee_db.Bytes.{Bytes, bytes_eq, has_prefix}
use ntee_db.Bytes.Laws.{bytes_eq_refl}
use ntee_db.Bytes.Prefixes.{has_prefix_below}
use ntee_db.Btree.{All, IsSorted}
use ntee_db.Btree.Items.{All-map}
use ntee_db.SecIndex.{ValueKind, SecEntry, sec_less, past_group}
use ntee_db.SecIndex.Queries.{keys_where, limited}
use ntee_db.SecIndex.Groups.{pks, Above, Below, Within, above_ne, below_ne}

-- A list of values without one.
unfoldable pub drop_value : Bytes → List Bytes → List Bytes
drop_value v [] = []
drop_value v (w ∷ ws) = let rest = drop_value v ws in if bytes_eq w v then rest else w ∷ rest

-- The distinct values with a prefix, in order.
unfoldable pub values_with : Bytes → List SecEntry → List Bytes
values_with p [] = []
values_with p (e ∷ rest) =
    let more = values_with p rest in if has_prefix e.s p then e.s ∷ drop_value e.s more else more

abbrev pub has_value : Bytes → SecEntry → Bool
has_value v e = bytes_eq e.s v

-- For each of the values: the keys of its entries, within the limit.
abbrev pub answers : ℤ → List SecEntry → List Bytes → List Bytes
answers limit es [] = []
answers limit es (v ∷ vs) = limited limit (keys_where (has_value v) es) ++ answers limit es vs

pub pks-reverse_aux :
    (g acc : List SecEntry) → pks (reverse_aux g acc) ≡ reverse_aux (pks g) (pks acc)
pks-reverse_aux [] acc = refl
pks-reverse_aux (e ∷ g) acc = pks-reverse_aux g (e ∷ acc)

pub reverse_aux-All :
    (P : SecEntry → Type 0) (xs ys : List SecEntry)
    → All P xs
    → All P ys
    → All P (reverse_aux xs ys)
reverse_aux-All P [] ys h k = k
reverse_aux-All P (x ∷ xs) ys h k = reverse_aux-All P xs (x ∷ ys) h.1 (h.0, k)

pub past_group-All :
    (P : SecEntry → Type 0) (v : Bytes) (es : List SecEntry) → All P es → All P (past_group v es)
unfolding past_group
past_group-All P v [] h = tt
past_group-All P v (e ∷ rest) h = ground (arith, past_group-All P v rest h.1)

pub past_group-IsSorted :
    (k : ValueKind) (v : Bytes) (es : List SecEntry)
    → IsSorted (sec_less k) es
    → IsSorted (sec_less k) (past_group v es)
unfolding past_group
past_group-IsSorted k v [] h = tt
past_group-IsSorted k v (e ∷ rest) h = ground (arith, past_group-IsSorted k v rest h.1)

pub length-past_group : (v : Bytes) (es : List SecEntry) → length (past_group v es) ≤ length es
unfolding past_group
length-past_group v [] = omega arith
length-past_group v (e ∷ rest) = ground (arith, length-past_group v rest)

keys_where-append :
    (P : SecEntry → Bool) (xs ys : List SecEntry)
    → keys_where P (xs ++ ys) ≡ keys_where P xs ++ keys_where P ys
unfolding keys_where
keys_where-append P [] ys = refl
keys_where-append P (x ∷ xs) ys = ground (arith, keys_where-append P xs ys)

keys_where_none :
    (P : SecEntry → Bool) (xs : List SecEntry) → All (λ e. P e ≡ false) xs → keys_where P xs ≡ []
unfolding keys_where
keys_where_none P [] h = refl
keys_where_none P (x ∷ xs) h = ground (arith, keys_where_none P xs h.1)

keys_where_all : (v : Bytes) (g : List SecEntry) → Within v g → keys_where (has_value v) g ≡ pks g
unfolding keys_where
keys_where_all v [] w = refl
keys_where_all v (e ∷ g) w =
    ground (arith, keys_where_all v g w.1, ap (λ s. bytes_eq s v) w.0, bytes_eq_refl v)

pub keys_where-group :
    (v : Bytes) (before g later : List SecEntry)
    → Below v before
    → Within v g
    → Above v later
    → keys_where (has_value v) (before ++ (g ++ later)) ≡ pks g
keys_where-group v before g later b w a =
    keys_where-append (has_value v) before (g ++ later)
    ∙ rw (keys_where_none (has_value v) before (All-map before (λ e. below_ne v e.s) b)) (
        keys_where-append (has_value v) g later
        ∙ rw (keys_where_none (has_value v) later (All-map later (λ e. above_ne v e.s) a))
            (append-nil (keys_where (has_value v) g) ∙ keys_where_all v g w))

drop_value_comm :
    (v w : Bytes) (vs : List Bytes)
    → drop_value v (drop_value w vs) ≡ drop_value w (drop_value v vs)
unfolding drop_value
drop_value_comm v w [] = refl
drop_value_comm v w (x ∷ vs) = ground (arith, drop_value_comm v w vs)

-- A value that is below those of the entries is none of theirs.
drop_value_above :
    (p v : Bytes) (es : List SecEntry)
    → Above v es
    → drop_value v (values_with p es) ≡ values_with p es
unfolding values_with drop_value
drop_value_above p v [] a = refl
drop_value_above p v (e ∷ rest) a = ground (
  arith,
  above_ne v e.s a.0,
  drop_value_comm v e.s (values_with p rest),
  drop_value_above p v rest a.1,
)

pub drop_value_group :
    (p v : Bytes) (g later : List SecEntry)
    → Within v g
    → Above v later
    → drop_value v (values_with p (g ++ later)) ≡ values_with p later
unfolding values_with drop_value
drop_value_group p v [] later w a = drop_value_above p v later a
drop_value_group p v (e ∷ g) later w a = ground (
  arith,
  ap (λ s. bytes_eq s v) w.0,
  bytes_eq_refl v,
  ap (λ s. drop_value s (values_with p (g ++ later))) w.0,
  drop_value_group p v g later w.1 a,
  drop_value_above p v later a,
)

pub values_with_none :
    (p : Bytes) (es : List SecEntry)
    → All (λ e. has_prefix e.s p ≡ false) es
    → values_with p es ≡ []
unfolding values_with
values_with_none p [] h = refl
values_with_none p (e ∷ rest) h = ground (arith, values_with_none p rest h.1)

pub values_with-append :
    (p : Bytes) (before es : List SecEntry)
    → Below p before
    → values_with p (before ++ es) ≡ values_with p es
unfolding values_with
values_with-append p [] es b = refl
values_with-append p (x ∷ before) es b =
    ground (arith, has_prefix_below p x.s b.0, values_with-append p before es b.1)
