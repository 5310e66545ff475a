-- ===== src/Order.antt =====
-- Strict weak orders: what a comparison function has to be for a B-tree that is built on it.
use ntee_db.Base.{◌≡◌, ◌⊎◌, Bool, true, false, not, ◌&&◌, arith}

pub record Order {ℓ} (A : Type ℓ) : Type ℓ where
  pub less : A → A → Bool
  pub irrefl : (a : A) → less a a ≡ false
  pub trans : (a b c : A) → less a b ≡ true → less b c ≡ true → less a c ≡ true
  pub cotrans : (a b c : A) → less a c ≡ true → (less a b ≡ true) ⊎ (less b c ≡ true)

-- Neither is less: the B-tree takes the two for one item.
abbrev pub same {ℓ} : {A : Type ℓ} → (A → A → Bool) → A → A → Bool
same less a b = not (less a b) && not (less b a)

module _ {ℓ} {A : Type ℓ} (o : Order A) where
  pub less_asym : (a b : A) → o.less a b ≡ true → o.less b a ≡ false
  less_asym a b h = ground (arith, o.trans a b a, o.irrefl a)

  pub same_refl : (a : A) → same o.less a a ≡ true
  same_refl a = ground (arith, o.irrefl a)

  -- What is the same compares alike.
  pub same-less_left : (a b c : A) → same o.less a b ≡ true → o.less a c ≡ o.less b c
  same-less_left a b c h = ground (arith, o.cotrans a b c, o.cotrans b a c)

  pub same-less_right : (a b c : A) → same o.less a b ≡ true → o.less c a ≡ o.less c b
  same-less_right a b c h = ground (arith, o.cotrans c b a, o.cotrans c a b)

  pub same-same : (a b c : A) → same o.less a b ≡ true → same o.less a c ≡ same o.less b c
  same-same a b c h = ground (arith, same-less_left a b c h, same-less_right a b c h)

  -- Not above a below b is below b; a below not below b is below b.
  pub not_less_less : (a b c : A) → o.less b a ≡ false → o.less b c ≡ true → o.less a c ≡ true
  not_less_less a b c h k = ground (arith, o.cotrans b a c k)

  pub less_not_less : (a b c : A) → o.less a b ≡ true → o.less c b ≡ false → o.less a c ≡ true
  less_not_less a b c h k = ground (arith, o.cotrans a c b h)

-- The order of a key, on what carries it.
abbrev pub by_key {ℓ} : {A K : Type ℓ} → (A → K) → Order K → Order A
by_key key o = record {
  less = λ a b. o.less (key a) (key b);
  irrefl = λ a. o.irrefl (key a);
  trans = λ a b c. o.trans (key a) (key b) (key c);
  cotrans = λ a b c. o.cotrans (key a) (key b) (key c);
}
