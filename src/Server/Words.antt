-- ===== src/Server/Words.antt =====
-- strings.Fields and restAfterTokens on a line of words of visible ASCII.
use ntee_db.Base.{
  ℕ, zero, suc, ◌⊎◌, inl, inr, ==_self, ==→eq, ◌≡◌, ◌≢◌, refl, ◌∙◌, ◌<◌, some, List, [], ◌∷◌, ◌++◌,
  arith,
}
use mathlib.Core.List.{append_assoc, append-nil}
use ntee_db.Bytes.{Bytes}
use ntee_db.Btree.{All}
use ntee_db.Server.Text.{space_width, fields_from, fields, cut, emit}
use ntee_db.Server.Proto.{skip_blanks, drop_tokens, rest_after_tokens}

abbrev pub IsVisible : ℕ → Type 0
IsVisible c = (32 < c) × (c < 127)

-- A word, as its first byte and the others.
abbrev pub IsWord : ℕ → Bytes → Type 0
IsWord c cs = IsVisible c × All IsVisible cs

pub space_width_visible : (c : ℕ) (cs : Bytes) → IsVisible c → space_width (c ∷ cs) ≡ 0
unfolding space_width
space_width_visible c cs h = ground arith

space_width_blank : (cs : Bytes) → space_width (32 ∷ cs) ≡ 1
unfolding space_width
space_width_blank cs = refl

-- The scan takes a word up to the blank behind it.
fields_from_word :
    (w acc s : Bytes)
    → All IsVisible w
    → fields_from 0 acc (w ++ 32 ∷ s) ≡ emit (acc ++ w) (fields_from 0 [] s)
unfolding fields_from
fields_from_word [] acc s h = rw (space_width_blank s, fields_from) (rw (append-nil acc) refl)
fields_from_word (c ∷ w) acc s h =
    rw (space_width_visible c (w ++ 32 ∷ s) h.0, fields_from)
      (fields_from_word w (acc ++ c ∷ []) s h.1 ∙ rw (append_assoc acc (c ∷ []) w) refl)

pub fields_word :
    (c : ℕ) (w s : Bytes) → IsWord c w → fields ((c ∷ w) ++ 32 ∷ s) ≡ (c ∷ w) ∷ fields s
unfolding fields
fields_word c w s h = fields_from_word (c ∷ w) [] s h

ℕ-cases : (n : ℕ) → (n ≡ 0) ⊎ ((m : ℕ) × (n ≡ suc m))
ℕ-cases zero = inl refl
ℕ-cases (suc m) = inr (m, refl)

-- A scan that has begun a word finds one.
fields_from_some :
    (k c : ℕ) (acc s : Bytes)
    → (w : Bytes) × (ws : List Bytes) × (fields_from k (c ∷ acc) s ≡ w ∷ ws)
unfolding fields_from
fields_from_some k c acc [] = (c ∷ acc, [], refl)
fields_from_some (suc k) c acc (d ∷ s) = fields_from_some k c acc s
fields_from_some zero c acc (d ∷ s) = elim (ℕ-cases (space_width (d ∷ s))) [
  | inl none_here ↦ rw (none_here, fields_from) (fields_from_some 0 c (acc ++ d ∷ []) s)
  | inr (m, e) ↦ (c ∷ acc, fields_from m [] s, rw (e, fields_from) refl)
]

pub fields_some :
    (c : ℕ) (s : Bytes) → IsVisible c → (w : Bytes) × (ws : List Bytes) × (fields (c ∷ s) ≡ w ∷ ws)
unfolding fields fields_from
fields_some c s h = rw (space_width_visible c s h, fields_from, fields) (fields_from_some 0 c [] s)

-- A separator that no byte of the part in front is.
pub cut_before :
    (sep : ℕ) (w s : Bytes) → All (λ c. c ≢ sep) w → cut sep (w ++ sep ∷ s) ≡ (w, some s)
unfolding cut
cut_before sep [] s h = ground (arith, ==_self sep)
cut_before sep (c ∷ w) s h = ground (arith, cut_before sep w s h.1, ==→eq c sep)

pub visible_lacks : (w : Bytes) → All IsVisible w → All (λ c. c ≢ 32) w
visible_lacks [] h = tt
visible_lacks (c ∷ w) h = (ground arith, visible_lacks w h.1)

skip_blanks_visible : (c : ℕ) (s : Bytes) → IsVisible c → skip_blanks (c ∷ s) ≡ c ∷ s
unfolding skip_blanks
skip_blanks_visible c s h = ground arith

drop_tokens_word :
    (n a b : ℕ) (as' s : Bytes)
    → IsWord a as'
    → IsVisible b
    → drop_tokens (suc n) ((a ∷ as') ++ 32 ∷ (b ∷ s)) ≡ drop_tokens n (b ∷ s)
unfolding drop_tokens
drop_tokens_word n a b as' s h hb =
    rw (cut_before 32 (a ∷ as') (b ∷ s) (visible_lacks (a ∷ as') h), drop_tokens)
      (rw (skip_blanks_visible b s hb) refl)

-- Behind two words, whatever follows is kept as it is.
pub rest_after_tokens_words :
    (a b c : ℕ) (as' bs s : Bytes)
    → IsWord a as'
    → IsWord b bs
    → IsVisible c
    → rest_after_tokens ((a ∷ as') ++ 32 ∷ ((b ∷ bs) ++ 32 ∷ (c ∷ s))) 2 ≡ c ∷ s
unfolding rest_after_tokens drop_tokens
rest_after_tokens_words a b c as' bs s ha hb hc =
    rw (skip_blanks_visible a (as' ++ 32 ∷ ((b ∷ bs) ++ 32 ∷ (c ∷ s))) ha.0)
      (drop_tokens_word 1 a b as' (bs ++ 32 ∷ (c ∷ s)) ha hb.0 ∙ drop_tokens_word 0 b c bs s hb hc)
