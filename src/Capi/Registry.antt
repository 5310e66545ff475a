-- ===== src/Capi/Registry.antt =====
-- nteedb-js/capi/registry.go: the stores behind the handles.
use ntee_db.Base.{ℕ, suc, ◌^◌, ◌%◌, Option, none, some, List, [], ◌∷◌, ◌==◌, if◌then◌else◌}

-- `registry.Store` of a map, as a list of its entries.
unfoldable pub store {ℓ} : {A : Type ℓ} → ℕ → A → List (ℕ × A) → List (ℕ × A)
store h a [] = (h, a) ∷ []
store h a ((g, b) ∷ rest) =
    let others = store h a rest in if g == h then (h, a) ∷ rest else (g, b) ∷ others

-- `registry.Load`
unfoldable pub load {ℓ} : {A : Type ℓ} → ℕ → List (ℕ × A) → Option A
load h [] = none
load h ((g, b) ∷ rest) = if g == h then some b else load h rest

-- `registry.LoadAndDelete`, its second effect.
unfoldable pub release {ℓ} : {A : Type ℓ} → ℕ → List (ℕ × A) → List (ℕ × A)
release h [] = []
release h ((g, b) ∷ rest) =
    let others = release h rest in if g == h then others else (g, b) ∷ others

-- `regNext`, a uint32, and `registry`. A handle stands for the store that its pointer leads to.
pub record Registry (A : Type 0) : Type 0 where
  pub next : ℕ
  pub stores : List (ℕ × A)

module _ {A : Type 0} where
  unfoldable pub reg_put : A → Registry A → ℕ × Registry A
  unfolding store
  reg_put db reg =
      let h = suc reg.next % 2 ^ 32 in (h, record { next = h; stores = store h db reg.stores })

  unfoldable pub reg_get : ℕ → Registry A → Option A
  unfolding load
  reg_get h reg = load h reg.stores

  unfoldable pub reg_delete : ℕ → Registry A → Option A × Registry A
  unfolding load release
  reg_delete h reg = (load h reg.stores, record reg { stores = release h reg.stores })

  -- What a method of a store does to the store that its pointer leads to.
  abbrev pub at_pointer : ℕ → A → Registry A → Registry A
  at_pointer h db reg = record reg { stores = store h db reg.stores }
