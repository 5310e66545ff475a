-- ===== src/Capi/Handles.antt =====
-- nteedb-js/capi: the handles that are live.
use ntee_db.Base.{
  ℕ, suc, ◌<◌, ◌≤◌, ◌^◌, ◌%◌, ◌≡◌, refl, ap, sym, ◌∙◌, none, some, List, [], ◌∷◌, arith,
  Option-cases, inl, inr,
}
use mathlib.Core.Path.{subst}
use ntee_db.Btree.{All}
use ntee_db.Result.{Result, ok}
use ntee_db.Record.{AnyValue}
use ntee_db.Bytes.{Bytes}
use ntee_db.Server.State.{Moment}
use ntee_db.Db.{Env, Db}
use ntee_db.Capi.Registry.{Registry, store, load, release, reg_put, reg_get, reg_delete}
use ntee_db.Capi.Values.{Decoders}
use ntee_db.Capi.Exports.{Call, run_call, call, nteedb_open, nteedb_close}

module _ {A : Type 0} where
  -- The handles of these entries are at most `n`, and none of them is 0.
  abbrev UpTo : ℕ → List (ℕ × A) → Type 0
  UpTo n stores = All (λ e. (0 < e.0) × (e.0 ≤ n)) stores

  UpTo-suc : (n : ℕ) (stores : List (ℕ × A)) → UpTo n stores → UpTo (suc n) stores
  UpTo-suc n [] u = tt
  UpTo-suc n (e ∷ rest) u = ((u.0.0, omega (arith, u.0.1)), UpTo-suc n rest u.1)

  UpTo-store :
      (n h : ℕ) (a : A) (stores : List (ℕ × A))
      → 0 < h
      → h ≤ n
      → UpTo n stores
      → UpTo n (store h a stores)
  unfolding store
  UpTo-store n h a [] p l u = ((p, l), tt)
  UpTo-store n h a (e ∷ rest) p l u = ground (arith, UpTo-store n h a rest p l u.1)

  UpTo-release : (n h : ℕ) (stores : List (ℕ × A)) → UpTo n stores → UpTo n (release h stores)
  unfolding release
  UpTo-release n h [] u = tt
  UpTo-release n h (e ∷ rest) u = ground (arith, UpTo-release n h rest u.1)

  load-UpTo : (n h : ℕ) (stores : List (ℕ × A)) → UpTo n stores → n < h → load h stores ≡ none
  unfolding load
  load-UpTo n h [] u l = refl
  load-UpTo n h (e ∷ rest) u l = ground (arith, load-UpTo n h rest u.1 l)

  load_bounds :
      (n h : ℕ) (a : A) (stores : List (ℕ × A))
      → UpTo n stores
      → load h stores ≡ some a
      → (0 < h) × (h ≤ n)
  unfolding load
  load_bounds n h a [] u l = absurd (cc)
  load_bounds n h a (e ∷ rest) u l = ground (arith, load_bounds n h a rest u.1)

  load-store : (h : ℕ) (a : A) (stores : List (ℕ × A)) → load h (store h a stores) ≡ some a
  unfolding load store
  load-store h a [] = ground arith
  load-store h a (e ∷ rest) = ground (arith, load-store h a rest)

module _ (env : Env) where
  -- The registries that calls of the exports lead to, with the number of opens that went through.
  pub data Reach : ℕ → Registry (Db env) → Type 0 where
    start : Reach 0 (record { next = 0; stores = [] })
    opens :
        {n : ℕ} {reg : Registry (Db env)} (r : Result (Db env)) (db : Db env)
        → r ≡ ok db
        → Reach n reg
        → Reach (suc n) (nteedb_open env r reg).1
    calls :
        {n : ℕ} {reg : Registry (Db env)} (print : AnyValue → Bytes) (dec : Decoders) (m : Moment)
        (h : ℕ) (c : Call)
        → Reach n reg
        → Reach n (call env print dec m h c reg).1
    closes :
        {n : ℕ} {reg : Registry (Db env)} (h : ℕ) → Reach n reg → Reach n (nteedb_close env h reg).1

  -- The counter has counted the opens, and the live handles are those that it has given.
  record Counted (n : ℕ) (reg : Registry (Db env)) : Type 0 where
    counts : reg.next ≡ n
    given : UpTo n reg.stores

  small_mod : (n : ℕ) → suc n < 2 ^ 32 → suc n % 2 ^ 32 ≡ suc n
  small_mod n h = omega arith

  Counted-put :
      (n : ℕ) (db : Db env) (reg : Registry (Db env))
      → suc n < 2 ^ 32
      → Counted n reg
      → Counted (suc n) (reg_put db reg).1
  unfolding reg_put
  Counted-put n db reg small c =
      let h = ap (λ k. suc k % 2 ^ 32) c.counts ∙ small_mod n small in
      record {
        counts = h;
        given =
            subst (λ k. UpTo (suc n) (store k db reg.stores)) (sym h)
              (UpTo-store (suc n) (suc n) db reg.stores (omega arith) (omega arith)
                (UpTo-suc n reg.stores c.given));
      }

  Counted-call :
      (n : ℕ) (print : AnyValue → Bytes) (dec : Decoders) (m : Moment) (h : ℕ) (c : Call)
      (reg : Registry (Db env))
      → Counted n reg
      → Counted n (call env print dec m h c reg).1
  unfolding call reg_get
  Counted-call n print dec m h c reg g = elim (Option-cases (load h reg.stores)) [
    | inl gone ↦ rw (gone, call) g
    | inr (db, live) ↦
        let (p, l) = load_bounds n h db reg.stores g.given live in
        rw (live, call)
          (record {
            counts = g.counts;
            given = UpTo-store n h (run_call env print dec m c db).1 reg.stores p l g.given;
          })
  ]

  Counted-Reach : {n : ℕ} {reg : Registry (Db env)} → n < 2 ^ 32 → Reach n reg → Counted n reg
  unfolding nteedb_open nteedb_close reg_delete
  Counted-Reach small start = record { counts = refl; given = tt }
  Counted-Reach small (opens {n = n} {reg = reg} r db h reach) =
      subst (λ r. Counted (suc n) (nteedb_open env r reg).1) (sym h)
        (Counted-put n db reg small (Counted-Reach (omega (arith, small)) reach))
  Counted-Reach small (calls {n = n} {reg = reg} print dec m h c reach) =
      Counted-call n print dec m h c reg (Counted-Reach small reach)
  Counted-Reach small (closes {n = n} {reg = reg} h reach) =
      let c = Counted-Reach small reach in
      record { counts = c.counts; given = UpTo-release n h reg.stores c.given }

  -- As long as fewer than 2 ^ 32 opens go through, and whatever calls and closes come between, an
  -- open gives a handle that is not 0 and that no live store has, and the handle then leads to the
  -- store that was opened.
  pub Reach-reg_put :
      (n : ℕ) (reg : Registry (Db env)) (db : Db env)
      → suc n < 2 ^ 32
      → Reach n reg
      → (¬ (reg_put db reg).0 ≡ 0)
        × (reg_get (reg_put db reg).0 reg ≡ none)
        × (reg_get (reg_put db reg).0 (reg_put db reg).1 ≡ some db)
  unfolding reg_put reg_get
  Reach-reg_put n reg db small reach =
      let c = Counted-Reach (omega (arith, small)) reach in
      let h = ap (λ k. suc k % 2 ^ 32) c.counts ∙ small_mod n small in
      (
        (λ z. omega (arith, z, h)),
        load-UpTo n _ reg.stores c.given (omega (arith, h)),
        load-store _ db reg.stores,
      )
