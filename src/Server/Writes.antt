-- ===== src/Server/Writes.antt =====
-- nteedb-server/handlers.go: the commands that write, and those of an admin.
use ntee_db.Base.{Option, ◌+◌, Bool, true, false, none, some, List, [], ◌∷◌, if◌then◌else◌}
use ntee_db.Base.Int.{ℤ, pos, sub64, min_int64, eqb_ℤ}
use ntee_db.Bytes.{Bytes}
use ntee_db.Result.{Result}
use ntee_db.Db.{Env, Db}
use ntee_db.Db.Write
use ntee_db.Db.Counters
use ntee_db.Db.Ranges
use ntee_db.Db.Compact
use ntee_db.Server.Text.{parse_int}
use ntee_db.Server.Proto.{
  Failure, truth, integer, Envelope, usage, bad_delta, bad_amount, bad_bound, decr_range,
  not_an_object, needs_admin, Checked, fine, refused, ◌>>=◌, rest_after_tokens,
}
use ntee_db.Server.Accounts.{Role}
use ntee_db.Server.Settings.{Floats}
use ntee_db.Server.State.{
  Std, Moment, Handler, Conn, answer, say, on_db, given, with_block, parse_ttl_millis, optional_ttl,
  int_or,
}

abbrev pub done : {A : Type 0} → A → Envelope
done _ = Envelope.ok (truth true)

abbrev pub say_integer : ℤ → Envelope
say_integer v = Envelope.ok (integer v)

-- `delta`, from the tokens behind the key, and what `decr` makes of it.
abbrev delta_of : Bytes → List Bytes → Checked ℤ
delta_of cmd [] = fine (pos 1)
delta_of cmd (tok ∷ rest) = int_or (bad_delta cmd tok) tok

abbrev signed_delta : Bool → ℤ → Checked ℤ
signed_delta false delta = fine delta
signed_delta true delta =
    if eqb_ℤ delta min_int64 then refused decr_range else fine (sub64 (pos 0) delta)

unfoldable pub step_args : Bool → Bytes → List Bytes → Checked (ℤ × List ℤ)
step_args down cmd (tok ∷ ttl ∷ []) = do
  delta ← delta_of cmd (tok ∷ [])
  ttls ← optional_ttl cmd (ttl ∷ [])
  delta' ← signed_delta down delta
  fine (delta', ttls)
step_args down cmd rest = do
  delta ← delta_of cmd rest
  delta' ← signed_delta down delta
  fine (delta', [])

-- The amount, the bound and the TTL of `topup` and `take`.
unfoldable pub bounded_args : Bytes → Bytes → Bytes → List Bytes → Checked (ℤ × ℤ × List ℤ)
bounded_args cmd amount bound rest = do
  a ← int_or (bad_amount cmd amount) amount
  b ← int_or (bad_bound cmd bound) bound
  ttls ← optional_ttl cmd rest
  fine (a, b, ttls)

module _ (env : Env) (floats : Floats) (std : Std) (moment : Moment) where
  abbrev store : Bytes → List ℤ → Bytes → Handler env floats
  store key ttl value = on_db env floats (Write.put env moment.now key value ttl) done

  -- The inline form takes the rest of the line.
  unfoldable pub put : Bytes → List Bytes → Bytes → Handler env floats
  put cmd [] line = say env floats (Envelope.fail (usage cmd))
  put cmd (key ∷ []) line = say env floats (Envelope.fail (usage cmd))
  put cmd (key ∷ tok ∷ []) line = elim (parse_int tok) [
    | some n ↦ with_block env floats n (store key [])
    | none ↦ store key [] (rest_after_tokens line 2)
  ]
  put cmd (key ∷ tok ∷ more ∷ rest) line = store key [] (rest_after_tokens line 2)

  -- A TTL that is refused is reported behind the block.
  unfoldable pub putex : Bytes → List Bytes → Handler env floats
  putex cmd (key ∷ ttl ∷ size ∷ []) = elim (parse_int size) [
    | none ↦ say env floats (Envelope.fail (usage cmd))
    | some n ↦
        with_block env floats n
          (λ value. given env floats (parse_ttl_millis cmd ttl) (λ d. store key (d ∷ []) value))
  ]
  putex cmd _ = say env floats (Envelope.fail (usage cmd))

  abbrev pub store_indexed : Bytes → Bytes → Bytes → List ℤ → Handler env floats
  store_indexed key raw value ttl = elim (std.parse_index_values raw) [
    | none ↦ say env floats (Envelope.fail not_an_object)
    | some ix ↦ on_db env floats (Write.put_indexed env moment.now key value ix ttl) done
  ]

  -- Both blocks are read before the TTL and the index values are looked at.
  unfoldable pub framed : Bytes → ℤ → ℤ → Checked (List ℤ) → Handler env floats
  framed key ix_size size ttl = with_block env floats ix_size (λ raw.
      with_block env floats size (λ value. given env floats ttl (store_indexed key raw value)))

  -- The two sizes, where they are numbers.
  unfoldable pub sized : Bytes → Bytes → Option ℤ → Option ℤ → Checked (List ℤ) → Handler env floats
  unfolding framed
  sized cmd key (some n) (some m) ttl = framed key n m ttl
  sized cmd key _ _ ttl = say env floats (Envelope.fail (usage cmd))

  unfoldable pub putx : Bytes → List Bytes → Handler env floats
  unfolding sized
  putx cmd (key ∷ ix_size ∷ size ∷ []) =
      sized cmd key (parse_int ix_size) (parse_int size) (fine [])
  putx cmd (key ∷ ix_size ∷ size ∷ ttl ∷ []) =
      sized cmd key (parse_int ix_size) (parse_int size) (optional_ttl cmd (ttl ∷ []))
  putx cmd _ = say env floats (Envelope.fail (usage cmd))

  abbrev step_by : Bool → Bytes → Bytes → List Bytes → Handler env floats
  step_by down cmd key rest =
      given env floats (step_args down cmd rest)
        (λ a. on_db env floats (Counters.incr env moment.now key a.0 a.1) say_integer)

  -- incr, and decr where the flag is set
  unfoldable pub incr : Bool → Bytes → List Bytes → Handler env floats
  incr down cmd (key ∷ []) = step_by down cmd key []
  incr down cmd (key ∷ tok ∷ []) = step_by down cmd key (tok ∷ [])
  incr down cmd (key ∷ tok ∷ ttl ∷ []) = step_by down cmd key (tok ∷ ttl ∷ [])
  incr down cmd _ = say env floats (Envelope.fail (usage cmd))

  abbrev bounded :
      Bytes → List Bytes → (Bytes → ℤ → ℤ → List ℤ → Handler env floats) → Handler env floats
  bounded cmd (key ∷ amount ∷ bound ∷ []) k =
      given env floats (bounded_args cmd amount bound []) (λ a. k key a.0 a.1 a.2)
  bounded cmd (key ∷ amount ∷ bound ∷ ttl ∷ []) k =
      given env floats (bounded_args cmd amount bound (ttl ∷ [])) (λ a. k key a.0 a.1 a.2)
  bounded cmd _ k = say env floats (Envelope.fail (usage cmd))

  unfoldable pub topup : Bytes → List Bytes → Handler env floats
  topup cmd args =
      bounded cmd args (λ key a max ttl.
        on_db env floats (Counters.topup env moment.now key a max ttl) say_integer)

  unfoldable pub take_from : Bytes → List Bytes → Handler env floats
  take_from cmd args = bounded cmd args (λ key a left ttl.
      on_db env floats (Counters.take_from env moment.now key a left ttl)
        (λ applied. Envelope.ok (truth applied)))

  unfoldable pub del : Bytes → List Bytes → Handler env floats
  del cmd (key ∷ []) = on_db env floats (Write.delete env key) done
  del cmd _ = say env floats (Envelope.fail (usage cmd))

  -- rml, and rmg where the flag is set
  unfoldable pub remove_by : Bool → Bytes → List Bytes → Handler env floats
  remove_by greater cmd (cutoff ∷ []) =
      on_db env floats
        (if greater
          then Ranges.remove_by_pk_greater env cutoff
          else Ranges.remove_by_pk_less env cutoff)
        (λ n. say_integer (pos n))
  remove_by greater cmd _ = say env floats (Envelope.fail (usage cmd))

  -- `requireAdmin`, behind `requireAuth`.
  abbrev pub admin_only : Bytes → Handler env floats → Handler env floats
  admin_only cmd h c = elim c.session.role [
    | Role.user ↦ say env floats (Envelope.fail (needs_admin cmd)) c
    | Role.admin ↦ h c
  ]

  unfoldable pub compact : Bytes → Handler env floats
  compact cmd = admin_only cmd (on_db env floats (Compact.compact env moment.swap moment.now) done)

  unfoldable pub reindex : Bytes → Handler env floats
  reindex cmd = admin_only cmd (on_db env floats (Compact.reindex env moment.swap moment.now) done)

  abbrev count_relieve : Conn env floats → Conn env floats
  count_relieve c = record c {
    server = record c.server { blob_compacts = c.server.blob_compacts + 1 };
  }

  abbrev relieved : Result (Unit {0}) × Db env → Handler env floats
  relieved (Result.ok _, db) c = (
    answer (Envelope.ok (truth true)),
    count_relieve (record c { server = record c.server { db = db } }),
  )
  relieved (Result.err e, db) c =
      (answer (Envelope.fail (Failure.core e)), record c { server = record c.server { db = db } })

  unfoldable pub relieve : Bytes → Handler env floats
  relieve cmd = admin_only cmd (λ c.
      relieved (Compact.blobs_relieve env moment.swap moment.now moment.blob_file c.server.db) c)
