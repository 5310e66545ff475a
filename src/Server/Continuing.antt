-- ===== src/Server/Continuing.antt =====
-- nteedb-server/handlers.go: what every command behind the login leaves alone, whatever the store
-- returns.
use ntee_db.Base.{
  ℕ, suc, Option, ◌≡◌, ◌∙◌, ◌≤◌, ◌<◌, ◌||◌, leb, Bool-cases, inl, inr, none, some, List, [], ◌∷◌,
  length, take, drop, length-drop, arith,
}
use ntee_db.Base.Int.{ℤ, pos, pos_part, ltb_ℤ}
use ntee_db.Bytes.{Bytes}
use ntee_db.Db.{Env}
use ntee_db.Server.Text.{cut}
use ntee_db.Server.Proto.{Reader, got, read_line, read_data, block_end}
use ntee_db.Server.Settings.{Floats}
use ntee_db.Server.State.{Std, Moment, Conn, with_block}
use ntee_db.Server.Reads
use ntee_db.Server.Writes
use ntee_db.Server.Dispatch.{Command, run_command}

-- What stands behind a separator, with the separator.
abbrev taken : Option Bytes → ℕ
taken none = 0
taken (some rest) = suc (length rest)

taken-cut : (sep : ℕ) (s : Bytes) → taken (cut sep s).1 ≤ length s
unfolding cut
taken-cut sep [] = omega arith
taken-cut sep (c ∷ cs) = ground (arith, taken-cut sep cs)

length-block_end :
    (buf : Bytes) (r : Reader) (s : Bytes) → length (block_end buf r s).1.rest ≤ length s
length-block_end buf r [] = omega arith
length-block_end buf r (c ∷ []) = ground arith
length-block_end buf r (c ∷ d ∷ ds) = ground arith

-- A data block takes its bytes from the input.
length-read_data : (n max : ℤ) (r : Reader) → length (read_data n max r).1.rest ≤ length r.rest
unfolding read_data
length-read_data n max r = elim (Bool-cases (ltb_ℤ n (pos 0) || ltb_ℤ max n)) [
  | inl bad ↦ rw bad (omega arith)
  | inr fits ↦ rw fits (elim (Bool-cases (leb (pos_part n) (length r.rest))) [
    | inl enough ↦ rw enough (
        omega (
          arith,
          length-block_end (take (pos_part n) r.rest) r (drop (pos_part n) r.rest),
          length-drop (pos_part n) r.rest,
        ))
    | inr short ↦ rw short (omega arith)
  ])
]

-- A line takes its bytes, and its newline, from the input.
pub length-read_line :
    (r : Reader) (line : Bytes)
    → (read_line r).0 ≡ got line
    → length (read_line r).1.rest < length r.rest
unfolding read_line
length-read_line r line h = ground (arith, taken-cut 10 r.rest)

module _ (env : Env) (floats : Floats) where
  -- The session, the credentials and the settings are the same, and the input is no longer than before.
  pub record Continues (c c' : Conn env floats) : Type 0 where
    pub cfg : c'.server.cfg ≡ c.server.cfg
    pub auth : c'.server.auth ≡ c.server.auth
    pub schema : c'.server.schema ≡ c.server.schema
    pub session : c'.session ≡ c.session
    pub input : length c'.reader.rest ≤ length c.reader.rest

  pub Continues-trans : {a b c : Conn env floats} → Continues a b → Continues b c → Continues a c
  Continues-trans h k = record {
    cfg = k.cfg ∙ h.cfg;
    auth = k.auth ∙ h.auth;
    schema = k.schema ∙ h.schema;
    session = k.session ∙ h.session;
    input = omega (arith, h.input, k.input);
  }

  module _ (std : Std) (moment : Moment) (cmd : Bytes) (args : List Bytes) (line : Bytes) where
    put-Continues :
        (c : Conn env floats) → Continues c (Writes.put env floats std moment cmd args line c).1
    unfolding Writes.put with_block
    put-Continues c = grind (arith, length-read_data)

    putex-Continues :
        (c : Conn env floats) → Continues c (Writes.putex env floats std moment cmd args c).1
    unfolding Writes.putex with_block
    putex-Continues c = grind (arith, length-read_data)

    putx-Continues :
        (c : Conn env floats) → Continues c (Writes.putx env floats std moment cmd args c).1
    unfolding Writes.putx with_block
    putx-Continues c = grind (arith, length-read_data)

    pub run_command-Continues :
        (command : Command) (c : Conn env floats)
        → Continues c (run_command env floats std moment command cmd args line c).1
    unfolding run_command Reads.get Reads.getm Reads.has Reads.scan Reads.ix Reads.ixh Reads.ixp
        Reads.ixr Reads.ixrec Reads.stats Reads.dropped Reads.prospective Writes.incr Writes.topup
        Writes.take_from Writes.del Writes.remove_by Writes.compact Writes.reindex Writes.relieve
    run_command-Continues Command.put c = put-Continues c
    run_command-Continues Command.putex c = putex-Continues c
    run_command-Continues Command.putx c = putx-Continues c
    run_command-Continues _ c = ground arith
