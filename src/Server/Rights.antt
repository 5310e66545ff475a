-- ===== src/Server/Rights.antt =====
-- nteedb-server/handlers.go: what a session may do before it has logged in, and what its role decides.
use ntee_db.Base.{◌≡◌, refl, Bool, true, false, Option, none, some, List, [], ◌∷◌, arith}
use ntee_db.Base.Int.{ℤ}
use ntee_db.Bytes.{Bytes}
use ntee_db.Db.{Env, Db}
use ntee_db.Server.Proto.{Envelope, split_command, needs_admin, Checked, fine}
use ntee_db.Server.Accounts.{Role}
use ntee_db.Server.Settings.{Floats, SchemaIndex}
use ntee_db.Server.Text.{parse_int}
use ntee_db.Server.State.{optional_ttl, Std, Moment, Conn, Outcome, answer, with_block}
use ntee_db.Server.Reads
use ntee_db.Server.Writes
use ntee_db.Server.Dispatch.{Command, command_of, run_command, run_line, dispatch}

module _ (env : Env) (floats : Floats) (std : Std) (moment : Moment) where
  -- The same connection before another store and another schema.
  abbrev pub before_store : Db env → List SchemaIndex → Conn env floats → Conn env floats
  before_store db schema c = record c { server = record c.server { db = db; schema = schema } }

  run_line-Blind :
      (command : _) (cmd : Bytes) (args : List Bytes) (line : Bytes) (c : Conn env floats)
      (db : Db env) (schema : List SchemaIndex)
      → c.session.authed ≡ false
      → ((run_line env floats std moment command cmd args line (before_store db schema c)).0
          ≡ (run_line env floats std moment command cmd args line c).0)
        × ((run_line env floats std moment command cmd args line c).1.server ≡ c.server)
        × ((run_line env floats std moment command cmd args line c).1.reader ≡ c.reader)
  unfolding run_line
  run_line-Blind none cmd args line c db schema h = ground arith
  run_line-Blind (some Command.quit_cmd) cmd args line c db schema h = ground arith
  run_line-Blind (some Command.hello) cmd args line c db schema h = ground arith
  run_line-Blind (some Command.auth) cmd args line c db schema h = ground arith
  run_line-Blind (some _) cmd args line c db schema h = ground arith

  -- Before the login the outcome of a line is the same for every store and every schema, and the
  -- line leaves the server and the input as they are.
  pub dispatch-Blind :
      (line : Bytes) (c : Conn env floats) (db : Db env) (schema : List SchemaIndex)
      → c.session.authed ≡ false
      → ((dispatch env floats std moment line (before_store db schema c)).0
          ≡ (dispatch env floats std moment line c).0)
        × ((dispatch env floats std moment line c).1.server ≡ c.server)
        × ((dispatch env floats std moment line c).1.reader ≡ c.reader)
  unfolding dispatch
  dispatch-Blind line c db schema h =
      run_line-Blind (command_of (split_command line).0) (split_command line).0
        (split_command line).1 line c db schema h

  abbrev pub with_role : Role → Conn env floats → Conn env floats
  with_role role c = record c { session = record { authed = true; role = role } }

  -- The commands of an admin.
  unfoldable pub is_admin_command : Option Command → Bool
  is_admin_command (some Command.compact) = true
  is_admin_command (some Command.reindex) = true
  is_admin_command (some Command.relieve) = true
  is_admin_command _ = false

  -- Two outcomes are the same but for the session.
  abbrev pub Alike : Outcome × Conn env floats → Outcome × Conn env floats → Type 0
  Alike u a = (u.0 ≡ a.0) × (u.1.server ≡ a.1.server) × (u.1.reader ≡ a.1.reader)

  module _ (cmd : Bytes) (args : List Bytes) (line : Bytes) (c : Conn env floats) where
    abbrev run_as : Role → Command → Outcome × Conn env floats
    run_as role command = run_command env floats std moment command cmd args line (with_role role c)

    abbrev pub Refused : Outcome × Conn env floats → Type 0
    Refused o = o ≡ (answer (Envelope.fail (needs_admin cmd)), with_role Role.user c)

    -- The user is refused at a command of an admin, and treated like an admin elsewhere.
    abbrev pub Treated : Bool → Outcome × Conn env floats → Outcome × Conn env floats → Type 0
    Treated true u a = Refused u
    Treated false u a = Alike u a

    put-Alike :
        Alike
          (Writes.put env floats std moment cmd args line (with_role Role.user c))
          (Writes.put env floats std moment cmd args line (with_role Role.admin c))
    unfolding Writes.put with_block
    put-Alike = ground arith

    putex-Alike :
        Alike
          (Writes.putex env floats std moment cmd args (with_role Role.user c))
          (Writes.putex env floats std moment cmd args (with_role Role.admin c))
    unfolding Writes.putex with_block
    putex-Alike = ground arith

    framed-Alike :
        (key : Bytes) (n m : ℤ) (ttl : Checked (List ℤ))
        → Alike
            (Writes.framed env floats std moment key n m ttl (with_role Role.user c))
            (Writes.framed env floats std moment key n m ttl (with_role Role.admin c))
    unfolding Writes.framed with_block
    framed-Alike key n m ttl = ground arith

    sized-Alike :
        (key : Bytes) (n m : Option ℤ) (ttl : Checked (List ℤ))
        → Alike
            (Writes.sized env floats std moment cmd key n m ttl (with_role Role.user c))
            (Writes.sized env floats std moment cmd key n m ttl (with_role Role.admin c))
    unfolding Writes.sized
    sized-Alike key (some n) (some m) ttl = framed-Alike key n m ttl
    sized-Alike key (some n) none ttl = (refl, refl, refl)
    sized-Alike key none m ttl = (refl, refl, refl)

    putx-Alike :
        (args : List Bytes)
        → Alike
            (Writes.putx env floats std moment cmd args (with_role Role.user c))
            (Writes.putx env floats std moment cmd args (with_role Role.admin c))
    unfolding Writes.putx
    putx-Alike (key ∷ a ∷ b ∷ []) = sized-Alike key (parse_int a) (parse_int b) (fine [])
    putx-Alike (key ∷ a ∷ b ∷ t ∷ []) =
        sized-Alike key (parse_int a) (parse_int b) (optional_ttl cmd (t ∷ []))
    putx-Alike _ = (refl, refl, refl)

    run_command-Treated :
        (command : Command)
        → Treated
            (is_admin_command (some command))
            (run_as Role.user command)
            (run_as Role.admin command)
    unfolding is_admin_command run_command Reads.get Reads.getm Reads.has Reads.scan Reads.ix
        Reads.ixh Reads.ixp Reads.ixr Reads.ixrec Reads.stats Reads.dropped Reads.prospective
        Writes.incr Writes.topup Writes.take_from Writes.del Writes.remove_by Writes.compact
        Writes.reindex Writes.relieve
    run_command-Treated Command.put = put-Alike
    run_command-Treated Command.putex = putex-Alike
    run_command-Treated Command.putx = putx-Alike args
    run_command-Treated Command.compact = refl
    run_command-Treated Command.reindex = refl
    run_command-Treated Command.relieve = refl
    run_command-Treated _ = ground arith

    abbrev line_as : Role → Option Command → Outcome × Conn env floats
    line_as role command = run_line env floats std moment command cmd args line (with_role role c)

    run_line-Treated :
        (command : Option Command)
        → Treated
            (is_admin_command command)
            (line_as Role.user command)
            (line_as Role.admin command)
    unfolding run_line is_admin_command
    run_line-Treated none = (refl, refl, refl)
    run_line-Treated (some Command.quit_cmd) = (refl, refl, refl)
    run_line-Treated (some Command.hello) = (refl, refl, refl)
    run_line-Treated (some Command.auth) = ground arith
    run_line-Treated (some command) = run_command-Treated command

  -- A user is refused at exactly the commands of an admin: where a line is compact, reindex or
  -- relieve, the answer to a user is the refusal and the connection is unchanged, and every other
  -- line has the same outcome for a user as for an admin, with the same server and input after it.
  pub dispatch-Treated :
      (line : Bytes) (c : Conn env floats)
      → Treated
          (split_command line).0
          (split_command line).1
          line
          c
          (is_admin_command (command_of (split_command line).0))
          (dispatch env floats std moment line (with_role Role.user c))
          (dispatch env floats std moment line (with_role Role.admin c))
  unfolding dispatch
  dispatch-Treated line c =
      run_line-Treated (split_command line).0 (split_command line).1 line c
        (command_of (split_command line).0)
