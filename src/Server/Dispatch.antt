-- ===== src/Server/Dispatch.antt =====
-- nteedb-server/handlers.go: `dispatch`, which runs the command of a line.
use ntee_db.Base.{true, false, Option, none, some, List, [], ◌∷◌, map, if◌then◌else◌}
use ntee_db.Bytes.{Bytes, bytes_eq}
use ntee_db.Db.{Env}
use ntee_db.Server.Text.{codes}
use ntee_db.Server.Proto.{
  Envelope, truth, pong, handshake, Checked, fine, refused, auth_required, unknown_command,
  split_command,
}
use ntee_db.Server.Accounts.{Mode, open_mode, password_mode, file_mode, Role, check}
use ntee_db.Server.Settings.{Floats}
use ntee_db.Server.State.{Std, Moment, Handler, quit, answer, say}
use ntee_db.Server.Reads
use ntee_db.Server.Writes

-- The cases of the two switches.
pub data Command : Type 0 where
  quit_cmd hello auth : Command
  ping get getm has scan ix ixh ixp ixr ixrec : Command
  put putex putx incr decr topup take del rml rmg : Command
  stats dropped prospective compact reindex relieve : Command

abbrev commands : List (Bytes × Command)
commands =
    (codes "quit", quit_cmd)
    ∷ (codes "hello", hello)
    ∷ (codes "auth", auth)
    ∷ (codes "ping", ping)
    ∷ (codes "get", get)
    ∷ (codes "getm", getm)
    ∷ (codes "has", has)
    ∷ (codes "scan", scan)
    ∷ (codes "ix", ix)
    ∷ (codes "ixh", ixh)
    ∷ (codes "ixp", ixp)
    ∷ (codes "ixr", ixr)
    ∷ (codes "ixrec", ixrec)
    ∷ (codes "put", put)
    ∷ (codes "putex", putex)
    ∷ (codes "putx", putx)
    ∷ (codes "incr", incr)
    ∷ (codes "decr", decr)
    ∷ (codes "topup", topup)
    ∷ (codes "take", take)
    ∷ (codes "del", del)
    ∷ (codes "rml", rml)
    ∷ (codes "rmg", rmg)
    ∷ (codes "stats", stats)
    ∷ (codes "dropped", dropped)
    ∷ (codes "prospective", prospective)
    ∷ (codes "compact", compact)
    ∷ (codes "reindex", reindex)
    ∷ (codes "relieve", relieve)
    ∷ []

unfoldable pub find_command : Bytes → List (Bytes × Command) → Option Command
find_command cmd [] = none
find_command cmd ((name, c) ∷ rest) = if bytes_eq cmd name then some c else find_command cmd rest

unfoldable pub command_of : Bytes → Option Command
unfolding find_command
command_of cmd = find_command cmd commands

abbrev mode_name : Mode → Bytes
mode_name open_mode = codes "none"
mode_name password_mode = codes "password"
mode_name file_mode = codes "file"

module _ (env : Env) (floats : Floats) (std : Std) (moment : Moment) where
  -- The store's indexes are shown to a session that is logged in.
  abbrev pub greet : Handler env floats
  greet c =
      let indexes = map (λ ix. (ix.name, ix.kind)) c.server.schema in
      say env floats
        (Envelope.ok (
          handshake (mode_name c.server.auth.mode)
            (if c.session.authed then some indexes else none)))
        c

  abbrev pub log_in : Checked Role → Handler env floats
  log_in (refused e) c = say env floats (Envelope.fail e) c
  log_in (fine role) c = (
    answer (Envelope.ok (truth true)),
    record c { session = record { authed = true; role = role } },
  )

  -- The second switch.
  unfoldable pub run_command : Command → Bytes → List Bytes → Bytes → Handler env floats
  run_command ping cmd args line = say env floats (Envelope.ok pong)
  run_command get cmd args line = Reads.get env floats std moment cmd args
  run_command getm cmd args line = Reads.getm env floats std moment cmd args
  run_command has cmd args line = Reads.has env floats std moment cmd args
  run_command scan cmd args line = Reads.scan env floats std moment cmd args
  run_command ix cmd args line = Reads.ix env floats std moment cmd args
  run_command ixh cmd args line = Reads.ixh env floats std moment cmd args
  run_command ixp cmd args line = Reads.ixp env floats std moment cmd args
  run_command ixr cmd args line = Reads.ixr env floats std moment cmd args
  run_command ixrec cmd args line = Reads.ixrec env floats std moment cmd args
  run_command put cmd args line = Writes.put env floats std moment cmd args line
  run_command putex cmd args line = Writes.putex env floats std moment cmd args
  run_command putx cmd args line = Writes.putx env floats std moment cmd args
  run_command incr cmd args line = Writes.incr env floats std moment false cmd args
  run_command decr cmd args line = Writes.incr env floats std moment true cmd args
  run_command topup cmd args line = Writes.topup env floats std moment cmd args
  run_command take cmd args line = Writes.take_from env floats std moment cmd args
  run_command del cmd args line = Writes.del env floats std moment cmd args
  run_command rml cmd args line = Writes.remove_by env floats std moment false cmd args
  run_command rmg cmd args line = Writes.remove_by env floats std moment true cmd args
  run_command stats cmd args line = Reads.stats env floats std moment
  run_command dropped cmd args line = Reads.dropped env floats std moment
  run_command prospective cmd args line = Reads.prospective env floats std moment
  run_command compact cmd args line = Writes.compact env floats std moment cmd
  run_command reindex cmd args line = Writes.reindex env floats std moment cmd
  run_command relieve cmd args line = Writes.relieve env floats std moment cmd
  run_command _ cmd args line = say env floats (Envelope.fail (unknown_command cmd))

  abbrev known : Option Command → Bytes → List Bytes → Bytes → Handler env floats
  known none cmd args line = say env floats (Envelope.fail (unknown_command cmd))
  known (some command) cmd args line = run_command command cmd args line

  -- `requireAuth`
  abbrev pub authed_only : Handler env floats → Handler env floats
  authed_only h c = if c.session.authed then h c else say env floats (Envelope.fail auth_required) c

  -- The first switch, and what follows it.
  unfoldable pub run_line : Option Command → Bytes → List Bytes → Bytes → Handler env floats
  run_line (some quit_cmd) cmd args line c = (quit (Envelope.ok (truth true)), c)
  run_line (some hello) cmd args line c = greet c
  run_line (some auth) cmd args line c = log_in (check c.server.auth args) c
  run_line command cmd args line c = authed_only (known command cmd args line) c

  unfoldable pub dispatch : Bytes → Handler env floats
  unfolding command_of run_line
  dispatch line = let (cmd, args) = split_command line in run_line (command_of cmd) cmd args line
