-- ===== src/Server/Conn.antt =====
-- nteedb-server/server.go: `handleConn`, the loop over the commands of one connection. The writes of
-- its answers do not fail here.
use ntee_db.Base.{
  ℕ, zero, suc, ◌+◌, true, false, Option, none, some, List, [], ◌∷◌, ◌++◌, if◌then◌else◌,
}
use ntee_db.Base.Int.{pos_part}
use ntee_db.Bytes.{Bytes}
use ntee_db.Db.{Env}
use ntee_db.Server.Proto.{
  ReadError, line_too_long, Got, got, lost, buffer_size, read_line, Failure, Envelope,
}
use ntee_db.Server.Accounts.{Role, required}
use ntee_db.Server.Settings.{Floats}
use ntee_db.Server.State.{Std, Moment, Outcome, answer, quit, fatal, Server, Conn}
use ntee_db.Server.Dispatch.{dispatch}

abbrev pub protocol_error : ReadError → Envelope
protocol_error e = Envelope.fail (Failure.protocol e)

-- What is reported when no line is read.
abbrev pub last_words : ReadError → List Envelope
last_words line_too_long = protocol_error line_too_long ∷ []
last_words _ = []

module _ (env : Env) (floats : Floats) (std : Std) where
  -- The state in front of the loop. `roleUser` is the zero value.
  unfoldable pub open_conn : Server env floats → Bytes → ReadError → Conn env floats
  open_conn s input ending = record {
    server = s;
    session =
        if required s.auth
        then record { authed = false; role = Role.user }
        else record { authed = true; role = Role.admin };
    reader = record { rest = input; ending = ending; size = buffer_size (pos_part s.cfg.max_line) };
  }

  -- The answers of one turn of the loop, and whether there is another.
  pub data Turn : Type 0 where
    next : List Envelope → Conn env floats → Turn
    stop : List Envelope → Conn env floats → Turn

  abbrev pub after : Outcome × Conn env floats → Turn
  after (answer e, c) = next (e ∷ []) c
  after (quit e, c) = stop (e ∷ []) c
  after (fatal e, c) = stop (protocol_error e ∷ []) c

  abbrev pub count_command : Conn env floats → Conn env floats
  count_command c = record c { server = record c.server { commands = c.server.commands + 1 } }

  -- An empty line is skipped.
  abbrev pub on_line : Moment → Got Bytes → Conn env floats → Turn
  on_line m (lost e) c = stop (last_words e) c
  on_line m (got []) c = next [] c
  on_line m (got (b ∷ bs)) c = after (dispatch env floats std m (b ∷ bs) (count_command c))

  unfoldable pub turn : Moment → Conn env floats → Turn
  turn m c = let (line, r) = read_line c.reader in on_line m line (record c { reader = r })

  abbrev pub in_front :
      List Envelope
      → Option (List Envelope × Conn env floats)
      → Option (List Envelope × Conn env floats)
  in_front out none = none
  in_front out (some (more, c)) = some (out ++ more, c)

  -- The loop on fuel, with the moments of its commands: the answers, and the state at its end.
  unfoldable pub serve :
      (ℕ → Moment) → ℕ → ℕ → Conn env floats → Option (List Envelope × Conn env floats)
  serve moments i zero c = none
  serve moments i (suc fuel) c = elim (turn (moments i) c) [
    | stop out c' ↦ some (out, c')
    | next out c' ↦ in_front out (serve moments (i + 1) fuel c')
  ]
