-- ===== src/Tests/Server.antt =====
-- A server before the store of the other tests, and examples of the theorems on it.
use ntee_db.Base.{ℕ, ◌≡◌, ◌↔◌, ◌⊎◌, refl, true, false, none, some, List, [], ◌∷◌, ◌++◌, ◌==◌, arith}
use ntee_db.Base.Int.{pos, leb_ℤ, wrap64}
use ntee_db.Bytes.{Bytes, bytes_eq, has_prefix}
use ntee_db.Db.Write
use ntee_db.Db.Compact.{swaps}
use ntee_db.Server.Text.{
  codes, fields, parse_int, read_decimal, cut, space_width, fields_from, to_lower, lower_from,
}
use ntee_db.Server.Proto.{
  eof, Envelope, split_command, auth_required, truth, fine, read_line, rest_after_tokens,
  skip_blanks, drop_tokens,
}
use ntee_db.Server.Accounts.{
  Role, FileUser, file_mode, auth_password, check, equal_constant_time, auth_file_store, loaded,
  find_user,
}
use ntee_db.Server.Accounts.Checks.{Accepts, check_iff}
use ntee_db.Server.Accounts.RoundTrip.{file_of, auth_file_store-file_of, IsEntry}
use ntee_db.Server.Settings.{Floats, Config}
use ntee_db.Server.State.{Std, Moment, Server, Conn, on_db, optional_ttl, parse_ttl_millis}
use ntee_db.Server.Writes
use ntee_db.Scanner.{trim_cr}
use ntee_db.Server.Dispatch.{command_of, dispatch, run_line, find_command}
use ntee_db.Server.Conn.{serve, turn, next}
use ntee_db.Server.Rights.{
  before_store, dispatch-Blind, with_role, is_admin_command, Treated, dispatch-Treated,
}
use ntee_db.Server.Sessions.{here, another, IsUntouched, LoggedIn, Reach-LoggedIn}
use ntee_db.Server.Ending.{serve-ne-none}
use ntee_db.Server.Framing.{framed_bytes, stored_with, putx-framed_bytes}
use ntee_db.Server.Inline.{put_line, dispatch-put_line}
use ntee_db.Tests.Store.{env, new_store, one_record}

abbrev floats : Floats
floats = record {
  Float = ℕ;
  half = 1;
  le_zero = λ n. n == 0;
  reaches = λ part ratio whole. leb_ℤ whole part;
}

abbrev std : Std
std = record {
  valid_json = λ value. true;
  parse_float = λ tok. none;
  parse_index_values = λ raw. some [];
}

abbrev moment : Moment
moment = record { now = pos 5; swap = swaps []; blob_file = record { content = []; coming = [] } }

abbrev config : Config floats
config = record {
  max_line = pos 64;
  max_value = pos 64;
  auto_compact = false;
  compact_interval = pos 1;
  main_ratio = 1;
  main_min_bytes = pos 1;
  blobs_relieve = false;
  blob_ratio = 1;
  blob_min_relieve_data_size = pos 1;
}

abbrev server : Server env floats
server = record {
  cfg = config;
  auth = auth_password (codes "pw");
  schema = [];
  db = new_store;
  connections = 1;
  total_conns = 1;
  commands = 0;
  auto_compacts = 0;
  blob_compacts = 0;
}

-- A connection of a client that has not logged in, with its input.
abbrev conn : Bytes → Conn env floats
conn input = record {
  server = server;
  session = record { authed = false; role = Role.user };
  reader = record { rest = input; ending = eof; size = 64 };
}

dispatch-Blind_example :
    ((dispatch env floats std moment
        (codes "get a")
        (before_store env floats std moment one_record [] (conn []))).0
      ≡ (dispatch env floats std moment (codes "get a") (conn [])).0)
    × ((dispatch env floats std moment (codes "get a") (conn [])).1.server ≡ (conn []).server)
    × ((dispatch env floats std moment (codes "get a") (conn [])).1.reader ≡ (conn []).reader)
dispatch-Blind_example =
    dispatch-Blind env floats std moment (codes "get a") (conn []) one_record [] refl

serve-ne-none_example :
    (answers : List Envelope) × (c' : Conn env floats) × (serve env floats std
        (λ i. moment)
        0
        9
        (conn (codes "ping"))
      ≡ some (answers, c'))
serve-ne-none_example =
    serve-ne-none env floats std (λ i. moment) 0 9 (conn (codes "ping")) (omega arith)

check_iff_example :
    (check (auth_password (codes "pw")) (codes "pw" ∷ []) ≡ fine Role.admin)
    ↔ Accepts (auth_password (codes "pw")) (codes "pw" ∷ []) Role.admin
check_iff_example = check_iff (auth_password (codes "pw")) (codes "pw" ∷ []) Role.admin

dispatch-Treated_example :
    Treated env floats std moment
      (split_command (codes "compact")).0
      (split_command (codes "compact")).1
      (codes "compact")
      (conn [])
      (is_admin_command env floats std moment (command_of (split_command (codes "compact")).0))
      (dispatch env floats std moment
        (codes "compact")
        (with_role env floats std moment Role.user (conn [])))
      (dispatch env floats std moment
        (codes "compact")
        (with_role env floats std moment Role.admin (conn [])))
dispatch-Treated_example = dispatch-Treated env floats std moment (codes "compact") (conn [])

-- A client that logs in, and then asks.
abbrev login_conn : Conn env floats
login_conn = conn (codes "ping" ++ 10 ∷ (codes "auth pw" ++ 10 ∷ []))

abbrev after_ping : Conn env floats
after_ping = record login_conn {
  server = record server { commands = 1 };
  reader = record { rest = codes "auth pw" ++ 10 ∷ []; ending = eof; size = 64 };
}

abbrev after_login : Conn env floats
after_login = record after_ping {
  server = record server { commands = 2 };
  session = record { authed = true; role = Role.admin };
  reader = record { rest = []; ending = eof; size = 64 };
}

turn_ping :
    turn env floats std moment login_conn ≡ next (Envelope.fail auth_required ∷ []) after_ping
unfolding turn read_line trim_cr cut dispatch command_of run_line split_command fields fields_from
    space_width to_lower lower_from has_prefix find_command bytes_eq
turn_ping = refl

turn_login :
    turn env floats std moment after_ping ≡ next (Envelope.ok (truth true) ∷ []) after_login
unfolding turn read_line trim_cr cut dispatch command_of run_line split_command fields fields_from
    space_width to_lower lower_from has_prefix find_command bytes_eq check equal_constant_time
turn_login = refl

Reach-LoggedIn_example :
    IsUntouched env floats std login_conn after_login ⊎ LoggedIn env floats std login_conn
Reach-LoggedIn_example =
    Reach-LoggedIn env floats std refl (another moment (another moment here turn_ping) turn_login)

-- `putx` with a one-byte block of index values and a block that holds a newline.
abbrev putx_conn : Conn env floats
putx_conn = conn (framed_bytes (b'x' ∷ []) (framed_bytes (10 ∷ []) (codes "ping")))

one : parse_int (codes "1") ≡ some (pos 1)
unfolding parse_int read_decimal
one = refl

putx-framed_bytes_example :
    (Writes.putx env floats std moment
        (codes "putx")
        (codes "k" ∷ codes "1" ∷ codes "1" ∷ codes "0" ∷ [])
        putx_conn
      ≡ stored_with env floats std moment putx_conn
          (codes "k")
          (b'x' ∷ [])
          (10 ∷ [])
          (codes "ping")
          (optional_ttl (codes "putx") (codes "0" ∷ [])))
    × ((Writes.putx env floats std moment
          (codes "putx")
          (codes "k" ∷ codes "1" ∷ codes "1" ∷ codes "0" ∷ [])
          putx_conn).1.reader.rest
        ≡ codes "ping")
putx-framed_bytes_example =
    putx-framed_bytes env floats std moment putx_conn (codes "k") (b'x' ∷ []) (10 ∷ [])
      (codes "ping") (codes "putx") (codes "1") (codes "1") (codes "0") one one (omega arith)
      (omega arith) refl

abbrev ann : Bytes × FileUser
ann = (codes "ann", record { password = codes "secret"; role = Role.admin })

ann-IsEntry : IsEntry ann
unfolding has_prefix
ann-IsEntry = record {
  name = (omega arith, omega arith, λ e. cc);
  password = (omega arith, omega arith, λ e. cc);
  no_comment = refl;
  fits = omega arith;
}

nobody : find_user ann.0 [] ≡ none
unfolding find_user
nobody = refl

auth_file_store-file_of_example :
    auth_file_store (some (file_of (ann ∷ [])))
    ≡ loaded (record { mode = file_mode; password = []; users = ann ∷ [] })
auth_file_store-file_of_example = auth_file_store-file_of ann [] (ann-IsEntry, tt) (nobody, tt)

abbrev open_conn : Conn env floats
open_conn = with_role env floats std moment Role.user (conn [])

lone_value : (tok : Bytes) → fields (codes "1 2") ≡ tok ∷ [] → parse_int tok ≡ none
unfolding fields fields_from space_width
lone_value tok h = absurd (cc h)

dispatch-put_line_example :
    dispatch env floats std moment (put_line b'k' [] (codes "1 2")) open_conn
    ≡ on_db env floats (Write.put env (pos 5) (codes "k") (codes "1 2") []) Writes.done open_conn
dispatch-put_line_example =
    dispatch-put_line env floats std moment b'k' b'1' [] (codes " 2") open_conn refl (omega arith)
      (omega arith) lone_value

-- Where a tab stands behind the command, the words of the line are three and the value is lost.
tab_words : split_command (codes "put\tk\tv") ≡ (codes "put", codes "k" ∷ codes "v" ∷ [])
unfolding split_command fields fields_from space_width to_lower lower_from has_prefix
tab_words = refl

tab_value : rest_after_tokens (codes "put\tk\tv") 2 ≡ []
unfolding rest_after_tokens skip_blanks cut drop_tokens
tab_value = refl

-- A TTL whose nanoseconds do not fit an int64 comes out as less than a millisecond.
wrapped_ttl : parse_ttl_millis (codes "putex") (codes "18446744073710") ≡ fine (pos 448384)
unfolding parse_ttl_millis parse_int read_decimal wrap64
wrapped_ttl = refl
