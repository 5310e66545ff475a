-- ===== src/Server/Sessions.antt =====
-- nteedb-server/server.go: the turns of a connection, and what precedes a login.
use ntee_db.Base.{
  ◌≡◌, refl, sym, ◌∙◌, ap, false, Option, none, some, List, [], ◌∷◌, ◌⊎◌, inl, inr, arith,
}
use ntee_db.Bytes.{Bytes}
use ntee_db.Db.{Env}
use ntee_db.Server.Proto.{
  Got, got, lost, read_line, Envelope, Failure, split_command, Checked, fine, refused,
}
use ntee_db.Server.Accounts.{Role, check}
use ntee_db.Server.Settings.{Floats}
use ntee_db.Server.State.{Std, Moment, Conn}
use ntee_db.Server.Dispatch.{Command, command_of, run_line, dispatch}
use ntee_db.Server.Conn.{next, turn, on_line, after, count_command}
use ntee_db.Server.Ending.{after-next}
use ntee_db.Server.Rights.{dispatch-Blind}

module _ (env : Env) (floats : Floats) (std : Std) where
  Checked-cases :
      {A : Type 0} (r : Checked A)
      → ((a : A) × (r ≡ fine a)) ⊎ ((why : Failure) × (r ≡ refused why))
  Checked-cases (fine a) = inl (a, refl)
  Checked-cases (refused why) = inr (why, refl)

  -- The turns of a connection, each at a moment of its own.
  pub data Reach (start : Conn env floats) : Conn env floats → Type 0 where
    here : Reach start start
    another :
        {c c' : Conn env floats} {out : List Envelope} (moment : Moment)
        → Reach start c
        → turn env floats std moment c ≡ next out c'
        → Reach start c'

  -- Nobody is logged in, and the store and the credentials are those of `start`.
  pub record IsUntouched (start c : Conn env floats) : Type 0 where
    pub authed : c.session.authed ≡ false
    pub db : c.server.db ≡ start.server.db
    pub auth : c.server.auth ≡ start.server.auth

  -- The line in front of the connection is `auth` with credentials that are accepted.
  pub record IsLogin (c : Conn env floats) : Type 0 where
    pub line : Bytes
    pub role : Role
    pub reads : (read_line c.reader).0 ≡ got line
    pub is_auth : command_of (split_command line).0 ≡ some Command.auth
    pub accepted : check c.server.auth (split_command line).1 ≡ fine role

  abbrev pub LoggedIn : Conn env floats → Type 0
  LoggedIn start = (d : Conn env floats) × Reach start d × IsUntouched start d × IsLogin d

  run_line-session :
      (moment : Moment) (command : Option Command) (cmd : Bytes) (args : List Bytes) (line : Bytes)
      (c : Conn env floats)
      → c.session.authed ≡ false
      → ((run_line env floats std moment command cmd args line c).1.session.authed ≡ false)
        ⊎ ((role : Role) × (command ≡ some Command.auth) × (check c.server.auth args ≡ fine role))
  unfolding run_line
  run_line-session moment none cmd args line c h = inl (ground arith)
  run_line-session moment (some Command.quit_cmd) cmd args line c h = inl h
  run_line-session moment (some Command.hello) cmd args line c h = inl h
  run_line-session moment (some Command.auth) cmd args line c h =
      elim (Checked-cases (check c.server.auth args)) [
        | inl (role, e) ↦ inr (role, refl, e)
        | inr (why, e) ↦ inl (ground arith)
      ]
  run_line-session moment (some _) cmd args line c h = inl (ground arith)

  dispatch-untouched :
      (moment : Moment) (line : Bytes) (c c' : Conn env floats) (out : List Envelope)
      → c.session.authed ≡ false
      → after env floats std (dispatch env floats std moment line (count_command env floats std c))
        ≡ next out c'
      → (c'.server.db ≡ c.server.db) × (c'.server.auth ≡ c.server.auth)
  dispatch-untouched moment line c c' out h e =
      let k = count_command env floats std c in
      let last = after-next env floats std (dispatch env floats std moment line k) out c' e in
      let kept = (dispatch-Blind env floats std moment line k c.server.db c.server.schema h).1 in
      (
        ap (λ x. x.server.db) (sym last) ∙ ap (λ x. x.db) kept,
        ap (λ x. x.server.auth) (sym last) ∙ ap (λ x. x.auth) kept,
      )

  dispatch-login :
      (moment : Moment) (line : Bytes) (c c' : Conn env floats) (out : List Envelope)
      → c.session.authed ≡ false
      → after env floats std (dispatch env floats std moment line (count_command env floats std c))
        ≡ next out c'
      → IsUntouched c c'
        ⊎ ((role : Role) × (command_of (split_command line).0 ≡ some Command.auth)
            × (check c.server.auth (split_command line).1 ≡ fine role))
  unfolding dispatch
  dispatch-login moment line c c' out h e =
      let k = count_command env floats std c in
      let (db, auth) = dispatch-untouched moment line c c' out h e in
      let last = after-next env floats std (dispatch env floats std moment line k) out c' e in
      elim (run_line-session moment (command_of (split_command line).0) (split_command line).0
        (split_command line).1 line k h) [
          | inl closed ↦ inl (record {
            authed = ap (λ x. x.session.authed) (sym last) ∙ closed;
            db = db;
            auth = auth;
          })
          | inr login ↦ inr login
        ]

  on_line-login :
      (moment : Moment) (g : Got Bytes) (c c' : Conn env floats) (out : List Envelope)
      → c.session.authed ≡ false
      → on_line env floats std moment g c ≡ next out c'
      → IsUntouched c c'
        ⊎ ((line : Bytes) × (role : Role) × (g ≡ got line)
            × (command_of (split_command line).0 ≡ some Command.auth)
            × (check c.server.auth (split_command line).1 ≡ fine role))
  on_line-login moment (lost e) c c' out h q = absurd (ground arith)
  on_line-login moment (got []) c c' out h q =
      inl (record { authed = ground arith; db = ground arith; auth = ground arith })
  on_line-login moment (got (b ∷ bs)) c c' out h q =
      elim (dispatch-login moment (b ∷ bs) c c' out h q) [
        | inl same ↦ inl same
        | inr (role, is_auth, accepted) ↦ inr (b ∷ bs, role, refl, is_auth, accepted)
      ]

  turn-login :
      (moment : Moment) (start c c' : Conn env floats) (out : List Envelope)
      → Reach start c
      → IsUntouched start c
      → turn env floats std moment c ≡ next out c'
      → IsUntouched start c' ⊎ LoggedIn start
  unfolding turn
  turn-login moment start c c' out r u q =
      elim (on_line-login moment (read_line c.reader).0
        (record c { reader = (read_line c.reader).1 }) c' out u.authed q) [
          | inl same ↦
              inl (record { authed = same.authed; db = same.db ∙ u.db; auth = same.auth ∙ u.auth })
          | inr (line, role, reads, is_auth, accepted) ↦ inr (
            c,
            r,
            u,
            record {
              line = line;
              role = role;
              reads = reads;
              is_auth = is_auth;
              accepted = accepted;
            },
          )
        ]

  -- Whatever turns a connection takes that has not logged in: it is still not logged in, before
  -- the same store and the same credentials, or some earlier state of it, reached with the store
  -- and the credentials untouched, had in front an auth line whose arguments the check accepts.
  pub Reach-LoggedIn :
      {start c : Conn env floats}
      → start.session.authed ≡ false
      → Reach start c
      → IsUntouched start c ⊎ LoggedIn start
  Reach-LoggedIn h here = inl (record { authed = h; db = refl; auth = refl })
  Reach-LoggedIn h (another moment r q) = elim (Reach-LoggedIn h r) [
    | inl u ↦ turn-login moment _ _ _ _ r u q
    | inr login ↦ inr login
  ]
