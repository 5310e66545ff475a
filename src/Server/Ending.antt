-- ===== src/Server/Ending.antt =====
-- nteedb-server/server.go: the loop of a connection, which each turn brings closer to its end.
use ntee_db.Base.{
  ℕ, zero, suc, ◌+◌, ◌≡◌, refl, ◌≤◌, ◌<◌, Option, none, some, List, [], ◌∷◌, ◌++◌, length, ◌⊎◌, inl,
  inr, arith,
}
use ntee_db.Bytes.{Bytes}
use ntee_db.Db.{Env}
use ntee_db.Server.Proto.{Got, got, lost, read_line, Envelope}
use ntee_db.Server.Settings.{Floats}
use ntee_db.Server.State.{Std, Moment, Conn, Outcome, answer, quit, fatal}
use ntee_db.Server.Dispatch.{Command, run_line, dispatch}
use ntee_db.Server.Conn.{Turn, next, stop, turn, serve, on_line, after, count_command}
use ntee_db.Server.Continuing.{run_command-Continues, length-read_line}

module _ (env : Env) (floats : Floats) (std : Std) where
  run_line-input :
      (moment : Moment) (command : Option Command) (cmd : Bytes) (args : List Bytes) (line : Bytes)
      (c : Conn env floats)
      → length (run_line env floats std moment command cmd args line c).1.reader.rest
        ≤ length c.reader.rest
  unfolding run_line
  run_line-input moment none cmd args line c = ground arith
  run_line-input moment (some Command.quit_cmd) cmd args line c = omega arith
  run_line-input moment (some Command.hello) cmd args line c = omega arith
  run_line-input moment (some Command.auth) cmd args line c = ground arith
  run_line-input moment (some command) cmd args line c =
      ground (arith, (run_command-Continues env floats std moment cmd args line command c).input)

  dispatch-input :
      (moment : Moment) (line : Bytes) (c : Conn env floats)
      → length (dispatch env floats std moment line c).1.reader.rest ≤ length c.reader.rest
  unfolding dispatch
  dispatch-input moment line c = run_line-input moment _ _ _ line c

  pub after-next :
      (o : Outcome × Conn env floats) (out : List Envelope) (c : Conn env floats)
      → after env floats std o ≡ next out c
      → o.1 ≡ c
  after-next (answer e, c') out c h = ground arith
  after-next (quit e, c') out c h = ground arith
  after-next (fatal e, c') out c h = ground arith

  -- A turn that another turn follows has taken a line from the input.
  on_line-shorter :
      (moment : Moment) (g : Got Bytes) (c c' : Conn env floats) (out : List Envelope)
      → on_line env floats std moment g c ≡ next out c'
      → length c'.reader.rest ≤ length c.reader.rest
  on_line-shorter moment (lost e) c c' out h = ground arith
  on_line-shorter moment (got []) c c' out h = ground arith
  on_line-shorter moment (got (b ∷ bs)) c c' out h = ground (
    arith,
    after-next (dispatch env floats std moment (b ∷ bs) (count_command env floats std c)) out c' h,
    dispatch-input moment (b ∷ bs) (count_command env floats std c),
  )

  on_line-got :
      (moment : Moment) (g : Got Bytes) (c c' : Conn env floats) (out : List Envelope)
      → on_line env floats std moment g c ≡ next out c'
      → (line : Bytes) × (g ≡ got line)
  on_line-got moment (lost e) c c' out h = absurd (ground arith)
  on_line-got moment (got line) c c' out h = (line, refl)

  turn-shorter :
      (moment : Moment) (c c' : Conn env floats) (out : List Envelope)
      → turn env floats std moment c ≡ next out c'
      → length c'.reader.rest < length c.reader.rest
  unfolding turn
  turn-shorter moment c c' out h =
      let (line, e) = on_line-got moment (read_line c.reader).0 _ c' out h in
      omega (
        arith,
        on_line-shorter moment (read_line c.reader).0 (record c { reader = (read_line c.reader).1 })
            c' out h,
        length-read_line c.reader line e,
      )

  Turn-cases :
      (t : Turn env floats std)
      → ((out : List Envelope) × (c : Conn env floats) × (t ≡ stop out c))
        ⊎ ((out : List Envelope) × (c : Conn env floats) × (t ≡ next out c))
  Turn-cases (stop out c) = inl (out, c, refl)
  Turn-cases (next out c) = inr (out, c, refl)

  -- The loop of a connection ends on every finite input: with more fuel than bytes it returns its
  -- answers and its last state.
  pub serve-ne-none :
      (moments : ℕ → Moment) (i fuel : ℕ) (c : Conn env floats)
      → length c.reader.rest < fuel
      → (answers : List Envelope) × (c' : Conn env floats) × (serve env floats std moments i fuel c
          ≡ some (answers, c'))
  unfolding serve
  serve-ne-none moments i zero c h = absurd (omega arith)
  serve-ne-none moments i (suc fuel) c h = elim (Turn-cases (turn env floats std (moments i) c)) [
    | inl (out, c', e) ↦ (out, c', rw (e, serve) refl)
    | inr (out, c', e) ↦
        let (more, last, r) =
          serve-ne-none moments (i + 1) fuel c'
            (omega (arith, turn-shorter (moments i) c c' out e)) in
        (out ++ more, last, rw (e, serve) (rw r refl))
  ]
