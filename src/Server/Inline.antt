-- ===== src/Server/Inline.antt =====
-- nteedb-server/handlers.go: the inline form of `put`.
use ntee_db.Base.{
  ℕ, ◌≡◌, refl, ap, ◌∙◌, true, none, some, List, [], ◌∷◌, ◌++◌, if◌then◌else◌, arith,
}
use ntee_db.Bytes.{Bytes, bytes_eq, has_prefix}
use ntee_db.Db.{Env}
use ntee_db.Db.Write
use ntee_db.Server.Text.{codes, fields, parse_int, to_lower}
use ntee_db.Server.Proto.{split_command, rest_after_tokens, Envelope, auth_required}
use ntee_db.Server.Settings.{Floats}
use ntee_db.Server.State.{Std, Moment, Conn, answer, on_db}
use ntee_db.Server.Writes
use ntee_db.Server.Dispatch.{Command, command_of, run_line, run_command, dispatch}
use ntee_db.Server.Words.{IsVisible, IsWord, fields_word, fields_some, rest_after_tokens_words}

-- The line of a client: the command, the key and the value.
abbrev pub put_line : ℕ → Bytes → Bytes → Bytes
put_line k key value = codes "put" ++ 32 ∷ ((k ∷ key) ++ 32 ∷ value)

lower_put : to_lower (codes "put") ≡ codes "put"
unfolding to_lower has_prefix
lower_put = refl

find_put : command_of (codes "put") ≡ some Command.put
unfolding command_of bytes_eq
find_put = refl

split_command-fields :
    (line w : Bytes) (ws : List Bytes)
    → fields line ≡ w ∷ ws
    → split_command line ≡ (to_lower w, ws)
unfolding split_command
split_command-fields line w ws e = rw (e, split_command) refl

split_put_line :
    (k : ℕ) (key value : Bytes)
    → IsWord k key
    → split_command (put_line k key value) ≡ (codes "put", (k ∷ key) ∷ fields value)
split_put_line k key value h =
    split_command-fields (put_line k key value) (codes "put") ((k ∷ key) ∷ fields value) (
      fields_word b'p' (codes "ut") ((k ∷ key) ++ 32 ∷ value) (omega arith)
      ∙ ap (λ ws. codes "put" ∷ ws) (fields_word k key value h))
    ∙ ap (λ w. (w, (k ∷ key) ∷ fields value)) lower_put

module _ (env : Env) (floats : Floats) (std : Std) (moment : Moment) where
  -- With an argument behind the key that is no lone number, `put` stores the rest of the line.
  put_inline :
      (cmd key : Bytes) (args : List Bytes) (w : Bytes) (ws : List Bytes) (line : Bytes)
      (c : Conn env floats)
      → args ≡ w ∷ ws
      → ((tok : Bytes) → args ≡ tok ∷ [] → parse_int tok ≡ none)
      → Writes.put env floats std moment cmd (key ∷ args) line c
        ≡ on_db env floats
            (Write.put env moment.now key (rest_after_tokens line 2) [])
            Writes.done
            c
  unfolding Writes.put
  put_inline cmd key args w [] line c e lone = rw (e, lone w e) refl
  put_inline cmd key args w (v ∷ ws) line c e lone = rw e refl

  run_line-put :
      (cmd : Bytes) (args : List Bytes) (line : Bytes) (c : Conn env floats)
      → c.session.authed ≡ true
      → run_line env floats std moment (some Command.put) cmd args line c
        ≡ Writes.put env floats std moment cmd args line c
  unfolding run_line run_command
  run_line-put cmd args line c h =
      ap
        (λ b.
          if b
          then Writes.put env floats std moment cmd args line c
          else (answer (Envelope.fail auth_required), c))
        h

  -- After the login, the line `put KEY VALUE` with single blanks stores the value byte for byte,
  -- where the key is a word of visible ASCII, the value starts with a visible ASCII byte and is
  -- not one lone integer.
  pub dispatch-put_line :
      (k v : ℕ) (key value : Bytes) (c : Conn env floats)
      → c.session.authed ≡ true
      → IsWord k key
      → IsVisible v
      → ((tok : Bytes) → fields (v ∷ value) ≡ tok ∷ [] → parse_int tok ≡ none)
      → dispatch env floats std moment (put_line k key (v ∷ value)) c
        ≡ on_db env floats (Write.put env moment.now (k ∷ key) (v ∷ value) []) Writes.done c
  unfolding dispatch
  dispatch-put_line k v key value c h hk hv lone =
      let (w, ws, e) = fields_some v value hv in
      rw (split_put_line k key (v ∷ value) hk) (
        rw find_put (
          run_line-put (codes "put") ((k ∷ key) ∷ fields (v ∷ value)) (put_line k key (v ∷ value)) c
            h
          ∙ put_inline (codes "put") (k ∷ key) (fields (v ∷ value)) w ws
              (put_line k key (v ∷ value)) c e lone
          ∙ ap (λ val. on_db env floats (Write.put env moment.now (k ∷ key) val []) Writes.done c)
              (rest_after_tokens_words b'p' k v (codes "ut") key value (omega arith) hk hv)))
