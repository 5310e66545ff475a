-- ===== src/Server/Accounts/Checks.antt =====
-- nteedb-server/auth.go: whom `check` lets in.
use ntee_db.Base.{◌≡◌, ◌↔◌, true, some, List, [], ◌∷◌, Option-cases, inl, inr, arith}
use ntee_db.Bytes.{Bytes}
use ntee_db.Bytes.Laws.{bytes_eq_refl, bytes_eq→eq}
use ntee_db.Server.Proto.{fine}
use ntee_db.Server.Accounts.{
  Role, FileUser, Users, Mode, AuthStore, open_mode, password_mode, file_mode, find_user, check,
  equal_constant_time,
}

equal→eq : (a b : Bytes) → equal_constant_time a b ≡ true → a ≡ b
unfolding equal_constant_time
equal→eq a b h = bytes_eq→eq a b (ground arith)

equal_self : (a : Bytes) → equal_constant_time a a ≡ true
unfolding equal_constant_time
equal_self a = ground (arith, bytes_eq_refl a)

-- Who may log in with what, and as what.
abbrev pub AcceptsIn : Mode → Bytes → Users → List Bytes → Role → Type 0
AcceptsIn open_mode password users args role = role ≡ Role.admin
AcceptsIn password_mode password users args role = (args ≡ password ∷ []) × (role ≡ Role.admin)
AcceptsIn file_mode password users args role =
    (name : Bytes) × (u : FileUser) × (args ≡ name ∷ u.password ∷ [])
    × (find_user name users ≡ some u)
    × (role ≡ u.role)

abbrev pub Accepts : AuthStore → List Bytes → Role → Type 0
Accepts a args role = AcceptsIn a.mode a.password a.users args role

module _ (password : Bytes) (users : Users) (role : Role) where
  abbrev Checks : Mode → List Bytes → Type 0
  Checks mode args =
      check (record { mode = mode; password = password; users = users }) args ≡ fine role

  accepts :
      (mode : Mode) (args : List Bytes) → Checks mode args → AcceptsIn mode password users args role
  unfolding check
  accepts open_mode args h = ground arith
  accepts password_mode [] h = absurd (ground arith)
  accepts password_mode (p ∷ []) h = ground (arith, equal→eq p password)
  accepts password_mode (p ∷ q ∷ rest) h = absurd (ground arith)
  accepts file_mode [] h = absurd (ground arith)
  accepts file_mode (n ∷ []) h = absurd (ground arith)
  accepts file_mode (n ∷ p ∷ []) h = elim (Option-cases (find_user n users)) [
    | inl e ↦ absurd (ground arith)
    | inr (u, e) ↦ (n, u, ground (arith, equal→eq p u.password), e, ground arith)
  ]
  accepts file_mode (n ∷ p ∷ q ∷ rest) h = absurd (ground arith)

  accepted :
      (mode : Mode) (args : List Bytes) → AcceptsIn mode password users args role → Checks mode args
  unfolding check
  accepted open_mode args h = ground arith
  accepted password_mode args h = rw h.0 (ground (arith, equal_self password))
  accepted file_mode args (n, u, e, found, r) =
      rw e (rw found (ground (arith, equal_self u.password)))

-- The check grants a role exactly where there are no credentials to check and the role is admin,
-- where the one argument is the password and the role is admin, or where the two arguments are a
-- user of the file with the user's password and the role is the user's.
pub check_iff :
    (a : AuthStore) (args : List Bytes) (role : Role)
    → (check a args ≡ fine role) ↔ Accepts a args role
check_iff a args role =
    (accepts a.password a.users role a.mode args, accepted a.password a.users role a.mode args)
