-- ===== src/Server/Accounts.antt =====
-- nteedb-server/auth.go: the credentials of the server and the check of `auth`.
use ntee_db.Base.{
  ℕ, suc, ◌+◌, ◌^◌, Bool, true, false, not, ◌&&◌, ◌||◌, Option, none, some, List, [], ◌∷◌, ◌++◌,
  length, ◌==◌, if◌then◌else◌,
}
use ntee_db.Scanner.{scan_lines}
use ntee_db.Bytes.{Bytes, bytes_eq, has_prefix}
use ntee_db.Server.Text.{codes, trim_space, split_n}
use ntee_db.Server.Proto.{Checked, fine, refused, usage, invalid_password, invalid_user}
pub mod Checks
pub mod RoundTrip

pub data Role : Type 0 where
  user admin : Role

pub record FileUser : Type 0 where
  pub password : Bytes
  pub role : Role

abbrev pub Users : Type 0
Users = List (Bytes × FileUser)

-- The three values that `mode` takes.
pub data Mode : Type 0 where
  open_mode password_mode file_mode : Mode

pub record AuthStore : Type 0 where
  pub mode : Mode
  pub password : Bytes
  pub users : Users

abbrev pub auth_none : AuthStore
auth_none = record { mode = open_mode; password = []; users = [] }

abbrev pub auth_password : Bytes → AuthStore
auth_password password = record { mode = password_mode; password = password; users = [] }

pub data FileError : Type 0 where
  cannot_open line_too_long no_users : FileError
  expected_user : ℕ → FileError
  unknown_role : ℕ → Bytes → FileError
  duplicate_user : ℕ → Bytes → FileError

pub data Loaded (A : Type 0) : Type 0 where
  loaded : A → Loaded A
  rejected : FileError → Loaded A

-- The buffer of a bufio.Scanner.
abbrev pub max_token : ℕ
max_token = 2 ^ 16

-- The switch on the third part.
unfoldable pub role_of : ℕ → Bytes → Loaded Role
role_of at r =
    if bytes_eq r (codes "admin")
    then loaded admin
    else if bytes_eq r (codes "user") || bytes_eq r []
    then loaded user
    else rejected (unknown_role at r)

abbrev with_role : Bytes → Bytes → Loaded Role → Loaded (Bytes × FileUser)
with_role name password (loaded r) = loaded (name, record { password = password; role = r })
with_role name password (rejected e) = rejected e

-- The parts of a line; the third has the rest of it, colons included.
abbrev pub user_of : ℕ → List Bytes → Loaded (Bytes × FileUser)
user_of at [] = rejected (expected_user at)
user_of at (name ∷ []) = rejected (expected_user at)
user_of at ([] ∷ rest) = rejected (expected_user at)
user_of at ((a ∷ as') ∷ [] ∷ rest) = rejected (expected_user at)
user_of at ((a ∷ as') ∷ (b ∷ bs) ∷ []) = with_role (a ∷ as') (b ∷ bs) (loaded user)
user_of at ((a ∷ as') ∷ (b ∷ bs) ∷ r ∷ rest) = with_role (a ∷ as') (b ∷ bs) (role_of at r)

-- `users[name]`
unfoldable pub find_user : Bytes → Users → Option FileUser
find_user name [] = none
find_user name ((n, u) ∷ rest) = if bytes_eq n name then some u else find_user name rest

abbrev pub add_user : ℕ → Users → Loaded (Bytes × FileUser) → Loaded Users
add_user at users (rejected e) = rejected e
add_user at users (loaded (name, u)) = elim (find_user name users) [
  | some _ ↦ rejected (duplicate_user at name)
  | none ↦ loaded (users ++ (name, u) ∷ [])
]

-- One turn of the loop: the line is trimmed; a blank line and a comment are skipped.
unfoldable pub add_line : ℕ → Bytes → Users → Loaded Users
add_line at raw users =
    let line = trim_space raw in
    if bytes_eq line [] || has_prefix line (b'#' ∷ [])
    then loaded users
    else add_user at users (user_of at (split_n b':' 2 line))

unfoldable pub add_lines : ℕ → List Bytes → Users → Loaded Users
add_lines at [] users = loaded users
add_lines at (line ∷ rest) users = elim (add_line (at + 1) line users) [
  | rejected e ↦ rejected e
  | loaded users' ↦ add_lines (at + 1) rest users'
]

-- The tests after the loop.
abbrev pub finish_file : Bool → Loaded Users → Loaded AuthStore
finish_file long (rejected e) = rejected e
finish_file true (loaded users) = rejected line_too_long
finish_file false (loaded []) = rejected no_users
finish_file false (loaded (u ∷ users)) =
    loaded (record { mode = file_mode; password = []; users = u ∷ users })

-- The content of the file, if it opens.
unfoldable pub auth_file_store : Option Bytes → Loaded AuthStore
unfolding add_lines add_line
auth_file_store none = rejected cannot_open
auth_file_store (some content) =
    let (lines, long) = scan_lines max_token 0 [] content in finish_file long (add_lines 0 lines [])

abbrev pub required : AuthStore → Bool
required a = elim a.mode [ open_mode ↦ false | _ ↦ true ]

unfoldable pub equal_constant_time : Bytes → Bytes → Bool
equal_constant_time got want = length got == length want && bytes_eq got want

abbrev pub password_for : Option FileUser → Bytes
password_for none = []
password_for (some u) = u.password

abbrev pub grant : Option FileUser → Bool → Checked Role
grant none same = refused invalid_user
grant (some u) same = if not same then refused invalid_user else fine u.role

abbrev check_password : Bytes → List Bytes → Checked Role
check_password password (given ∷ []) =
    if not (equal_constant_time given password) then refused invalid_password else fine admin
check_password password _ = refused (usage (codes "auth"))

abbrev check_file : Users → List Bytes → Checked Role
check_file users (name ∷ given ∷ []) =
    let u = find_user name users in grant u (equal_constant_time given (password_for u))
check_file users _ = refused (usage (codes "auth"))

unfoldable pub check : AuthStore → List Bytes → Checked Role
unfolding equal_constant_time find_user
check a args = elim a.mode [
  | open_mode ↦ fine admin
  | password_mode ↦ check_password a.password args
  | file_mode ↦ check_file a.users args
]
