-- ===== src/Server/Accounts/RoundTrip.antt =====
-- nteedb-server/auth.go: a file of accounts is read back as it was written.
use ntee_db.Base.{
  ℕ, ◌+◌, ◌<◌, ◌≡◌, ◌≢◌, refl, ◌∙◌, false, none, some, [], ◌∷◌, ◌++◌, map, length, ◌||◌, arith,
}
use mathlib.Core.List.{append_assoc, append-nil, reverse_aux, reverse-reverse}
use ntee_db.Bytes.{Bytes, bytes_eq, has_prefix}
use ntee_db.Btree.{All}
use ntee_db.Server.Text.{codes, trim_space, trim_by, space_width, last_width, split_n}
use ntee_db.Scanner.{IsText, trim_cr_text, scan_lines, scan_line}
use ntee_db.Server.Accounts.{
  Role, FileUser, Users, loaded, file_mode, role_of, find_user, add_line, add_lines,
  auth_file_store, max_token, user_of, add_user,
}
use ntee_db.Server.Words.{IsVisible, space_width_visible, cut_before}

abbrev pub role_word : Role → Bytes
role_word Role.user = codes "user"
role_word Role.admin = codes "admin"

abbrev pub user_line : Bytes × FileUser → Bytes
user_line (name, u) = name ++ b':' ∷ (u.password ++ b':' ∷ role_word u.role)

-- The file that an operator writes for some users.
pub file_of : Users → Bytes
file_of [] = []
file_of (u ∷ rest) = user_line u ++ 10 ∷ file_of rest

-- A text that a part of a line can hold, here in visible ASCII.
abbrev pub IsPart : Bytes → Type 0
IsPart w = All IsVisible w × All (λ c. c ≢ b':') w × (w ≢ [])

pub record IsEntry (e : Bytes × FileUser) : Type 0 where
  pub name : IsPart e.0
  pub password : IsPart e.1.password
  -- Not a comment.
  pub no_comment : has_prefix e.0 (b'#' ∷ []) ≡ false
  pub fits : length (user_line e) < max_token

-- No name comes twice.
abbrev pub IsFresh : Users → Users → Type 0
IsFresh before [] = Unit
IsFresh before (e ∷ rest) = (find_user e.0 before ≡ none) × IsFresh (before ++ e ∷ []) rest

All-append : (xs ys : Bytes) → All IsVisible xs → All IsVisible ys → All IsVisible (xs ++ ys)
All-append [] ys h k = k
All-append (x ∷ xs) ys h k = (h.0, All-append xs ys h.1 k)

role_word-IsVisible : (r : Role) → All IsVisible (role_word r)
role_word-IsVisible Role.user = omega arith
role_word-IsVisible Role.admin = omega arith

user_line-IsVisible : (e : Bytes × FileUser) → IsEntry e → All IsVisible (user_line e)
user_line-IsVisible (name, u) h =
    All-append name _ h.name.0
      (omega arith, All-append u.password _ h.password.0 (omega arith, role_word-IsVisible u.role))

visible-IsText : (w : Bytes) → All IsVisible w → IsText w
visible-IsText [] h = tt
visible-IsText (c ∷ cs) h = (ground arith, visible-IsText cs h.1)

scan_file :
    (users : Users)
    → All IsEntry users
    → scan_lines max_token 0 [] (file_of users) ≡ (map user_line users, false)
unfolding file_of scan_lines
scan_file [] h = refl
scan_file (e ∷ rest) h =
    scan_line max_token 0 [] (user_line e) (file_of rest)
      (visible-IsText (user_line e) (user_line-IsVisible e h.0)) (omega (arith, h.0.fits))
    ∙ rw (trim_cr_text (user_line e) (visible-IsText (user_line e) (user_line-IsVisible e h.0)))
        (rw (scan_file rest h.1) refl)

last_width_visible : (c : ℕ) (cs : Bytes) → IsVisible c → last_width (c ∷ cs) ≡ 0
unfolding last_width
last_width_visible c cs h = ground arith

trim_end : (w : Bytes) → All IsVisible w → trim_by last_width 0 w ≡ w
unfolding trim_by
trim_end [] h = refl
trim_end (c ∷ cs) h = rw (last_width_visible c cs h.0, trim_by) refl

trim_start : (w : Bytes) → All IsVisible w → trim_by space_width 0 w ≡ w
unfolding trim_by
trim_start [] h = refl
trim_start (c ∷ cs) h = rw (space_width_visible c cs h.0, trim_by) refl

All-reverse_aux :
    (xs ys : Bytes) → All IsVisible xs → All IsVisible ys → All IsVisible (reverse_aux xs ys)
All-reverse_aux [] ys h k = k
All-reverse_aux (x ∷ xs) ys h k = All-reverse_aux xs (x ∷ ys) h.1 (h.0, k)

trim_space_visible : (w : Bytes) → All IsVisible w → trim_space w ≡ w
unfolding trim_space
trim_space_visible w h =
    rw (trim_start w h)
      (rw (trim_end (reverse_aux w []) (All-reverse_aux w [] h tt)) (reverse-reverse w))

split_entry :
    (name : Bytes) (u : FileUser)
    → IsEntry (name, u)
    → split_n b':' 2 (user_line (name, u)) ≡ name ∷ u.password ∷ role_word u.role ∷ []
unfolding split_n
split_entry name u h =
    rw (cut_before b':' name (u.password ++ b':' ∷ role_word u.role) h.name.1, split_n)
      (rw (cut_before b':' u.password (role_word u.role) h.password.1, split_n) refl)

role_of_word : (at : ℕ) (r : Role) → role_of at (role_word r) ≡ loaded r
unfolding role_of bytes_eq
role_of_word at Role.user = refl
role_of_word at Role.admin = refl

user_of_parts :
    (at : ℕ) (name password : Bytes) (r : Role)
    → name ≢ []
    → password ≢ []
    → user_of at (name ∷ password ∷ role_word r ∷ [])
      ≡ loaded (name, record { password = password; role = r })
user_of_parts at [] password r h k = absurd (h refl)
user_of_parts at (a ∷ as') [] r h k = absurd (k refl)
user_of_parts at (a ∷ as') (b ∷ bs) r h k = rw (role_of_word at r) refl

-- A part is not blank, and the line that it begins is no comment if it is none.
line_kept :
    (name rest : Bytes)
    → name ≢ []
    → has_prefix name (b'#' ∷ []) ≡ false
    → (bytes_eq (name ++ rest) [] || has_prefix (name ++ rest) (b'#' ∷ [])) ≡ false
unfolding bytes_eq has_prefix
line_kept [] rest h k = absurd (h refl)
line_kept (a ∷ as') rest h k = k

add_entry :
    (at : ℕ) (name : Bytes) (u : FileUser) (users : Users)
    → IsEntry (name, u)
    → find_user name users ≡ none
    → add_line at (user_line (name, u)) users ≡ loaded (users ++ (name, u) ∷ [])
unfolding add_line
add_entry at name u users h fresh =
    rw (trim_space_visible (user_line (name, u)) (user_line-IsVisible (name, u) h)) (
      rw (line_kept name (b':' ∷ (u.password ++ b':' ∷ role_word u.role)) h.name.2 h.no_comment) (
        rw (split_entry name u h) (
          rw (user_of_parts at name u.password u.role h.name.2 h.password.2)
            (rw (fresh, add_user) refl))))

add_entries :
    (at : ℕ) (before users : Users)
    → All IsEntry users
    → IsFresh before users
    → add_lines at (map user_line users) before ≡ loaded (before ++ users)
unfolding add_lines
add_entries at before [] h f = rw (append-nil before) refl
add_entries at before ((name, u) ∷ rest) h f =
    rw (add_entry (at + 1) name u before h.0 f.0, add_lines)
      (add_entries (at + 1) (before ++ (name, u) ∷ []) rest h.1 f.1
        ∙ rw (append_assoc before ((name, u) ∷ []) rest) refl)

-- A file with a line `name:password:role` for each of some users is read as exactly those users in
-- that order, where the names differ, names and passwords are not empty and of visible ASCII
-- without colons, no name starts with #, and each line is shorter than 64 KiB.
pub auth_file_store-file_of :
    (e : Bytes × FileUser) (rest : Users)
    → All IsEntry (e ∷ rest)
    → IsFresh [] (e ∷ rest)
    → auth_file_store (some (file_of (e ∷ rest)))
      ≡ loaded (record { mode = file_mode; password = []; users = e ∷ rest })
unfolding auth_file_store
auth_file_store-file_of e rest h f =
    rw (scan_file (e ∷ rest) h) (rw (add_entries 0 [] (e ∷ rest) h f) refl)
