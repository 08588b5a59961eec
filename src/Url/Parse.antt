-- ===== src/Url/Parse.antt =====
-- afp_parse_url and afp_url_validate of lib/afp_url.c.
use time_capsule_mount.Prelude.{
  ℕ, ◌+◌, ◌-◌, ◌&&◌, ◌||◌, Option, none, some, [], ◌∷◌, CString, codes, str_eq, ℤ, pos, neg, ◌==◌,
  ltb, leb, if◌then◌else◌, drop, take, length,
}
use time_capsule_mount.Url.Strings.{strchr, strstr, strtol}
use time_capsule_mount.Url.Uams.{uam_string_to_bitmap}
use time_capsule_mount.Url.Escapes.{escape_strchr, Found, escape_strrchr, escape_string}

-- struct afp_url, as far as lib/afp_url.c fills it
pub record AfpUrl : Type 0 where
  pub username : CString
  pub uamname : CString
  pub password : CString
  pub servername : CString
  pub port : ℕ
  pub volumename : CString
  pub path : CString

-- afp_default_url
unfoldable pub default_url : AfpUrl
default_url = record {
  username = [];
  uamname = [];
  password = [];
  servername = [];
  port = 548;
  volumename = [];
  path = [];
}

-- How a part of the parser ends: with a value, with `return -1`, or with undefined behaviour (a string
-- longer than its buffer, a pointer before one, or an uninitialised one), or not at all.
pub data Result (A : Type 0) : Type 0 where
  ok : A → Result A
  refused undefined endless : Result A

infixl 5 ◌>>=◌
abbrev pub ◌>>=◌ : {A B : Type 0} → Result A → (A → Result B) → Result B
ok a >>= f = f a
refused >>= f = refused
undefined >>= f = undefined
endless >>= f = endless

-- A string that is stored in a buffer of this size; snprintf is given the length of the string for
-- the size, and so does not stop at the end of the buffer.
unfoldable pub stored : ℕ → CString → Result CString
stored size s = if ltb (length s) size then ok s else undefined

abbrev servername_size : ℕ
servername_size = 255

abbrev username_size : ℕ
username_size = 127

abbrev password_size : ℕ
password_size = 127

abbrev uamname_size : ℕ
uamname_size = 50

abbrev volumename_size : ℕ
volumename_size = 33

abbrev path_size : ℕ
path_size = 768

-- What a string begins with up to a character, and the rest from it on: %[^c] of sscanf.
unfoldable pub up_to : ℕ → CString → CString × CString
up_to c [] = ([], [])
up_to c (x ∷ xs) = let rest = up_to c xs in if x == c then ([], x ∷ xs) else (x ∷ rest.0, rest.1)

-- The test for "afp" before "://": `q` points three characters before it.
unfoldable pub check_scheme : CString → Result (Unit {0})
check_scheme before =
    if ltb (length before) 3
    then undefined
    else (if str_eq (drop (length before - 3) before) (codes "afp") then ok tt else refused)

-- firstpart, and secondpart where it is not skipped
unfoldable pub split_parts : CString → Result (CString × Option CString)
unfolding up_to
split_parts p =
    let first = (up_to b'/' p).0 in
    let second = (up_to b'$' (drop 1 (up_to b'/' p).1)).0 in
    if length first == 0 || leb 255 (length first)
    then undefined
    else (if length second == 0
        then ok (first, none)
        else (if leb 2048 (length second) then undefined else ok (first, some second)))

-- The server name and the port that follow the user.
unfoldable pub split_host : CString → CString × Option CString
unfolding strchr
split_host host =
    let plain : CString × Option CString = elim (strchr b':' host) [
      | none ↦ (host, none)
      | some (name, port) ↦ (name, some port)
    ] in
    elim host [
      | [] ↦ plain
      | c ∷ literal ↦
          if c == b'['
          then elim (strchr b']' literal) [
            | none ↦ plain
            | some (inside, behind) ↦ elim (strchr b':' behind) [
              | none ↦ (inside, none)
              | some (_, port) ↦ (inside, some port)
            ]
          ]
          else plain
    ]

-- check_port, and the test of atoi; `old` is the port that the struct holds before.
unfoldable pub parse_port : ℕ → Option CString → Result ℕ
unfolding strtol
parse_port old none = ok old
parse_port old (some port) =
    let (negative, value) = strtol port in
    if value == 0 || negative || ltb 32767 value then refused else ok value

-- user[;AUTH=uamname][:password]; the calls of escape_strrchr are bounded.
unfoldable pub split_password : CString → Result (CString × CString)
unfolding escape_strrchr
split_password p = elim (escape_strrchr (length p + 1) p 0 b':' (codes ":")) [
  | Found.at i ↦ ok (take i p, drop (i + 1) p)
  | Found.nowhere ↦ ok (p, [])
  | Found.outside ↦ undefined
  | Found.unfinished ↦ endless
]

unfoldable pub split_uam : CString → Result (CString × CString)
unfolding strstr uam_string_to_bitmap stored
split_uam p = elim (strstr (codes ";AUTH=") p) [
  | none ↦ ok (p, [])
  | some (user, uam) ↦ do
    uam ← stored uamname_size uam
    if uam_string_to_bitmap uam == 0 then refused else ok (user, uam)
]

-- The earliest part, with the names as they are stored.
unfoldable pub parse_user : Option CString → AfpUrl → Result AfpUrl
parse_user none url = ok url
parse_user (some p) url = do
  (p, password) ← split_password p
  password ← stored password_size password
  (p, uamname) ← split_uam p
  username ← stored username_size p
  ok (record url { username = username; uamname = uamname; password = password })

-- The label parse_secondpart. The slash at the end that it looks for is behind the end of the string.
unfoldable pub parse_volume : Option CString → AfpUrl → Result AfpUrl
unfolding strchr stored
parse_volume none url = ok url
parse_volume (some second) url = elim (strchr b'/' second) [
  | none ↦ do
    volumename ← stored volumename_size second
    ok (record url { volumename = volumename })
  | some (volume, rest) ↦ do
    volumename ← stored volumename_size volume
    path ← stored path_size (b'/' ∷ rest)
    ok (record url { volumename = volumename; path = path })
]

-- The label done.
unfoldable pub escape_url : AfpUrl → AfpUrl
escape_url url = record url {
  password = escape_string url.password b'@';
  username = escape_string url.username b':';
}

unfoldable pub afp_parse_url : AfpUrl → CString → Result AfpUrl
afp_parse_url url toparse = elim (strstr (codes "://") toparse) [
  | none ↦ refused
  | some (before, rest) ↦ do
    scheme ← check_scheme before
    (first, second) ← split_parts rest
    let (earliest, host) : Option CString × CString = elim (escape_strchr first b'@' (codes "@")) [
      | none ↦ (none, first)
      | some (user, host) ↦ (some user, host)
    ]
    let (name, port) = split_host host
    port ← parse_port url.port port
    servername ← stored servername_size name
    url ← parse_user earliest (record default_url { port = port; servername = servername })
    url ← parse_volume second url
    ok (escape_url url)
]

-- afp_url_validate; `new_url` is what the local struct holds before it is filled.
unfoldable pub afp_url_validate : (new_url : AfpUrl) → CString → AfpUrl → Result ℤ
afp_url_validate new_url url_string valid_url = elim (afp_parse_url new_url url_string) [
  | ok url ↦
      let same =
        str_eq url.username valid_url.username
        && str_eq url.uamname valid_url.uamname
        && str_eq url.password valid_url.password
        && str_eq url.servername valid_url.servername
        && str_eq url.volumename valid_url.volumename in
      ok (if same then pos 0 else neg 1)
  | refused ↦ ok (neg 1)
  | undefined ↦ undefined
  | endless ↦ endless
]
