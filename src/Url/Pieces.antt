-- ===== src/Url/Pieces.antt =====
-- The pieces of the most complex URL of the comment in lib/afp_url.c, and how the parser cuts a text
-- where one of them ends.
use time_capsule_mount.Prelude.{
  ℕ, ◌+◌, ◌≤◌, ◌<◌, ◌≡◌, refl, Bool, true, false, not, ◌||◌, some, [], ◌∷◌, ◌++◌, CString, codes,
  ◌==◌, All, arith, length, drop, get_or, take-append,
}
use time_capsule_mount.Url.Strings.{digits}
use time_capsule_mount.Url.Uams.{uam_string_to_bitmap}
use time_capsule_mount.Url.Escapes.{undoubled, escape_strrchr}
use time_capsule_mount.Url.Parse.{AfpUrl, ok, split_parts, split_host, parse_port, split_password}
use time_capsule_mount.Url.Splitting.{
  Lacks, strchr-found, up_to-found, up_to-all, undoubled-found, strrchr-found, AreDigits,
  strtol-digits,
}

-- None of the characters that separate the parts.
abbrev pub is_plain : ℕ → Bool
is_plain c = not (c == b'/' || c == b'@' || c == b':' || c == b';' || c == b'$')

abbrev pub ArePlain : CString → Type 0
ArePlain = All λ c. is_plain c ≡ true

-- A host that is no IPv6 literal, and not empty.
abbrev pub is_name : CString → Bool
is_name [] = false
is_name (c ∷ s) = not (c == b'[')

-- What such a URL is put together from; the port is its digits, and the path is less its slash.
pub record Parts : Type 0 where
  pub user : CString
  pub uam : CString
  pub password : CString
  pub server : CString
  pub port : CString
  pub volume : CString
  pub path : CString

abbrev pub with_uam : Parts → CString
with_uam a = a.user ++ b';' ∷ (codes "AUTH=" ++ a.uam)

abbrev pub earliest : Parts → CString
earliest a = with_uam a ++ b':' ∷ a.password

abbrev pub host : Parts → CString
host a = a.server ++ b':' ∷ a.port

abbrev pub first_part : Parts → CString
first_part a = earliest a ++ b'@' ∷ host a

abbrev pub second_part : Parts → CString
second_part a = a.volume ++ b'/' ∷ a.path

unfoldable pub url_text : Parts → CString
url_text a = codes "afp" ++ b':' ∷ (codes "//" ++ (first_part a ++ b'/' ∷ second_part a))

-- The parts are plain and fit their buffers, and the method is one that the client knows.
pub record AreFit (a : Parts) : Type 0 where
  pub user : ArePlain a.user
  pub user_fits : length a.user < 127
  pub uam : ArePlain a.uam
  pub uam_fits : length a.uam < 50
  pub uam_known : (uam_string_to_bitmap a.uam == 0) ≡ false
  pub password : ArePlain a.password
  pub password_fits : length a.password < 127
  pub server : ArePlain a.server
  pub server_named : is_name a.server ≡ true
  pub port : AreDigits a.port
  pub port_positive : 0 < digits 0 a.port
  pub port_bound : digits 0 a.port ≤ 32767
  pub first_fits : length (first_part a) < 255
  pub volume : ArePlain a.volume
  pub volume_fits : length a.volume < 33
  pub path : Lacks b'$' a.path
  pub path_fits : length a.path < 767

abbrev pub parsed : Parts → AfpUrl
parsed a = record {
  username = a.user;
  uamname = a.uam;
  password = a.password;
  servername = a.server;
  port = digits 0 a.port;
  volumename = a.volume;
  path = b'/' ∷ a.path;
}

pub Lacks-plain : (c : ℕ) → is_plain c ≡ false → (s : CString) → ArePlain s → Lacks c s
Lacks-plain c h [] p = tt
Lacks-plain c h (x ∷ s) p = (ground arith, Lacks-plain c h s p.1)

get_or-last :
    (c : ℕ) (x : ℕ) (s t : CString)
    → Lacks c (x ∷ s)
    → (get_or (x ∷ (s ++ t)) (length s) 0 == c) ≡ false
get_or-last c x [] t h = h.0
get_or-last c x (y ∷ s) t h = get_or-last c y s t h.1

drop-behind : (s : CString) (c : ℕ) (t : CString) → drop (length s + 1) (s ++ c ∷ t) ≡ t
drop-behind [] c t = refl
drop-behind (x ∷ s) c t = ground (arith, drop-behind s c t)

pub Lacks-label : (c : ℕ) → is_plain c ≡ false → (c == b';') ≡ false → Lacks c (codes ";AUTH=")
Lacks-label c h d = ground arith

pub split_parts-cut :
    (s t : CString)
    → Lacks b'/' s
    → Lacks b'$' t
    → 0 < length s
    → length s < 255
    → 0 < length t
    → length t < 2048
    → split_parts (s ++ b'/' ∷ t) ≡ ok (s, some t)
unfolding split_parts
split_parts-cut s t hs ht s_some s_fits t_some t_fits =
    ground (arith, up_to-found b'/' s t hs, up_to-all b'$' t ht)

pub undoubled-host :
    (e s t : CString)
    → Lacks b'@' e
    → ArePlain s
    → is_name s ≡ true
    → undoubled b'@' (e ++ b'@' ∷ (s ++ t)) ≡ some (e, s ++ t)
undoubled-host e [] t he hs n = ground arith
undoubled-host e (x ∷ s) t he hs n = undoubled-found b'@' e x (s ++ t) he (ground arith)

pub split_host-name :
    (s t : CString) → ArePlain s → is_name s ≡ true → split_host (s ++ b':' ∷ t) ≡ (s, some t)
unfolding split_host
split_host-name [] t hs n = ground arith
split_host-name (x ∷ s) t hs n =
    ground (arith, strchr-found b':' (x ∷ s) t (Lacks-plain b':' refl (x ∷ s) hs))

pub parse_port-digits :
    (old : ℕ) (ds : CString)
    → AreDigits ds
    → 0 < digits 0 ds
    → digits 0 ds ≤ 32767
    → parse_port old (some ds) ≡ ok (digits 0 ds)
unfolding parse_port
parse_port-digits old [] h some_port small = ground arith
parse_port-digits old (d ∷ ds) h some_port small = ground (arith, strtol-digits d ds h.0)

pub split_password-cut :
    (s t : CString)
    → Lacks b':' s
    → 0 < length s
    → Lacks b':' t
    → split_password (s ++ b':' ∷ t) ≡ ok (s, t)
unfolding split_password escape_strrchr
split_password-cut [] t hs some_part ht = absurd (omega arith)
split_password-cut (x ∷ s) t hs some_part ht = ground (
  arith,
  strrchr-found b':' (x ∷ s) t ht,
  get_or-last b':' x s (b':' ∷ t) hs,
  take-append (x ∷ s) (b':' ∷ t),
  drop-behind (x ∷ s) b':' t,
)
