-- ===== src/Tests/Urls.antt =====
-- The URL parser at concrete inputs.
use time_capsule_mount.Prelude.{◌≡◌, refl, codes, arith}
use time_capsule_mount.Url.Escapes.{Found, escape_strrchr, escape_strchr, escape_string}
use time_capsule_mount.Url.Parse.{
  ok, default_url, afp_parse_url, check_scheme, split_parts, split_host, parse_port, parse_user,
  parse_volume, escape_url, stored, split_password, split_uam,
}
use time_capsule_mount.Url.Pieces.{Parts, AreFit, url_text, parsed}
use time_capsule_mount.Url.RoundTrip.{afp_parse_url-url_text}
use time_capsule_mount.Url.Uams.{uam_string_to_bitmap}
use time_capsule_mount.Url.Strings.{digits, strstr}
use time_capsule_mount.Url.Endless.{escape_strrchr-unfinished}

abbrev parts : Parts
parts = record {
  user = codes "me";
  uam = codes "DHX2";
  password = codes "pw";
  server = codes "tc";
  port = codes "548";
  volume = codes "Data";
  path = codes "a/b";
}

parts-AreFit : AreFit parts
unfolding uam_string_to_bitmap digits
parts-AreFit = record {
  user = ground arith;
  user_fits = omega arith;
  uam = ground arith;
  uam_fits = omega arith;
  uam_known = refl;
  password = ground arith;
  password_fits = omega arith;
  server = ground arith;
  server_named = refl;
  port = ground arith;
  port_positive = omega arith;
  port_bound = omega arith;
  first_fits = omega arith;
  volume = ground arith;
  volume_fits = omega arith;
  path = ground arith;
  path_fits = omega arith;
}

afp_parse_url-url_text_example :
    afp_parse_url default_url (codes "afp://me;AUTH=DHX2:pw@tc:548/Data/a/b") ≡ ok (parsed parts)
unfolding url_text
afp_parse_url-url_text_example = afp_parse_url-url_text parts parts-AreFit default_url

escape_strrchr-unfinished_example :
    escape_strrchr 9 (codes "me::pw") 0 b':' (codes ":") ≡ Found.unfinished
escape_strrchr-unfinished_example =
    escape_strrchr-unfinished (codes "m") b'e' (codes "pw") (refl, (refl, tt)) 9

-- An IPv6 literal with a port; there is no user, and no path.
afp_parse_url_literal :
    afp_parse_url default_url (codes "afp://[fe80::1]:549/Data")
    ≡ ok
        (record default_url { servername = codes "fe80::1"; port = 549; volumename = codes "Data" })
unfolding afp_parse_url check_scheme split_parts split_host parse_port parse_user parse_volume
    escape_url escape_strchr escape_string default_url strstr stored
afp_parse_url_literal = refl

-- What stands before "afp" is not looked at, and a user part is split at its last colon.
afp_parse_url_prefix :
    afp_parse_url default_url (codes "xafp://a:b:c@tc")
    ≡ ok (record default_url {
      username = codes "a:b";
      password = codes "c";
      servername = codes "tc";
    })
unfolding afp_parse_url check_scheme split_parts split_host parse_port parse_user parse_volume
    escape_url escape_strchr escape_string default_url strstr stored split_password split_uam
afp_parse_url_prefix = refl

-- Two at signs in one password, with another character between them: the second is lost.
escape_string_far : escape_string (codes "a@b@c") b'@' ≡ codes "a@bc"
unfolding escape_string
escape_string_far = refl
