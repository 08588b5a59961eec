-- ===== src/Server/Versions.antt =====
-- The protocol versions: afp_versions and pick_version of lib/afp.c, dsi_parse_versions and
-- dsi_parse_uams of lib/dsi.c. A pointer into the message is what the message holds from there on. The
-- numbers of the table are below 128, so that a `char` holds them.
use Prim.Native.Nat.{min, max, bit_or}
use mathlib.Core.Option
use time_capsule_mount.Prelude.{
  ℕ, zero, suc, ◌+◌, Option, none, some, List, [], ◌∷◌, CString, codes, str_eq, ◌==◌, take, drop,
  if◌then◌else◌,
}
use time_capsule_mount.Reply.Pascal.{copy_from_pascal}
use time_capsule_mount.Url.Uams.{uam_string_to_bitmap}

-- struct afp_versions
pub record AfpVersion : Type 0 where
  pub av_name : CString
  pub av_number : ℕ

abbrev version : CString → ℕ → AfpVersion
version name number = record { av_name = name; av_number = number }

-- afp_versions, less the entry at its end
abbrev pub afp_versions : List AfpVersion
afp_versions =
    version (codes "AFPVersion 1.1") 11
    ∷ version (codes "AFPVersion 2.0") 20
    ∷ version (codes "AFPVersion 2.1") 21
    ∷ version (codes "AFP2.2") 22
    ∷ version (codes "AFPX03") 30
    ∷ version (codes "AFP3.1") 31
    ∷ version (codes "AFP3.2") 32
    ∷ []

abbrev pub max_versions : ℕ
max_versions = 10

abbrev pub max_uams : ℕ
max_uams = 10

-- AFP_UAM_LENGTH
abbrev pub uam_length : ℕ
uam_length = 24

-- The inner loop of dsi_parse_versions.
unfoldable pub number_of : List AfpVersion → CString → Option ℕ
number_of [] name = none
number_of (v ∷ vs) name = if str_eq v.av_name name then some v.av_number else number_of vs name

abbrev pub with_known : Option ℕ → List ℕ → List ℕ
with_known none versions = versions
with_known (some v) versions = v ∷ versions

-- The outer loop, for `count` names from p on: the versions that are stored. `none` is a read behind the
-- end.
unfoldable pub parse_versions : ℕ → List ℕ → Option (List ℕ)
unfolding number_of
parse_versions zero p = some []
parse_versions (suc count) p = elim (copy_from_pascal p 33) [
  | none ↦ none
  | some (len, name) ↦
      Option.map (with_known (number_of afp_versions name))
        (parse_versions count (drop (len + 1) p))
]

unfoldable pub dsi_parse_versions : List ℕ → Option (List ℕ)
unfolding parse_versions
dsi_parse_versions [] = none
dsi_parse_versions (num_versions ∷ p) = parse_versions (min num_versions max_versions) p

-- The loop of dsi_parse_uams: the bits are collected.
unfoldable pub parse_uams : ℕ → List ℕ → Option ℕ
parse_uams zero p = some 0
parse_uams (suc count) p = elim (copy_from_pascal p uam_length) [
  | none ↦ none
  | some (len, name) ↦
      Option.map (bit_or (uam_string_to_bitmap name)) (parse_uams count (drop (len + 1) p))
]

unfoldable pub dsi_parse_uams : List ℕ → Option ℕ
unfolding parse_uams
dsi_parse_uams [] = none
dsi_parse_uams (num_uams ∷ p) = parse_uams (min num_uams max_uams) p

-- The first loop of pick_version: version_num in the end.
unfoldable pub pick_number : (requested : ℕ) → (versions : List ℕ) → (highest : ℕ) → ℕ
pick_number requested [] highest = highest
pick_number requested (v ∷ vs) highest =
    let rest = pick_number requested vs (max highest v) in
    if v == 0 then highest else (if v == requested then v else rest)

-- The second loop of pick_version.
unfoldable pub find_number : List AfpVersion → ℕ → Option AfpVersion
find_number [] n = none
find_number (v ∷ vs) n = if v.av_number == n then some v else find_number vs n

unfoldable pub pick_version : (versions : List ℕ) → (requested : ℕ) → Option AfpVersion
unfolding pick_number find_number
pick_version versions requested =
    find_number afp_versions (pick_number (min requested 32) (take max_versions versions) 0)
