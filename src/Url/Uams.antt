-- ===== src/Url/Uams.antt =====
-- lib/uams_def.c: the names of the authentication methods and their bits; pick_uam of lib/afp.c.
use Prim.Native.Nat.{bit_and}
use time_capsule_mount.Prelude.{
  ℕ, zero, suc, ◌+◌, ◌^◌, Bool, true, false, ◌&&◌, Option, none, some, List, [], ◌∷◌, CString,
  codes, ℤ, pos, neg, ◌==◌, leb, if◌then◌else◌,
}

-- afp_strings, less the empty one at its end
abbrev pub afp_strings : List CString
afp_strings =
    codes "No User Authent"
    ∷ codes "Cleartxt Passwrd"
    ∷ codes "Randnum Exchange"
    ∷ codes "2-Way Randnum Exchange"
    ∷ codes "DHCAST128"
    ∷ codes "Client Krb v2"
    ∷ codes "DHX2"
    ∷ codes "Recon1"
    ∷ []

-- tolower in the C locale
abbrev pub tolower : ℕ → ℕ
tolower c = if leb 65 c && leb c 90 then c + 32 else c

-- strcasecmp(s, t) == 0
unfoldable pub same_letters : CString → CString → Bool
same_letters [] [] = true
same_letters (a ∷ s) (b ∷ t) = tolower a == tolower b && same_letters s t
same_letters [] (b ∷ t) = false
same_letters (a ∷ s) [] = false

-- The loop of uam_string_to_bitmap, from the entry i on.
unfoldable pub bit_of : CString → List CString → ℕ → ℕ
unfolding same_letters
bit_of name [] i = 0
bit_of name (s ∷ ss) i = if same_letters name s then 2 ^ i else bit_of name ss (i + 1)

unfoldable pub uam_string_to_bitmap : CString → ℕ
unfolding bit_of
uam_string_to_bitmap name = bit_of name afp_strings 0

-- The loops of uam_bitmap_to_string and pick_uam: the highest bit below n that is set.
unfoldable pub highest_bit : ℕ → ℕ → Option ℕ
highest_bit zero bitmap = none
highest_bit (suc i) bitmap = if bit_and bitmap (2 ^ i) == 0 then highest_bit i bitmap else some i

unfoldable pub pick_uam : ℕ → ℕ → ℤ
unfolding highest_bit
pick_uam uam2 uam1 = elim (highest_bit 16 (bit_and uam2 uam1)) [
  | none ↦ neg 1
  | some i ↦ pos (2 ^ i)
]
