-- ===== src/Packet/Volumes.antt =====
-- The packets of lib/proto_volume.c and lib/proto_map.c with which a volume is opened and closed and a name
-- is mapped, after the DSI header, and what a server reads in the first. `garbage` is what malloc leaves in
-- a byte that is not written. The names are shorter than 256 bytes.
use Prim.Native.Nat.{min}
use time_capsule_mount.Prelude.{
  ℕ, zero, suc, ◌+◌, ◌-◌, ◌/◌, ◌*◌, ◌%◌, ◌^◌, ◌≤◌, ◌<◌, ◌≡◌, refl, ap, ◌∙◌, false, Option, none,
  some, List, [], ◌∷◌, ◌++◌, CString, ◌==◌, if◌then◌else◌, length, take, replicate, take_all, arith,
  true, Bool-cases, inl, inr, length-append, length-replicate,
}
use time_capsule_mount.Dsi.Wire.{htons, ntohs_at}
use time_capsule_mount.Reply.Pascal.{until_nul, copy_to_pascal, IsString}
use time_capsule_mount.Handshake.Received.{decode_pascal}
use time_capsule_mount.Handshake.RoundTrip.{decode_pascal-copy_to_pascal}

unfoldable pub afp_volclose : (volid : ℕ) → List ℕ
afp_volclose volid = 2 ∷ 0 ∷ htons volid

unfoldable pub afp_mapname : (subfunction : ℕ) → CString → List ℕ
afp_mapname subfunction name = 22 ∷ subfunction ∷ copy_to_pascal name

-- AFP_VOLPASS_LEN bytes, cleared behind the password.
unfoldable pub password_field : CString → List ℕ
password_field password =
    let len2 = min (length password % 256) 8 in take len2 password ++ replicate (8 - len2) 0

-- The password begins at an even offset of the packet: the header and the four bytes before the name are
-- 20 bytes.
unfoldable pub afp_volopen :
    (garbage bitmap : ℕ) → (volume_name : CString) → (password : Option CString) → List ℕ
unfolding password_field
afp_volopen garbage bitmap volume_name password =
    let pad = if (length volume_name + 29) % 2 == 0 then [] else garbage ∷ [] in
    let last : List ℕ = elim password [
      | none ↦ []
      | some password ↦ pad ++ password_field password
    ] in
    24 ∷ 0 ∷ (htons bitmap ++ (copy_to_pascal volume_name ++ last))

-- The bitmap, the name, and the password, where there is one.
abbrev pub Opened : Type 0
Opened = Option (ℕ × CString × Option CString)

-- What is behind a name of n bytes.
unfoldable pub decode_password : (n : ℕ) → List ℕ → Option CString
decode_password n [] = none
decode_password n (x ∷ xs) = some (until_nul (take 8 (if (n + 21) % 2 == 0 then x ∷ xs else xs)))

unfoldable pub decode_volopen : List ℕ → Opened
unfolding decode_pascal decode_password
decode_volopen (c ∷ flag ∷ b0 ∷ b1 ∷ b) = elim (decode_pascal b) [
  | none ↦ none
  | some (name, rest) ↦
      if c == 24
      then some (ntohs_at (b0 ∷ b1 ∷ []) 0, name, decode_password (length name) rest)
      else none
]
decode_volopen _ = none

-- A string with terminators behind it.
until_nul-replicate : (s : CString) (n : ℕ) → IsString s → until_nul (s ++ replicate n 0) ≡ s
unfolding until_nul
until_nul-replicate [] zero h = refl
until_nul-replicate [] (suc n) h = refl
until_nul-replicate (x ∷ s) n h = ground (arith, until_nul-replicate s n h.1)

abbrev pub IsPassword : CString → Type 0
IsPassword s = IsString s × (length s ≤ 8)

password_field-whole :
    (s : CString) → IsPassword s → password_field s ≡ s ++ replicate (8 - length s) 0
unfolding password_field
password_field-whole s h =
    let cut : min (length s % 256) 8 ≡ length s = omega (arith, h.1) in
    let all : take (length s) s ≡ s = take_all (length s) s (omega arith) in rw (cut, all) refl

field_read : (s : CString) → IsPassword s → until_nul (take 8 (password_field s)) ≡ s
field_read s h =
    let size : length (password_field s) ≤ 8 = omega (
      arith,
      ap length (password_field-whole s h),
      length-append s (replicate (8 - length s) 0),
      length-replicate {A = ℕ} (8 - length s) 0,
      h.1,
    ) in
    ap until_nul (take_all 8 (password_field s) size ∙ password_field-whole s h)
    ∙ until_nul-replicate s (8 - length s) h.0

-- Without and with the byte before the password.
decode_password-even :
    (n : ℕ) (p : List ℕ)
    → ((n + 29) % 2 == 0) ≡ true
    → 0 < length p
    → decode_password n p ≡ some (until_nul (take 8 p))
unfolding decode_password
decode_password-even n [] e h = absurd (omega arith)
decode_password-even n (x ∷ xs) e h =
    let e' : ((n + 21) % 2 == 0) ≡ true = ground arith in rw e' refl

decode_password-odd :
    (garbage n : ℕ) (p : List ℕ)
    → ((n + 29) % 2 == 0) ≡ false
    → decode_password n (garbage ∷ p) ≡ some (until_nul (take 8 p))
unfolding decode_password
decode_password-odd garbage n p e =
    let e' : ((n + 21) % 2 == 0) ≡ false = ground arith in rw e' refl

decode_password-field :
    (garbage n : ℕ) (s : CString)
    → IsPassword s
    → decode_password n ((if (n + 29) % 2 == 0 then [] else garbage ∷ []) ++ password_field s)
      ≡ some s
decode_password-field garbage n s h = elim (Bool-cases ((n + 29) % 2 == 0)) [
  | inl even ↦
      let some_part : 0 < length (password_field s) = omega (
        arith,
        ap length (password_field-whole s h),
        length-append s (replicate (8 - length s) 0),
        length-replicate {A = ℕ} (8 - length s) 0,
        h.1,
      ) in
      ap (λ b. decode_password n ((if b then [] else garbage ∷ []) ++ password_field s)) even
      ∙ decode_password-even n (password_field s) even some_part
      ∙ ap some (field_read s h)
  | inr odd ↦
      ap (λ b. decode_password n ((if b then [] else garbage ∷ []) ++ password_field s)) odd
      ∙ decode_password-odd garbage n (password_field s) odd
      ∙ ap some (field_read s h)
]

decode_volopen-named :
    (bitmap : ℕ) (name : CString) (rest : List ℕ)
    → bitmap < 2 ^ 16
    → length name < 256
    → decode_volopen (24 ∷ 0 ∷ (htons bitmap ++ (copy_to_pascal name ++ rest)))
      ≡ some (bitmap, name, decode_password (length name) rest)
unfolding htons decode_volopen ntohs_at
decode_volopen-named bitmap name rest b n =
    let bits : bitmap / 256 % 256 * 256 + bitmap % 256 ≡ bitmap = omega arith in
    rw (decode_pascal-copy_to_pascal name rest n, decode_volopen) (rw bits refl)

-- A server reads in the packet that opens a volume the bitmap, the name of the volume, and the password
-- as it was given, where the name has fewer than 256 bytes and the password at most 8.
pub decode_volopen-afp_volopen :
    (garbage bitmap : ℕ) (name password : CString)
    → bitmap < 2 ^ 16
    → length name < 256
    → IsPassword password
    → (decode_volopen (afp_volopen garbage bitmap name none) ≡ some (bitmap, name, none))
      × (decode_volopen (afp_volopen garbage bitmap name (some password))
          ≡ some (bitmap, name, some password))
unfolding afp_volopen decode_password
decode_volopen-afp_volopen garbage bitmap name password b n h =
    let pad = if (length name + 29) % 2 == 0 then [] else garbage ∷ [] in
    (
      decode_volopen-named bitmap name [] b n,
      decode_volopen-named bitmap name (pad ++ password_field password) b n
          ∙ ap (λ w. some (bitmap, name, w))
              (decode_password-field garbage (length name) password h),
    )
