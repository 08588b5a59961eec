-- ===== src/Server/Opening.antt =====
-- afp_connect_volume of lib/afp.c: a volume is opened and marked as mounted.
use time_capsule_mount.Prelude.{
  ℕ, zero, suc, ◌≡◌, refl, ap, ◌∙◌, Bool, true, false, not, ◌&&◌, Option, none, some, List, [], ◌∷◌,
  ℤ, pos, neg, ◌==◌, ◌==ℤ◌, ==ℤ_iff, ◌||◌, ◌⊎◌, inl, inr, Bool-cases, Option-cases, subst, arith,
  leb, if◌then◌else◌,
}
use time_capsule_mount.Afp.Codes.{
  no_err, access_denied, bitmap_err, misc_err, object_not_found, param_err,
}
use time_capsule_mount.Afp.Bits.{utf8_name, long_name}
use time_capsule_mount.Volume.Control.{switch}
use time_capsule_mount.Reply.Block.{has}
use time_capsule_mount.Server.Volumes.{
  Mounted, is_mounted, AfpVolume, Mounts, get_volume, set_volume, afp_unmount_volume,
}

-- The lines that are written into mesg.
pub data Remark : Type 0 where
  incorrect_password could_not_open timed_out changes_encoding not_fixed : Remark

-- What afp_volopen returned, and the attributes and the signature that its reply stored.
pub record Answer : Type 0 where
  pub ret : ℤ
  pub attributes : ℕ
  pub signature : ℕ

-- The volumes, the encoding of the server, the flag VOL_SUPPORTS_UNIX of the volume, and the lines,
-- newest first.
pub record Opening : Type 0 where
  pub mounts : Mounts
  pub path_encoding : ℕ
  pub supports_unix : Bool
  pub remarks : List Remark

-- The switch on the result: the line with which it fails. 110 is ETIMEDOUT. There is no default.
unfoldable pub refusal : ℤ → Option Remark
refusal ret =
    switch ret
      ((access_denied, some Remark.incorrect_password)
        ∷ (no_err, none)
        ∷ (bitmap_err, some Remark.could_not_open)
        ∷ (misc_err, some Remark.could_not_open)
        ∷ (object_not_found, some Remark.could_not_open)
        ∷ (param_err, some Remark.could_not_open)
        ∷ (pos 110, some Remark.timed_out)
        ∷ [])
      none

abbrev pub mark_mounted : ℕ → Mounts → Mounts
mark_mounted i m = elim (get_volume m.volumes i) [
  | none ↦ m
  | some v ↦ record m { volumes = set_volume m.volumes i (record v { state = Mounted.mounted }) }
]

-- 0x40 is kSupportsUTF8Names.
abbrev pub new_encoding : ℕ → ℕ
new_encoding attributes = if has attributes 0x40 then utf8_name else long_name

abbrev pub encoded : ℕ → Opening → Opening
encoded attributes s = record s {
  path_encoding = new_encoding attributes;
  remarks =
      if new_encoding attributes == s.path_encoding
      then s.remarks
      else Remark.changes_encoding ∷ s.remarks;
}

-- From the encoding on, for the volume at i of a server of the version `av_number`. 2 is AFP_VOL_FIXED, and
-- 0x20 kSupportsUnixPrivs.
unfoldable pub connect_opened :
    (i av_number : ℕ) → (is_netatalk : Bool) → Answer → Opening → ℤ × Opening
unfolding afp_unmount_volume
connect_opened i av_number is_netatalk a s =
    if a.signature == 2
    then (
      pos 0,
      record s {
        mounts = mark_mounted i s.mounts;
        supports_unix =
            if leb 30 av_number
            then not (is_netatalk && not (has a.attributes 0x20))
            else s.supports_unix;
      },
    )
    else (
      pos 1,
      record s {
        mounts = (afp_unmount_volume i s.mounts).1;
        remarks = Remark.not_fixed ∷ s.remarks;
      },
    )

unfoldable pub afp_connect_volume :
    (i av_number : ℕ) → (is_netatalk : Bool) → Answer → Opening → ℤ × Opening
unfolding refusal connect_opened
afp_connect_volume i av_number is_netatalk a s = elim (refusal a.ret) [
  | some line ↦ (pos 1, record s { remarks = line ∷ s.remarks })
  | none ↦ connect_opened i av_number is_netatalk a (encoded a.attributes s)
]

-- The results of afp_volopen that are errors.
abbrev pub reports : ℤ → Bool
reports ret =
    ret ==ℤ access_denied
    || (ret ==ℤ bitmap_err
        || (ret ==ℤ misc_err
            || (ret ==ℤ object_not_found || (ret ==ℤ param_err || ret ==ℤ pos 110))))

silent-refusal : (ret : ℤ) → reports ret ≡ false → refusal ret ≡ none
unfolding refusal
silent-refusal ret h = ground arith

reports-refusal : (ret : ℤ) → reports ret ≡ true → (line : Remark) × (refusal ret ≡ some line)
unfolding refusal
reports-refusal ret h = elim (Option-cases (refusal ret)) [
  | inr found ↦ found
  | inl e ↦ absurd (elim (Bool-cases (ret ==ℤ no_err)) [
    | inl z ↦
        let zero_ret = (==ℤ_iff ret no_err).0 z in cc (subst (λ r. reports r ≡ true) zero_ret h)
    | inr z ↦ ground (arith)
  ])
]

get-set :
    (vs : List AfpVolume) (i : ℕ) (v w : AfpVolume)
    → get_volume vs i ≡ some v
    → get_volume (set_volume vs i w) i ≡ some w
get-set [] i v w e = cc
get-set (u ∷ vs) zero v w e = refl
get-set (u ∷ vs) (suc i) v w e = get-set vs i v w e

module _ (i av_number : ℕ) (is_netatalk : Bool) (a : Answer) (s : Opening) (v : AfpVolume)
    (found : get_volume s.mounts.volumes i ≡ some v) where
  marks : mark_mounted i s.mounts ≡ record s.mounts {
    volumes = set_volume s.mounts.volumes i (record v { state = Mounted.mounted });
  }
  marks = rw (found, mark_mounted) refl

  marked :
      get_volume (mark_mounted i s.mounts).volumes i ≡ some (record v { state = Mounted.mounted })
  marked =
      let w : AfpVolume = record v { state = Mounted.mounted } in
      ap (λ m. get_volume m.volumes i) marks ∙ get-set s.mounts.volumes i v w found

  not_mounted : is_mounted v.state ≡ false → afp_unmount_volume i s.mounts ≡ (neg 1, s.mounts)
  unfolding afp_unmount_volume
  not_mounted down = rw (found, afp_unmount_volume) (rw down refl)

  let_in :
      refusal a.ret ≡ none
      → afp_connect_volume i av_number is_netatalk a s
        ≡ connect_opened i av_number is_netatalk a (encoded a.attributes s)
  unfolding afp_connect_volume
  let_in ok = rw (ok, afp_connect_volume) refl

  with_fixed_ids :
      (a.signature == 2) ≡ true
      → ((connect_opened i av_number is_netatalk a (encoded a.attributes s)).0 ≡ pos 0)
        × ((connect_opened i av_number is_netatalk a (encoded a.attributes s)).1.mounts
            ≡ mark_mounted i s.mounts)
        × ((connect_opened i av_number is_netatalk a (encoded a.attributes s)).1.path_encoding
            ≡ new_encoding a.attributes)
  unfolding connect_opened
  with_fixed_ids fixed = (
    rw (fixed, connect_opened) refl,
    rw (fixed, connect_opened) refl,
    rw (fixed, connect_opened) refl,
  )

  with_loose_ids :
      (a.signature == 2) ≡ false
      → ((connect_opened i av_number is_netatalk a (encoded a.attributes s)).0 ≡ pos 1)
        × ((connect_opened i av_number is_netatalk a (encoded a.attributes s)).1.mounts
            ≡ (afp_unmount_volume i s.mounts).1)
  unfolding connect_opened
  with_loose_ids loose = (rw (loose, connect_opened) refl, rw (loose, connect_opened) refl)

  refused :
      (line : Remark)
      → refusal a.ret ≡ some line
      → afp_connect_volume i av_number is_netatalk a s
        ≡ (pos 1, record s { remarks = line ∷ s.remarks })
  unfolding afp_connect_volume
  refused line e = rw (e, afp_connect_volume) refl

  refuses :
      reports a.ret ≡ true
      → ((afp_connect_volume i av_number is_netatalk a s).0 ≡ pos 1)
        × ((afp_connect_volume i av_number is_netatalk a s).1.mounts ≡ s.mounts)
  refuses e =
      let (line, e') = reports-refusal a.ret e in
      (ap (λ r. r.0) (refused line e'), ap (λ r. r.1.mounts) (refused line e'))

  loose_ids :
      (a.signature == 2) ≡ false
      → is_mounted v.state ≡ false
      → refusal a.ret ≡ none
      → ((afp_connect_volume i av_number is_netatalk a s).0 ≡ pos 1)
        × ((afp_connect_volume i av_number is_netatalk a s).1.mounts ≡ s.mounts)
  loose_ids loose down ok =
      let (ret, mounts) = with_loose_ids loose in
      (
        ap (λ r. r.0) (let_in ok) ∙ ret,
        ap (λ r. r.1.mounts) (let_in ok) ∙ mounts ∙ ap (λ r. r.1) (not_mounted down),
      )

  -- For a volume that is not mounted: where afp_volopen returns none of kFPAccessDenied, kFPBitmapErr,
  -- kFPMiscErr, kFPObjectNotFound, kFPParamErr and ETIMEDOUT, and the volume has fixed ids,
  -- afp_connect_volume returns 0, marks the volume as mounted, and takes UTF-8 names as the encoding of
  -- paths if the volume has them and long names if not. Where afp_volopen returns one of these, or the
  -- ids are not fixed, it returns 1 and leaves all volumes as they were, with no call for the volume
  -- that was opened.
  pub afp_connect_volume-mounted :
      is_mounted v.state ≡ false
      → (reports a.ret ≡ false
          → (a.signature == 2) ≡ true
          → ((afp_connect_volume i av_number is_netatalk a s).0 ≡ pos 0)
            × (get_volume (afp_connect_volume i av_number is_netatalk a s).1.mounts.volumes i
                ≡ some (record v { state = Mounted.mounted }))
            × ((afp_connect_volume i av_number is_netatalk a s).1.path_encoding
                ≡ (if has a.attributes 0x40 then utf8_name else long_name)))
        × ((reports a.ret ≡ true) ⊎ ((a.signature == 2) ≡ false)
            → ((afp_connect_volume i av_number is_netatalk a s).0 ≡ pos 1)
              × ((afp_connect_volume i av_number is_netatalk a s).1.mounts ≡ s.mounts))
  afp_connect_volume-mounted down = (
    λ clear fixed.
        let ok = silent-refusal a.ret clear in
        let (ret, mounts, encoding) = with_fixed_ids fixed in
        (
          ap (λ r. r.0) (let_in ok) ∙ ret,
          ap (λ r. get_volume r.1.mounts.volumes i) (let_in ok)
              ∙ ap (λ m. get_volume m.volumes i) mounts
              ∙ marked,
          ap (λ r. r.1.path_encoding) (let_in ok) ∙ encoding,
        ),
    λ fails. elim (Bool-cases (reports a.ret)) [
      | inl e ↦ refuses e
      | inr e ↦ elim fails [
        | inl e' ↦ refuses e'
        | inr loose ↦ loose_ids loose down (silent-refusal a.ret e)
      ]
    ],
  )
