-- ===== src/Reply/VolumeBlock.antt =====
-- Reading the fields of a reply on a volume one after the other, for parse_volbitmap_reply of
-- lib/proto_volume.c.
use time_capsule_mount.Prelude.{
  ℕ, ◌≡◌, refl, subst, ap, ◌∙◌, true, false, Bool-cases, inl, inr, some, List, [], ◌∷◌, ◌++◌,
  if◌then◌else◌, length, take, drop, arith, take-append, drop-append,
}
use time_capsule_mount.Reply.Block.{has}
use time_capsule_mount.Reply.Pascal.{length-append-le}
use time_capsule_mount.Reply.Volumes.{VolParms, VolField, parse_vol_fields}

-- A field with the bytes that a server writes for it, and what the client is to make of them.
pub record Column (bitmap : ℕ) : Type 0 where
  pub field : VolField
  pub bytes : List ℕ
  pub becomes : VolParms → VolParms
  pub fits : length bytes ≡ field.width
  pub stores : (v : VolParms) → has bitmap field.bit ≡ true → field.store bytes v ≡ becomes v
  pub keeps : (v : VolParms) → has bitmap field.bit ≡ false → v ≡ becomes v

module _ (bitmap : ℕ) where
  abbrev pub fields_of : List (Column bitmap) → List VolField
  fields_of [] = []
  fields_of (c ∷ cs) = c.field ∷ fields_of cs

  abbrev pub written : List (Column bitmap) → List ℕ → List ℕ
  written [] tail = tail
  written (c ∷ cs) tail = (if has bitmap c.field.bit then c.bytes else []) ++ written cs tail

  abbrev pub result : List (Column bitmap) → VolParms → VolParms
  result [] v = v
  result (c ∷ cs) v = result cs (c.becomes v)

  parse-present :
      (c : Column bitmap) (fs : List VolField) (p : List ℕ) (v : VolParms)
      → has bitmap c.field.bit ≡ true
      → parse_vol_fields (c.field ∷ fs) bitmap (c.bytes ++ p) v
        ≡ parse_vol_fields fs bitmap p (c.becomes v)
  unfolding parse_vol_fields
  parse-present c fs p v e =
      let cut : take c.field.width (c.bytes ++ p) ≡ c.bytes =
        subst (λ n. take n (c.bytes ++ p) ≡ c.bytes) c.fits (take-append c.bytes p) in
      let rest : drop c.field.width (c.bytes ++ p) ≡ p =
        subst (λ n. drop n (c.bytes ++ p) ≡ p) c.fits (drop-append c.bytes p) in
      ground (arith, cut, rest, c.fits, c.stores v e, length-append-le c.bytes p)

  parse-absent :
      (c : Column bitmap) (fs : List VolField) (p : List ℕ) (v : VolParms)
      → has bitmap c.field.bit ≡ false
      → parse_vol_fields (c.field ∷ fs) bitmap p v ≡ parse_vol_fields fs bitmap p (c.becomes v)
  unfolding parse_vol_fields
  parse-absent c fs p v e = rw e (ap (parse_vol_fields fs bitmap p) (c.keeps v e))

  pub parse-written :
      (cs : List (Column bitmap)) (tail : List ℕ) (v : VolParms)
      → parse_vol_fields (fields_of cs) bitmap (written cs tail) v ≡ some (result cs v)
  unfolding parse_vol_fields
  parse-written [] tail v = refl
  parse-written (c ∷ cs) tail v = elim (Bool-cases (has bitmap c.field.bit)) [
    | inl e ↦
        ap
          (λ b.
            parse_vol_fields (fields_of (c ∷ cs)) bitmap
              ((if b then c.bytes else []) ++ written cs tail) v)
          e
        ∙ parse-present c (fields_of cs) (written cs tail) v e
        ∙ parse-written cs tail (c.becomes v)
    | inr e ↦
        ap
          (λ b.
            parse_vol_fields (fields_of (c ∷ cs)) bitmap
              ((if b then c.bytes else []) ++ written cs tail) v)
          e
        ∙ parse-absent c (fields_of cs) (written cs tail) v e
        ∙ parse-written cs tail (c.becomes v)
  ]
