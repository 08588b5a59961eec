-- ===== src/Reply/Fields.antt =====
-- Reading the fields of a block of lib/proto_replyblock.c one after the other, as a server writes them.
use time_capsule_mount.Prelude.{
  ℕ, ◌/◌, ◌%◌, ◌^◌, ◌<◌, ◌≡◌, refl, subst, sym, ap, ◌∙◌, Bool, true, false, some, List, [], ◌∷◌,
  ◌++◌, append_assoc, if◌then◌else◌, length, take, drop, arith, take-append, drop-append,
  Bool-cases, inl, inr,
}
use time_capsule_mount.Afp.Types.{FileInfo}
use time_capsule_mount.Dsi.Wire.{ntohs_at, ntohl_at, htons, htonl}
use time_capsule_mount.Reply.Block.{Field, parse_fields, ntoh64, short, long, long_long, passed}
use time_capsule_mount.Reply.Pascal.{length-append-le}

-- A field with the bytes that a server writes for it, and what the client is to make of them.
pub record Column : Type 0 where
  pub field : Field
  pub bytes : List ℕ
  pub becomes : FileInfo → FileInfo
  pub fits : length bytes ≡ field.width
  pub stores : (f : FileInfo) → field.present ≡ true → field.store bytes f ≡ some (becomes f)
  pub keeps : (f : FileInfo) → field.present ≡ false → f ≡ becomes f

-- The bytes of the fields that are present.
unfoldable pub written : List Column → List ℕ
written [] = []
written (c ∷ cs) = if c.field.present then c.bytes ++ written cs else written cs

unfoldable pub result : List Column → FileInfo → FileInfo
result [] f = f
result (c ∷ cs) f = result cs (c.becomes f)

parse_fields-present :
    (c : Column) (fs : List Field) (p2 : List ℕ) (f : FileInfo)
    → c.field.present ≡ true
    → parse_fields (c.field ∷ fs) (c.bytes ++ p2) f ≡ parse_fields fs p2 (c.becomes f)
unfolding parse_fields
parse_fields-present c fs p2 f e =
    let cut : take c.field.width (c.bytes ++ p2) ≡ c.bytes =
      subst (λ n. take n (c.bytes ++ p2) ≡ c.bytes) c.fits (take-append c.bytes p2) in
    let rest : drop c.field.width (c.bytes ++ p2) ≡ p2 =
      subst (λ n. drop n (c.bytes ++ p2) ≡ p2) c.fits (drop-append c.bytes p2) in
    ground (arith, cut, rest, c.fits, c.stores f e, length-append-le c.bytes p2)

written-present :
    (c : Column) (cs : List Column) (tail : List ℕ)
    → c.field.present ≡ true
    → written (c ∷ cs) ++ tail ≡ c.bytes ++ (written cs ++ tail)
unfolding written
written-present c cs tail e = rw e (append_assoc c.bytes (written cs) tail)

abbrev pub fields_of : List Column → List Field
fields_of [] = []
fields_of (c ∷ cs) = c.field ∷ fields_of cs

parse_fields-absent :
    (c : Column) (cs : List Column) (tail : List ℕ) (f : FileInfo)
    → c.field.present ≡ false
    → parse_fields (fields_of (c ∷ cs)) (written (c ∷ cs) ++ tail) f
      ≡ parse_fields (fields_of cs) (written cs ++ tail) (c.becomes f)
unfolding parse_fields written
parse_fields-absent c cs tail f e = rw (e, sym (c.keeps f e)) refl

parse_fields-step :
    (c : Column) (cs : List Column) (tail : List ℕ) (f : FileInfo)
    → parse_fields (fields_of (c ∷ cs)) (written (c ∷ cs) ++ tail) f
      ≡ parse_fields (fields_of cs) (written cs ++ tail) (c.becomes f)
parse_fields-step c cs tail f = elim (Bool-cases c.field.present) [
  | inl e ↦
      ap (λ p. parse_fields (fields_of (c ∷ cs)) p f) (written-present c cs tail e)
      ∙ parse_fields-present c (fields_of cs) (written cs ++ tail) f e
  | inr e ↦ parse_fields-absent c cs tail f e
]

pub parse_fields-written :
    (cs : List Column) (tail : List ℕ) (f : FileInfo)
    → parse_fields (fields_of cs) (written cs ++ tail) f ≡ some (result cs f)
unfolding parse_fields written result
parse_fields-written [] tail f = refl
parse_fields-written (c ∷ cs) tail f =
    parse_fields-step c cs tail f ∙ parse_fields-written cs tail (c.becomes f)

unfoldable pub hton64 : ℕ → List ℕ
hton64 n = htonl (n / 2 ^ 32) ++ htonl (n % 2 ^ 32)

pub ntohs-htons : (n : ℕ) → n < 2 ^ 16 → ntohs_at (htons n) 0 ≡ n
unfolding ntohs_at htons
ntohs-htons n h = omega arith

pub ntohs-htons_behind : (n : ℕ) (rest : List ℕ) → n < 2 ^ 16 → ntohs_at (htons n ++ rest) 0 ≡ n
unfolding ntohs_at htons
ntohs-htons_behind n rest h = omega arith

pub ntohl-htonl : (n : ℕ) → n < 2 ^ 32 → ntohl_at (htonl n) 0 ≡ n
unfolding ntohl_at htonl
ntohl-htonl n h = omega arith

pub ntoh64-hton64 : (n : ℕ) → n < 2 ^ 64 → ntoh64 (hton64 n) ≡ n
unfolding ntoh64 hton64 htonl
ntoh64-hton64 n h = omega arith

pub length-htons : (n : ℕ) → length (htons n) ≡ 2
unfolding htons
length-htons n = refl

pub length-htonl : (n : ℕ) → length (htonl n) ≡ 4
unfolding htonl
length-htonl n = refl

pub length-hton64 : (n : ℕ) → length (hton64 n) ≡ 8
unfolding hton64 htonl
length-hton64 n = refl

-- Where a number is stored in a struct.
pub record Place : Type 0 where
  pub put : ℕ → FileInfo → FileInfo
  pub get : FileInfo → ℕ
  pub put-get : (f : FileInfo) → f ≡ put (get f) f

module _ (b : Bool) (view : ℕ → ℕ) (n : ℕ) (p : Place) where
  abbrev pub chosen : FileInfo → FileInfo
  chosen f = p.put (if b then view n else p.get f) f

  pub chosen-true :
      (m : ℕ) (f : FileInfo) → m ≡ n → b ≡ true → some (p.put (view m) f) ≡ some (chosen f)
  chosen-true m f h e = rw (e, h) refl

  pub chosen-false : (f : FileInfo) → b ≡ false → f ≡ chosen f
  chosen-false f e = rw e (p.put-get f)

  -- A number in a field of 2, 4 or 8 bytes, of which a view is stored.
  abbrev pub short_column : n < 2 ^ 16 → Column
  short_column small = record {
    field = short b (λ m. p.put (view m));
    bytes = htons n;
    becomes = chosen;
    fits = length-htons n;
    stores = λ f e. chosen-true _ f (ntohs-htons n small) e;
    keeps = chosen-false;
  }

  abbrev pub long_column : n < 2 ^ 32 → Column
  long_column small = record {
    field = long b (λ m. p.put (view m));
    bytes = htonl n;
    becomes = chosen;
    fits = length-htonl n;
    stores = λ f e. chosen-true _ f (ntohl-htonl n small) e;
    keeps = chosen-false;
  }

  abbrev pub long_long_column : n < 2 ^ 64 → Column
  long_long_column small = record {
    field = long_long b (λ m. p.put (view m));
    bytes = hton64 n;
    becomes = chosen;
    fits = length-hton64 n;
    stores = λ f e. chosen-true _ f (ntoh64-hton64 n small) e;
    keeps = chosen-false;
  }

-- A field that the client passes over.
abbrev pub passed_column : (b : Bool) (bytes : List ℕ) → Column
passed_column b bytes = record {
  field = passed b (length bytes);
  bytes = bytes;
  becomes = λ f. f;
  fits = refl;
  stores = λ f e. refl;
  keeps = λ f e. refl;
}
