-- ===== src/Reply/Entries.antt =====
-- The replies to FPEnumerateExt2, as a server writes them and the client reads them:
-- afp_enumerateext2_reply of lib/proto_directory.c.
use time_capsule_mount.Prelude.{
  ℕ, suc, ◌+◌, ◌^◌, ◌<◌, ◌≤◌, ◌≡◌, refl, ◌∙◌, ap, Bool, some, List, [], ◌∷◌, ◌++◌, map,
  append_assoc, length, drop, drop-append, pos, arith, All, if◌then◌else◌, ltb, true, false, not,
  ◌==◌,
}
use time_capsule_mount.Reply.Fields.{ntohs-htons}
use time_capsule_mount.Afp.Types.{FileInfo}
use time_capsule_mount.Dsi.Wire.{ntohs_at, htons}
use time_capsule_mount.Reply.Block.{parse_reply_block}
use time_capsule_mount.Reply.Enumerate.{Handled, after, ext2_entries, afp_enumerateext2_reply}

-- An entry, and what the client is to know of it.
pub record Entry : Type 0 where
  pub isdir : Bool
  pub block : List ℕ
  pub info : FileInfo

-- The entry fits its size, and its block is parsed into the info whatever comes behind it.
pub record IsEntry (filebitmap dirbitmap : ℕ) (e : Entry) : Type 0 where
  pub small : length e.block + 4 < 2 ^ 16
  pub parsed :
      (rest : List ℕ)
      → parse_reply_block e.isdir filebitmap dirbitmap (e.block ++ rest) ≡ some e.info

unfoldable pub write_entry : Entry → List ℕ
unfolding htons
write_entry e = htons (length e.block + 4) ++ ((if e.isdir then 0x80 else 0) ∷ 0 ∷ e.block)

unfoldable pub write_entries : List Entry → List ℕ
unfolding write_entry
write_entries [] = []
write_entries (e ∷ es) = write_entry e ++ write_entries es

-- What follows the DSI header.
unfoldable pub write_reply : (filebitmap dirbitmap : ℕ) → List Entry → List ℕ
unfolding htons write_entries
write_reply filebitmap dirbitmap es =
    htons filebitmap ++ (htons dirbitmap ++ (htons (length es) ++ write_entries es))

abbrev infos : List Entry → List FileInfo
infos es = map (λ e. e.info) es

pub flag : (isdir : Bool) → not ((if isdir then 0x80 else 0) == 0) ≡ isdir
flag true = refl
flag false = refl

pub if_long :
    {A : Type 0} (n m : ℕ) (short long : A) → m ≤ n → (if ltb n m then short else long) ≡ long
if_long n m short long h = ground arith

ext2_entry :
    (count filebitmap dirbitmap : ℕ) (e : Entry) (rest : List ℕ)
    → IsEntry filebitmap dirbitmap e
    → ext2_entries (suc count) filebitmap dirbitmap (write_entry e ++ rest)
      ≡ after (some e.info) (ext2_entries count filebitmap dirbitmap rest)
unfolding ext2_entries write_entry htons ntohs_at
ext2_entry count filebitmap dirbitmap e rest h =
    let isdir : Bool = not ((if e.isdir then 0x80 else 0) == 0) in
    let p : List ℕ =
      htons (length e.block + 4) ++ ((if e.isdir then 0x80 else 0) ∷ 0 ∷ (e.block ++ rest)) in
    let size : ntohs_at p 0 ≡ suc (suc (suc (suc (length e.block)))) =
      ntohs-htons (length e.block + 4) h.small ∙ omega arith in
    let behind : drop (ntohs_at p 0) p ≡ rest =
      ap (λ n. drop n p) size ∙ drop-append e.block rest in
    if_long (length p) 4 _ _ (omega arith)
    ∙ ap
        (λ r.
          after (parse_reply_block isdir filebitmap dirbitmap (e.block ++ rest))
            (ext2_entries count filebitmap dirbitmap r))
        behind
    ∙ ap
        (λ d.
          after (parse_reply_block d filebitmap dirbitmap (e.block ++ rest))
            (ext2_entries count filebitmap dirbitmap rest))
        (flag e.isdir)
    ∙ ap (λ r. after r (ext2_entries count filebitmap dirbitmap rest)) (h.parsed rest)

ext2_entries-written :
    (filebitmap dirbitmap : ℕ) (es : List Entry) (tail : List ℕ)
    → All (IsEntry filebitmap dirbitmap) es
    → ext2_entries (length es) filebitmap dirbitmap (write_entries es ++ tail)
      ≡ Handled.stored (infos es)
unfolding ext2_entries write_entries after
ext2_entries-written filebitmap dirbitmap [] tail h = refl
ext2_entries-written filebitmap dirbitmap (e ∷ es) tail h =
    ap (ext2_entries (suc (length es)) filebitmap dirbitmap)
      (append_assoc (write_entry e) (write_entries es) tail)
    ∙ ext2_entry (length es) filebitmap dirbitmap e (write_entries es ++ tail) h.0
    ∙ ap (after (some e.info)) (ext2_entries-written filebitmap dirbitmap es tail h.1)

-- A reply with the entries that a server has written for its bitmaps is read into their files, in
-- order, whatever stands behind it in the buffer.
pub afp_enumerateext2_reply-write_reply :
    (filebitmap dirbitmap : ℕ) (es : List Entry) (tail : List ℕ)
    → filebitmap < 2 ^ 16
    → dirbitmap < 2 ^ 16
    → length es < 2 ^ 16
    → All (IsEntry filebitmap dirbitmap) es
    → afp_enumerateext2_reply (pos 0) (write_reply filebitmap dirbitmap es ++ tail)
      ≡ Handled.stored (infos es)
unfolding afp_enumerateext2_reply write_reply htons ntohs_at
afp_enumerateext2_reply-write_reply filebitmap dirbitmap es tail f d l h =
    let read : ℕ → ℕ = λ n. ntohs_at (htons n) 0 in
    let p : List ℕ = write_entries es ++ tail in
    if_long (length (write_reply filebitmap dirbitmap es ++ tail)) 6 _ _ (omega arith)
    ∙ ap (λ n. ext2_entries n (read filebitmap) (read dirbitmap) p) (ntohs-htons (length es) l)
    ∙ ap (λ n. ext2_entries (length es) n (read dirbitmap) p) (ntohs-htons filebitmap f)
    ∙ ap (λ n. ext2_entries (length es) filebitmap n p) (ntohs-htons dirbitmap d)
    ∙ ext2_entries-written filebitmap dirbitmap es tail h
