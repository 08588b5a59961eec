-- ===== src/Reply/Enumerate.antt =====
-- The handlers of the replies to FPEnumerate and FPEnumerateExt2: afp_enumerate_reply and
-- afp_enumerateext2_reply of lib/proto_directory.c. `body` is the packet after its DSI header, whose
-- error code is given; `p` is what the buffer holds from there on.
use time_capsule_mount.Prelude.{
  ℕ, zero, suc, not, Option, none, some, List, [], ◌∷◌, ℤ, neg, is_set, ◌==◌, leb, ltb, length,
  drop, get_or, if◌then◌else◌,
}
use time_capsule_mount.Afp.Types.{FileInfo}
use time_capsule_mount.Dsi.Wire.{ntohs_at}
use time_capsule_mount.Reply.Block.{parse_reply_block}

-- What a handler does: it returns a code without storing anything, it stores the files and returns 0,
-- or it reads behind the end of the buffer, which is undefined.
pub data Handled : Type 0 where
  returned : ℤ → Handled
  stored : List FileInfo → Handled
  undefined : Handled

-- One more file in front.
unfoldable pub after : Option FileInfo → Handled → Handled
after none rest = Handled.undefined
after (some filecur) (Handled.stored files) = Handled.stored (filecur ∷ files)
after (some filecur) Handled.undefined = Handled.undefined
after (some filecur) (Handled.returned rc) = Handled.returned rc

-- The loop of afp_enumerateext2_reply, for `count` entries.
unfoldable pub ext2_entries : (count filebitmap dirbitmap : ℕ) → List ℕ → Handled
unfolding after
ext2_entries zero filebitmap dirbitmap p = Handled.stored []
ext2_entries (suc count) filebitmap dirbitmap p =
    let rest = ext2_entries count filebitmap dirbitmap (drop (ntohs_at p 0) p) in
    let isdir = not (get_or p 2 0 == 0) in
    if ltb (length p) 4
    then Handled.undefined
    else after (parse_reply_block isdir filebitmap dirbitmap (drop 4 p)) rest

unfoldable pub afp_enumerateext2_reply : (error_code : ℤ) → (body : List ℕ) → Handled
unfolding ext2_entries
afp_enumerateext2_reply error_code body =
    if is_set error_code
    then Handled.returned error_code
    else (if ltb (length body) 6
        then Handled.returned (neg 1)
        else ext2_entries (ntohs_at body 4) (ntohs_at body 0) (ntohs_at body 2) (drop 6 body))

-- The loop of afp_enumerate_reply: `none` is a `p` above `max`. The size is one byte.
unfoldable pub entries : (count filebitmap dirbitmap : ℕ) → Option (List ℕ) → Handled
unfolding after
entries zero filebitmap dirbitmap p = Handled.stored []
entries (suc count) filebitmap dirbitmap none = Handled.returned (neg 1)
entries (suc count) filebitmap dirbitmap (some p) =
    let size = get_or p 0 0 in
    let rest =
      entries count filebitmap dirbitmap
        (if leb size (length p) then some (drop size p) else none) in
    let isdir = not (get_or p 1 0 == 0) in
    if ltb (length p) 2
    then Handled.undefined
    else after (parse_reply_block isdir filebitmap dirbitmap (drop 2 p)) rest

unfoldable pub afp_enumerate_reply : (error_code : ℤ) → (body : List ℕ) → Handled
unfolding entries
afp_enumerate_reply error_code body =
    if is_set error_code
    then Handled.returned error_code
    else (if ltb (length body) 6
        then Handled.returned (neg 1)
        else entries (ntohs_at body 4) (ntohs_at body 0) (ntohs_at body 2) (some (drop 6 body)))
