-- ===== src/Reply/Parameters.antt =====
-- The reply to FPGetFileDirParms, as a server writes it and the client reads it:
-- afp_getfiledirparms_reply of lib/proto_files.c.
use time_capsule_mount.Prelude.{
  ℕ, ◌^◌, ◌<◌, ◌≡◌, ◌∙◌, ap, Bool, not, Option, none, some, List, ◌∷◌, ◌++◌, ℤ, pos, length, arith,
  ◌==◌, if◌then◌else◌,
}
use time_capsule_mount.Afp.Types.{FileInfo}
use time_capsule_mount.Dsi.Wire.{ntohs_at, htons}
use time_capsule_mount.Reply.Fields.{ntohs-htons}
use time_capsule_mount.Reply.Block.{parse_reply_block}
use time_capsule_mount.Reply.Entries.{Entry, IsEntry, flag, if_long}
use time_capsule_mount.Reply.Handlers.{afp_getfiledirparms_reply}

-- What follows the DSI header.
unfoldable pub write_parms : (filebitmap dirbitmap : ℕ) → Entry → List ℕ
unfolding htons
write_parms filebitmap dirbitmap e =
    htons filebitmap ++ (htons dirbitmap ++ ((if e.isdir then 0x80 else 0) ∷ 0 ∷ e.block))

keep_dir : Bool → Option FileInfo → Option (ℤ × FileInfo)
keep_dir isdir none = none
keep_dir isdir (some filecur) = some (pos 0, record filecur { isdir = isdir })

-- The parameters of a file or directory as a server has written them for its bitmaps are stored, with
-- the flag of a directory.
pub afp_getfiledirparms_reply-write_parms :
    (filebitmap dirbitmap : ℕ) (e : Entry) (old : FileInfo)
    → filebitmap < 2 ^ 16
    → dirbitmap < 2 ^ 16
    → IsEntry filebitmap dirbitmap e
    → (rest : List ℕ)
    → afp_getfiledirparms_reply (pos 0) (write_parms filebitmap dirbitmap e ++ rest) old
      ≡ some (pos 0, record e.info { isdir = e.isdir })
unfolding afp_getfiledirparms_reply write_parms htons ntohs_at keep_dir
afp_getfiledirparms_reply-write_parms filebitmap dirbitmap e old f d h rest =
    let read : ℕ → ℕ = λ n. ntohs_at (htons n) 0 in
    let p : List ℕ = e.block ++ rest in
    let isdir : Bool = not ((if e.isdir then 0x80 else 0) == 0) in
    if_long (length (write_parms filebitmap dirbitmap e ++ rest)) 6 _ _ (omega arith)
    ∙ ap (λ n. keep_dir isdir (parse_reply_block isdir n (read dirbitmap) p))
        (ntohs-htons filebitmap f)
    ∙ ap (λ n. keep_dir isdir (parse_reply_block isdir filebitmap n p)) (ntohs-htons dirbitmap d)
    ∙ ap (λ b. keep_dir b (parse_reply_block b filebitmap dirbitmap p)) (flag e.isdir)
    ∙ ap (keep_dir e.isdir) (h.parsed rest)
