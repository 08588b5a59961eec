-- ===== src/Volume/Meta.antt =====
-- The files that the client shows beside the real ones, such as `/dir/.AppleDouble/name.comment`:
-- extra_translate of lib/resource.c, and what those files refuse.
use time_capsule_mount.Prelude.{
  ℕ, ◌+◌, ◌-◌, Bool, not, ◌&&◌, Option, none, some, [], ◌∷◌, ◌++◌, CString, codes, str_eq, ℤ, pos,
  neg, ◌==◌, ltb, if◌then◌else◌, length, take, drop,
}
use time_capsule_mount.Afp.Errno.{eperm, ebadf}
use time_capsule_mount.Afp.Bits.{
  meta_none, meta_resource, meta_appledouble, meta_finderinfo, meta_comment, meta_server_icon,
}
use time_capsule_mount.Afp.Session.{M, get, pure, ◌>>=◌}
use time_capsule_mount.Did.Lookup.{slash, strrchr}

abbrev pub appledouble : CString
appledouble = codes ".AppleDouble"

abbrev pub finderinfo_string : CString
finderinfo_string = codes ".finderinfo"

abbrev pub comment_string : CString
comment_string = codes ".comment"

abbrev pub servericon_string : CString
servericon_string = codes "/.servericon"

-- strstr(s, t): what stands before the first `t`, and what stands behind it.
unfoldable pub strstr : CString → CString → Option (CString × CString)
strstr [] t = if length t == 0 then some ([], []) else none
strstr (c ∷ s) t =
    let rest = strstr s t in
    if str_eq (take (length t) (c ∷ s)) t
    then some ([], drop (length t) (c ∷ s))
    else elim rest [ none ↦ none | some (before, behind) ↦ some (c ∷ before, behind) ]

-- What stands before the ending `t`, of a longer string that has it.
unfoldable pub without_ending : CString → CString → Option CString
without_ending s t =
    let n = length s - length t in
    if ltb (length t) (length s) && str_eq (drop n s) t then some (take n s) else none

-- The kind of a path below .AppleDouble, and the path of the real file.
unfoldable pub ending_kind : CString → ℕ × CString
unfolding without_ending
ending_kind newpath = elim (without_ending newpath finderinfo_string) [
  | some file ↦ (meta_finderinfo, file)
  | none ↦ elim (without_ending newpath comment_string) [
    | some file ↦ (meta_comment, file)
    | none ↦ (meta_resource, newpath)
  ]
]

-- The kind, and `*newpath_p`, empty where it is not set. One character behind .AppleDouble is skipped;
-- where there is none, the code reads behind the terminator, which is taken to be empty.
unfoldable pub extra_translate : Bool → CString → ℕ × CString
unfolding strrchr strstr ending_kind
extra_translate show_appledouble path =
    if not show_appledouble
    then (meta_none, [])
    else (if str_eq path servericon_string
        then (meta_server_icon, [])
        else (if ltb (length path) (length appledouble + 1)
            then (meta_none, [])
            else elim (strrchr path) [
              | none ↦ (meta_none, [])
              | some (before, p) ↦
                  if str_eq p appledouble
                  then (
                    meta_appledouble,
                    if length path == length appledouble + 1
                        then slash ∷ []
                        else take (length path - (length appledouble + 1)) path,
                  )
                  else elim (strstr path appledouble) [
                    | none ↦ (meta_none, [])
                    | some (front, behind) ↦ ending_kind (front ++ drop 1 behind)
                  ]
            ]))

-- The kind of a path on the volume.
unfoldable pub translated : CString → M (ℕ × CString)
translated path = do s ← get; pure (extra_translate s.extra_flags.show_appledouble path)

-- appledouble_chmod, _unlink, _mkdir, _readlink, _rmdir, _chown, _utime, _symlink and _rename, which
-- have one body: no such file takes these operations.
unfoldable pub refuse : CString → M ℤ
refuse path = do
  (resource, newpath) ← translated path
  pure (if resource == meta_none then pos 0 else neg eperm)

unfoldable pub appledouble_creat : CString → M ℤ
appledouble_creat path = do
  (resource, newpath) ← translated path
  pure (
      if resource == meta_resource
      then pos 1
      else (if resource == meta_appledouble
          then neg ebadf
          else (if resource == meta_server_icon
              then neg eperm
              else (if resource == meta_finderinfo then pos 1 else pos 0))))
