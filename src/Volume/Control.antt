-- ===== src/Volume/Control.antt =====
-- The shapes that the operations share: a switch on a result code, and the tests they begin with.
use time_capsule_mount.Prelude.{
  Option, none, some, List, [], ◌∷◌, CString, ℤ, pos, neg, is_neg, ◌==ℤ◌, if◌then◌else◌,
}
use time_capsule_mount.Afp.Errno.{einval, enametoolong, eacces}
use time_capsule_mount.Afp.Request.{Request}
use time_capsule_mount.Afp.Session.{volume_is_readonly, M, get, pure, ◌>>=◌, exchange}
use time_capsule_mount.Volume.Names.{convert_path_to_afp, invalid_filename, max_path}

-- switch (rc) { case k: … default: … }
abbrev pub switch : {A : Type 0} → ℤ → List (ℤ × A) → A → A
switch rc [] otherwise = otherwise
switch rc ((k, a) ∷ cases) otherwise = if rc ==ℤ k then a else switch rc cases otherwise

-- A test for what is there.
unfoldable pub from_option : {A B : Type 0} → Option A → B → (A → B) → B
from_option none m k = m
from_option (some a) m k = k a

-- The return value of a request.
unfoldable pub call : Request → M ℤ
call r = do reply ← exchange r; pure reply.code

-- if (convert_path_to_afp(…)) return -EINVAL;
unfoldable pub with_converted : CString → (CString → M ℤ) → M ℤ
with_converted path next = do
  s ← get
  from_option (convert_path_to_afp s.path_encoding path max_path) (pure (neg einval)) next

-- if (invalid_filename(…)) return -ENAMETOOLONG;
unfoldable pub if_valid : CString → M ℤ → M ℤ
if_valid path next = do
  s ← get
  if invalid_filename s.av_number s.path_encoding path then pure (neg enametoolong) else next

-- if (volume_is_readonly(…)) return -EACCES;
unfoldable pub if_writable : M ℤ → M ℤ
if_writable next = do s ← get; if volume_is_readonly s then pure (neg eacces) else next

-- ret = appledouble_…(…); if (ret<0) return ret; if (ret==1) return 0;
unfoldable pub unless_meta : M ℤ → M ℤ → M ℤ
unless_meta meta next = do
  ret ← meta
  if is_neg ret then pure ret else (if ret ==ℤ pos 1 then pure (pos 0) else next)
