-- ===== src/Volume/ReadOnly/Opening.antt =====
-- Opening, writing and closing a file on a volume that is read only.
use time_capsule_mount.Prelude.{
  ℕ, zero, suc, ◌≡◌, ◌||◌, ◌&&◌, Bool, true, false, refl, none, some, CString, pos, is_neg, ltb,
  ◌==◌, List, length, arith, Bool-cases, Option-cases, if◌then◌else◌, neg, inl, inr, is_set, ◌==ℤ◌,
}
use time_capsule_mount.Afp.Codes.{no_err, object_not_found}
use time_capsule_mount.Afp.Bits.{
  meta_none, meta_resource, meta_appledouble, meta_comment, meta_server_icon,
}
use time_capsule_mount.Afp.Request.{close_fork, open_dt}
use time_capsule_mount.Volume.Names.{convert_path_to_afp, invalid_filename, max_path}
use time_capsule_mount.Afp.Types.{FileInfo, OpenFlags, zero_info}
use time_capsule_mount.Afp.Session.{Session, volume_is_readonly, M, get, pure, ◌>>=◌}
use time_capsule_mount.Afp.Errno.{einval, enametoolong, eacces}
use time_capsule_mount.Volume.Control.{from_option}
use time_capsule_mount.Volume.Forks.{add_opened_fork, remove_opened_fork}
use time_capsule_mount.Volume.Meta.{extra_translate}
use time_capsule_mount.Volume.Data.{max_afp2_filesize, ml_write, ml_close}
use time_capsule_mount.Volume.Open.{
  Opened, openfork, try_open, opened_fork, check_size, ll_open, locate, open_comment,
  appledouble_open, open_plain, asks_for_write, open_tail, ml_open, refuses_write, open_access,
}
use time_capsule_mount.Volume.ReadOnly.{
  Quiet, Keeps, with_converted-Keeps, if_valid-Keeps, call-Keeps, keeps_rules, guard_rules,
  pure-Keeps, get-Keeps, split-Keeps, option-Keeps, if-Keeps, bind-Keeps, exchange-Keeps,
  fresh_address-Keeps,
}
use time_capsule_mount.Volume.ReadOnly.Lookups.{get_dirid-Keeps, ll_get_directory_entry-Keeps}
use time_capsule_mount.Volume.ReadOnly.Operations.{ml_creat-Keeps}
use time_capsule_mount.Volume.ReadOnly.Attributes.{store_refnum-Keeps}

pub add_opened_fork-Keeps : (address fork : ℕ) → Keeps (add_opened_fork address fork)
unfolding add_opened_fork volume_is_readonly
add_opened_fork-Keeps address fork = record { at = λ s q. q }

pub remove_opened_fork-Keeps : (address : ℕ) → Keeps (remove_opened_fork address)
unfolding remove_opened_fork volume_is_readonly
remove_opened_fork-Keeps address = record { at = λ s q. q }

pub ml_close-Keeps :
    (path : CString) (address : ℕ) (fp : FileInfo) → Keeps (ml_close path address fp)
unfolding ml_close
ml_close-Keeps path address fp = with_converted-Keeps path _ λ converted_path.
    if_valid-Keeps converted_path _ (
      split-Keeps (fp.resource == meta_none) _ _
        (bind-Keeps _ _ (call-Keeps (close_fork fp.forkid) refl) λ rc.
          split-Keeps (rc ==ℤ no_err) _ _
            (bind-Keeps _ _ (remove_opened_fork-Keeps address) λ _. search keeps_rules)
            (search keeps_rules))
        (split-Keeps (fp.resource == meta_resource) _ _ (search guard_rules) (search keeps_rules)))

pub ml_write-Keeps :
    (path : CString) (bytes : List ℕ) (offset : ℕ) (fp : FileInfo)
    → Keeps (ml_write path bytes offset fp)
unfolding ml_write
ml_write-Keeps path bytes offset fp = bind-Keeps _ _ get-Keeps λ s.
    split-Keeps (ltb s.av_number 30 && ltb max_afp2_filesize (length bytes)) _ _
      (search keeps_rules) (search guard_rules)

pub openfork-Keeps :
    (resource did access : ℕ) (name : CString) (fp : FileInfo)
    → Keeps (openfork resource did access name fp)
unfolding openfork
openfork-Keeps resource did access name fp = search (keeps_rules, exchange-Keeps)

try_open-Keeps :
    (tries : ℕ) (path : CString) (flags : OpenFlags) (fp : FileInfo)
    → Keeps (try_open tries path flags fp)
unfolding try_open
try_open-Keeps zero path flags fp = pure-Keeps none
try_open-Keeps (suc n) path flags fp = bind-Keeps _ _ (openfork-Keeps _ _ _ fp.basename fp) λ r.
    split-Keeps ((r.0 ==ℤ object_not_found) && flags.o_creat) _ _
      (bind-Keeps _ _ (ml_creat-Keeps path 0x1a4)
        λ c. split-Keeps (is_set c) _ _ (search keeps_rules) (try_open-Keeps n path flags r.1))
      (search keeps_rules)

-- The fork is opened, and no file is truncated.
opened_fork-Keeps :
    (address : ℕ) (flags : OpenFlags) (o : Opened)
    → flags.o_trunc ≡ false
    → Keeps (opened_fork address flags o)
unfolding opened_fork
opened_fork-Keeps address flags none e = pure-Keeps none
opened_fork-Keeps address flags (some (code, fp)) e =
    split-Keeps (is_set code) _ _ (search keeps_rules)
      (bind-Keeps _ _ (add_opened_fork-Keeps address fp.forkid) λ _. rw e (search keeps_rules))

check_size-Keeps : (flags : OpenFlags) (fp : FileInfo) → Keeps (check_size flags fp)
unfolding check_size
check_size-Keeps flags fp = bind-Keeps _ _ get-Keeps λ s.
    split-Keeps (flags.o_largefile && ltb s.av_number 30) _ _
      (search (keeps_rules, ll_get_directory_entry-Keeps)) (search keeps_rules)

ll_open-Keeps :
    (tries address : ℕ) (path : CString) (flags : OpenFlags) (fp : FileInfo)
    → flags.o_trunc ≡ false
    → Keeps (ll_open tries address path flags fp)
unfolding ll_open
ll_open-Keeps tries address path flags fp e = bind-Keeps _ _ get-Keeps λ s.
    split-Keeps (refuses_write s (open_access flags)) _ _ (search keeps_rules) (
      bind-Keeps _ _ (check_size-Keeps flags fp) λ r.
        split-Keeps (is_set r.0) _ _ (search keeps_rules) (
          bind-Keeps _ _ (try_open-Keeps tries path flags r.1)
            λ o. opened_fork-Keeps address flags o e))

locate-Keeps : (path : CString) (fp : FileInfo) → Keeps (locate path fp)
unfolding locate
locate-Keeps path fp = search (keeps_rules, get_dirid-Keeps)

open_comment-Keeps : (fp : FileInfo) → Keeps (open_comment fp)
unfolding open_comment
open_comment-Keeps fp = bind-Keeps _ _ get-Keeps λ s.
    split-Keeps (s.dtrefnum == 0) _ _
      (bind-Keeps _ _ (exchange-Keeps open_dt refl)
        λ r. bind-Keeps _ _ (store_refnum-Keeps r) λ _. search keeps_rules)
      (search keeps_rules)

appledouble_open-Keeps :
    (tries address : ℕ) (path : CString) (flags : OpenFlags) (fp : FileInfo)
    → flags.o_trunc ≡ false
    → Keeps (appledouble_open tries address path flags fp)
unfolding appledouble_open
appledouble_open-Keeps tries address path flags fp e = bind-Keeps _ _ get-Keeps λ s.
    let (kind, newpath) = extra_translate s.extra_flags.show_appledouble path in
    split-Keeps (kind == meta_none || (kind == meta_appledouble || kind == meta_server_icon)) _ _
      (search keeps_rules)
      (bind-Keeps _ _ (locate-Keeps newpath (record fp { resource = kind })) λ l.
        option-Keeps l _ _ (search keeps_rules) λ at.
          if-Keeps (kind == meta_resource) _ _
            (bind-Keeps _ _ (ll_open-Keeps tries address newpath flags at e)
              λ r. search keeps_rules)
            (if-Keeps (kind == meta_comment) _ _ (open_comment-Keeps at) (search keeps_rules)))

open_plain-Keeps :
    (tries address : ℕ) (path : CString) (flags : OpenFlags) (o : Opened)
    → flags.o_trunc ≡ false
    → Keeps (open_plain tries address path flags o)
unfolding open_plain
open_plain-Keeps tries address path flags none e = pure-Keeps none
open_plain-Keeps tries address path flags (some (code, fp)) e =
    if-Keeps (is_neg code) _ _ (search keeps_rules) (
      if-Keeps (code ==ℤ pos 1) _ _ (search keeps_rules) (
        bind-Keeps _ _ (locate-Keeps path fp) λ l.
          option-Keeps l _ _ (search keeps_rules)
            λ at. ll_open-Keeps tries address path flags at e))

open_tail-Keeps :
    (tries : ℕ) (path converted_path : CString) (flags : OpenFlags)
    → flags.o_trunc ≡ false
    → Keeps (open_tail tries path converted_path flags)
unfolding open_tail
open_tail-Keeps tries path converted_path flags e = bind-Keeps _ _ fresh_address-Keeps λ address.
    bind-Keeps _ _ (appledouble_open-Keeps tries address path flags zero_info e) λ r.
      bind-Keeps _ _ (open_plain-Keeps tries address converted_path flags r e)
        λ o. search keeps_rules

if_Quiet :
    (s : Session) (flags : OpenFlags) (refused m : M (Opened × ℕ))
    → Quiet s
    → Keeps refused
    → (flags.o_trunc ≡ false → Keeps m)
    → Quiet ((if volume_is_readonly s && asks_for_write flags then refused else m) s).1
if_Quiet s flags refused m q hr hm = elim (Bool-cases (asks_for_write flags)) [
  | inl e ↦ rw (q.0, e) (hr.at s q)
  | inr e ↦ rw (q.0, e) ((hm (ground arith)).at s q)
]

if_at :
    (b : Bool) (m k : M (Opened × ℕ)) (s : Session)
    → Quiet (m s).1
    → Quiet (k s).1
    → Quiet ((if b then m else k) s).1
if_at true m k s hm hk = hm
if_at false m k s hm hk = hk

abbrev refused_name : M (Opened × ℕ)
refused_name = pure (some (neg enametoolong, zero_info), 0)

abbrev refused_write : M (Opened × ℕ)
refused_write = pure (some (neg eacces, zero_info), 0)

pub ml_open-Keeps :
    (tries : ℕ) (path : CString) (flags : OpenFlags) → Keeps (ml_open tries path flags)
unfolding ml_open ◌>>=◌ get from_option
ml_open-Keeps tries path flags = record {
  at = λ s q. elim (Option-cases (convert_path_to_afp s.path_encoding path max_path)) [
    | inl e ↦ rw (e, ml_open) ((pure-Keeps (some (neg einval, zero_info), 0)).at s q)
    | inr (c, e) ↦
        rw (e, ml_open)
          (if_at (invalid_filename s.av_number s.path_encoding c) refused_name
            (if volume_is_readonly s && asks_for_write flags
              then refused_write
              else open_tail tries path c flags)
            s ((pure-Keeps (some (neg enametoolong, zero_info), 0)).at s q)
            (if_Quiet s flags refused_write (open_tail tries path c flags) q
              (pure-Keeps (some (neg eacces, zero_info), 0)) (open_tail-Keeps tries path c flags)))
  ];
}
