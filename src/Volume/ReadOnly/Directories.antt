-- ===== src/Volume/ReadOnly/Directories.antt =====
-- Reading links and directories on a volume that is read only.
use time_capsule_mount.Prelude.{
  ℕ, zero, suc, ◌+◌, ◌||◌, Bool, true, false, ◌++◌, length, neg, ltb, refl, List, [], ◌∷◌, CString,
  ◌==◌, ◌==ℤ◌,
}
use time_capsule_mount.Afp.Codes.{no_err}
use time_capsule_mount.Afp.Bits.{
  allow_read, allow_write, meta_resource, meta_appledouble, meta_comment, meta_server_icon,
}
use time_capsule_mount.Afp.Types.{FileInfo}
use time_capsule_mount.Afp.Request.{Request, Reply, open_dt, close_fork}
use time_capsule_mount.Afp.Session.{Session, M, IsHarmless, pure}
use time_capsule_mount.Volume.Attr.{find_place, found}
use time_capsule_mount.Volume.Names.{invalid_filename}
use time_capsule_mount.Volume.Composing.{Unicode}
use time_capsule_mount.Volume.Links.{
  link_open_errno, link_read_errno, finish_link, read_link, ml_readlink,
}
use time_capsule_mount.Volume.Listing.{
  Case, case_of, Listing, list_batches, ll_readdir, enumerate_from,
}
use time_capsule_mount.Volume.Readdir.{
  Directory, ensure_dt_opened, comment_size, is_removed, add_meta_files, readdir_meta, ml_readdir,
}
use time_capsule_mount.Volume.ReadOnly.{
  Keeps, keeps_rules, call-Keeps, pure-Keeps, get-Keeps, split-Keeps, option-Keeps, bind-Keeps,
  exchange-Keeps, fresh_address-Keeps,
}
use time_capsule_mount.Volume.ReadOnly.Lookups.{get_dirid-Keeps}
use time_capsule_mount.Volume.ReadOnly.Attributes.{
  store_refnum-Keeps, translated-Keeps, get_comment_size-Keeps,
}
use time_capsule_mount.Volume.ReadOnly.Opening.{
  add_opened_fork-Keeps, remove_opened_fork-Keeps, openfork-Keeps,
}
use time_capsule_mount.Volume.ReadOnly.Reading.{read-Keeps, if-IsHarmless}

find_place-Keeps : (path : CString) → Keeps (find_place path)
unfolding find_place
find_place-Keeps path = search (keeps_rules, get_dirid-Keeps)

finish_link-Keeps :
    (u : Unicode) (address : ℕ) (fp : FileInfo) (r : Reply) → Keeps (finish_link u address fp r)
unfolding finish_link
finish_link-Keeps u address fp r =
    split-Keeps (link_read_errno r.code == 0) _ _
      (bind-Keeps _ _ (call-Keeps (close_fork fp.forkid) refl) λ c.
        split-Keeps (c ==ℤ no_err) _ _
          (bind-Keeps _ _ (remove_opened_fork-Keeps address) λ _. search keeps_rules)
          (search keeps_rules))
      (search keeps_rules)

read_link-Keeps :
    (u : Unicode) (address : ℕ) (fp : FileInfo) (size : ℕ) → Keeps (read_link u address fp size)
unfolding read_link
read_link-Keeps u address fp size = bind-Keeps _ _ (add_opened_fork-Keeps address fp.forkid) λ _.
    bind-Keeps _ _ get-Keeps λ s.
      bind-Keeps _ _ (read-Keeps s.av_number fp.forkid 0 size) λ r. finish_link-Keeps u address fp r

pub ml_readlink-Keeps : (u : Unicode) (path : CString) (size : ℕ) → Keeps (ml_readlink u path size)
unfolding ml_readlink
ml_readlink-Keeps u path size = bind-Keeps _ _ get-Keeps λ s.
    option-Keeps _ _ _ (search keeps_rules) λ c. bind-Keeps _ _ (find_place-Keeps c) λ p.
      bind-Keeps _ _ fresh_address-Keeps λ address.
        bind-Keeps _ _ (openfork-Keeps 0 p.0 (allow_read + allow_write) p.1 s.garbage) λ o.
          split-Keeps (link_open_errno o.0 == 0) _ _ (read_link-Keeps u address o.1 size)
            (search keeps_rules)

-- The switch of a round.
case-Keeps :
    (c : Case) (again more : M Listing) (done all : Listing)
    → Keeps again
    → Keeps more
    → Keeps (elim c [
      | Case.append_and_go_on ↦ more
      | Case.append_and_exit ↦ pure all
      | Case.exit ↦ pure done
      | Case.ignore ↦ again
      | Case.error e ↦ pure (Listing.failed (neg e))
    ])
case-Keeps Case.append_and_go_on again more done all ha hm = hm
case-Keeps Case.append_and_exit again more done all ha hm = pure-Keeps all
case-Keeps Case.exit again more done all ha hm = pure-Keeps done
case-Keeps Case.ignore again more done all ha hm = ha
case-Keeps (Case.error e) again more done all ha hm = pure-Keeps (Listing.failed (neg e))

list_batches-Keeps :
    (fuel : ℕ) (request : ℕ → Request) (startindex : ℕ) (filebase : List FileInfo)
    → ((i : ℕ) → IsHarmless (request i))
    → Keeps (list_batches fuel request startindex filebase)
unfolding list_batches
list_batches-Keeps zero request i fs h = search keeps_rules
list_batches-Keeps (suc fuel) request i fs h =
    bind-Keeps _ _ (exchange-Keeps (request i) (h i)) λ r.
      case-Keeps (case_of r.code) _ _ (Listing.listed fs) (Listing.listed (fs ++ r.entries))
        (list_batches-Keeps fuel request i fs h)
        (list_batches-Keeps fuel request (i + length r.entries) (fs ++ r.entries) h)

enumerate_from-IsHarmless :
    (s : Session) (resource : Bool) (dirid : ℕ) (basename : CString) (i : ℕ)
    → IsHarmless (enumerate_from s resource dirid basename i)
unfolding enumerate_from
enumerate_from-IsHarmless s resource dirid basename i =
    if-IsHarmless (ltb s.av_number 30) _ _ refl refl

ll_readdir-Keeps :
    (fuel : ℕ) (path : CString) (resource : Bool) → Keeps (ll_readdir fuel path resource)
unfolding ll_readdir
ll_readdir-Keeps fuel path resource = bind-Keeps _ _ get-Keeps λ t.
    split-Keeps (invalid_filename t.av_number t.path_encoding path) _ _ (search keeps_rules) (
      bind-Keeps _ _ (get_dirid-Keeps path) λ l. bind-Keeps _ _ get-Keeps λ s.
        option-Keeps (found l) _ _ (search keeps_rules) λ p.
          bind-Keeps _ _
            (list_batches-Keeps fuel _ 1 [] (enumerate_from-IsHarmless s resource p.0 p.1))
            λ listing. search keeps_rules)

ensure_dt_opened-Keeps : Keeps ensure_dt_opened
unfolding ensure_dt_opened
ensure_dt_opened-Keeps = bind-Keeps _ _ get-Keeps λ s.
    split-Keeps (s.dtrefnum == 0) _ _
      (bind-Keeps _ _ (exchange-Keeps open_dt refl)
        λ r. bind-Keeps _ _ (store_refnum-Keeps r) λ _. search keeps_rules)
      (search keeps_rules)

comment_size-Keeps : (fp : FileInfo) → Keeps (comment_size fp)
unfolding comment_size
comment_size-Keeps fp = bind-Keeps _ _ ensure_dt_opened-Keeps λ ready.
    split-Keeps ready _ _
      (bind-Keeps _ _ (get_comment_size-Keeps fp.name fp.did) λ size. search keeps_rules)
      (search keeps_rules)

add_meta_files-Keeps : (fps newchain : List FileInfo) → Keeps (add_meta_files fps newchain)
unfolding add_meta_files
add_meta_files-Keeps [] newchain = search keeps_rules
add_meta_files-Keeps (fp ∷ fps) newchain = bind-Keeps _ _ (comment_size-Keeps fp) λ size.
    split-Keeps (is_removed fp) _ _ (search keeps_rules)
      (bind-Keeps _ _ (add_meta_files-Keeps fps _) λ rest. search keeps_rules)

listing-Keeps :
    (listing : Listing) (fs : List FileInfo → M Directory)
    → ((files : List FileInfo) → Keeps (fs files))
    → Keeps (elim listing [
      | Listing.unfinished ↦ pure (Directory.directory Listing.unfinished)
      | Listing.failed e ↦ pure (Directory.directory (Listing.listed []))
      | Listing.listed files ↦ fs files
    ])
listing-Keeps Listing.unfinished fs h = search keeps_rules
listing-Keeps (Listing.failed e) fs h = search keeps_rules
listing-Keeps (Listing.listed files) fs h = h files

readdir_meta-Keeps : (fuel : ℕ) (newpath : CString) → Keeps (readdir_meta fuel newpath)
unfolding readdir_meta
readdir_meta-Keeps fuel newpath = bind-Keeps _ _ (ll_readdir-Keeps fuel newpath true) λ listing.
    listing-Keeps listing _
      λ files. bind-Keeps _ _ (add_meta_files-Keeps files []) λ all. search keeps_rules

pub ml_readdir-Keeps : (fuel : ℕ) (path : CString) → Keeps (ml_readdir fuel path)
unfolding ml_readdir
ml_readdir-Keeps fuel path = bind-Keeps _ _ get-Keeps λ s.
    option-Keeps _ _ _ (search keeps_rules) λ c. bind-Keeps _ _ (translated-Keeps c) λ p.
      split-Keeps (p.0 == meta_appledouble) _ _ (readdir_meta-Keeps fuel p.1) (
        split-Keeps (p.0 == meta_resource || (p.0 == meta_server_icon || p.0 == meta_comment)) _ _
          (search keeps_rules)
          (bind-Keeps _ _ (ll_readdir-Keeps fuel c false) λ listing. search keeps_rules))
