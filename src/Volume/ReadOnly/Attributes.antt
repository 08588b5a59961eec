-- ===== src/Volume/ReadOnly/Attributes.antt =====
-- Looking at a file on a volume that is read only.
use time_capsule_mount.Prelude.{ℕ, ◌||◌, false, refl, CString, pos, is_neg, ◌==◌, arith, ◌==ℤ◌}
use time_capsule_mount.Afp.Bits.{
  meta_none, meta_resource, meta_appledouble, meta_finderinfo, meta_server_icon,
}
use time_capsule_mount.Afp.Request.{Reply, open_dt}
use time_capsule_mount.Volume.Attr.{found, store_refnum}
use time_capsule_mount.Volume.Names.{convert_path_to_afp, max_path}
use time_capsule_mount.Afp.Session.{volume_is_readonly}
use time_capsule_mount.Volume.Meta.{translated}
use time_capsule_mount.Volume.Stats.{
  open_desktop, get_comment_size, getattr_comment, appledouble_getattr, ml_getattr,
}
use time_capsule_mount.Volume.ReadOnly.{
  Keeps, keeps_rules, get-Keeps, split-Keeps, option-Keeps, bind-Keeps, exchange-Keeps,
}
use time_capsule_mount.Volume.ReadOnly.Lookups.{get_dirid-Keeps, ll_getattr-Keeps}

pub translated-Keeps : (path : CString) → Keeps (translated path)
unfolding translated
translated-Keeps path = search keeps_rules

pub store_refnum-Keeps : (r : Reply) → Keeps (store_refnum r)
unfolding store_refnum volume_is_readonly
store_refnum-Keeps r = record { at = λ s q. ground arith }

pub open_desktop-Keeps : Keeps open_desktop
unfolding open_desktop
open_desktop-Keeps = bind-Keeps _ _ get-Keeps λ s.
    split-Keeps (s.dtrefnum == 0) _ _
      (bind-Keeps _ _ (exchange-Keeps open_dt refl)
        λ r. bind-Keeps _ _ (store_refnum-Keeps r) λ _. search keeps_rules)
      (search keeps_rules)

pub get_comment_size-Keeps : (basename : CString) (did : ℕ) → Keeps (get_comment_size basename did)
unfolding get_comment_size
get_comment_size-Keeps basename did =
    bind-Keeps _ _ open_desktop-Keeps
      λ opened. split-Keeps opened _ _ (search (keeps_rules, exchange-Keeps)) (search keeps_rules)

getattr_comment-Keeps : (newpath : CString) → Keeps (getattr_comment newpath)
unfolding getattr_comment
getattr_comment-Keeps newpath = bind-Keeps _ _ (ll_getattr-Keeps newpath false) λ r.
    split-Keeps (is_neg r.0) _ _ (search keeps_rules) (
      bind-Keeps _ _ (get_dirid-Keeps newpath) λ l.
        option-Keeps (found l) _ _ (search keeps_rules)
          λ p. bind-Keeps _ _ (get_comment_size-Keeps p.1 p.0) λ size. search keeps_rules)

appledouble_getattr-Keeps : (path : CString) → Keeps (appledouble_getattr path)
unfolding appledouble_getattr
appledouble_getattr-Keeps path = bind-Keeps _ _ (translated-Keeps path) λ t.
    split-Keeps (t.0 == meta_none) _ _ (search keeps_rules) (
      split-Keeps (t.0 == meta_appledouble || t.0 == meta_server_icon) _ _ (search keeps_rules) (
        split-Keeps (t.0 == meta_resource || t.0 == meta_finderinfo) _ _
          (bind-Keeps _ _ (ll_getattr-Keeps t.1 (t.0 == meta_resource)) λ r. search keeps_rules)
          (getattr_comment-Keeps t.1)))

pub ml_getattr-Keeps : (path : CString) → Keeps (ml_getattr path)
unfolding ml_getattr
ml_getattr-Keeps path = bind-Keeps _ _ get-Keeps λ s.
    option-Keeps (convert_path_to_afp s.path_encoding path max_path) _ _ (search keeps_rules)
      λ converted_path.
        bind-Keeps _ _ (appledouble_getattr-Keeps converted_path)
          λ r. split-Keeps (r.0 ==ℤ pos 0) _ _ (ll_getattr-Keeps path false) (search keeps_rules)
