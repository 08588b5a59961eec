-- ===== src/Volume/Batches.antt =====
-- ll_readdir of lib/lowlevel.c against a server that gives a directory in batches.
use time_capsule_mount.Prelude.{
  ℕ, zero, suc, ◌+◌, ◌<◌, ◌≡◌, refl, sym, ◌∙◌, ap, Bool, true, false, List, [], ◌∷◌, ◌++◌, map,
  append_assoc, CString, length, length-append, ltb, arith, if◌then◌else◌,
}
use time_capsule_mount.Afp.Codes.{no_err, object_not_found}
use time_capsule_mount.Afp.Types.{FileInfo}
use time_capsule_mount.Afp.Request.{Request, Reply}
use time_capsule_mount.Afp.Session.{Session, M, get, pure, ◌>>=◌, exchange}
use time_capsule_mount.Did.Lookup.{located, get_dirid}
use time_capsule_mount.Volume.Names.{invalid_filename}
use time_capsule_mount.Volume.Attr.{nonunix_perms, set_permissions}
use time_capsule_mount.Volume.Control.{from_option}
use time_capsule_mount.Volume.Listing.{
  Listing, Case, case_of, list_batches, enumerate_from, finished, ll_readdir,
}

-- What the server answers when `remaining` are the entries from the startindex on: one entry or more,
-- in their order, or that there is no entry left.
unfoldable pub Gives : (remaining : List FileInfo) → Reply → Type 0
Gives [] r = (r.code ≡ object_not_found) × (r.entries ≡ [])
Gives (x ∷ xs) r =
    (r.code ≡ no_err)
    × (ys : List FileInfo) × (rest : List FileInfo) × (r.entries ≡ x ∷ ys)
    × (xs ≡ ys ++ rest)

-- The directory `all`: startindex counts from 1.
unfoldable pub Serves :
    (peer : List Request → Reply) → (request : ℕ → Request) → (all : List FileInfo) → Type 0
Serves peer request all =
    (before remaining : List FileInfo) (startindex : ℕ) (sent : List Request)
    → startindex ≡ length before + 1
    → all ≡ before ++ remaining
    → Gives remaining (peer (request startindex ∷ sent))

-- From the entry after `before` on, the rounds end with the whole directory.
list_batches-Serves :
    (fuel : ℕ) (request : ℕ → Request) (n : ℕ) (before remaining all : List FileInfo) (s : Session)
    → Serves s.peer request all
    → n ≡ length before + 1
    → all ≡ before ++ remaining
    → length remaining < fuel
    → (list_batches fuel request n before s).0 ≡ Listing.listed all
unfolding list_batches Gives Serves ◌>>=◌ pure exchange
list_batches-Serves zero request n before remaining all s h at e l = absurd (omega arith)
list_batches-Serves (suc fuel) request n before [] all s h at e l =
    let (c, none_left) = h before [] n s.sent at e in rw (c, none_left) (ap Listing.listed (sym e))
list_batches-Serves (suc fuel) request n before (x ∷ xs) all s h at e l =
    let (c, ys, rest, given, split) = h before (x ∷ xs) n s.sent at e in
    rw (c, given)
      (list_batches-Serves fuel request _ (before ++ x ∷ ys) rest all _ h
        (ground (arith, length-append before (x ∷ ys)))
        (e ∙ ap (λ r. before ++ x ∷ r) split ∙ sym (append_assoc before (x ∷ ys) rest))
        (ground (arith, length-append ys rest)))

at_false :
    {A : Type 0} (b : Bool) (m k : M A) → b ≡ false → Path (M A) (elim b [ true ↦ m | false ↦ k ]) k
at_false b m k e = rw e refl

-- From a server that gives a directory in batches of at least one entry, ll_readdir lists the whole
-- directory, each entry once and in the server's order, if the path has no name that is too long,
-- get_dirid finds it, and there are more rounds than entries; on AFP 2.x with made-up permissions.
pub ll_readdir-Serves :
    (fuel : ℕ) (path : CString) (resource : Bool) (dirid : ℕ) (basename : CString)
    (all : List FileInfo) (s s' : Session)
    → invalid_filename s.av_number s.path_encoding path ≡ false
    → get_dirid path s ≡ (located basename dirid, s')
    → Serves s'.peer (enumerate_from s' resource dirid basename) all
    → length all < fuel
    → (ll_readdir fuel path resource s).0
      ≡ Listing.listed
          (if ltb s'.av_number 30 then map (λ p. set_permissions (nonunix_perms p) p) all else all)
unfolding ll_readdir from_option get pure ◌>>=◌ finished
ll_readdir-Serves fuel path resource dirid basename all s s' valid place h l =
    ap (λ m. (m s).0) (at_false (invalid_filename s.av_number s.path_encoding path) _ _ valid)
    ∙ rw place (
        ap (λ r. finished s' r)
          (list_batches-Serves fuel (enumerate_from s' resource dirid basename) 1 [] all all s' h
            refl refl l))

list_batches-unfinished :
    (fuel : ℕ) (request : ℕ → Request) (n : ℕ) (files : List FileInfo) (s : Session)
    → ((sent : List Request) → case_of (s.peer (request n ∷ sent)).code ≡ Case.ignore)
    → (list_batches fuel request n files s).0 ≡ Listing.unfinished
unfolding list_batches ◌>>=◌ pure exchange
list_batches-unfinished zero request n files s h = refl
list_batches-unfinished (suc fuel) request n files s h =
    rw (h s.sent) (list_batches-unfinished fuel request n files _ h)

-- If the server always answers the first call with a result code for which the switch has no case,
-- ll_readdir asks again without end, for a path that is valid and that get_dirid finds.
pub ll_readdir-unfinished :
    (fuel : ℕ) (path : CString) (resource : Bool) (dirid : ℕ) (basename : CString) (s s' : Session)
    → invalid_filename s.av_number s.path_encoding path ≡ false
    → get_dirid path s ≡ (located basename dirid, s')
    → ((sent : List Request)
        → case_of (s'.peer (enumerate_from s' resource dirid basename 1 ∷ sent)).code ≡ Case.ignore)
    → (ll_readdir fuel path resource s).0 ≡ Listing.unfinished
unfolding ll_readdir from_option get pure ◌>>=◌ finished
ll_readdir-unfinished fuel path resource dirid basename s s' valid place h =
    ap (λ m. (m s).0) (at_false (invalid_filename s.av_number s.path_encoding path) _ _ valid)
    ∙ rw place (
        ap (λ r. finished s' r)
          (list_batches-unfinished fuel (enumerate_from s' resource dirid basename) 1 [] s' h))
