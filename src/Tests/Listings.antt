-- ===== src/Tests/Listings.antt =====
-- The listing of a directory at concrete inputs.
use time_capsule_mount.Prelude.{
  ◌-◌, ◌≡◌, refl, ◌∙◌, ap, false, List, [], ◌∷◌, codes, length, length-append, drop, drop-append,
  arith,
}
use Prim.Native.Nat.{◌%◌}
use time_capsule_mount.Afp.Codes.{no_err, no_server}
use time_capsule_mount.Afp.Types.{FileInfo, zero_info}
use time_capsule_mount.Afp.Request.{Request, Reply, enumerate_ext2}
use time_capsule_mount.Afp.Session.{Session, get, pure, ◌>>=◌}
use time_capsule_mount.Did.Lookup.{get_dirid, strrchr}
use time_capsule_mount.Volume.Names.{invalid_filename}
use time_capsule_mount.Volume.Listing.{Listing, enumerate_from, readdir_bitmaps, ll_readdir}
use time_capsule_mount.Volume.Batches.{Gives, Serves, ll_readdir-Serves, ll_readdir-unfinished}
use time_capsule_mount.Tests.{session, nothing_there, directory}

abbrev folder : List FileInfo
folder = directory 40 ∷ record zero_info { fileid = 41; size = 5 } ∷ []

-- A server that gives one entry at a time.
abbrev first_of : List FileInfo → Reply
first_of [] = nothing_there
first_of (x ∷ xs) = record nothing_there { code = no_err; entries = x ∷ [] }

abbrev listing_peer : List Request → Reply
listing_peer (enumerate_ext2 d f b r startindex name ∷ sent) =
    first_of (drop (startindex - 1) folder)
listing_peer _ = nothing_there

abbrev listing_session : Session
listing_session = record session { peer = listing_peer }

first_of-Gives : (xs : List FileInfo) → Gives xs (first_of xs)
unfolding Gives
first_of-Gives [] = (refl, refl)
first_of-Gives (x ∷ xs) = (refl, [], xs, refl, refl)

listing_peer-Serves :
    Serves listing_peer (enumerate_from listing_session false 2 (codes "d")) folder
unfolding Serves enumerate_from readdir_bitmaps
listing_peer-Serves before remaining startindex sent at e =
    let rest : drop (length before) folder ≡ remaining =
      ap (drop (length before)) e ∙ drop-append before remaining in
    let place : startindex % 4294967296 - 1 ≡ length before =
      ground (arith, ap length e, length-append before remaining) in
    rw (place, rest) (first_of-Gives remaining)

ll_readdir-Serves_example :
    (ll_readdir 3 (codes "/d") false listing_session).0 ≡ Listing.listed folder
unfolding invalid_filename get_dirid ◌>>=◌ get pure strrchr
ll_readdir-Serves_example =
    ll_readdir-Serves 3 (codes "/d") false 2 (codes "d") folder listing_session listing_session refl
      refl listing_peer-Serves (omega arith)

-- A server that has lost its disk.
abbrev ended_session : Session
ended_session = record session { peer = λ sent. record nothing_there { code = no_server } }

ll_readdir-unfinished_example :
    (ll_readdir 100 (codes "/d") false ended_session).0 ≡ Listing.unfinished
unfolding invalid_filename get_dirid ◌>>=◌ get pure strrchr
ll_readdir-unfinished_example =
    ll_readdir-unfinished 100 (codes "/d") false 2 (codes "d") ended_session ended_session refl refl
      (λ sent. refl)
