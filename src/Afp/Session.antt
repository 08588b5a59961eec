-- ===== src/Afp/Session.antt =====
-- The state that the volume operations work on: struct afp_volume with its server, and what the
-- outside answers. Every call of a request builder is kept in `sent`, newest first; the reply may
-- depend on all that was sent before. The n-th reading of the clock is `clock n`.
use time_capsule_mount.Prelude.{ℕ, ◌+◌, ◌≡◌, Bool, true, ◌||◌, List, ◌∷◌, CString}
use time_capsule_mount.Afp.Types.{FileInfo, ExtraFlags, VolumeAttributes, ServerType}
use time_capsule_mount.Afp.Request.{Request, Reply, is_harmless}

-- struct did_cache_entry
pub record CacheEntry : Type 0 where
  pub dirname : CString
  pub did : ℕ
  pub time : ℕ

-- did_cache_base and did_cache_stats
pub record DidCache : Type 0 where
  pub base : List CacheEntry
  pub hits : ℕ
  pub misses : ℕ
  pub expired : ℕ
  pub force_removed : ℕ

-- A node of the list `open_forks`: the address of the afp_file_info, and its fork.
pub record OpenFork : Type 0 where
  pub address : ℕ
  pub fork : ℕ

pub record Session : Type 0 where
  pub peer : List Request → Reply
  pub sent : List Request
  pub clock : ℕ → ℕ
  pub readings : ℕ
  -- the process
  pub getgid : ℕ
  pub geteuid : ℕ
  pub next_address : ℕ
  -- what a local afp_file_info holds before anything is stored in it
  pub garbage : FileInfo
  -- struct afp_server
  pub av_number : ℕ
  pub path_encoding : ℕ
  pub server_type : ServerType
  pub tx_quantum : ℕ
  pub rx_quantum : ℕ
  pub connect_time : ℕ
  pub server_uid : ℕ
  pub server_gid : ℕ
  pub pw_uid : ℕ
  pub pw_gid : ℕ
  pub pw_name : CString
  pub icon : List ℕ
  -- struct afp_volume
  pub attributes : VolumeAttributes
  pub extra_flags : ExtraFlags
  pub volume_name : CString
  pub dtrefnum : ℕ
  pub mapping : ℕ
  pub did_cache : DidCache
  pub open_forks : List OpenFork
  pub f_blocks : ℕ
  pub f_bfree : ℕ
  pub f_bsize : ℕ

-- volume_is_readonly(x)
unfoldable pub volume_is_readonly : Session → Bool
volume_is_readonly s = s.attributes.read_only || s.extra_flags.readonly

-- An operation on the session.
abbrev pub M : Type 0 → Type 0
M A = Session → A × Session

unfoldable pub pure : {A : Type 0} → A → M A
pure a s = (a, s)

infixl 5 ◌>>=◌ ◌>>◌
unfoldable pub ◌>>=◌ : {A B : Type 0} → M A → (A → M B) → M B
◌>>=◌ m f s = let (a, s') = m s in f a s'

abbrev pub ◌>>◌ : {B : Type 0} → M (Unit {0}) → M B → M B
m >> k = m >>= λ _. k

unfoldable pub get : M Session
get s = (s, s)

unfoldable pub put : Session → M (Unit {0})
put s' s = (tt, s')

-- A request and its reply.
unfoldable pub exchange : Request → M Reply
exchange r s = let sent = r ∷ s.sent in (s.peer sent, record s { sent = sent })

-- gettimeofday()
unfoldable pub get_time : M ℕ
get_time s = (s.clock s.readings, record s { readings = s.readings + 1 })

-- The address of a new or local variable.
unfoldable pub fresh_address : M ℕ
fresh_address s = (s.next_address, record s { next_address = s.next_address + 1 })

abbrev pub IsHarmless : Request → Type 0
IsHarmless r = is_harmless r ≡ true
