-- ===== src/Server/Connect.antt =====
-- A connection to a server: afp_server_connect of lib/afp.c, afp_server_complete_connection of
-- lib/server.c and afp_server_full_connect of lib/connect.c, on the list of servers. What the network
-- and the server answer is given.
use time_capsule_mount.Prelude.{
  ℕ, suc, ◌%◌, Bool, true, false, not, ◌&&◌, ◌||◌, Option, none, some, List, [], ◌∷◌, ℤ, pos,
  negsuc, neg, CString, is_neg, is_set, ◌==ℤ◌, ◌==◌, replicate, length, if◌then◌else◌,
}
use time_capsule_mount.Url.Uams.{pick_uam}
use time_capsule_mount.Reply.Block.{has}
use time_capsule_mount.Server.Registry.{
  AfpServer, Registry, Run, write, at, find_server_by_signature, find_server_by_address, add_server,
  afp_server_remove,
}
use time_capsule_mount.Server.Versions.{pick_version}
use time_capsule_mount.Server.Login.{Login, afp_server_login}

abbrev pub M : Type 0 → Type 0
M A = Registry → Run (A × Registry)

unfoldable pub pure : {A : Type 0} → A → M A
pure a r = Run.done (a, r)

infixl 5 ◌>>=◌ ◌>>◌
unfoldable pub ◌>>=◌ : {A B : Type 0} → M A → (A → M B) → M B
◌>>=◌ m k r = elim (m r) [
  | Run.done x ↦ k x.0 x.1
  | Run.undefined ↦ Run.undefined
  | Run.unfinished ↦ Run.unfinished
]

abbrev pub ◌>>◌ : {B : Type 0} → M (Unit {0}) → M B → M B
m >> k = m >>= λ _. k

-- A question, and a change, of the list.
unfoldable pub ask : {A : Type 0} → (Registry → Run A) → M A
ask f r = elim (f r) [
  | Run.done a ↦ Run.done (a, r)
  | Run.undefined ↦ Run.undefined
  | Run.unfinished ↦ Run.unfinished
]

unfoldable pub change : (Registry → Run Registry) → M (Unit {0})
change f r = elim (f r) [
  | Run.done r' ↦ Run.done (tt, r')
  | Run.undefined ↦ Run.undefined
  | Run.unfinished ↦ Run.unfinished
]

unfoldable pub update : ℕ → (AfpServer → AfpServer) → Registry → Run Registry
unfolding at write
update p f r = at r p λ s. Run.done (record r { heap = write r.heap p (some (f s)) })

-- The loop over the addresses: the errno of the last one, or the descriptor of the first that answers.
pub data Dialled : Type 0 where
  refused : (errno : ℕ) → Dialled
  dialled : (fd : ℕ) → Dialled

-- What dsi_getstatus returns, and what the server holds of the reply then.
pub record Status : Type 0 where
  pub code : ℤ
  pub signature : List ℕ
  pub server_name : CString
  pub server_name_utf8 : CString
  pub versions : List ℕ
  pub supported_uams : ℕ

-- The status in the fields of a server.
abbrev pub with_status : Status → AfpServer → AfpServer
with_status st s = record s {
  signature = st.signature;
  server_name = st.server_name;
  server_name_utf8 = st.server_name_utf8;
}

-- What the user asked for, and what the server answers at the login.
pub record Offer : Type 0 where
  pub username : CString
  pub password : CString
  pub requested_version : ℕ
  pub uam_mask : ℕ
  pub dologin : ℤ
  pub login : Login
  pub getsrvrparms : ℤ

pub record Network : Type 0 where
  -- the address that getaddrinfo gives, as its pointers; it is the one that answers
  pub address : Option (ℕ × ℕ)
  pub first : Dialled
  pub status : Status
  pub second : Dialled
  pub offer : Offer

-- malloc and memset, at a new address.
unfoldable pub afp_server_init : ℕ → M (Unit {0})
unfolding write
afp_server_init p r = Run.done (
  tt,
  record r {
    heap = write r.heap p (
        some (record {
          next = 0;
          signature = replicate 16 0;
          server_name = [];
          server_name_utf8 = [];
          fd = 0;
          used_address = none;
          volumes = [];
          command_requests = [];
        }));
  },
)

-- -error
abbrev pub minus : ℤ → ℤ
minus (pos n) = neg n
minus (negsuc n) = pos (suc n)

-- With `none` for the status, this is a call where `full` is 0.
unfoldable pub afp_server_connect : ℕ → ℕ × ℕ → Dialled → Option Status → M ℤ
afp_server_connect p address (Dialled.refused errno) status = pure (neg errno)
afp_server_connect p address (Dialled.dialled fd) status = do
  change (update p λ s. record s { fd = fd; used_address = some address })
  change (add_server p)
  elim status [
    | none ↦ pure (pos 0)
    | some st ↦ do change (update p λ s. with_status st s); pure (minus st.code)
  ]

-- loop_disconnect
unfoldable pub disconnect : ℕ → Registry → Run Registry
unfolding at
disconnect p r = at r p λ s. Run.done (record r { disconnected = s.fd ∷ r.disconnected })

abbrev pub any_mounted : List ℕ → Bool
any_mounted [] = false
any_mounted (v ∷ vs) = not (v == 0) || any_mounted vs

unfoldable pub something_is_mounted : ℕ → Registry → Run Bool
unfolding at
something_is_mounted p r = at r p λ s. Run.done (any_mounted s.volumes)

-- req->uam_mask as the login uses it: with an empty user and an empty password it is UAM_NOUSERAUTHENT,
-- which is 1, where the server has that.
unfoldable pub login_mask : Status → Offer → ℕ
login_mask st o =
    if length o.username == 0 && (length o.password == 0 && has st.supported_uams 1)
    then 1
    else o.uam_mask

-- Whether none of the steps of afp_server_complete_connection goes to its error label.
unfoldable pub accepts : Status → Offer → Bool
unfolding pick_version pick_uam afp_server_login login_mask
accepts st o = elim (pick_version st.versions (o.requested_version % 256)) [
  | none ↦ false
  | some version ↦
      not (pick_uam st.supported_uams (login_mask st o) ==ℤ neg 1)
      && (not (is_set (afp_server_login o.dologin o.login).0) && not (is_set o.getsrvrparms))
]

-- The server, or 0.
unfoldable pub afp_server_complete_connection : ℕ → ℕ → Bool → M ℕ
afp_server_complete_connection fuel p accepted = elim accepted [
  | true ↦ pure p
  | false ↦ do ret ← afp_server_remove fuel p; pure 0
]

-- The label error of afp_server_full_connect, where s is not null.
unfoldable pub connect_error : ℕ → ℕ → M ℕ
connect_error fuel s = do
  mounted ← ask (something_is_mounted s)
  elim mounted [ true ↦ pure 0 | false ↦ do ret ← afp_server_remove fuel s; pure 0 ]

-- From the lookup by signature on: a new server, which is connected and logged in.
unfoldable pub connect_new : ℕ → ℕ → ℕ × ℕ → Network → M ℕ
connect_new fuel new address net = do
  afp_server_init new
  ret ← afp_server_connect new address net.second none
  elim (is_set ret) [
    | true ↦ connect_error fuel new
    | false ↦ do
      s ← afp_server_complete_connection fuel new (accepts net.status net.offer)
      elim (s == 0) [
        | true ↦ connect_error fuel new
        | false ↦ do change (update new λ s. with_status net.status s); pure new
      ]
  ]

-- From the first connection on, which only asks for the status. `tmp` and `new` are what malloc gives.
unfoldable pub connect_status : ℕ → (tmp new : ℕ) → ℕ × ℕ → Network → M ℕ
connect_status fuel tmp new address net = do
  afp_server_init tmp
  ret ← afp_server_connect tmp address net.first (some net.status)
  elim (is_neg ret) [
    | true ↦ do ret' ← afp_server_remove fuel tmp; pure 0
    | false ↦ do
      change (disconnect tmp)
      signature ← ask (λ r. at r tmp λ s. Run.done s.signature)
      ret' ← afp_server_remove fuel tmp
      s ← ask (find_server_by_signature fuel signature)
      elim (s == 0) [ true ↦ connect_new fuel new address net | false ↦ pure s ]
  ]

unfoldable pub afp_server_full_connect : ℕ → (tmp new : ℕ) → Network → M ℕ
afp_server_full_connect fuel tmp new net = elim net.address [
  | none ↦ pure 0
  | some address ↦ do
    s ← ask (find_server_by_address fuel address)
    elim (s == 0) [ true ↦ connect_status fuel tmp new address net | false ↦ pure s ]
]
