-- ===== src/Volume/ReadOnly.antt =====
-- A volume that is read only stays as it is: the invariant, and how it passes through an operation.
pub mod Operations
pub mod Lookups
pub mod Attributes
pub mod Opening
pub mod Reading
pub mod Directories
pub mod Safety
use time_capsule_mount.Prelude.{
  ◌≡◌, Bool, true, false, Option, none, some, CString, ℤ, All, if◌then◌else◌,
}
use time_capsule_mount.Afp.Request.{Request, Reply}
use time_capsule_mount.Afp.Session.{
  Session, volume_is_readonly, M, get, put, pure, ◌>>=◌, ◌>>◌, exchange, get_time, fresh_address,
  IsHarmless,
}
use time_capsule_mount.Volume.Control.{
  from_option, call, with_converted, if_valid, if_writable, unless_meta,
}

-- The volume is read only, and nothing that was sent changes it.
abbrev pub Quiet : Session → Type 0
Quiet s = (volume_is_readonly s ≡ true) × All IsHarmless s.sent

-- The operation leaves it so.
pub record Keeps {A : Type 0} (m : M A) : Type 0 where
  pub at : (s : Session) → Quiet s → Quiet (m s).1

pub pure-Keeps : {A : Type 0} (a : A) → Keeps (pure a)
unfolding pure
pure-Keeps a = record { at = λ s q. q }

pub bind-Keeps :
    {A B : Type 0} (m : M A) (f : A → M B) → Keeps m → ((a : A) → Keeps (f a)) → Keeps (m >>= f)
unfolding ◌>>=◌
bind-Keeps m f hm hf = record { at = λ s q. (hf (m s).0).at (m s).1 (hm.at s q) }

pub get-Keeps : Keeps get
unfolding get
get-Keeps = record { at = λ s q. q }

pub if-Keeps : {A : Type 0} (b : Bool) (m k : M A) → Keeps m → Keeps k → Keeps (if b then m else k)
if-Keeps true m k hm hk = hm
if-Keeps false m k hm hk = hk

pub split-Keeps :
    {A : Type 0} (b : Bool) (m k : M A)
    → Keeps m
    → Keeps k
    → Keeps (elim b [ true ↦ m | false ↦ k ])
split-Keeps true m k hm hk = hm
split-Keeps false m k hm hk = hk

pub option-Keeps :
    {A B : Type 0} (o : Option A) (m : M B) (k : A → M B)
    → Keeps m
    → ((a : A) → Keeps (k a))
    → Keeps (from_option o m k)
unfolding from_option
option-Keeps none m k hm hk = hm
option-Keeps (some a) m k hm hk = hk a

pub exchange-Keeps : (r : Request) → IsHarmless r → Keeps (exchange r)
unfolding exchange volume_is_readonly
exchange-Keeps r h = record { at = λ s q. (q.0, (h, q.1)) }

pub get_time-Keeps : Keeps get_time
unfolding get_time volume_is_readonly
get_time-Keeps = record { at = λ s q. q }

pub fresh_address-Keeps : Keeps fresh_address
unfolding fresh_address volume_is_readonly
fresh_address-Keeps = record { at = λ s q. q }

pub ruleset keeps_rules = (pure-Keeps, get-Keeps, if-Keeps, split-Keeps, option-Keeps, bind-Keeps)

pub call-Keeps : (r : Request) → IsHarmless r → Keeps (call r)
unfolding call
call-Keeps r h = search (keeps_rules, exchange-Keeps)

-- What is done only on a volume that can be written.
pub if_writable-Keeps : (next : M ℤ) → Keeps (if_writable next)
unfolding if_writable ◌>>=◌ get pure volume_is_readonly
if_writable-Keeps next = record { at = λ s q. rw q.0 q }

pub if_valid-Keeps : (path : CString) (next : M ℤ) → Keeps next → Keeps (if_valid path next)
unfolding if_valid
if_valid-Keeps path next h = search keeps_rules

pub with_converted-Keeps :
    (path : CString) (next : CString → M ℤ)
    → ((converted_path : CString) → Keeps (next converted_path))
    → Keeps (with_converted path next)
unfolding with_converted
with_converted-Keeps path next h = search keeps_rules

pub unless_meta-Keeps : (meta next : M ℤ) → Keeps meta → Keeps next → Keeps (unless_meta meta next)
unfolding unless_meta
unless_meta-Keeps meta next hm hn = search keeps_rules

pub ruleset guard_rules = (
  keeps_rules, call-Keeps, if_writable-Keeps, if_valid-Keeps, with_converted-Keeps,
  unless_meta-Keeps,
)
