-- ===== src/Admin.antt =====
-- src/admin/mod.rs: what the admin handlers answer with, who may call them, and whom the audit log
-- names. The handlers are in the children. A wake-up of the queue changes no state of theirs.
pub mod Upstreams
pub mod Prices
pub mod Probes
pub mod Keys
pub mod Settings
pub mod Tasks
pub mod Agreement
pub mod Consistent
pub mod Untouched
pub mod Priced
pub mod Reloaded
pub mod Reach
pub mod Revoked
pub mod Lockout
pub mod Rotated
mod Tests
use polyglotmesh.Prelude.{
  ℕ, zero, suc, Bool, true, false, Option, none, some, List, [], ◌∷◌, Text, codes, text_eq,
  strip_prefix, if◌then◌else◌, Heap, length,
}
use polyglotmesh.Float.{Float}
use polyglotmesh.Error.{RouterError, unauthorized}
use polyglotmesh.Pricing.{before_first}
use polyglotmesh.Auth.{IpNet, KeyRecord, AuthStore}
use polyglotmesh.Auth.Durations.{Chrono}
use polyglotmesh.Storage.Audit.{append_audit}
use polyglotmesh.AppState.{Host, Clock, unix, App}
use polyglotmesh.Auth.Gate.{Verdict, granted, crashed, refused, authorize}

-- An answer: a status with what its body says, an error of the router, or a status and a text.
pub data Reply (A : Type 0) : Type 0 where
  reply : ℕ → A → Reply A
  failure : RouterError → Reply A
  plain : ℕ → Text → Reply A

-- The prefix is taken off at most this often.
unfoldable pub strip_all : ℕ → Text → Text → Text
strip_all zero p s = s
strip_all (suc n) p s = elim (strip_prefix p s) [ none ↦ s | some rest ↦ strip_all n p rest ]

-- `trim_start_matches(p)`; each prefix takes a character at least.
unfoldable pub trim_start_matches : Text → Text → Text
unfolding strip_all
trim_start_matches p s = strip_all (length s) p s

-- `actor_from_headers`; the header is `none` where it is absent or not text.
unfoldable pub actor_from_headers : Option Text → Text
unfolding trim_start_matches before_first
actor_from_headers none = codes "unknown"
actor_from_headers (some s) =
    before_first 46 (trim_start_matches (codes "bearer ") (trim_start_matches (codes "Bearer ") s))

module _ (fl : Float) (ch : Chrono) (net : IpNet) where
  open fl use {F}
  open net use {Net}

  abbrev pub required : RouterError
  required = unauthorized (codes "admin token required")

  abbrev pub is_admin : Option ℕ → Heap (KeyRecord F Net) → Bool
  is_admin none h = false
  is_admin (some p) h = text_eq (h.at p).role (codes "admin")

  abbrev pub after_authorize :
      Verdict × Option ℕ × Heap (KeyRecord F Net) → Verdict × Heap (KeyRecord F Net)
  after_authorize (granted, key, h) = (if is_admin key h then granted else refused required, h)
  after_authorize (refused e, key, h) = (refused required, h)
  after_authorize (crashed, key, h) = (crashed, h)

  -- `admin_auth_middleware`: whether the handler runs, and the keys after the check.
  unfoldable pub admin_auth :
      ℕ → Option Text → Heap (KeyRecord F Net) → AuthStore → Verdict × Heap (KeyRecord F Net)
  unfolding authorize
  admin_auth now header h ks = after_authorize (authorize fl ch net now header none h ks)

module _ (host : Host) where
  -- An entry of the audit log, whose error is dropped.
  unfoldable pub audit : Clock → Text → Option Text → Text → App host → App host
  unfolding append_audit actor_from_headers
  audit t action header detail s = record s {
    storage = (append_audit (unix t) action (actor_from_headers header) detail s.storage).1;
  }
