-- ===== src/Auth.antt =====
-- src/auth/mod.rs: the records of the API keys and the store of them. An `Arc<KeyRecord>` is an
-- address in a heap, so that a request which holds a removed key keeps its record. The chrono
-- library and the IP networks are parameters; one call reads the clock once.
pub mod Durations
pub mod Gate
pub mod Slots
pub mod Tests
pub mod Parse
mod Windows
pub mod Store
pub mod Access
use polyglotmesh.Prelude.{
  ℕ, Bool, true, false, not, ◌&&◌, ◌||◌, Option, none, some, List, [], ◌∷◌, ◌++◌, Text, codes,
  text_eq, length, any, filter, find, is_empty, trim, strip_prefix, ◌==◌, if◌then◌else◌, Heap,
  alloc, take_n,
}
use polyglotmesh.Config.{ProviderKind, ApiKeyConfig}
use polyglotmesh.Auth.Durations.{Run, panicked, done, Chrono, parse_expiry}

-- Rust's IP addresses and the networks of the ipnet library.
pub record IpNet : Type 1 where
  pub Net : Type 0
  pub IpAddr : Type 0
  -- `parse::<IpNet>`
  pub parse_net : Text → Option Net
  pub contains : Net → IpAddr → Bool

pub record KeyUsage : Type 0 where
  pub total_requests : ℕ
  pub total_input_tokens : ℕ
  pub total_output_tokens : ℕ
  -- in thousandths of a USD
  pub total_spend_usd : ℕ
  pub rpm_window_start : ℕ
  pub rpm_window_count : ℕ
  pub tpm_window_start : ℕ
  pub tpm_window_tokens : ℕ
  pub in_flight : ℕ

-- `KeyUsage::new`
abbrev pub new_usage : ℕ → KeyUsage
new_usage now = record {
  total_requests = 0;
  total_input_tokens = 0;
  total_output_tokens = 0;
  total_spend_usd = 0;
  rpm_window_start = now;
  rpm_window_count = 0;
  tpm_window_start = now;
  tpm_window_tokens = 0;
  in_flight = 0;
}

pub record KeyRecord (F Net : Type 0) : Type 0 where
  pub raw : Text
  pub alias : Text
  pub role : Text
  pub models : List Text
  pub allowed_providers : List ProviderKind
  pub rpm_limit : ℕ
  pub tpm_limit : ℕ
  pub max_parallel_requests : ℕ
  pub max_budget : Option F
  pub soft_budget : Option F
  pub budget_duration : Option Text
  pub budget_window_start : ℕ
  pub expires_at : Option ℕ
  pub allowed_model_region : Option Text
  pub blocked : Bool
  pub allowed_cidrs : List Net
  pub created_at : ℕ
  pub usage : KeyUsage

-- The first 12 characters and an ellipsis.
abbrev pub short_alias : Text → Text
short_alias raw = take_n 12 raw ++ (0x2026 ∷ [])

-- `filter_map(|c| c.parse().ok())`
abbrev pub filter_map : {A B : Type 0} → (A → Option B) → List A → List B
filter_map f [] = []
filter_map f (a ∷ rest) =
    let kept = filter_map f rest in elim (f a) [ none ↦ kept | some b ↦ b ∷ kept ]

-- `Some(k) if !k.trim().is_empty()`
abbrev pub key_text : Option Text → Option Text
key_text none = none
key_text (some k) = if not (is_empty (trim k)) then some k else none

-- `cfg.expires.as_deref().and_then(parse_expiry)`
unfoldable pub expiry_of : Chrono → ℕ → Option Text → Run (Option ℕ)
unfolding parse_expiry
expiry_of ch now none = done none
expiry_of ch now (some s) = parse_expiry ch now s

-- The record of a configuration with this key and this end.
abbrev pub record_of :
    {F : Type 0} (net : IpNet) → ℕ → ApiKeyConfig F → Text → Option ℕ → KeyRecord F (IpNet.Net net)
record_of net now cfg raw expires_at = record {
  raw = raw;
  alias = elim cfg.key_alias [ some a ↦ a | none ↦ short_alias raw ];
  role = cfg.role;
  models = cfg.models;
  allowed_providers = cfg.allowed_providers;
  rpm_limit = cfg.rpm_limit;
  tpm_limit = cfg.tpm_limit;
  max_parallel_requests = cfg.max_parallel_requests;
  max_budget = cfg.max_budget;
  soft_budget = cfg.soft_budget;
  budget_duration = cfg.budget_duration;
  budget_window_start = now;
  expires_at = expires_at;
  allowed_model_region = cfg.allowed_model_region;
  blocked = cfg.blocked;
  allowed_cidrs = filter_map (IpNet.parse_net net) cfg.allowed_cidrs;
  created_at = now;
  usage = new_usage now;
}

-- `KeyRecord::from_config`: `done none` is its error.
unfoldable pub from_config :
    {F : Type 0} (ch : Chrono) (net : IpNet)
    → ℕ
    → ApiKeyConfig F
    → Run (Option (KeyRecord F (IpNet.Net net)))
from_config ch net now cfg = elim (key_text cfg.key) [
  | none ↦ done none
  | some raw ↦ elim (expiry_of ch now cfg.expires) [
    | panicked ↦ panicked
    | done expires_at ↦ done (some (record_of net now cfg raw expires_at))
  ]
]

-- The configuration of a bare key with a role.
abbrev pub bare_config : {F : Type 0} → Text → Text → ApiKeyConfig F
bare_config role raw = record {
  key = some raw;
  key_alias = some (short_alias raw);
  role = role;
  models = [];
  allowed_providers = [];
  rpm_limit = 0;
  tpm_limit = 0;
  max_parallel_requests = 0;
  max_budget = none;
  budget_duration = none;
  expires = none;
  soft_budget = none;
  allowed_model_region = none;
  blocked = false;
  allowed_cidrs = [];
}

-- `AuthStore`: the keys' addresses, in order. `AuthStore::new` is the empty list.
abbrev pub AuthStore : Type 0
AuthStore = List ℕ

module _ {F Net : Type 0} where
  -- `AuthStore::remove_by_raw`
  unfoldable pub remove_by_raw : Text → Heap (KeyRecord F Net) → AuthStore → Bool × AuthStore
  remove_by_raw raw h ks =
      let kept = filter (λ p. not (text_eq (h.at p).raw raw)) ks in
      (not (length ks == length kept), kept)

  -- `api_key_count` and `admin_key_count`, with the role they count
  unfoldable pub key_count : Text → Heap (KeyRecord F Net) → AuthStore → ℕ
  key_count role h ks = length (filter (λ p. text_eq (h.at p).role role) ks)

  -- `validate_api_key` and `validate_admin_key`, with the role they ask for
  unfoldable pub validate_key : Text → Text → Heap (KeyRecord F Net) → AuthStore → Bool
  validate_key role raw h ks =
      if is_empty raw
      then false
      else any (λ p. text_eq (h.at p).raw raw && text_eq (h.at p).role role) ks

  -- `AuthStore::lookup`
  unfoldable pub lookup : Text → Heap (KeyRecord F Net) → AuthStore → Option ℕ
  lookup raw h ks = find (λ p. text_eq (h.at p).raw raw) ks

-- The token of a header: trimmed, less `Bearer `, trimmed.
unfoldable pub token_of : Text → Text
token_of h =
    let t = trim h in trim (elim (strip_prefix (codes "Bearer ") t) [ some rest ↦ rest | none ↦ t ])

module _ {F Net : Type 0} where
  -- `AuthStore::check_bearer`
  unfoldable pub check_bearer : Option Text → Heap (KeyRecord F Net) → AuthStore → Bool
  unfolding token_of validate_key
  check_bearer none h ks = false
  check_bearer (some header) h ks = validate_key (codes "api") (token_of header) h ks

  -- `AuthStore::check_admin`
  unfoldable pub check_admin : Option Text → Heap (KeyRecord F Net) → AuthStore → Bool
  unfolding token_of validate_key
  check_admin none h ks = false
  check_admin (some header) h ks =
      let token = token_of header in
      validate_key (codes "admin") token h ks || validate_key (codes "api") token h ks

module _ {F : Type 0} (ch : Chrono) (net : IpNet) where
  open net use {Net}

  abbrev pub push_key :
      Heap (KeyRecord F Net)
      → AuthStore
      → Run (Option (KeyRecord F Net))
      → Run (Heap (KeyRecord F Net) × AuthStore)
  push_key h ks panicked = panicked
  push_key h ks (done none) = done (h, ks)
  push_key h ks (done (some rec)) = done ((alloc h rec).1, ks ++ (h.next ∷ []))

  -- `AuthStore::add`: a configuration without a key changes nothing.
  unfoldable pub add :
      ℕ
      → ApiKeyConfig F
      → Heap (KeyRecord F Net)
      → AuthStore
      → Run (Heap (KeyRecord F Net) × AuthStore)
  add now cfg h ks = push_key h ks (from_config ch net now cfg)

  -- `add_api_key` and `add_admin_key`, with the role they give
  unfoldable pub add_bare :
      Text
      → ℕ
      → Text
      → Heap (KeyRecord F Net)
      → AuthStore
      → Run (Heap (KeyRecord F Net) × AuthStore)
  add_bare role now raw h ks = add now (bare_config role raw) h ks

-- `AuthStore::replace_all`
abbrev pub replace_all : AuthStore → AuthStore → AuthStore
replace_all other ks = other
