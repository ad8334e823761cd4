-- ===== src/Config.antt =====
-- src/config/types.rs and the defaults it declares: what the configuration file is read into, which
-- is done in the child.
-- Money is over an abstract f64, a type parameter F.
pub mod Files
pub mod RoundTrip
use Prim.Native.Nat.{compare, Ordering}
use polyglotmesh.Prelude.{ℕ, Bool, true, false, Option, none, List, [], Text, codes, ℤ, pos, negsuc}

pub data ProviderKind : Type 0 where
  openai anthropic : ProviderKind

abbrev pub kind_eq : ProviderKind → ProviderKind → Bool
kind_eq openai openai = true
kind_eq openai anthropic = false
kind_eq anthropic openai = false
kind_eq anthropic anthropic = true

-- `ProviderKind::as_str`
unfoldable pub as_str : ProviderKind → Text
as_str openai = codes "openai"
as_str anthropic = codes "anthropic"

-- `Ord::cmp` of two i32.
abbrev pub cmp_ℤ : ℤ → ℤ → Ordering
cmp_ℤ (pos a) (pos b) = compare a b
cmp_ℤ (pos a) (negsuc b) = Ordering.gt
cmp_ℤ (negsuc a) (pos b) = Ordering.lt
cmp_ℤ (negsuc a) (negsuc b) = compare b a

pub record CircuitBreakerConfig : Type 0 where
  pub failure_threshold : ℕ
  pub open_duration_s : ℕ

pub record ModelCost (F : Type 0) : Type 0 where
  pub input_cost_per_token : Option F
  pub output_cost_per_token : Option F
  pub max_input_tokens : Option ℕ
  pub max_output_tokens : Option ℕ
  pub cache_read_input_token_cost : Option F
  pub cache_creation_input_token_cost : Option F

pub record UpstreamConfig (F : Type 0) : Type 0 where
  pub id : Text
  pub name : Option Text
  pub kind : ProviderKind
  pub base_url : Text
  pub api_key : Text
  pub priority : ℤ
  pub models : List Text
  pub weight : ℕ
  pub timeout_ms : ℕ
  pub max_concurrency : ℕ
  pub rate_limit_rpm : ℕ
  pub rate_limit_tpm : ℕ
  pub enabled : Bool
  pub max_budget : Option F
  pub budget_duration : Option Text
  -- a map in key order
  pub model_info : List (Text × ModelCost F)
  pub region : Option Text
  pub tags : List Text
  pub critical : Bool
  pub circuit_breaker : Option CircuitBreakerConfig

pub record ModelAliasEntry : Type 0 where
  pub upstream_id : Text
  pub upstream_model : Text

pub record ModelListEntry : Type 0 where
  pub model_name : Text
  pub upstream_id : Text
  pub upstream_model : Option Text

pub record ApiKeyConfig (F : Type 0) : Type 0 where
  pub key : Option Text
  pub key_alias : Option Text
  pub role : Text
  pub models : List Text
  pub allowed_providers : List ProviderKind
  pub rpm_limit : ℕ
  pub tpm_limit : ℕ
  pub max_parallel_requests : ℕ
  pub max_budget : Option F
  pub budget_duration : Option Text
  pub expires : Option Text
  pub soft_budget : Option F
  pub allowed_model_region : Option Text
  pub blocked : Bool
  pub allowed_cidrs : List Text

pub record QueueConfig : Type 0 where
  pub max_queue_per_provider : ℕ
  pub queue_wait_timeout_ms : ℕ
  pub healthcheck_interval_ms : ℕ
  pub healthcheck_timeout_ms : ℕ
  pub healthcheck_failure_threshold : ℕ

-- `QueueConfig::default`
unfoldable pub default_queue : QueueConfig
default_queue = record {
  max_queue_per_provider = 0;
  queue_wait_timeout_ms = 30_000;
  healthcheck_interval_ms = 15_000;
  healthcheck_timeout_ms = 5_000;
  healthcheck_failure_threshold = 3;
}

pub record ServerConfig (F : Type 0) : Type 0 where
  pub bind : Text
  pub admin_token : Option Text
  pub global_max_parallel_requests : Option ℕ
  pub max_request_size_mb : Option ℕ
  pub usage_retention_days : ℕ
  pub usage_retention_hour : Option ℕ
  pub drain_timeout_s : Option ℕ
  pub trace_sample_ratio : Option F

pub record Config (F : Type 0) : Type 0 where
  pub server : ServerConfig F
  pub api_keys : List (ApiKeyConfig F)
  pub api_keys_legacy : List Text
  pub upstreams : List (UpstreamConfig F)
  pub model_list : List ModelListEntry
  -- a map in key order
  pub model_aliases : List (Text × List ModelAliasEntry)
  pub queue : QueueConfig

-- `default_bind`
abbrev pub default_bind : Text
default_bind = codes "0.0.0.0:8080"

-- `Config::default`
unfoldable pub default_config : {F : Type 0} → Config F
unfolding default_queue
default_config = record {
  server = record {
    bind = default_bind;
    admin_token = none;
    global_max_parallel_requests = none;
    max_request_size_mb = none;
    usage_retention_days = 0;
    usage_retention_hour = none;
    drain_timeout_s = none;
    trace_sample_ratio = none;
  };
  api_keys = [];
  api_keys_legacy = [];
  upstreams = [];
  model_list = [];
  model_aliases = [];
  queue = default_queue;
}
