-- ===== src/Admin/Upstreams.antt =====
-- src/admin/mod.rs: the handlers of the upstreams. The body of a request is read by serde.
use polyglotmesh.Prelude.{
  ℕ, ℤ, Bool, true, false, not, Option, none, some, List, [], ◌∷◌, ◌++◌, Text, codes, text_eq,
  is_empty, trim, filter, find, if◌then◌else◌, write,
}
use polyglotmesh.Config.{ProviderKind, CircuitBreakerConfig, UpstreamConfig}
use polyglotmesh.Error.{upstream_not_found, bad_request}
use polyglotmesh.Upstream.{Upstream, healthy}
use polyglotmesh.Registry
use polyglotmesh.AppState.{Host, Clock, App, save_to_disk}
use polyglotmesh.Admin.{Reply, reply, failure}

pub record UpstreamInput (F : Type 0) : Type 0 where
  pub id : Text
  pub name : Option Text
  pub kind : ProviderKind
  pub base_url : Text
  pub api_key : Text
  pub priority : ℤ
  pub models : List Text
  pub weight : ℕ
  pub timeout_ms : ℕ
  pub max_concurrency : ℕ
  pub rate_limit_rpm : ℕ
  pub rate_limit_tpm : ℕ
  pub max_budget : Option F
  pub budget_duration : Option Text
  pub region : Option Text
  pub tags : List Text
  pub enabled : Bool
  pub critical : Bool
  pub circuit_breaker : Option CircuitBreakerConfig

-- `From<UpstreamInput>`
abbrev pub config_of : {F : Type 0} → UpstreamInput F → UpstreamConfig F
config_of v = record {
  id = v.id;
  name = v.name;
  kind = v.kind;
  base_url = v.base_url;
  api_key = v.api_key;
  priority = v.priority;
  models = v.models;
  weight = v.weight;
  timeout_ms = v.timeout_ms;
  max_concurrency = v.max_concurrency;
  rate_limit_rpm = v.rate_limit_rpm;
  rate_limit_tpm = v.rate_limit_tpm;
  enabled = v.enabled;
  max_budget = v.max_budget;
  budget_duration = v.budget_duration;
  model_info = [];
  region = v.region;
  tags = v.tags;
  critical = v.critical;
  circuit_breaker = v.circuit_breaker;
}

module _ {F : Type 0} where
  -- `retain(|u| u.id != id)`
  unfoldable pub retain_others : Text → List (UpstreamConfig F) → List (UpstreamConfig F)
  retain_others id = filter (λ c. not (text_eq c.id id))

  -- A change of the first configuration of this id.
  unfoldable pub change_first :
      Text
      → (UpstreamConfig F → UpstreamConfig F)
      → List (UpstreamConfig F)
      → List (UpstreamConfig F)
  change_first id f [] = []
  change_first id f (c ∷ cs) = if text_eq c.id id then f c ∷ cs else c ∷ change_first id f cs

  abbrev pub find_config : Text → List (UpstreamConfig F) → Option (UpstreamConfig F)
  find_config id = find (λ (c : UpstreamConfig F). text_eq c.id id)

  -- The match on the action; none is an unknown one.
  unfoldable pub act : Text → Upstream F → Option (Upstream F)
  act action u =
      if text_eq action (codes "enable")
      then some (record u { cfg = record (u.cfg) { enabled = true } })
      else if text_eq action (codes "disable")
      then some (record u { cfg = record (u.cfg) { enabled = false } })
      else if text_eq action (codes "reset")
      then some (record u { consecutive_failures = 0; health = healthy })
      else none

module _ (host : Host) where
  open host use {fl, iter, upstream_json}
  open fl use {F}

  -- A change of the configuration.
  abbrev pub with_upstreams : List (UpstreamConfig F) → App host → App host
  with_upstreams us s = record s { config = record (s.config) { upstreams = us } }

  -- `registry.upsert` and `registry.remove`
  abbrev pub upsert_one : Clock → UpstreamConfig F → App host → App host
  upsert_one t cfg s =
      let (h, r) = Registry.upsert fl iter t.now cfg s.upstreams s.registry in
      record s { upstreams = h; registry = r }

  abbrev pub remove_one : Text → App host → Bool × App host
  remove_one id s =
      let (removed, r) = Registry.remove iter id s.upstreams s.registry in
      (removed, record s { registry = r })

  -- `create_upstream`
  unfoldable pub create_upstream :
      Clock → UpstreamInput F → App host → Reply (UpstreamConfig F) × App host
  unfolding save_to_disk retain_others
  create_upstream t input s =
      let cfg = config_of input in
      if is_empty (trim cfg.id)
      then (failure (bad_request (codes "upstream id is required")), s)
      else if is_empty (trim cfg.base_url)
      then (failure (bad_request (codes "base_url is required")), s)
      else if is_empty (trim cfg.api_key)
      then (failure (bad_request (codes "api_key is required")), s)
      else (let s1 = with_upstreams (retain_others cfg.id s.config.upstreams ++ (cfg ∷ [])) s in
          (reply 201 cfg, (save_to_disk host (upsert_one t cfg s1)).1))

  -- `update_upstream`
  unfoldable pub update_upstream :
      Clock → Text → UpstreamInput F → App host → Reply (UpstreamConfig F) × App host
  unfolding save_to_disk retain_others
  update_upstream t id input s =
      if not (text_eq input.id id)
      then (failure (bad_request (codes "path id and body id must match")), s)
      else (let cfg = config_of input in
          let s1 = with_upstreams (retain_others id s.config.upstreams ++ (cfg ∷ [])) s in
          (reply 200 cfg, (save_to_disk host (upsert_one t cfg (remove_one id s1).1)).1))

  -- `delete_upstream`
  unfoldable pub delete_upstream : Text → App host → Reply (Unit {0}) × App host
  unfolding save_to_disk retain_others
  delete_upstream id s =
      let (removed, s1) = remove_one id (with_upstreams (retain_others id s.config.upstreams) s) in
      (if removed then reply 204 tt else failure upstream_not_found, (save_to_disk host s1).1)

  -- The upstream that an id stands for, changed.
  abbrev pub change_at : ℕ → (Upstream F → Upstream F) → App host → App host
  change_at p f s = record s { upstreams = write s.upstreams p (f (s.upstreams.at p)) }

  -- The handler of an upstream that is registered at an address.
  abbrev pub control_at :
      Text → Text → ℕ → App host → Option (Upstream F) → Reply (Upstream F) × App host
  control_at id action p s none =
      (failure (bad_request (codes "unknown action '" ++ action ++ codes "'")), s)
  control_at id action p s (some u) =
      let enabled = u.cfg.enabled in
      let s1 = record s { upstreams = write s.upstreams p u } in
      let s2 =
        with_upstreams (change_first id (λ c. record c { enabled = enabled }) s1.config.upstreams)
          s1 in
      (reply 200 u, (save_to_disk host s2).1)

  -- `control_upstream`
  unfoldable pub control_upstream : Text → Text → App host → Reply (Upstream F) × App host
  unfolding act change_first save_to_disk
  control_upstream id action s = elim (Registry.get id s.registry) [
    | none ↦ (failure upstream_not_found, s)
    | some p ↦ control_at id action p s (act action (s.upstreams.at p))
  ]

  abbrev pub set_paused : Bool → Text → App host → Reply (Upstream F) × App host
  set_paused paused id s = elim (Registry.get id s.registry) [
    | none ↦ (failure upstream_not_found, s)
    | some p ↦
        let s' = change_at p (λ u. record u { paused = paused }) s in
        (reply 200 (s'.upstreams.at p), s')
  ]

  -- `pause_upstream`
  unfoldable pub pause_upstream : Text → App host → Reply (Upstream F) × App host
  pause_upstream = set_paused true

  -- `resume_upstream`
  unfoldable pub resume_upstream : Text → App host → Reply (Upstream F) × App host
  resume_upstream = set_paused false
