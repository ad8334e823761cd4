-- ===== src/AppState.antt =====
-- src/state.rs: the state of the router, its start from a configuration, and what saves and reloads
-- the configuration. The request queue is not part of it: no operation here changes it but to wake
-- its waiters.
pub mod Reload
use polyglotmesh.Prelude.{
  ℕ, ℤ, ◌*◌, ◌/◌, Bool, true, false, not, ◌&&◌, Option, none, some, List, [], ◌∷◌, ◌++◌, map,
  length, Text, codes, if◌then◌else◌, Heap, write,
}
use polyglotmesh.Float.{Float}
use polyglotmesh.Config.{Config, ServerConfig, ApiKeyConfig, UpstreamConfig}
use polyglotmesh.Config.Files.{FileSystem, Formats, RouterPaths, load_from_path, save_to_path}
use polyglotmesh.Error.{RouterError, RouterResult, ok, err}
use polyglotmesh.Upstream.{Upstream}
use polyglotmesh.Registry
use polyglotmesh.Registry.{Registry}
use polyglotmesh.Auth
use polyglotmesh.Auth.{IpNet, KeyRecord, AuthStore, bare_config}
use polyglotmesh.Auth.Durations.{Run, panicked, done, Chrono}
use polyglotmesh.State.{restore_usage}
use polyglotmesh.State.Samples.{metrics_restore}
use polyglotmesh.Metrics.Series.{Labels}
use polyglotmesh.Metrics.Central.{Metrics, new_metrics}
use polyglotmesh.Storage.{Storage}
use polyglotmesh.Storage.Keys.{upsert_api_key, upsert_api_key_legacy}
use polyglotmesh.Storage.Usage.{get_key_usage}
use polyglotmesh.Storage.Samples.{load_metric_samples}

-- The libraries that the router runs on, and the paths that `discover` finds.
pub record Host : Type 1 where
  pub fl : Float
  pub ch : Chrono
  pub net : IpNet
  pub fs : FileSystem
  pub formats : Formats (Float.F fl)
  pub paths : RouterPaths
  -- the order in which the hash map of the upstreams is iterated
  pub iter : List (Text × ℕ) → List (Text × ℕ)
  -- the JSON texts of the configurations and of a label tuple, and the hash of a key
  pub key_json : ApiKeyConfig (Float.F fl) → Option Text
  pub upstream_json : UpstreamConfig (Float.F fl) → Option Text
  pub labels_from_json : Text → Option Labels
  pub hash : Text → Text
  -- `from_timestamp` of the chrono library
  pub date : ℤ → Option ℕ

-- What a handler reads of the clocks: the instant and the time of day, in nanoseconds.
pub record Clock : Type 0 where
  pub now : ℕ
  pub utc : ℕ

-- `Utc::now().timestamp()`
abbrev pub unix : Clock → ℕ
unix t = t.utc / 1_000_000_000

pub record AppState (F Net Files : Type 0) : Type 0 where
  pub config : Config F
  pub upstreams : Heap (Upstream F)
  pub registry : Registry
  pub keys : Heap (KeyRecord F Net)
  pub auth : AuthStore
  pub storage : Storage F
  pub metrics : Metrics
  pub files : Files

-- A statement whose error is dropped.
abbrev pub or_same : {A : Type 0} → Option A → A → A
or_same none a = a
or_same (some b) a = b

module _ (fl : Float) where
  open fl use {F, lit, mul, le, to_u64}

  abbrev pub lt : F → F → Bool
  lt a b = le a b && not (le b a)

  -- `Metrics::set_trace_sample_ratio`
  unfoldable pub set_trace_sample_ratio : F → Metrics → Metrics
  set_trace_sample_ratio ratio m =
      let r =
        if lt ratio (lit 0 0) then lit 0 0 else if lt (lit 1 0) ratio then lit 1 0 else ratio in
      record m { trace_sample_ratio = to_u64 (mul r (lit 1_000_000 0)) }

  abbrev pub apply_ratio : Option F → Metrics → Metrics
  apply_ratio none m = m
  apply_ratio (some r) m = set_trace_sample_ratio r m

-- `reload_from_path` and `from_config` add the keys in this order: those of `api_keys`, the bare keys
-- with the role api, and the admin token.
abbrev pub key_configs : {F : Type 0} → Config F → List (ApiKeyConfig F)
key_configs cfg =
    cfg.api_keys
    ++ (map (bare_config (codes "api")) cfg.api_keys_legacy ++ (elim cfg.server.admin_token [
      | none ↦ []
      | some t ↦ bare_config (codes "admin") t ∷ []
    ]))

module _ {F : Type 0} (ch : Chrono) (net : IpNet) where
  open net use {Net}

  -- One `add` after the other.
  unfoldable pub add_all :
      ℕ
      → List (ApiKeyConfig F)
      → Heap (KeyRecord F Net)
      → AuthStore
      → Run (Heap (KeyRecord F Net) × AuthStore)
  add_all now [] h ks = done (h, ks)
  add_all now (c ∷ cs) h ks = elim (Auth.add ch net now c h ks) [
    | panicked ↦ panicked
    | done (h', ks') ↦ add_all now cs h' ks'
  ]

module _ (fl : Float) {Net : Type 0} (date : ℤ → Option ℕ) where
  open fl use {F}

  -- The loop that restores the counters of every key whose row can be read.
  unfoldable pub restore_all :
      ℕ → Storage F → List ℕ → Heap (KeyRecord F Net) → Heap (KeyRecord F Net)
  unfolding restore_usage get_key_usage
  restore_all now db [] h = h
  restore_all now db (p ∷ ks) h = restore_all now db ks (elim (get_key_usage fl (h.at p).alias db) [
    | none ↦ h
    | some row ↦ write h p (restore_usage fl date now row (h.at p))
  ])

-- What `from_config` writes of the keys to the tables; `upsert_api_key_legacy` goes through
-- `upsert_api_key`. An error is dropped.
module _ {F : Type 0} (to_json : ApiKeyConfig F → Option Text) (hash : Text → Text) (unix : ℕ) where
  unfoldable pub store_keys : List (ApiKeyConfig F) → Storage F → Storage F
  unfolding upsert_api_key
  store_keys [] db = db
  store_keys (c ∷ cs) db =
      store_keys cs (elim c.key [
        | none ↦ db
        | some raw ↦ or_same (upsert_api_key to_json hash unix raw c db) db
      ])

-- What a reload answers with.
pub record Reloaded : Type 0 where
  pub upstreams : ℕ
  pub keys : ℕ

module _ (host : Host) where
  open host use {fl, ch, net, date, iter, fs, formats, paths, key_json, hash, labels_from_json}
  open fl use {F}
  open net use {Net}
  open fs use {Files}

  abbrev pub App : Type 0
  App = AppState F Net Files

  -- `save_to_disk`
  unfoldable pub save_to_disk : App → RouterResult (Unit {0}) × App
  unfolding save_to_path
  save_to_disk s =
      let (r, files) = save_to_path fs formats paths.config_file s.config s.files in
      (r, record s { files = files })

  -- `for id in existing_ids { self.registry.remove(&id) }`
  unfoldable pub remove_all : List Text → Heap (Upstream F) → Registry → Registry
  remove_all [] h r = r
  remove_all (id ∷ ids) h r = remove_all ids h (Registry.remove iter id h r).1

  -- The registry rebuilt in place.
  unfoldable pub replace_upstreams : Clock → Config F → App → App
  unfolding remove_all
  replace_upstreams t cfg s =
      let ids = map (λ p. (s.upstreams.at p).cfg.id) (Registry.all iter s.registry) in
      let (h, r) =
        Registry.upsert_all fl iter t.now cfg.upstreams s.upstreams
          (remove_all ids s.upstreams s.registry) in
      record s { upstreams = h; registry = r }

  -- The new keys, their restored counters, the sampling ratio and the configuration itself.
  abbrev pub replace_keys :
      Clock
      → Config F
      → App
      → Run (Heap (KeyRecord F Net) × AuthStore)
      → Run (RouterResult Reloaded) × App
  replace_keys t cfg s panicked = (panicked, s)
  replace_keys t cfg s (done (h, ks)) = (
    done (ok (record { upstreams = length (Registry.all iter s.registry); keys = length ks })),
    record s {
      keys = restore_all fl date t.utc s.storage ks h;
      auth = ks;
      metrics = apply_ratio fl cfg.server.trace_sample_ratio s.metrics;
      config = cfg;
    },
  )

  unfoldable pub apply_config : Clock → Config F → App → Run (RouterResult Reloaded) × App
  unfolding replace_upstreams add_all restore_all set_trace_sample_ratio
  apply_config t cfg s =
      let s' = replace_upstreams t cfg s in
      replace_keys t cfg s' (add_all ch net t.utc (key_configs cfg) s'.keys [])

  abbrev pub apply_loaded :
      Clock → RouterResult (Config F) → App → Run (RouterResult Reloaded) × App
  apply_loaded t (err e) s = (done (err e), s)
  apply_loaded t (ok cfg) s = apply_config t cfg s

  -- `reload_from_path`. A panic on a key's expiry comes after the registry is rebuilt and before the
  -- keys and the configuration are replaced.
  unfoldable pub reload_from_path : Clock → Text → App → Run (RouterResult Reloaded) × App
  unfolding apply_config load_from_path
  reload_from_path t path s = apply_loaded t (load_from_path fs formats path s.files) s

  -- `reload_from_disk`
  unfoldable pub reload_from_disk : Clock → App → Run (RouterResult Reloaded) × App
  unfolding reload_from_path
  reload_from_disk t s = reload_from_path t paths.config_file s

  abbrev pub start_with :
      Clock
      → Config F
      → Files
      → Storage F
      → Heap (Upstream F) × Registry
      → Run (Heap (KeyRecord F Net) × AuthStore)
      → Run App
  start_with t cfg files db ups panicked = panicked
  start_with t cfg files db (h, r) (done (keys, ks)) = done (record {
    config = cfg;
    upstreams = h;
    registry = r;
    keys = restore_all fl date t.utc db ks keys;
    auth = ks;
    storage = db;
    metrics =
        metrics_restore labels_from_json (load_metric_samples db)
          (apply_ratio fl cfg.server.trace_sample_ratio new_metrics);
    files = files;
  })

  -- `from_config`, on the tables of the database that it opens and on heaps without an object in
  -- use.
  unfoldable pub start :
      Clock → Config F → Files → Storage F → Heap (Upstream F) → Heap (KeyRecord F Net) → Run App
  unfolding store_keys add_all restore_all set_trace_sample_ratio load_metric_samples
      metrics_restore new_metrics
  start t cfg files db ups keys =
      start_with t cfg files (store_keys key_json hash (unix t) (key_configs cfg) db)
        (Registry.rebuild fl iter t.now cfg.upstreams ups)
        (add_all ch net t.utc (key_configs cfg) keys [])
