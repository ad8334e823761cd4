-- ===== src/Admin/Settings.antt =====
-- src/admin/mod.rs: the handlers of the aliases, the list of models, the retention and the metrics, and
-- the reload of the configuration with its rollback.
use polyglotmesh.Prelude.{
  ℕ, ◌-◌, ◌*◌, Bool, true, false, not, Option, none, some, List, [], ◌++◌, Text, codes, is_empty,
  cmp_text, ◌==◌, if◌then◌else◌,
}
use polyglotmesh.BTree
use polyglotmesh.Config.{Config, ModelAliasEntry, ModelListEntry}
use polyglotmesh.Config.Files.{Answer, fine, failed, load_from_path}
use polyglotmesh.Error.{RouterError, RouterResult, ok, err, not_found, decimal}
use polyglotmesh.Auth.Durations.{Run, panicked, done}
use polyglotmesh.Metrics.Central.{reset_metrics}
use polyglotmesh.Storage.{delete_events_older_than}
use polyglotmesh.AppState.{
  Host, Clock, unix, App, Reloaded, save_to_disk, reload_from_path, reload_from_disk,
}
use polyglotmesh.Admin.{Reply, reply, failure, plain, audit}

abbrev pub is_there : {A : Type 0} → Option A → Bool
is_there none = false
is_there (some a) = true

module _ (host : Host) where
  open host use {fl, fs, formats, paths}
  open fl use {F}
  open fs use {Files, exists, copy, rename, with_extension}

  abbrev pub with_aliases : List (Text × List ModelAliasEntry) → App host → App host
  with_aliases m s = record s { config = record (s.config) { model_aliases = m } }

  -- `set_aliases`: no entries take the alias away.
  unfoldable pub set_aliases : Text → List ModelAliasEntry → App host → Reply (Unit {0}) × App host
  unfolding save_to_disk
  set_aliases name entries s =
      let m =
        if is_empty entries
        then BTree.remove cmp_text name s.config.model_aliases
        else BTree.insert cmp_text name entries s.config.model_aliases in
      (reply 200 tt, (save_to_disk host (with_aliases m s)).1)

  -- `delete_alias`
  unfoldable pub delete_alias : Text → App host → Reply (Unit {0}) × App host
  unfolding save_to_disk
  delete_alias name s =
      let m = s.config.model_aliases in
      (
        if is_there (BTree.get cmp_text name m)
            then reply 204 tt
            else failure (not_found (codes "alias " ++ name)),
        (save_to_disk host (with_aliases (BTree.remove cmp_text name m) s)).1,
      )

  -- `put_model_list`
  unfoldable pub put_model_list : List ModelListEntry → App host → Reply (Unit {0}) × App host
  unfolding save_to_disk
  put_model_list entries s = (
    reply 200 tt,
    (save_to_disk host (record s { config = record (s.config) { model_list = entries } })).1,
  )

  -- `set_retention`
  unfoldable pub set_retention : Clock → Option Text → ℕ → App host → Reply ℕ × App host
  unfolding save_to_disk audit
  set_retention t header days s =
      let cfg = record (s.config) {
        server = record (s.config.server) { usage_retention_days = days };
      } in
      (
        reply 200 days,
        audit host t (codes "retention.set") header
            (codes "{\"days\":" ++ decimal days ++ codes "}")
            (save_to_disk host (record s { config = cfg })).1,
      )

  -- `prune_retention`: how many rows are gone. A cutoff before 1970 is older than every row.
  unfoldable pub prune_retention : Clock → App host → ℕ × App host
  unfolding delete_events_older_than
  prune_retention t s =
      let days = s.config.server.usage_retention_days in
      if days == 0
      then (0, s)
      else (let (n, db) = delete_events_older_than (unix t - days * 86_400) s.storage in
          (n, record s { storage = db }))

  -- `prune_usage_now`
  unfoldable pub prune_usage_now : Clock → Option Text → App host → Reply ℕ × App host
  unfolding prune_retention audit decimal
  prune_usage_now t header s =
      let (n, s') = prune_retention t s in
      (
        reply 200 n,
        audit host t (codes "retention.prune") header (codes "{\"rows\":" ++ decimal n ++ codes "}")
            s',
      )

  -- `admin_metrics_reset`
  unfoldable pub admin_metrics_reset : Clock → Option Text → App host → Reply (Unit {0}) × App host
  unfolding reset_metrics audit
  admin_metrics_reset t header s = (
    reply 200 tt,
    audit host t (codes "metrics.reset") header [] (record s { metrics = reset_metrics s.metrics }),
  )

  -- What a reload is answered and logged with; `detail` is the text of the log for a good one, and
  -- `error` that for an error, which the JSON and the formatting of the libraries make.
  abbrev pub after_reload :
      Clock
      → Text
      → Option Text
      → (Reloaded → Text)
      → (RouterError → Text)
      → (App host → App host)
      → Run (RouterResult Reloaded) × App host
      → Run (Reply Reloaded) × App host
  after_reload t action header detail error promote (panicked, s) = (panicked, s)
  after_reload t action header detail error promote (done (ok r), s) =
      (done (reply 200 r), audit host t action header (detail r) (promote s))
  after_reload t action header detail error promote (done (err e), s) =
      (done (plain 500 (error e)), audit host t action header (error e) s)

  abbrev pub copy_file : Text → Text → App host → App host
  copy_file from to s = record s { files = (copy from to s.files).1 }

  -- `stage_snapshot`: copy to a file beside the configuration, then rename.
  abbrev pub after_copy : Text → Text → Answer (Unit {0}) × Files → Answer (Unit {0}) × Files
  after_copy tmp dst (failed e, files) = (failed e, files)
  after_copy tmp dst (fine _, files) = rename tmp dst files

  unfoldable pub stage_snapshot : Text → Text → Files → Answer (Unit {0}) × Files
  stage_snapshot src dst files =
      let tmp = with_extension dst (codes "toml.staging") in after_copy tmp dst (copy src tmp files)

  abbrev pub backup : Text
  backup = with_extension paths.config_file (codes "toml.bak")

  -- The stages before the reload of `?from=path`: none goes on.
  abbrev pub after_stage : App host → Answer (Unit {0}) × Files → Option (Reply Reloaded) × App host
  after_stage s (failed e, files) =
      (some (plain 500 (codes "stage failed: " ++ e)), record s { files = files })
  after_stage s (fine _, files) = (none, record s { files = files })

  abbrev pub after_check :
      (RouterError → Text)
      → Text
      → RouterResult (Config F)
      → App host
      → Option (Reply Reloaded) × App host
  after_check error from (err e) s = (some (plain 400 (codes "snapshot invalid: " ++ error e)), s)
  after_check error from (ok cfg) s =
      let s' = copy_file paths.config_file backup s in
      after_stage s' (stage_snapshot from paths.config_file s'.files)

  unfoldable pub stage :
      (RouterError → Text) → Option Text → App host → Option (Reply Reloaded) × App host
  unfolding load_from_path stage_snapshot
  stage error none s = (none, s)
  stage error (some from) s =
      if not (exists from s.files)
      then (some (plain 400 (codes "snapshot not found: " ++ from)), s)
      else after_check error from (load_from_path fs formats from s.files) s

  abbrev pub reload_staged :
      Clock
      → Option Text
      → (Reloaded → Text)
      → (RouterError → Text)
      → Option (Reply Reloaded) × App host
      → Run (Reply Reloaded) × App host
  reload_staged t header detail error (some r, s) = (done r, s)
  reload_staged t header detail error (none, s) =
      after_reload t (codes "config.reload") header detail error (λ s'. s')
        (reload_from_disk host t s)

  -- `reload_config`
  unfoldable pub reload_config :
      Clock
      → Option Text
      → (Reloaded → Text)
      → (RouterError → Text)
      → Option Text
      → App host
      → Run (Reply Reloaded) × App host
  unfolding stage reload_from_disk audit
  reload_config t header detail error from s =
      reload_staged t header detail error (stage error from s)

  -- `rollback_config`
  unfoldable pub rollback_config :
      Clock
      → Option Text
      → (Reloaded → Text)
      → (RouterError → Text)
      → App host
      → Run (Reply Reloaded) × App host
  unfolding reload_from_path audit
  rollback_config t header detail error s =
      if not (exists backup s.files)
      then (done (plain 404 (codes "no backup (config.toml.bak) available")), s)
      else after_reload t (codes "config.rollback") header detail error
          (copy_file backup paths.config_file) (reload_from_path host t backup s)
