-- ===== src/Admin/Tests.antt =====
-- Runs of src/admin/mod.rs, src/state.rs and src/config/mod.rs on a router with one key and one file.
use polyglotmesh.Prelude.{
  ℕ, pos, ◌+◌, ◌≤◌, ◌≡◌, refl, true, false, none, some, [], ◌∷◌, Text, codes, arith, Heap, text_eq,
  trim, trim_start, is_whitespace, strip_prefix,
}
use mathlib.Core.List.Perm
use polyglotmesh.Float.Fixed.{fixed}
use polyglotmesh.Config.{Config, openai, default_config}
use polyglotmesh.Config.RoundTrip.{KeepsTexts, load_from_path-save_to_path}
use polyglotmesh.Config.Files.{
  FileSystem, Formats, fine, failed, load_from_path, save_to_path, parse_config,
}
use polyglotmesh.Error.{ok}
use polyglotmesh.Auth.{KeyRecord, lookup, add, from_config, expiry_of, token_of}
use polyglotmesh.Auth.Durations.{panicked, done}
use polyglotmesh.Auth.Gate.{bearer_token}
use polyglotmesh.Auth.Slots.{IsBounded}
use polyglotmesh.Auth.Store.{IsStored}
use polyglotmesh.Auth.Tests.{chrono, hosts, limited}
use polyglotmesh.Upstream.Tests.{idle}
use polyglotmesh.Registry.{empty, get}
use polyglotmesh.Storage.{new_storage}
use polyglotmesh.Metrics.Central.{new_metrics}
use polyglotmesh.AppState.{Host, Clock, App, add_all, key_configs, reload_from_path}
use polyglotmesh.AppState.Reload.{Keys, is_found, reload-found}
use polyglotmesh.Admin.Upstreams.{UpstreamInput, create_upstream}
use polyglotmesh.Admin.Consistent.{IsConsistent}
use polyglotmesh.Admin.Reach.{here, next, creates, Reach-IsConsistent}
use polyglotmesh.Admin.Revoked.{revoke_key-reload}
use polyglotmesh.Admin.Keys.{revoke_key_by_alias, rotate_key}
use polyglotmesh.Admin.Lockout.{admin_all, admin_all-le}
use polyglotmesh.Admin.Rotated.{rotate_key-lookup}

-- One file, of one text, at every path.
abbrev one_file : FileSystem
one_file = record {
  Files = Text;
  exists = λ path files. true;
  read = λ path files. fine files;
  write = λ path raw files. (fine tt, raw);
  copy = λ from to files. (fine tt, files);
  rename = λ from to files. (fine tt, files);
  create_parent = λ path files. (fine tt, files);
  extension = λ path. some (codes "toml");
  join = λ base name. name;
  with_extension = λ path ext. path;
}

-- The file holds the address to listen on, and the bare key "n" is configured with it.
abbrev of_text : Text → Config ℕ
unfolding default_config
of_text s = record default_config {
  server = record (default_config.server) { bind = s };
  api_keys_legacy = codes "n" ∷ [];
}

abbrev plain_formats : Formats ℕ
plain_formats = record {
  from_json = λ s. failed s;
  to_json = λ c. failed [];
  from_toml = λ s. fine (of_text s);
  to_toml = λ c. fine c.server.bind;
}

abbrev host : Host
host = record {
  fl = fixed;
  ch = chrono;
  net = hosts;
  fs = one_file;
  formats = plain_formats;
  paths = record { config_dir = []; config_file = []; state_file = [] };
  iter = λ m. m;
  key_json = λ c. none;
  upstream_json = λ c. none;
  labels_from_json = λ s. none;
  hash = λ s. s;
  date = λ z. none;
}

abbrev clock : Clock
clock = record { now = 0; utc = 1 }

abbrev admin_key : KeyRecord ℕ ℕ
admin_key = record limited { role = codes "admin"; max_parallel_requests = 3 }

abbrev keys : Heap (KeyRecord ℕ ℕ)
keys = record { at = λ p. admin_key; next = 1 }

-- The router before a request: the key "k" is in the store, and no upstream is configured.
abbrev router : App host
router = record {
  config = of_text [];
  upstreams = record { at = λ p. idle; next = 0 };
  registry = empty;
  keys = keys;
  auth = 0 ∷ [];
  storage = new_storage;
  metrics = new_metrics;
  files = [];
}

router-IsConsistent : IsConsistent host router
unfolding of_text get
router-IsConsistent = record { filed = tt; same = λ j. refl }

abbrev input : UpstreamInput ℕ
input = record {
  id = codes "a";
  name = none;
  kind = openai;
  base_url = codes "u";
  api_key = codes "s";
  priority = pos 5;
  models = [];
  weight = 1;
  timeout_ms = 60_000;
  max_concurrency = 2;
  rate_limit_rpm = 0;
  rate_limit_tpm = 0;
  max_budget = none;
  budget_duration = none;
  region = none;
  tags = [];
  enabled = true;
  critical = false;
  circuit_breaker = none;
}

Reach-IsConsistent_example : IsConsistent host (create_upstream host clock input router).1
Reach-IsConsistent_example =
    Reach-IsConsistent host (λ m. Perm.refl m) router-IsConsistent
      (next here (creates clock input router))

admin_key-IsBounded : IsBounded admin_key
unfolding IsBounded
admin_key-IsBounded = (omega arith, λ p. omega arith)

-- Of four calls with the admin key, at most three pass.
admin_all-le_example :
    (admin_all fixed chrono hosts (1 ∷ 2 ∷ 3 ∷ 4 ∷ []) (some (codes "Bearer k")) keys (0 ∷ [])).0
      + 0
    ≤ 3
unfolding bearer_token token_of trim trim_start is_whitespace lookup text_eq strip_prefix
admin_all-le_example =
    admin_all-le fixed chrono hosts (1 ∷ 2 ∷ 3 ∷ 4 ∷ []) (some (codes "Bearer k")) (codes "k") keys
      (0 ∷ []) 0 refl refl admin_key-IsBounded (omega arith)

-- The keys after a reload of the file.
abbrev reloaded : Keys ℕ ℕ
reloaded = elim (add_all chrono hosts 1 (key_configs (of_text [])) keys []) [
  | panicked ↦ (keys, [])
  | done made ↦ made
]

added : add_all chrono hosts 1 (key_configs (of_text [])) keys [] ≡ done reloaded
unfolding of_text add_all add from_config trim trim_start is_whitespace expiry_of
added = refl

keys-IsStored : IsStored keys (0 ∷ [])
unfolding IsStored
keys-IsStored = (omega arith, tt)

abbrev revoked : App host
revoked = (revoke_key_by_alias host clock none (codes "k") router).1

revoke_key-reload_example :
    (lookup (codes "k") revoked.keys revoked.auth ≡ none)
    × (is_found (
          lookup
            (codes "k")
            (reload_from_path host clock [] revoked).1.keys
            (reload_from_path host clock [] revoked).1.auth)
        ≡ false)
unfolding text_eq load_from_path parse_config revoke_key_by_alias of_text trim trim_start
    is_whitespace
revoke_key-reload_example =
    revoke_key-reload host clock clock none (codes "k") [] router 0 reloaded refl refl added

reload-found_example :
    (is_found (
        lookup
          (codes "n")
          (reload_from_path host clock [] router).1.keys
          (reload_from_path host clock [] router).1.auth)
      ≡ true)
    × ((reload_from_path host clock [] router).1.config ≡ of_text [])
unfolding load_from_path parse_config text_eq of_text trim trim_start is_whitespace
reload-found_example =
    reload-found host clock [] (codes "n") (of_text []) router reloaded refl added

rotate_key-lookup_example :
    let s = (rotate_key host clock (λ admin. codes "m") none (codes "k") router).1 in
    (lookup (codes "k") s.keys s.auth ≡ none)
    × (lookup (codes "m") s.keys s.auth ≡ some 1)
    × ((s.keys.at 1).alias ≡ codes "k")
    × ((s.keys.at 1).role ≡ codes "admin")
    × ((s.keys.at 1).blocked ≡ false)
    × ((s.keys.at 1).allowed_cidrs ≡ [])
    × ((other : Text)
        → text_eq (codes "k") other ≡ false
        → text_eq (codes "m") other ≡ false
        → lookup other s.keys s.auth ≡ lookup other keys (0 ∷ []))
unfolding text_eq trim trim_start is_whitespace lookup of_text expiry_of
rotate_key-lookup_example =
    rotate_key-lookup host clock (λ admin. codes "m") none (codes "k") (codes "m") router 0 none
      refl refl refl refl keys-IsStored refl

one_file-KeepsTexts : KeepsTexts one_file plain_formats
one_file-KeepsTexts path raw files files' e = (refl, cc)

load_from_path-save_to_path_example :
    load_from_path one_file plain_formats
      (codes "p")
      (save_to_path one_file plain_formats (codes "p") (of_text (codes "h")) []).1
    ≡ ok (of_text (codes "h"))
unfolding save_to_path text_eq of_text
load_from_path-save_to_path_example =
    load_from_path-save_to_path one_file plain_formats (codes "p") (codes "h") (of_text (codes "h"))
      [] one_file-KeepsTexts refl refl
