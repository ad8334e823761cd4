-- ===== src/Admin/Keys.antt =====
-- src/admin/mod.rs: the handlers of the keys. A random token is a parameter: `fresh` with whether it
-- is an admin's. A panic of `AuthStore::add` leaves the state as it was.
use polyglotmesh.Prelude.{
  ℕ, Bool, true, false, not, ◌||◌, Option, none, some, [], ◌∷◌, ◌++◌, Text, codes, text_eq, filter,
  find, if◌then◌else◌, Heap,
}
use polyglotmesh.Config.{Config, ServerConfig, ApiKeyConfig}
use polyglotmesh.Config.Files.{Answer, fine, failed}
use polyglotmesh.Error.{bad_request}
use polyglotmesh.Auth.{KeyRecord, AuthStore, short_alias, add, remove_by_raw, bare_config}
use polyglotmesh.Auth.Durations.{Run, panicked, done}
use polyglotmesh.AppState.{Host, Clock, App, save_to_disk}
use polyglotmesh.Admin.{Reply, reply, failure, plain, audit}

-- `CreateKeyBody`, with what serde makes of the fields.
pub record CreateKeyBody (F : Type 0) : Type 0 where
  pub generate : Bool
  pub role : Option Text
  pub fields : Answer (ApiKeyConfig F)

-- `CreatedKey`, less the usage.
pub record CreatedKey : Type 0 where
  pub key : Text
  pub key_alias : Text
  pub role : Text

abbrev pub or_empty : Option Text → Text
or_empty none = []
or_empty (some t) = t

abbrev pub is_some_text : Text → Option Text → Bool
is_some_text t none = false
is_some_text t (some k) = text_eq k t

abbrev pub is_none : Option Text → Bool
is_none none = true
is_none (some k) = false

-- `{"alias":"..","role":".."}`
abbrev pub key_detail : Text → Text → Text
key_detail alias role =
    codes "{\"alias\":\"" ++ alias ++ codes "\",\"role\":\"" ++ role ++ codes "\"}"

module _ {F : Type 0} (fresh : Bool → Text) where
  abbrev pub with_role : Option Text → ApiKeyConfig F → ApiKeyConfig F
  with_role none c = c
  with_role (some r) c = record c { role = r }

  abbrev pub with_key : Bool → ApiKeyConfig F → ApiKeyConfig F
  with_key generate c =
      if generate || is_none c.key
      then record c { key = some (fresh (text_eq c.role (codes "admin"))) }
      else c

  abbrev pub with_alias : ApiKeyConfig F → ApiKeyConfig F
  with_alias c =
      if is_none c.key_alias
      then record c { key_alias = some (short_alias (or_empty c.key)) }
      else c

  -- The configuration of a new key: its role, its text and its alias are filled in.
  unfoldable pub key_config : Bool → Option Text → ApiKeyConfig F → ApiKeyConfig F
  key_config generate role c = with_alias (with_key generate (with_role role c))

module _ {F : Type 0} where
  -- `if role == "admin" { w.server.admin_token = Some(raw) }`
  abbrev pub with_token : Text → Text → ServerConfig F → ServerConfig F
  with_token role raw sv =
      if text_eq role (codes "admin") then record sv { admin_token = some raw } else sv

  -- The write of a new key to the configuration.
  abbrev pub keep_key : Text → ApiKeyConfig F → Config F → Config F
  keep_key raw k cfg = record cfg {
    api_keys =
        filter (λ (c : ApiKeyConfig F). not (is_some_text raw c.key)) cfg.api_keys ++ (k ∷ []);
    server = with_token k.role raw cfg.server;
  }

  -- The configuration of a rotated key: what is carried over from the entry of the same alias.
  abbrev pub carry_over : Option (ApiKeyConfig F) → ApiKeyConfig F → ApiKeyConfig F
  carry_over none c = c
  carry_over (some orig) c = record c {
    models = orig.models;
    allowed_providers = orig.allowed_providers;
    rpm_limit = orig.rpm_limit;
    tpm_limit = orig.tpm_limit;
    max_parallel_requests = orig.max_parallel_requests;
    max_budget = orig.max_budget;
    budget_duration = orig.budget_duration;
    expires = orig.expires;
    soft_budget = orig.soft_budget;
    allowed_model_region = orig.allowed_model_region;
  }

  -- `ApiKeyConfig { key, key_alias, role, ..Default::default() }`
  abbrev pub fresh_config : Text → Text → Text → ApiKeyConfig F
  fresh_config raw alias role = record (bare_config role raw) { key_alias = some alias }

  abbrev pub swap_key : Text → ApiKeyConfig F → Text → Config F → Config F
  swap_key alias k raw cfg = record cfg {
    api_keys =
        filter (λ (c : ApiKeyConfig F). not (is_some_text alias c.key_alias)) cfg.api_keys
        ++ (k ∷ []);
    server = with_token k.role raw cfg.server;
  }

  abbrev pub drop_token : Text → ServerConfig F → ServerConfig F
  drop_token raw sv =
      if is_some_text raw sv.admin_token then record sv { admin_token = none } else sv

  -- What a revoked key is taken out of.
  abbrev pub forget_key : Text → Config F → Config F
  forget_key raw cfg = record cfg {
    api_keys = filter (λ (c : ApiKeyConfig F). not (is_some_text raw c.key)) cfg.api_keys;
    server = drop_token raw cfg.server;
  }

module _ (host : Host) where
  open host use {fl, ch, net}
  open fl use {F}
  open net use {Net}

  -- The handlers' way from `add` on: the configuration, the file and the audit log.
  abbrev pub after_add :
      Clock
      → Text
      → Option Text
      → CreatedKey
      → ℕ
      → Config F
      → App host
      → Run (Heap (KeyRecord F Net) × AuthStore)
      → Run (Reply CreatedKey) × App host
  after_add t action header made code cfg s panicked = (panicked, s)
  after_add t action header made code cfg s (done (h, ks)) = (
    done (reply code made),
    audit host t action header (key_detail made.key_alias made.role)
        (save_to_disk host (record s { keys = h; auth = ks; config = cfg })).1,
  )

  -- `create_key` from the finished configuration on.
  abbrev pub create_with :
      Clock → Option Text → ApiKeyConfig F → App host → Run (Reply CreatedKey) × App host
  create_with t header k s =
      let raw = or_empty k.key in
      after_add t (codes "key.create") header
        (record { key = raw; key_alias = or_empty k.key_alias; role = k.role }) 201
        (keep_key raw k s.config) s (add ch net t.utc k s.keys s.auth)

  abbrev pub create_from :
      Clock
      → (Bool → Text)
      → Option Text
      → CreateKeyBody F
      → Answer (ApiKeyConfig F)
      → App host
      → Run (Reply CreatedKey) × App host
  create_from t fresh header body (failed e) s =
      (done (failure (bad_request (codes "invalid key fields: " ++ e))), s)
  create_from t fresh header body (fine c) s =
      create_with t header (key_config fresh body.generate body.role c) s

  -- `create_key`
  unfoldable pub create_key :
      Clock
      → (Bool → Text)
      → Option Text
      → CreateKeyBody F
      → App host
      → Run (Reply CreatedKey) × App host
  unfolding key_config add save_to_disk audit
  create_key t fresh header body s = create_from t fresh header body body.fields s

  -- The key of an alias, the first in the store.
  abbrev pub find_alias : Text → App host → Option ℕ
  find_alias alias s = find (λ p. text_eq (s.keys.at p).alias alias) s.auth

  -- The configuration of the key that takes the place of the one at an address.
  abbrev pub rotated_config : Text → Text → ℕ → App host → ApiKeyConfig F
  rotated_config alias raw p s =
      carry_over (find (λ (c : ApiKeyConfig F). is_some_text alias c.key_alias) s.config.api_keys)
        (fresh_config raw alias (s.keys.at p).role)

  -- `rotate_key` of the key at an address. The old key is removed before the new one is added, also
  -- where that panics.
  abbrev pub rotate_at :
      Clock → (Bool → Text) → Option Text → Text → ℕ → App host → Run (Reply CreatedKey) × App host
  rotate_at t fresh header alias p s =
      let rec = s.keys.at p in
      let raw = fresh (text_eq rec.role (codes "admin")) in
      let k = rotated_config alias raw p s in
      let s' = record s { auth = (remove_by_raw rec.raw s.keys s.auth).1 } in
      after_add t (codes "key.rotate") header
        (record { key = raw; key_alias = alias; role = rec.role }) 200
        (swap_key alias k raw s'.config) s' (add ch net t.utc k s'.keys s'.auth)

  -- `rotate_key`
  unfoldable pub rotate_key :
      Clock → (Bool → Text) → Option Text → Text → App host → Run (Reply CreatedKey) × App host
  unfolding add remove_by_raw save_to_disk audit
  rotate_key t fresh header alias s = elim (find_alias alias s) [
    | none ↦ (done (plain 404 (codes "key not found")), s)
    | some p ↦ rotate_at t fresh header alias p s
  ]

  abbrev pub audit_if : Bool → Clock → Text → Option Text → Text → App host → App host
  audit_if true t action header detail s = audit host t action header detail s
  audit_if false t action header detail s = s

  abbrev pub revoke_raw : Clock → Option Text → Text → Text → App host → Reply (Unit {0}) × App host
  revoke_raw t header alias raw s =
      let (removed, ks) = remove_by_raw raw s.keys s.auth in
      let s1 =
        audit_if removed t (codes "key.revoke") header
          (codes "{\"alias\":\"" ++ alias ++ codes "\"}") (record s { auth = ks }) in
      let s2 = record s1 { config = forget_key raw s1.config } in
      (
        if removed then reply 204 tt else plain 404 (codes "key not found"),
        (save_to_disk host s2).1,
      )

  -- `revoke_key_by_alias`
  unfoldable pub revoke_key_by_alias :
      Clock → Option Text → Text → App host → Reply (Unit {0}) × App host
  unfolding remove_by_raw save_to_disk audit
  revoke_key_by_alias t header alias s = elim (find_alias alias s) [
    | none ↦ (plain 404 (codes "key not found"), s)
    | some p ↦ revoke_raw t header alias (s.keys.at p).raw s
  ]
