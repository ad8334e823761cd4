-- ===== src/Storage/Keys.antt =====
-- src/storage.rs: the rows of API keys and upstreams, and what a deleted key takes along. JSON text
-- and hashes are parameters: `to_json` fails with `none`.
use polyglotmesh.Prelude.{
  ℕ, ◌≡◌, refl, sym, ap, subst, ◌∙◌, ◌&&◌, inl, inr, true, false, Option, none, some, List, [], ◌∷◌,
  Text, text_eq, text_eq_iff, any, filter, All, arith, Bool-cases,
}
use polyglotmesh.Config.{ApiKeyConfig, UpstreamConfig}
use polyglotmesh.Auth.{short_alias, bare_config}
use polyglotmesh.Storage.{
  Storage, ApiKeyRow, UpstreamRow, UsageRow, ensure_usage, default_usage, is_usage_of, is_key,
  upsert_where, delete_where, delete_keys, delete_api_key_by_alias,
}

-- `unwrap_or_else(|| raw.chars().take(12) + "…")`
abbrev pub alias_of : Text → Option Text → Text
alias_of raw (some a) = a
alias_of raw none = short_alias raw

module _ {F : Type 0} (to_json : ApiKeyConfig F → Option Text) (hash : Text → Text) where
  -- `upsert_api_key`: `none` if the configuration has no JSON.
  unfoldable pub upsert_api_key : ℕ → Text → ApiKeyConfig F → Storage F → Option (Storage F)
  unfolding ensure_usage
  upsert_api_key now raw cfg db =
      let alias = alias_of raw cfg.key_alias in
      elim (to_json cfg) [
        | none ↦ none
        | some config_json ↦ ensure_usage (default_usage alias) (record db {
          api_keys =
              upsert_where (is_key alias)
                (λ r. record r { raw_hash = hash raw; role = cfg.role; config_json = config_json })
                (record {
                  alias = alias;
                  raw_hash = hash raw;
                  role = cfg.role;
                  config_json = config_json;
                  created_at = now;
                })
                db.api_keys;
        })
      ]

  -- `upsert_api_key_legacy`
  unfoldable pub upsert_api_key_legacy : ℕ → Text → Text → Storage F → Option (Storage F)
  unfolding upsert_api_key
  upsert_api_key_legacy now raw role db = upsert_api_key now raw (bare_config role raw) db

-- `upsert_upstream`
unfoldable pub upsert_upstream :
    {F : Type 0}
    → (UpstreamConfig F → Option Text)
    → ℕ
    → UpstreamConfig F
    → Storage F
    → Option (Storage F)
upsert_upstream to_json now cfg db = elim (to_json cfg) [
  | none ↦ none
  | some config_json ↦ some (record db {
    upstreams =
        upsert_where (λ r. text_eq (UpstreamRow.id r) cfg.id)
          (λ r. record r { config_json = config_json })
          (record { id = cfg.id; config_json = config_json; created_at = now }) db.upstreams;
  })
]

-- Every row of `key_usage` has its key, as the foreign key asks.
abbrev pub References : {F : Type 0} → Storage F → Type 0
References db = All (λ u. any (is_key (UsageRow.alias u)) db.api_keys ≡ true) db.key_usage

gone :
    (alias : Text) (keys : List ApiKeyRow)
    → any (is_key alias) (delete_where (is_key alias) keys) ≡ false
gone alias [] = refl
gone alias (k ∷ keys) = ground (arith, gone alias keys)

-- Whether a usage row goes is whether it is of the alias, and the alias has a key.
deleted_lem :
    (alias other : Text) (keys : List ApiKeyRow)
    → any (is_key other) (filter (is_key alias) keys)
      ≡ (text_eq other alias && any (is_key alias) keys)
deleted_lem alias other [] = ground arith
deleted_lem alias other (k ∷ keys) = ground (
  arith,
  text_eq_iff k.alias alias,
  text_eq_iff k.alias other,
  text_eq_iff other alias,
  deleted_lem alias other keys,
)

kept_key :
    (alias other : Text) (keys : List ApiKeyRow)
    → text_eq other alias ≡ false
    → any (is_key other) (delete_where (is_key alias) keys) ≡ any (is_key other) keys
kept_key alias other [] e = refl
kept_key alias other (k ∷ keys) e = ground (
  arith,
  e,
  text_eq_iff k.alias alias,
  text_eq_iff k.alias other,
  text_eq_iff other alias,
  kept_key alias other keys,
)

-- The rows of an alias that has a key, or none at all, are those that go.
cascade :
    {F : Type 0} (alias : Text) (keys : List ApiKeyRow) (rows : List (UsageRow F))
    → All (λ u. any (is_key (UsageRow.alias u)) keys ≡ true) rows
    → delete_where (λ (u : UsageRow F). any (is_key u.alias) (filter (is_key alias) keys)) rows
      ≡ delete_where (is_usage_of alias) rows
cascade {F = F} alias keys [] v = refl
cascade {F = F} alias keys (u ∷ rows) v = elim (Bool-cases (text_eq u.alias alias)) [
  | inl e ↦
      let same = (text_eq_iff u.alias alias).0 e in
      let has : any (is_key alias) keys ≡ true = subst (λ a. any (is_key a) keys ≡ true) same v.0 in
      rw (deleted_lem alias u.alias keys, e, has) (cascade alias keys rows v.1)
  | inr e ↦ rw (deleted_lem alias u.alias keys, e) (ap (λ l. u ∷ l) (cascade alias keys rows v.1))
]

kept_rows :
    {F : Type 0} (alias : Text) (keys : List ApiKeyRow) (rows : List (UsageRow F))
    → All (λ u. any (is_key (UsageRow.alias u)) keys ≡ true) rows
    → All
        (λ u. any (is_key (UsageRow.alias u)) (delete_where (is_key alias) keys) ≡ true)
        (delete_where (is_usage_of alias) rows)
kept_rows alias keys [] v = tt
kept_rows alias keys (u ∷ rows) v = elim (Bool-cases (text_eq u.alias alias)) [
  | inl e ↦ rw e (kept_rows alias keys rows v.1)
  | inr e ↦ rw e (kept_key alias u.alias keys e ∙ v.0, kept_rows alias keys rows v.1)
]

module _ {F : Type 0} where
  -- Where every row of usage has its key, `delete_api_key_by_alias` leaves no key of that alias and
  -- the keys of every other, takes exactly the alias's rows of usage away, and every row of usage that
  -- is left still has its key.
  pub delete_api_key_by_alias-References :
      (alias : Text) (db : Storage F)
      → References db
      → let db' = (delete_api_key_by_alias alias db).1 in
        (any (is_key alias) db'.api_keys ≡ false)
        × ((other : Text)
            → text_eq other alias ≡ false
            → any (is_key other) db'.api_keys ≡ any (is_key other) db.api_keys)
        × (db'.key_usage ≡ delete_where (is_usage_of alias) db.key_usage)
        × References db'
  unfolding delete_api_key_by_alias delete_keys
  delete_api_key_by_alias-References alias db v =
      let rows = cascade alias db.api_keys db.key_usage v in
      (
        gone alias db.api_keys,
        λ other e. kept_key alias other db.api_keys e,
        rows,
        subst
            (All (λ u.
              any (is_key (UsageRow.alias u)) (delete_where (is_key alias) db.api_keys) ≡ true))
            (sym rows) (kept_rows alias db.api_keys db.key_usage v),
      )
