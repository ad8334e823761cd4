-- ===== src/Admin/Revoked.antt =====
-- src/admin/mod.rs: a revoked key, at once and after the next reload.
use polyglotmesh.Prelude.{
  ℕ, ◌≡◌, refl, ap, ◌∙◌, Bool, false, not, ◌||◌, Option, none, some, List, [], ◌∷◌, ◌++◌, map, Text,
  codes, text_eq, text_eq_iff, any, filter, arith, inl, inr, Bool-cases, Option-cases,
}
use polyglotmesh.Config.{Config, ServerConfig, ApiKeyConfig}
use polyglotmesh.Config.Files.{load_from_path}
use polyglotmesh.Error.{ok}
use polyglotmesh.Auth.{lookup, remove_by_raw, bare_config}
use polyglotmesh.Auth.Durations.{done}
use polyglotmesh.Auth.Store.{lookup-remove_by_raw}
use polyglotmesh.AppState.{Host, Clock, App, key_configs, add_all, reload_from_path, save_to_disk}
use polyglotmesh.AppState.Reload.{Keys, is_found, opens, reload-opens}
use polyglotmesh.Admin.{audit}
use polyglotmesh.Admin.Keys.{
  forget_key, drop_token, is_some_text, find_alias, revoke_raw, revoke_key_by_alias,
}

any-append :
    {A : Type 0} (p : A → Bool) (xs ys : List A) → any p (xs ++ ys) ≡ (any p xs || any p ys)
any-append p [] ys = refl
any-append p (x ∷ xs) ys = ground (arith, any-append p xs ys)

module _ {F : Type 0} where
  -- The keys of the revoked text are gone from the configuration.
  any-forgotten :
      (raw : Text) (cs : List (ApiKeyConfig F))
      → any (opens raw) (filter (λ (c : ApiKeyConfig F). not (is_some_text raw c.key)) cs) ≡ false
  any-forgotten raw [] = refl
  any-forgotten raw (c ∷ cs) = ground (arith, any-forgotten raw cs)

  abbrev token_configs : Option Text → List (ApiKeyConfig F)
  token_configs none = []
  token_configs (some t) = bare_config (codes "admin") t ∷ []

  any-dropped :
      (raw : Text) (sv : ServerConfig F)
      → any (opens raw) (token_configs (drop_token raw sv).admin_token) ≡ false
  any-dropped raw sv = elim (Option-cases sv.admin_token) [
    | inl e ↦ rw (e, drop_token) refl
    | inr (t, e) ↦ elim (Bool-cases (text_eq t raw)) [
      | inl same ↦ rw (e, drop_token, same) refl
      | inr other ↦ rw (e, drop_token, other) (ground (arith, other))
    ]
  ]

  -- What is left of the revoked text: its bare keys.
  any-forget_key :
      (raw : Text) (cfg : Config F)
      → any (opens raw) (key_configs (forget_key raw cfg))
        ≡ any (opens {F = F} raw) (map (bare_config (codes "api")) cfg.api_keys_legacy)
  any-forget_key raw cfg =
      let kept = filter (λ (c : ApiKeyConfig F). not (is_some_text raw c.key)) cfg.api_keys in
      let bare = map (bare_config {F = F} (codes "api")) cfg.api_keys_legacy in
      let token = token_configs (drop_token raw cfg.server).admin_token in
      ground (
        arith,
        any-append (opens raw) kept (bare ++ token),
        any-append (opens raw) bare token,
        any-forgotten raw cfg.api_keys,
        any-dropped raw cfg.server,
      )

module _ (host : Host) where
  open host use {fl, ch, net, fs, formats}
  open fl use {F}
  open net use {Net}

  revoke_raw-parts :
      (t : Clock) (header : Option Text) (alias raw : Text) (s : App host)
      → let s1 = (revoke_raw host t header alias raw s).1 in
        (s1.config ≡ forget_key raw s.config)
        × (s1.keys ≡ s.keys)
        × (s1.auth ≡ (remove_by_raw raw s.keys s.auth).1)
  unfolding save_to_disk audit
  revoke_raw-parts t header alias raw s = elim (Bool-cases (remove_by_raw raw s.keys s.auth).0) [
    | inl e ↦ rw (e, revoke_raw) (refl, refl, refl)
    | inr e ↦ rw (e, revoke_raw) (refl, refl, refl)
  ]

  gone : (raw : Text) (s : App host) → lookup raw s.keys (remove_by_raw raw s.keys s.auth).1 ≡ none
  gone raw s =
      (lookup-remove_by_raw raw raw s.keys s.auth).1 ∙ rw ((text_eq_iff raw raw).1 refl) refl

  -- `revoke_key_by_alias` of the first key of an alias, where a reload then reads the configuration
  -- that the handler left and no key's expiry text panics: the token is no longer found after the
  -- handler, and after the reload it is found exactly if it is one of the bare keys of
  -- `api_keys_legacy` that is not blank.
  pub revoke_key-reload :
      (t t' : Clock) (header : Option Text) (alias path : Text) (s : App host) (p : ℕ)
      (keys : Keys F Net)
      → find_alias host alias s ≡ some p
      → load_from_path fs formats path (revoke_key_by_alias host t header alias s).1.files
        ≡ ok (revoke_key_by_alias host t header alias s).1.config
      → add_all ch net t'.utc
          (key_configs (revoke_key_by_alias host t header alias s).1.config)
          (revoke_key_by_alias host t header alias s).1.keys
          []
        ≡ done keys
      → let raw = (s.keys.at p).raw in
        let s1 = (revoke_key_by_alias host t header alias s).1 in
        let s2 = (reload_from_path host t' path s1).1 in
        (lookup raw s1.keys s1.auth ≡ none)
        × (is_found (lookup raw s2.keys s2.auth)
            ≡ any (opens {F = F} raw) (map (bare_config (codes "api")) s.config.api_keys_legacy))
  unfolding revoke_key_by_alias
  revoke_key-reload t t' header alias path s p keys e saved made =
      let raw = (s.keys.at p).raw in
      let s1 = (revoke_key_by_alias host t header alias s).1 in
      let same : s1 ≡ (revoke_raw host t header alias raw s).1 = rw (e, revoke_key_by_alias) refl in
      let (cfg, ks, auth) = revoke_raw-parts t header alias raw s in
      (
        rw (same, ks, auth) (gone raw s),
        (reload-opens host t' path raw s1.config s1 keys saved made).0
            ∙ (ap (λ (c : Config F). any (opens raw) (key_configs c))
                  (ap (λ (a : App host). a.config) same ∙ cfg)
                ∙ any-forget_key raw s.config),
      )
