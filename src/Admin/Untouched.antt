-- ===== src/Admin/Untouched.antt =====
-- src/admin/mod.rs: the handlers of keys and settings, the pauses and the tasks leave the
-- configurations of the upstreams as they are, in the registry as in the configuration.
use polyglotmesh.Prelude.{
  ℕ, ◌≤◌, ◌<◌, ◌≡◌, refl, Bool, true, false, Option, List, Text, arith, Heap, inl, inr,
  Option-cases, Bool-cases,
}
use polyglotmesh.Config.{Config, ApiKeyConfig, ModelAliasEntry, ModelListEntry}
use polyglotmesh.Config.Files.{Answer, fine, failed}
use polyglotmesh.Registry.{get}
use polyglotmesh.Auth.{KeyRecord, AuthStore, remove_by_raw}
use polyglotmesh.Auth.Durations.{Run, panicked, done}
use polyglotmesh.AppState.{Host, Clock, App, save_to_disk}
use polyglotmesh.Admin.{audit}
use polyglotmesh.Admin.Upstreams.{pause_upstream, resume_upstream, set_paused}
use polyglotmesh.Admin.Keys.{
  CreateKeyBody, CreatedKey, create_key, create_from, after_add, rotate_key, rotate_at, find_alias,
  revoke_key_by_alias, revoke_raw,
}
use polyglotmesh.Admin.Settings.{set_aliases, delete_alias, put_model_list, set_retention}

module _ (host : Host) where
  open host use {fl, net}
  open fl use {F}
  open net use {Net}

  -- The same registry and the same configured upstreams, and a heap that has kept what it held but
  -- for the live state of the upstreams.
  pub record Untouched (s s' : App host) : Type 0 where
    pub registry : s'.registry ≡ s.registry
    pub configured : s'.config.upstreams ≡ s.config.upstreams
    pub grown : s.upstreams.next ≤ s'.upstreams.next
    pub live : (p : ℕ) → p < s.upstreams.next → (s'.upstreams.at p).cfg ≡ (s.upstreams.at p).cfg

  -- Only other parts of the state change.
  elsewhere :
      (s s' : App host)
      → s'.registry ≡ s.registry
      → s'.upstreams ≡ s.upstreams
      → s'.config.upstreams ≡ s.config.upstreams
      → Untouched s s'
  elsewhere s s' e f g = record {
    registry = e;
    configured = g;
    grown = rw f (omega arith);
    live = λ p h. rw f refl;
  }

  set_paused-Untouched :
      (paused : Bool) (id : Text) (s : App host) → Untouched s (set_paused host paused id s).1
  set_paused-Untouched paused id s = elim (Option-cases (get id s.registry)) [
    | inl e ↦ rw (e, set_paused) (elsewhere s s refl refl refl)
    | inr (p, e) ↦
        rw (e, set_paused)
          (record {
            registry = refl;
            configured = refl;
            grown = omega arith;
            live = λ q h. ground arith;
          })
  ]

  after_add-Untouched :
      (t : Clock) (action : Text) (header : Option Text) (made : CreatedKey) (code : ℕ)
      (cfg : Config F) (s : App host) (r : Run (Heap (KeyRecord F Net) × AuthStore))
      → cfg.upstreams ≡ s.config.upstreams
      → Untouched s (after_add host t action header made code cfg s r).1
  unfolding save_to_disk audit
  after_add-Untouched t action header made code cfg s panicked same = elsewhere s s refl refl refl
  after_add-Untouched t action header made code cfg s (done (h, ks)) same =
      elsewhere s (after_add host t action header made code cfg s (done (h, ks))).1 refl refl same

  create_from-Untouched :
      (t : Clock) (fresh : Bool → Text) (header : Option Text) (body : CreateKeyBody F)
      (fields : Answer (ApiKeyConfig F)) (s : App host)
      → Untouched s (create_from host t fresh header body fields s).1
  create_from-Untouched t fresh header body (failed e) s = elsewhere s s refl refl refl
  create_from-Untouched t fresh header body (fine c) s =
      after_add-Untouched t _ header _ 201 _ s _ refl

  pub create_key-Untouched :
      (t : Clock) (fresh : Bool → Text) (header : Option Text) (body : CreateKeyBody F)
      (s : App host)
      → Untouched s (create_key host t fresh header body s).1
  unfolding create_key
  create_key-Untouched t fresh header body s =
      create_from-Untouched t fresh header body body.fields s

  rotate_at-Untouched :
      (t : Clock) (fresh : Bool → Text) (header : Option Text) (alias : Text) (p : ℕ) (s : App host)
      → Untouched s (rotate_at host t fresh header alias p s).1
  rotate_at-Untouched t fresh header alias p s =
      let s' = record s { auth = (remove_by_raw (s.keys.at p).raw s.keys s.auth).1 } in
      let u = after_add-Untouched t _ header _ 200 _ s' _ refl in
      record { registry = u.registry; configured = u.configured; grown = u.grown; live = u.live }

  pub rotate_key-Untouched :
      (t : Clock) (fresh : Bool → Text) (header : Option Text) (alias : Text) (s : App host)
      → Untouched s (rotate_key host t fresh header alias s).1
  unfolding rotate_key
  rotate_key-Untouched t fresh header alias s = elim (Option-cases (find_alias host alias s)) [
    | inl e ↦ rw (e, rotate_key) (elsewhere s s refl refl refl)
    | inr (p, e) ↦ rw (e, rotate_key) (rotate_at-Untouched t fresh header alias p s)
  ]

  revoke_raw-Untouched :
      (t : Clock) (header : Option Text) (alias raw : Text) (s : App host)
      → Untouched s (revoke_raw host t header alias raw s).1
  unfolding save_to_disk audit
  revoke_raw-Untouched t header alias raw s =
      elim (Bool-cases (remove_by_raw raw s.keys s.auth).0) [
        | inl e ↦ rw (e, revoke_raw) (elsewhere s _ refl refl refl)
        | inr e ↦ rw (e, revoke_raw) (elsewhere s _ refl refl refl)
      ]

  pub revoke_key-Untouched :
      (t : Clock) (header : Option Text) (alias : Text) (s : App host)
      → Untouched s (revoke_key_by_alias host t header alias s).1
  unfolding revoke_key_by_alias
  revoke_key-Untouched t header alias s = elim (Option-cases (find_alias host alias s)) [
    | inl e ↦ rw (e, revoke_key_by_alias) (elsewhere s s refl refl refl)
    | inr (p, e) ↦
        rw (e, revoke_key_by_alias) (revoke_raw-Untouched t header alias (s.keys.at p).raw s)
  ]

  pub set_aliases-Untouched :
      (name : Text) (entries : List ModelAliasEntry) (s : App host)
      → Untouched s (set_aliases host name entries s).1
  unfolding set_aliases save_to_disk
  set_aliases-Untouched name entries s = elsewhere s _ refl refl refl

  pub delete_alias-Untouched :
      (name : Text) (s : App host) → Untouched s (delete_alias host name s).1
  unfolding delete_alias save_to_disk
  delete_alias-Untouched name s = elsewhere s _ refl refl refl

  pub put_model_list-Untouched :
      (entries : List ModelListEntry) (s : App host) → Untouched s (put_model_list host entries s).1
  unfolding put_model_list save_to_disk
  put_model_list-Untouched entries s = elsewhere s _ refl refl refl

  pub set_retention-Untouched :
      (t : Clock) (header : Option Text) (days : ℕ) (s : App host)
      → Untouched s (set_retention host t header days s).1
  unfolding set_retention save_to_disk audit
  set_retention-Untouched t header days s = elsewhere s _ refl refl refl

  pub pause_upstream-Untouched :
      (id : Text) (s : App host) → Untouched s (pause_upstream host id s).1
  unfolding pause_upstream
  pause_upstream-Untouched id s = set_paused-Untouched true id s

  pub resume_upstream-Untouched :
      (id : Text) (s : App host) → Untouched s (resume_upstream host id s).1
  unfolding resume_upstream
  resume_upstream-Untouched id s = set_paused-Untouched false id s
