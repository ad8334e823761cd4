-- ===== src/Admin/Reach.antt =====
-- src/admin/mod.rs and src/state.rs: whatever the handlers do one after the other, the registry serves
-- the upstreams of the configuration.
use mathlib.Core.List.{Perm}
use polyglotmesh.Prelude.{ℕ, ◌≡◌, Bool, Option, List, [], Text, Heap}
use polyglotmesh.Config.{Config, ModelAliasEntry, ModelListEntry}
use polyglotmesh.Config.Files.{load_from_path}
use polyglotmesh.Error.{RouterError, ok, err}
use polyglotmesh.Auth.{KeyRecord, AuthStore}
use polyglotmesh.Auth.Durations.{done}
use polyglotmesh.AppState.{
  Host, Clock, App, key_configs, add_all, apply_config, replace_upstreams, reload_from_path,
}
use polyglotmesh.Admin.Upstreams.{
  UpstreamInput, create_upstream, update_upstream, delete_upstream, control_upstream,
  pause_upstream, resume_upstream,
}
use polyglotmesh.Admin.Prices.{PricesBody, set_upstream_prices}
use polyglotmesh.Admin.Keys.{CreateKeyBody, create_key, rotate_key, revoke_key_by_alias}
use polyglotmesh.Admin.Settings.{set_aliases, delete_alias, put_model_list, set_retention}
use polyglotmesh.Admin.Consistent.{
  IsConsistent, create_upstream-IsConsistent, update_upstream-IsConsistent,
  delete_upstream-IsConsistent, control_upstream-IsConsistent,
}
use polyglotmesh.Admin.Untouched.{
  Untouched, create_key-Untouched, rotate_key-Untouched, revoke_key-Untouched,
  set_aliases-Untouched, delete_alias-Untouched, put_model_list-Untouched, set_retention-Untouched,
  pause_upstream-Untouched, resume_upstream-Untouched,
}
use polyglotmesh.Admin.Priced.{Untouched-IsConsistent, set_upstream_prices-IsConsistent}
use polyglotmesh.Admin.Reloaded.{AreApart, replace_upstreams-Agrees}

module _ (host : Host) where
  open host use {fl, ch, net, iter, fs, formats}
  open fl use {F}
  open net use {Net}

  -- One call of a handler, or what requests, probes and tasks do between two calls. A reload is of a
  -- file that cannot be read or that has each id once; a panic on a key's expiry text is left out.
  pub data Step : App host → App host → Type 0 where
    creates :
        (t : Clock) (input : UpstreamInput F) (s : App host)
        → Step s (create_upstream host t input s).1
    updates :
        (t : Clock) (id : Text) (input : UpstreamInput F) (s : App host)
        → Step s (update_upstream host t id input s).1
    deletes : (id : Text) (s : App host) → Step s (delete_upstream host id s).1
    controls : (id action : Text) (s : App host) → Step s (control_upstream host id action s).1
    prices :
        (t : Clock) (id : Text) (body : PricesBody F) (s : App host)
        → Step s (set_upstream_prices host t id body s).1
    pauses : (id : Text) (s : App host) → Step s (pause_upstream host id s).1
    resumes : (id : Text) (s : App host) → Step s (resume_upstream host id s).1
    creates_key :
        (t : Clock) (fresh : Bool → Text) (header : Option Text) (body : CreateKeyBody F)
        (s : App host)
        → Step s (create_key host t fresh header body s).1
    rotates_key :
        (t : Clock) (fresh : Bool → Text) (header : Option Text) (alias : Text) (s : App host)
        → Step s (rotate_key host t fresh header alias s).1
    revokes_key :
        (t : Clock) (header : Option Text) (alias : Text) (s : App host)
        → Step s (revoke_key_by_alias host t header alias s).1
    sets_aliases :
        (name : Text) (entries : List ModelAliasEntry) (s : App host)
        → Step s (set_aliases host name entries s).1
    deletes_alias : (name : Text) (s : App host) → Step s (delete_alias host name s).1
    puts_models :
        (entries : List ModelListEntry) (s : App host) → Step s (put_model_list host entries s).1
    sets_retention :
        (t : Clock) (header : Option Text) (days : ℕ) (s : App host)
        → Step s (set_retention host t header days s).1
    interleaves : (s s' : App host) → Untouched host s s' → Step s s'
    reloads :
        (t : Clock) (path : Text) (cfg : Config F) (s : App host)
        (keys : Heap (KeyRecord F Net) × AuthStore)
        → load_from_path fs formats path s.files ≡ ok cfg
        → AreApart host cfg.upstreams
        → add_all ch net t.utc (key_configs cfg) s.keys [] ≡ done keys
        → Step s (reload_from_path host t path s).1
    fails_reload :
        (t : Clock) (path : Text) (e : RouterError) (s : App host)
        → load_from_path fs formats path s.files ≡ err e
        → Step s (reload_from_path host t path s).1

  pub data Reach (s : App host) : App host → Type 0 where
    here : Reach s s
    next : {t u : App host} → Reach s t → Step t u → Reach s u

  apply_config-IsConsistent :
      (t : Clock) (cfg : Config F) (s : App host) (keys : Heap (KeyRecord F Net) × AuthStore)
      → Perm (iter s.registry.upstreams) s.registry.upstreams
      → AreApart host cfg.upstreams
      → add_all ch net t.utc (key_configs cfg) s.keys [] ≡ done keys
      → IsConsistent host s
      → IsConsistent host (apply_config host t cfg s).1
  unfolding apply_config replace_upstreams
  apply_config-IsConsistent t cfg s keys perm apart made a =
      rw (made, apply_config) (replace_upstreams-Agrees host t cfg s perm a.filed apart)

  -- The hash map is iterated over each entry once.
  abbrev pub Iterates : Type 0
  Iterates = (m : List (Text × ℕ)) → Perm (iter m) m

  Step-IsConsistent :
      {s s' : App host} → Iterates → Step s s' → IsConsistent host s → IsConsistent host s'
  unfolding reload_from_path
  Step-IsConsistent it (creates t input s) a = create_upstream-IsConsistent host t input s a
  Step-IsConsistent it (updates t id input s) a = update_upstream-IsConsistent host t id input s a
  Step-IsConsistent it (deletes id s) a = delete_upstream-IsConsistent host id s a
  Step-IsConsistent it (controls id action s) a = control_upstream-IsConsistent host id action s a
  Step-IsConsistent it (prices t id body s) a = set_upstream_prices-IsConsistent host t id body s a
  Step-IsConsistent it (pauses id s) a =
      Untouched-IsConsistent host s _ (pause_upstream-Untouched host id s) a
  Step-IsConsistent it (resumes id s) a =
      Untouched-IsConsistent host s _ (resume_upstream-Untouched host id s) a
  Step-IsConsistent it (creates_key t fresh header body s) a =
      Untouched-IsConsistent host s _ (create_key-Untouched host t fresh header body s) a
  Step-IsConsistent it (rotates_key t fresh header alias s) a =
      Untouched-IsConsistent host s _ (rotate_key-Untouched host t fresh header alias s) a
  Step-IsConsistent it (revokes_key t header alias s) a =
      Untouched-IsConsistent host s _ (revoke_key-Untouched host t header alias s) a
  Step-IsConsistent it (sets_aliases name entries s) a =
      Untouched-IsConsistent host s _ (set_aliases-Untouched host name entries s) a
  Step-IsConsistent it (deletes_alias name s) a =
      Untouched-IsConsistent host s _ (delete_alias-Untouched host name s) a
  Step-IsConsistent it (puts_models entries s) a =
      Untouched-IsConsistent host s _ (put_model_list-Untouched host entries s) a
  Step-IsConsistent it (sets_retention t header days s) a =
      Untouched-IsConsistent host s _ (set_retention-Untouched host t header days s) a
  Step-IsConsistent it (interleaves s s' u) a = Untouched-IsConsistent host s s' u a
  Step-IsConsistent it (reloads t path cfg s keys e apart made) a =
      rw (e, reload_from_path)
        (apply_config-IsConsistent t cfg s keys (it s.registry.upstreams) apart made a)
  Step-IsConsistent it (fails_reload t path x s e) a = rw (e, reload_from_path) a

  -- Where the hash map is iterated over each entry once: from a state whose registry serves the
  -- upstreams of its configuration, every sequence of calls of the handlers, of what leaves the
  -- registry and the configurations as they are between them, and of reloads that end of files that
  -- cannot be read or have each id once leads to such a state: an id is registered exactly if it is
  -- configured, and with the same configuration.
  pub Reach-IsConsistent :
      {s s' : App host} → Iterates → IsConsistent host s → Reach s s' → IsConsistent host s'
  Reach-IsConsistent it a here = a
  Reach-IsConsistent it a (next r st) = Step-IsConsistent it st (Reach-IsConsistent it a r)
