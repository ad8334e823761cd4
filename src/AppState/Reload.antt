-- ===== src/AppState/Reload.antt =====
-- src/state.rs: the keys that the store has after a reload or a start are those of the configuration.
use polyglotmesh.Prelude.{
  ℕ, ℤ, ◌≡◌, refl, sym, ap, subst, ◌∙◌, ◌⊎◌, Bool, true, false, ◌||◌, not, ◌&&◌, is_empty, trim,
  map, codes, ◌++◌, Option, none, some, List, [], ◌∷◌, Text, text_eq, any, arith, if◌then◌else◌,
  Heap, write, inl, inr, Option-cases,
}
use polyglotmesh.Float.{Float}
use polyglotmesh.Config.{Config, ApiKeyConfig}
use polyglotmesh.Config.Files.{load_from_path}
use polyglotmesh.Error.{ok}
use polyglotmesh.Auth.{
  bare_config, IpNet, KeyRecord, AuthStore, key_text, expiry_of, record_of, from_config, lookup,
  add,
}
use polyglotmesh.Auth.Durations.{Run, panicked, done, Chrono}
use polyglotmesh.Auth.Store.{IsStored, lookup-add}
use polyglotmesh.Storage.{Storage}
use polyglotmesh.Storage.Usage.{get_key_usage}
use polyglotmesh.State.{restore_usage}
use polyglotmesh.AppState.{
  Host, Clock, App, key_configs, add_all, restore_all, apply_config, replace_upstreams,
  reload_from_path,
}

abbrev pub is_found : Option ℕ → Bool
is_found none = false
is_found (some p) = true

module _ {F : Type 0} where
  -- Whether a configuration is one of this token: its key is this text and is not blank.
  abbrev pub opens : Text → ApiKeyConfig F → Bool
  opens raw c = elim (key_text c.key) [ none ↦ false | some k ↦ text_eq k raw ]

-- Whether a text is this token, which is not blank.
abbrev pub names : Text → Text → Bool
names raw k = not (is_empty (trim k)) && text_eq k raw

abbrev pub has_text : Text → Option Text → Bool
has_text raw none = false
has_text raw (some k) = names raw k

module _ {F : Type 0} where
  opens-has_text : (raw : Text) (c : ApiKeyConfig F) → opens raw c ≡ has_text raw c.key
  opens-has_text raw c = opened raw c.key
    where
      opened :
          (raw : Text) (k : Option Text)
          → elim (key_text k) [ none ↦ false | some t ↦ text_eq t raw ] ≡ has_text raw k
      opened raw none = refl
      opened raw (some k) = ground arith

  any-opens :
      (raw : Text) (cs : List (ApiKeyConfig F))
      → any (opens raw) cs ≡ any (λ c. has_text raw c.key) cs
  any-opens raw [] = refl
  any-opens raw (c ∷ cs) = cc (opens-has_text raw c, any-opens raw cs)

  any-both :
      (p : ApiKeyConfig F → Bool) (cs ds : List (ApiKeyConfig F))
      → any p (cs ++ ds) ≡ (any p cs || any p ds)
  any-both p [] ds = refl
  any-both p (c ∷ cs) ds = ground (arith, any-both p cs ds)

any-bare :
    (F : Type 0) (raw role : Text) (ks : List Text)
    → any (opens {F = F} raw) (map (bare_config role) ks) ≡ any (names raw) ks
any-bare F raw role [] = refl
any-bare F raw role (k ∷ ks) =
    cc (opens-has_text {F = F} raw (bare_config role k), any-bare F raw role ks)

any-admin :
    (F : Type 0) (raw : Text) (o : Option Text)
    → any (opens {F = F} raw) (elim o [ none ↦ [] | some t ↦ bare_config (codes "admin") t ∷ [] ])
      ≡ has_text raw o
any-admin F raw none = refl
any-admin F raw (some t) =
    ground (arith, opens-has_text {F = F} raw (bare_config (codes "admin") t))

Run-cases : {A : Type 0} (r : Run A) → (r ≡ panicked) ⊎ (a : A) × (r ≡ done a)
Run-cases panicked = inl refl
Run-cases (done a) = inr (a, refl)

-- The store of the keys, with their heap.
abbrev pub Keys : Type 0 → Type 0 → Type 0
Keys F Net = Heap (KeyRecord F Net) × AuthStore

-- The keys stand in the heap, and a token is found among them or not.
abbrev pub Finds : {F Net : Type 0} → Text → Bool → Keys F Net → Type 0
Finds raw b (h, ks) = IsStored h ks × (is_found (lookup raw h ks) ≡ b)

done_injective : {A : Type 0} {a b : A} → done a ≡ done b → a ≡ b
done_injective e = cc

panicked-done : {A : Type 0} {a : A} → ◌≡◌ {A = Run A} panicked (done a) → ⊥
panicked-done e = cc

or_false : (b : Bool) → b ≡ (b || false)
or_false true = refl
or_false false = refl

either :
    {F Net : Type 0} (rec : KeyRecord F Net) (raw : Text) (h : Heap (KeyRecord F Net))
    (o : Option ℕ)
    → is_found
        (elim o [ some p ↦ some p | none ↦ if text_eq rec.raw raw then some h.next else none ])
      ≡ (is_found o || text_eq rec.raw raw)
either rec raw h none = ground arith
either rec raw h (some p) = refl

module _ {F : Type 0} (ch : Chrono) (net : IpNet) where
  open net use {Net}

  -- What a configuration makes: nothing without a key, a panic, or a record of its key.
  from_config-cases :
      (now : ℕ) (c : ApiKeyConfig F)
      → ((key_text c.key ≡ none) × (from_config ch net now c ≡ done none))
        ⊎ ((from_config ch net now c ≡ panicked)
            ⊎ (rec : KeyRecord F Net) × (from_config ch net now c ≡ done (some rec))
              × (key_text c.key ≡ some rec.raw))
  unfolding from_config
  from_config-cases now c = elim (Option-cases (key_text c.key)) [
    | inl e ↦ inl (e, rw (e, from_config) refl)
    | inr (raw, e) ↦ elim (Run-cases (expiry_of ch now c.expires)) [
      | inl f ↦ inr (inl (rw (e, f, from_config) refl))
      | inr (x, f) ↦ inr (inr (record_of net now c raw x, rw (e, f, from_config) refl, e))
    ]
  ]

  add-found :
      (now : ℕ) (c : ApiKeyConfig F) (raw : Text) (h : Heap (KeyRecord F Net)) (ks : AuthStore)
      (s : Keys F Net)
      → IsStored h ks
      → add ch net now c h ks ≡ done s
      → Finds raw (is_found (lookup raw h ks) || opens raw c) s
  unfolding add
  add-found now c raw h ks s v e = elim (from_config-cases now c) [
    | inl (blank, made) ↦
        subst (Finds raw (is_found (lookup raw h ks) || opens raw c))
          (done_injective (rw (made, add) at e))
          (v, rw (blank, opens) (or_false (is_found (lookup raw h ks))))
    | inr (inl crashed) ↦ absurd (panicked-done (rw (crashed, add) at e))
    | inr (inr (rec, made, own)) ↦
        let (h', ks', added, found, _, _, stored) = lookup-add ch net now c rec raw h ks made v in
        subst (Finds raw (is_found (lookup raw h ks) || opens raw c))
          (done_injective (sym added ∙ e))
          (stored, rw (found, own, opens) (either rec raw h (lookup raw h ks)))
  ]

  add_all-found :
      (now : ℕ) (cs : List (ApiKeyConfig F)) (raw : Text) (h : Heap (KeyRecord F Net))
      (ks : AuthStore) (s : Keys F Net)
      → IsStored h ks
      → add_all ch net now cs h ks ≡ done s
      → Finds raw (is_found (lookup raw h ks) || any (opens raw) cs) s
  unfolding add_all
  add_all-found now [] raw h ks s v e =
      subst (Finds raw (is_found (lookup raw h ks) || false)) (done_injective e)
        (v, or_false (is_found (lookup raw h ks)))
  add_all-found now (c ∷ cs) raw h ks s v e = elim (Run-cases (add ch net now c h ks)) [
    | inl crashed ↦ absurd (panicked-done (rw (crashed, add_all) at e))
    | inr ((h', ks'), f) ↦
        let (stored, found) = add-found now c raw h ks (h', ks') v f in
        let (stored', found') = add_all-found now cs raw h' ks' s stored (rw (f, add_all) at e) in
        (stored', found' ∙ ground (arith, found))
  ]

-- A lookup reads the tokens alone.
pub written :
    {F Net : Type 0} (p : ℕ) (raw : Text) (h : Heap (KeyRecord F Net)) (r : KeyRecord F Net)
    (ks : AuthStore)
    → r.raw ≡ (h.at p).raw
    → lookup raw (write h p r) ks ≡ lookup raw h ks
unfolding lookup
written p raw h r [] same = refl
written p raw h r (q ∷ ks) same = ground (arith, same, written p raw h r ks same)

module _ (fl : Float) {Net : Type 0} (date : ℤ → Option ℕ) where
  open fl use {F}

  -- Restored counters leave the tokens alone.
  restore_all-lookup :
      (now : ℕ) (db : Storage F) (ps : List ℕ) (raw : Text) (h : Heap (KeyRecord F Net))
      (ks : AuthStore)
      → lookup raw (restore_all fl date now db ps h) ks ≡ lookup raw h ks
  unfolding restore_all restore_usage
  restore_all-lookup now db [] raw h ks = refl
  restore_all-lookup now db (p ∷ ps) raw h ks =
      elim (Option-cases (get_key_usage fl (h.at p).alias db)) [
        | inl unread ↦ rw (unread, restore_all) (restore_all-lookup now db ps raw h ks)
        | inr (row, e) ↦
            rw (e, restore_all) (restore_all-lookup now db ps raw _ ks ∙ written p raw h _ ks refl)
      ]

-- The sources of the keys of a configuration.
opens-sources :
    {F : Type 0} (raw : Text) (cfg : Config F)
    → any (opens raw) (key_configs cfg) ≡ (
        any (λ (c : ApiKeyConfig F). has_text raw c.key) cfg.api_keys
        || (any (names raw) cfg.api_keys_legacy || has_text raw cfg.server.admin_token))
opens-sources {F = F} raw cfg =
    any-both (opens raw) cfg.api_keys _
    ∙ cc (
      any-both (opens {F = F} raw) (map (bare_config (codes "api")) cfg.api_keys_legacy)
          (elim cfg.server.admin_token [ none ↦ [] | some t ↦ bare_config (codes "admin") t ∷ [] ]),
      any-opens raw cfg.api_keys,
      any-bare F raw (codes "api") cfg.api_keys_legacy,
      any-admin F raw cfg.server.admin_token,
    )

module _ (host : Host) where
  open host use {fl, ch, net, date, fs, formats}
  open fl use {F}
  open net use {Net}

  -- The tokens of a reload, by the code's own list of configurations.
  pub reload-opens :
      (t : Clock) (path raw : Text) (cfg : Config F) (s : App host) (keys : Keys F Net)
      → load_from_path fs formats path s.files ≡ ok cfg
      → add_all ch net t.utc (key_configs cfg) s.keys [] ≡ done keys
      → let s' = (reload_from_path host t path s).1 in
        (is_found (lookup raw s'.keys s'.auth) ≡ any (opens raw) (key_configs cfg))
        × (s'.config ≡ cfg)
  unfolding reload_from_path apply_config replace_upstreams IsStored lookup
  reload-opens t path raw cfg s keys e made =
      let (_, found) = add_all-found ch net t.utc (key_configs cfg) raw s.keys [] keys tt made in
      rw (e, made, reload_from_path)
        (
          ap is_found (restore_all-lookup fl date t.utc s.storage keys.1 raw keys.0 keys.1) ∙ found,
          refl,
        )

  -- A reload of a file that is read, none of whose keys' expiry texts panics: the configuration is
  -- that of the file, and a token is found exactly if it is not blank and the key of one of the
  -- file's `api_keys`, one of its bare keys, or its admin token.
  pub reload-found :
      (t : Clock) (path raw : Text) (cfg : Config F) (s : App host) (keys : Keys F Net)
      → load_from_path fs formats path s.files ≡ ok cfg
      → add_all ch net t.utc (key_configs cfg) s.keys [] ≡ done keys
      → let s' = (reload_from_path host t path s).1 in
        (is_found (lookup raw s'.keys s'.auth) ≡ (
          any (λ (c : ApiKeyConfig F). has_text raw c.key) cfg.api_keys
          || (any (names raw) cfg.api_keys_legacy || has_text raw cfg.server.admin_token)))
        × (s'.config ≡ cfg)
  reload-found t path raw cfg s keys e made =
      let (found, same) = reload-opens t path raw cfg s keys e made in
      (found ∙ opens-sources raw cfg, same)
