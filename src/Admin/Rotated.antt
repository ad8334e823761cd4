-- ===== src/Admin/Rotated.antt =====
-- src/admin/mod.rs: what the store of keys finds after a rotation.
use polyglotmesh.Prelude.{
  ℕ, ◌≡◌, refl, ap, ◌∙◌, Bool, true, false, Option, none, some, [], ◌∷◌, ◌++◌, Text, codes, text_eq,
  text_eq_iff, filter, find, arith, if◌then◌else◌, is_empty, trim, Heap, alloc,
}
use polyglotmesh.Config.{ApiKeyConfig}
use polyglotmesh.Auth.{
  IpNet, KeyRecord, AuthStore, lookup, remove_by_raw, filter_map, short_alias, expiry_of, record_of,
  from_config, key_text, add,
}
use polyglotmesh.Auth.Durations.{done}
use polyglotmesh.Auth.Store.{IsStored, lookup-alloc, lookup-remove_by_raw}
use polyglotmesh.AppState.{Host, Clock, App, save_to_disk}
use polyglotmesh.Admin.{audit}
use polyglotmesh.Admin.Keys.{
  find_alias, rotated_config, rotate_at, rotate_key, carry_over, fresh_config,
}

-- What was found, or the new key if it has the token.
found_or : Bool → ℕ → Option ℕ → Option ℕ
found_or own n (some q) = some q
found_or own n none = if own then some n else none

found_or_lem :
    (own : Bool) (n : ℕ) (o : Option ℕ)
    → elim o [ some q ↦ some q | none ↦ if own then some n else none ] ≡ found_or own n o
unfolding found_or
found_or_lem own n none = refl
found_or_lem own n (some q) = refl

found_or-own : (b : Bool) (n : ℕ) → found_or true n (if b then none else none) ≡ some n
unfolding found_or
found_or-own true n = refl
found_or-own false n = refl

found_or-other : (n : ℕ) (o : Option ℕ) → found_or false n o ≡ o
unfolding found_or
found_or-other n none = refl
found_or-other n (some q) = refl

alloc-at : {A : Type 0} (h : Heap A) (a : A) → (alloc h a).1.at h.next ≡ a
alloc-at h a = ground arith

module _ {F Net : Type 0} where
  -- A key that is in the store is found by its token, if not always at this address.
  alias-found :
      (alias raw : Text) (h : Heap (KeyRecord F Net)) (ks : AuthStore) (p : ℕ)
      → find (λ q. text_eq (h.at q).alias alias) ks ≡ some p
      → lookup raw h ks ≡ none
      → text_eq raw (h.at p).raw ≡ false
  unfolding lookup
  alias-found alias raw h [] p e f = ground (arith, e)
  alias-found alias raw h (q ∷ ks) p e f = ground (
    arith,
    e,
    f,
    text_eq_iff raw (h.at p).raw,
    text_eq_iff (h.at q).raw raw,
    alias-found alias raw h ks p,
  )

  filter-IsStored :
      (f : ℕ → Bool) (h : Heap (KeyRecord F Net)) (ks : AuthStore)
      → IsStored h ks
      → IsStored h (filter f ks)
  unfolding IsStored
  filter-IsStored f h [] v = tt
  filter-IsStored f h (q ∷ ks) v = ground (arith, filter-IsStored f h ks v.1)

module _ {F : Type 0} where
  -- What is carried over to a new configuration, and what is not.
  carried :
      (o : Option (ApiKeyConfig F)) (c : ApiKeyConfig F)
      → let d = carry_over o c in
        (d.key ≡ c.key)
        × (d.key_alias ≡ c.key_alias)
        × (d.role ≡ c.role)
        × (d.blocked ≡ c.blocked)
        × (d.allowed_cidrs ≡ c.allowed_cidrs)
  carried none c = (refl, refl, refl, refl, refl)
  carried (some orig) c = (refl, refl, refl, refl, refl)

module _ (host : Host) where
  open host use {fl, ch, net}
  open fl use {F}
  open net use {Net}

  -- The record of the new key.
  abbrev new_record : Clock → Text → Text → Option ℕ → ℕ → App host → KeyRecord F Net
  new_record t alias raw x p s = record_of net t.utc (rotated_config host alias raw p s) raw x

  abbrev kept_keys : Text → App host → AuthStore
  kept_keys old s = (remove_by_raw old s.keys s.auth).1

  rotated_same :
      (alias raw : Text) (p : ℕ) (s : App host)
      → let k = rotated_config host alias raw p s in
        (k.key ≡ some raw)
        × (k.key_alias ≡ some alias)
        × (k.role ≡ (s.keys.at p).role)
        × (k.blocked ≡ false)
        × (k.allowed_cidrs ≡ [])
  rotated_same alias raw p s = carried _ (fresh_config raw alias (s.keys.at p).role)

  made :
      (t : Clock) (alias raw : Text) (s : App host) (p : ℕ) (x : Option ℕ)
      → is_empty (trim raw) ≡ false
      → expiry_of ch t.utc (rotated_config host alias raw p s).expires ≡ done x
      → from_config ch net t.utc (rotated_config host alias raw p s)
        ≡ done (some (new_record t alias raw x p s))
  unfolding from_config
  made t alias raw s p x solid ends =
      let same = (rotated_same alias raw p s).0 in
      let here : key_text (rotated_config host alias raw p s).key ≡ some raw =
        ap key_text same ∙ rw solid refl in
      rw (here, ends, from_config) refl

  rotated :
      (t : Clock) (fresh : Bool → Text) (header : Option Text) (alias raw : Text) (s : App host)
      (p : ℕ) (x : Option ℕ)
      → fresh (text_eq (s.keys.at p).role (codes "admin")) ≡ raw
      → is_empty (trim raw) ≡ false
      → expiry_of ch t.utc (rotated_config host alias raw p s).expires ≡ done x
      → let s' = (rotate_at host t fresh header alias p s).1 in
        (s'.keys ≡ (alloc s.keys (new_record t alias raw x p s)).1)
        × (s'.auth ≡ kept_keys (s.keys.at p).raw s ++ (s.keys.next ∷ []))
  unfolding add save_to_disk audit
  rotated t fresh header alias raw s p x new solid ends =
      let e = made t alias raw s p x solid ends in
      (rw (new, e, rotate_at, add) refl, rw (new, e, rotate_at, add) refl)

  -- What a store without the old key and with a new record at its end finds.
  swapped :
      (rec : KeyRecord F Net) (raw old other : Text) (s : App host)
      → rec.raw ≡ raw
      → IsStored s.keys s.auth
      → lookup other (alloc s.keys rec).1 (kept_keys old s ++ (s.keys.next ∷ []))
        ≡ found_or
            (text_eq raw other)
            s.keys.next
            (if text_eq old other then none else lookup other s.keys s.auth)
  unfolding remove_by_raw
  swapped rec raw old other s named v =
      lookup-alloc other s.keys rec (kept_keys old s) (filter-IsStored _ s.keys s.auth v)
      ∙ (found_or_lem (text_eq rec.raw other) s.keys.next (lookup other s.keys (kept_keys old s))
          ∙ (ap (found_or (text_eq rec.raw other) s.keys.next)
                (lookup-remove_by_raw old other s.keys s.auth).1
              ∙ ap
                  (λ (r : Text).
                    found_or (text_eq r other) s.keys.next
                      (if text_eq old other then none else lookup other s.keys s.auth))
                  named))

  -- `rotate_key` of the first key of an alias, with a new token that is not blank and not one of the
  -- store, where every key stands in the heap and the expiry text that is carried over does not
  -- panic: the old token is no longer found, the new one is, at a new record of the same alias and
  -- role, and every other token as before. The new record is not blocked and allows every address,
  -- whatever the old one was.
  pub rotate_key-lookup :
      (t : Clock) (fresh : Bool → Text) (header : Option Text) (alias raw : Text) (s : App host)
      (p : ℕ) (x : Option ℕ)
      → find_alias host alias s ≡ some p
      → fresh (text_eq (s.keys.at p).role (codes "admin")) ≡ raw
      → is_empty (trim raw) ≡ false
      → lookup raw s.keys s.auth ≡ none
      → IsStored s.keys s.auth
      → expiry_of ch t.utc (rotated_config host alias raw p s).expires ≡ done x
      → let s' = (rotate_key host t fresh header alias s).1 in
        let q = s.keys.next in
        let old = (s.keys.at p).raw in
        (lookup old s'.keys s'.auth ≡ none)
        × (lookup raw s'.keys s'.auth ≡ some q)
        × ((s'.keys.at q).alias ≡ alias)
        × ((s'.keys.at q).role ≡ (s.keys.at p).role)
        × ((s'.keys.at q).blocked ≡ false)
        × ((s'.keys.at q).allowed_cidrs ≡ [])
        × ((other : Text)
            → text_eq old other ≡ false
            → text_eq raw other ≡ false
            → lookup other s'.keys s'.auth ≡ lookup other s.keys s.auth)
  unfolding rotate_key
  rotate_key-lookup t fresh header alias raw s p x e new solid unused v ends =
      let old = (s.keys.at p).raw in
      let rec = new_record t alias raw x p s in
      let (keys, auth) = rotated t fresh header alias raw s p x new solid ends in
      let same = rotated_same alias raw p s in
      let apart = alias-found alias raw s.keys s.auth p e unused in
      let self = (text_eq_iff raw raw).1 refl in
      let own = (text_eq_iff old old).1 refl in
      let at_new = alloc-at s.keys rec in
      rw (e, rotate_key, keys, auth)
        (
          swapped rec raw old old s refl v ∙ rw (own, apart) (found_or-other s.keys.next none),
          swapped rec raw old raw s refl v
              ∙ rw (unused, self) (found_or-own (text_eq old raw) s.keys.next),
          ap (λ (r : KeyRecord F Net). r.alias) at_new
              ∙ ap (λ (o : Option Text). elim o [ some a ↦ a | none ↦ short_alias raw ]) same.1,
          ap (λ (r : KeyRecord F Net). r.role) at_new ∙ same.2,
          ap (λ (r : KeyRecord F Net). r.blocked) at_new ∙ same.3,
          ap (λ (r : KeyRecord F Net). r.allowed_cidrs) at_new
              ∙ ap (filter_map (IpNet.parse_net net)) same.4,
          λ other a b.
              swapped rec raw old other s refl v
              ∙ rw (a, b) (found_or-other s.keys.next (lookup other s.keys s.auth)),
        )
