-- ===== src/Auth/Access.antt =====
-- src/auth/mod.rs: what `authorize` answers to a header with a token.
use polyglotmesh.Prelude.{
  ℕ, ◌≡◌, refl, sym, subst, ◌≢◌, false, Option, none, some, [], ◌∷◌, ◌++◌, Text, codes, text_eq,
  is_empty, trim, strip_prefix, find, All, arith, Heap, write, Option-cases, inl, inr,
}
use polyglotmesh.Float.{Float}
use polyglotmesh.Error.{unauthorized}
use polyglotmesh.Auth.{IpNet, KeyRecord, AuthStore, lookup, token_of}
use polyglotmesh.Auth.Durations.{Chrono}
use polyglotmesh.Auth.Gate.{Verdict, refused, admit, authorize, bearer_token}
use polyglotmesh.Auth.Slots.{IsBounded, IsGated, is_open, admit-is_open}

-- A header that is `Bearer ` and a token, but for the space around it.
bearer_token-Bearer :
    (header token : Text)
    → trim header ≡ codes "Bearer " ++ token
    → trim token ≡ token
    → is_empty token ≡ false
    → bearer_token (some header) ≡ some token
unfolding bearer_token token_of strip_prefix
bearer_token-Bearer header token e f g = rw (e, f, g) refl

module _ {F Net : Type 0} where
  -- The first key of this text.
  abbrev pub key_of : Text → Heap (KeyRecord F Net) → AuthStore → Option ℕ
  key_of token h ks = find (λ p. text_eq (h.at p).raw token) ks

  lookup-key_of :
      (token : Text) (h : Heap (KeyRecord F Net)) (ks : AuthStore)
      → lookup token h ks ≡ key_of token h ks
  unfolding lookup
  lookup-key_of token h [] = refl
  lookup-key_of token h (p ∷ ks) = ground (arith, lookup-key_of token h ks)

  found-All :
      (P : ℕ → Type 0) (token : Text) (h : Heap (KeyRecord F Net)) (ks : AuthStore) (p : ℕ)
      → All P ks
      → key_of token h ks ≡ some p
      → P p
  found-All P token h [] p a e = cc
  found-All P token h (q ∷ ks) p a e = ground (arith, e, a.0, found-All P token h ks p)

  at_write : (h : Heap (KeyRecord F Net)) (p : ℕ) (r : KeyRecord F Net) → (write h p r).at p ≡ r
  at_write h p r = ground arith

  away :
      (h : Heap (KeyRecord F Net)) (p q : ℕ) (r : KeyRecord F Net)
      → q ≢ p
      → (write h p r).at q ≡ h.at q
  away h p q r ne = ground (arith, ne)

module _ (fl : Float) (ch : Chrono) (net : IpNet) where
  open fl use {F}
  open net use {Net, IpAddr}

  -- What is answered for the key that a token has: without one a refusal, and nothing changes;
  -- otherwise the gates of the key decide, its slot is counted, and no other record changes.
  abbrev pub IsAnswered :
      ℕ
      → Option IpAddr
      → Heap (KeyRecord F Net)
      → Option ℕ
      → Verdict × Option ℕ × Heap (KeyRecord F Net)
      → Type 0
  IsAnswered now ip h none (v, k, h') =
      (v ≡ refused (unauthorized (codes "invalid or unknown API key"))) × (k ≡ none) × (h' ≡ h)
  IsAnswered now ip h (some p) (v, k, h') =
      (k ≡ some p)
      × IsGated (is_open fl ch net now ip (h.at p)) (h.at p) (v, h'.at p)
      × ((q : ℕ) → q ≢ p → h'.at q ≡ h.at q)

  -- Where each key's counter is within its cap, and a header is `Bearer ` and a token that is not
  -- blank and has no space around it, but for the space around the header: `authorize` refuses a
  -- token that no key of the store has, and changes nothing; a token that one has is granted for the
  -- first such key exactly if this key is neither blocked nor expired, its address list, request
  -- window and cap have room, and its budget is not spent. A capped key's counter rises by one exactly
  -- if the request got past the cap, and no other record changes.
  pub authorize-Bearer :
      (now : ℕ) (header token : Text) (ip : Option IpAddr) (h : Heap (KeyRecord F Net))
      (ks : AuthStore)
      → trim header ≡ codes "Bearer " ++ token
      → trim token ≡ token
      → is_empty token ≡ false
      → All (λ p. IsBounded (h.at p)) ks
      → IsAnswered now ip h (key_of token h ks) (authorize fl ch net now (some header) ip h ks)
  unfolding authorize
  authorize-Bearer now header token ip h ks e f g b =
      let t = bearer_token-Bearer header token e f g in
      elim (Option-cases (key_of token h ks)) [
        | inl none_there ↦
            rw (t, lookup-key_of token h ks, none_there, authorize) (refl, refl, refl)
        | inr (p, there) ↦
            let gated =
              admit-is_open fl ch net now ip (h.at p)
                (found-All (λ q. IsBounded (h.at q)) token h ks p b there) in
            rw (t, lookup-key_of token h ks, there, authorize)
              (
                refl,
                subst
                    (λ r.
                      IsGated (is_open fl ch net now ip (h.at p)) (h.at p)
                        ((admit fl ch net now ip (h.at p)).0, r))
                    (sym (at_write h p (admit fl ch net now ip (h.at p)).1)) gated,
                λ q ne. away h p q (admit fl ch net now ip (h.at p)).1 ne,
              )
      ]
