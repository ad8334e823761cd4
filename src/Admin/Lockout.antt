-- ===== src/Admin/Lockout.antt =====
-- src/admin/mod.rs: `admin_auth_middleware` takes a slot of the key and gives none back.
use polyglotmesh.Prelude.{
  ℕ, suc, ◌+◌, ◌≤◌, ◌<◌, ◌≡◌, refl, sym, ap, ◌∙◌, Bool, true, false, Option, none, some, List, [],
  ◌∷◌, Text, arith, ltb, add32, if◌then◌else◌, Heap, write, inl, inr, Bool-cases, Option-cases,
}
use polyglotmesh.Float.{Float}
use polyglotmesh.Auth.{IpNet, KeyRecord, AuthStore, lookup}
use polyglotmesh.Auth.Durations.{Chrono}
use polyglotmesh.Auth.Gate.{
  Verdict, granted, crashed, refused, authorize, admit, check_limits, check_slot, check_budget,
  take_slot, pass_rpm, roll_budget, address_error, bearer_token, has_expired, after_rpm,
}
use polyglotmesh.Auth.Slots.{IsBounded, is_granted, admit-is_open}
use polyglotmesh.Admin.{admin_auth, after_authorize}
use polyglotmesh.AppState.Reload.{written}

module _ (fl : Float) (ch : Chrono) (net : IpNet) where
  open fl use {F}
  open net use {Net, IpAddr}

  -- The same key, but for its counters.
  abbrev IsSame : KeyRecord F Net → KeyRecord F Net → Type 0
  IsSame r r' =
      (r'.raw ≡ r.raw) × (r'.role ≡ r.role) × (r'.max_parallel_requests ≡ r.max_parallel_requests)

  check_budget-IsSame : (now : ℕ) (r : KeyRecord F Net) → IsSame r (check_budget fl ch net now r).1
  unfolding check_budget roll_budget
  check_budget-IsSame now r = ground arith

  check_slot-IsSame : (now : ℕ) (r : KeyRecord F Net) → IsSame r (check_slot fl ch net now r).1
  unfolding check_slot take_slot
  check_slot-IsSame now r = ground (
    arith,
    check_budget-IsSame now r,
    check_budget-IsSame now
        (record r { usage = record (r.usage) { in_flight = add32 r.usage.in_flight 1 } }),
  )

  pass_rpm-IsSame : (now : ℕ) (r : KeyRecord F Net) → IsSame r (pass_rpm now r).1
  unfolding pass_rpm
  pass_rpm-IsSame now r = elim (Bool-cases (ltb 0 r.rpm_limit)) [
    | inl e ↦ rw (e, pass_rpm) (refl, refl, refl)
    | inr e ↦ rw (e, pass_rpm) (refl, refl, refl)
  ]

  after_rpm-IsSame :
      (now : ℕ) (p : Bool × KeyRecord F Net) → IsSame p.1 (after_rpm fl ch net now p).1
  after_rpm-IsSame now (true, r) = check_slot-IsSame now r
  after_rpm-IsSame now (false, r) = (refl, refl, refl)

  check_limits-IsSame : (now : ℕ) (r : KeyRecord F Net) → IsSame r (check_limits fl ch net now r).1
  unfolding check_limits
  check_limits-IsSame now r =
      let a = pass_rpm-IsSame now r in
      let b = after_rpm-IsSame now (pass_rpm now r) in (b.0 ∙ a.0, b.1 ∙ a.1, b.2 ∙ a.2)

  admit-IsSame :
      (now : ℕ) (ip : Option IpAddr) (r : KeyRecord F Net) → IsSame r (admit fl ch net now ip r).1
  unfolding admit
  admit-IsSame now ip r = elim (Bool-cases r.blocked) [
    | inl e ↦ rw (e, admit) (refl, refl, refl)
    | inr e ↦ elim (Bool-cases (has_expired now r.expires_at)) [
      | inl f ↦ rw (e, f, admit) (refl, refl, refl)
      | inr f ↦ elim (Option-cases (address_error net r.allowed_cidrs ip)) [
        | inl g ↦ rw (e, f, g, admit) (check_limits-IsSame now r)
        | inr (x, g) ↦ rw (e, f, g, admit) (refl, refl, refl)
      ]
    ]
  ]

  check_budget-in_flight :
      (now : ℕ) (r : KeyRecord F Net)
      → (check_budget fl ch net now r).1.usage.in_flight ≡ r.usage.in_flight
  unfolding check_budget roll_budget
  check_budget-in_flight now r = ground arith

  check_slot-IsBounded :
      (now : ℕ) (r : KeyRecord F Net) → IsBounded r → IsBounded (check_slot fl ch net now r).1
  unfolding check_slot take_slot IsBounded
  check_slot-IsBounded now r b =
      let taken = record r { usage = record (r.usage) { in_flight = add32 r.usage.in_flight 1 } } in
      ground (
        arith,
        b.0,
        b.1,
        check_budget-in_flight now r,
        check_budget-in_flight now taken,
        check_budget-IsSame now r,
        check_budget-IsSame now taken,
      )

  pass_rpm-IsBounded : (now : ℕ) (r : KeyRecord F Net) → IsBounded r → IsBounded (pass_rpm now r).1
  unfolding pass_rpm IsBounded
  pass_rpm-IsBounded now r b = elim (Bool-cases (ltb 0 r.rpm_limit)) [
    | inl e ↦ rw (e, pass_rpm) b
    | inr e ↦ rw (e, pass_rpm) b
  ]

  after_rpm-IsBounded :
      (now : ℕ) (p : Bool × KeyRecord F Net)
      → IsBounded p.1
      → IsBounded (after_rpm fl ch net now p).1
  after_rpm-IsBounded now (true, r) b = check_slot-IsBounded now r b
  after_rpm-IsBounded now (false, r) b = b

  admit-IsBounded :
      (now : ℕ) (ip : Option IpAddr) (r : KeyRecord F Net)
      → IsBounded r
      → IsBounded (admit fl ch net now ip r).1
  unfolding admit check_limits IsBounded
  admit-IsBounded now ip r b = elim (Bool-cases r.blocked) [
    | inl e ↦ rw (e, admit) b
    | inr e ↦ elim (Bool-cases (has_expired now r.expires_at)) [
      | inl f ↦ rw (e, f, admit) b
      | inr f ↦ elim (Option-cases (address_error net r.allowed_cidrs ip)) [
        | inl g ↦
            rw (e, f, g, admit)
              (after_rpm-IsBounded now (pass_rpm now r) (pass_rpm-IsBounded now r b))
        | inr (x, g) ↦ rw (e, f, g, admit) b
      ]
    ]
  ]

  -- Requests to the admin handlers, one after the other at these times and all with this header: how
  -- many get through, and the keys after them.
  unfoldable pub admin_all :
      List ℕ → Option Text → Heap (KeyRecord F Net) → AuthStore → ℕ × Heap (KeyRecord F Net)
  admin_all [] header h ks = (0, h)
  admin_all (now ∷ ts) header h ks =
      let (v, h1) = admin_auth fl ch net now header h ks in
      let (n, h2) = admin_all ts header h1 ks in (if is_granted v then suc n else n, h2)

  admin_auth-step :
      (now : ℕ) (header : Option Text) (token : Text) (h : Heap (KeyRecord F Net)) (ks : AuthStore)
      (p : ℕ)
      → bearer_token header ≡ some token
      → lookup token h ks ≡ some p
      → let (v, h') = admin_auth fl ch net now header h ks in
        let (w, r) = admit fl ch net now none (h.at p) in
        (is_granted v ≡ true → is_granted w ≡ true) × (h' ≡ write h p r)
  unfolding admin_auth authorize
  admin_auth-step now header token h ks p e f =
      rw (e, f, admin_auth) (passed p (admit fl ch net now none (h.at p)).0 _)
    where
      passed :
          (q : ℕ) (w : Verdict) (g : Heap (KeyRecord F Net))
          → (is_granted (after_authorize fl ch net (w, some q, g)).0 ≡ true → is_granted w ≡ true)
            × ((after_authorize fl ch net (w, some q, g)).1 ≡ g)
      passed q granted g = ((λ x. refl), refl)
      passed q crashed g = ((λ x. x), refl)
      passed q (refused x) g = ((λ y. y), refl)

  written_self : (h : Heap (KeyRecord F Net)) (p : ℕ) (r : KeyRecord F Net) → (write h p r).at p ≡ r
  written_self h p r = ground arith

  admin_all-bound :
      (ts : List ℕ) (header : Option Text) (token : Text) (h : Heap (KeyRecord F Net))
      (ks : AuthStore) (p : ℕ) (r : KeyRecord F Net)
      → bearer_token header ≡ some token
      → lookup token h ks ≡ some p
      → h.at p ≡ r
      → IsBounded r
      → 0 < r.max_parallel_requests
      → (admin_all ts header h ks).0 + r.usage.in_flight ≤ r.max_parallel_requests
  unfolding admin_all IsBounded
  admin_all-bound [] header token h ks p r e f k b capped = omega (arith, b.1 capped)
  admin_all-bound (now ∷ ts) header token h ks p r e f k b capped =
      let r' = (admit fl ch net now none r).1 in
      let same = admit-IsSame now none r in
      let gated = admit-is_open fl ch net now none r b in
      let (lets, moved) = rw k at (admin_auth-step now header token h ks p e f) in
      let rest =
        admin_all-bound ts header token (write h p r') ks p r' e
          (written p token h r' ks (same.0 ∙ ap (λ (x : KeyRecord F Net). x.raw) (sym k)) ∙ f)
          (written_self h p r') (admit-IsBounded now none r b) (rw same.2 capped) in
      rw moved (ground (arith, lets, gated.1, same.2, rest))

  -- Of any calls of `admin_auth` with the token of a key in the store that has a cap on parallel
  -- requests below 2^32 and a counter within it, no more pass than the cap leaves room for at the
  -- first.
  pub admin_all-le :
      (ts : List ℕ) (header : Option Text) (token : Text) (h : Heap (KeyRecord F Net))
      (ks : AuthStore) (p : ℕ)
      → bearer_token header ≡ some token
      → lookup token h ks ≡ some p
      → IsBounded (h.at p)
      → 0 < (h.at p).max_parallel_requests
      → (admin_all ts header h ks).0 + (h.at p).usage.in_flight ≤ (h.at p).max_parallel_requests
  admin_all-le ts header token h ks p e f b capped =
      admin_all-bound ts header token h ks p (h.at p) e f refl b capped
