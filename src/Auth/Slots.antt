-- ===== src/Auth/Slots.antt =====
-- src/auth/mod.rs: when `authorize` admits the request of a key, and what it does to the key's
-- slots.
use polyglotmesh.Prelude.{
  codes, Bool-cases, ℕ, ◌+◌, ◌≤◌, ◌<◌, ◌≡◌, refl, ◌⊎◌, ◌∙◌, Bool, true, false, not, ◌&&◌, Option,
  none, some, arith, ltb, if◌then◌else◌, u32_mod, Text, Option-cases, inl, inr, ◌==◌, any, List, [],
  ◌∷◌,
}
use polyglotmesh.Float.{Float}
use polyglotmesh.Error.{payment_required, unauthorized}
use polyglotmesh.Auth.{IpNet, KeyRecord}
use polyglotmesh.Auth.Durations.{Run, panicked, done, Chrono, parse_duration_to_chrono}
use polyglotmesh.Auth.Gate.{
  minute, Verdict, granted, crashed, refused, has_expired, address_error, pass_rpm, take_slot,
  release, roll_budget, check_budget, check_slot, check_limits, admit,
}

abbrev pub is_granted : Verdict → Bool
is_granted granted = true
is_granted crashed = false
is_granted (refused e) = false

abbrev pub is_none : {A : Type 0} → Option A → Bool
is_none none = true
is_none (some a) = false

-- The verdicts past the cap on parallel requests: a grant, a panic and the refusal of the budget.
abbrev pub holds_slot : Verdict → Bool
holds_slot granted = true
holds_slot crashed = true
holds_slot (refused (payment_required m)) = true
holds_slot (refused e) = false

module _ {F Net : Type 0} where
  -- The window has room: it has run out, or counts fewer requests than the limit.
  abbrev pub has_rpm_room : ℕ → KeyRecord F Net → Bool
  has_rpm_room now r =
      if r.rpm_limit == 0
      then true
      else if ltb (r.usage.rpm_window_start + minute) now
      then true
      else ltb r.usage.rpm_window_count r.rpm_limit

  abbrev pub has_slot : KeyRecord F Net → Bool
  has_slot r =
      if r.max_parallel_requests == 0 then true else ltb r.usage.in_flight r.max_parallel_requests

  -- The counter is within the cap, if there is one.
  unfoldable pub IsBounded : KeyRecord F Net → Type 0
  IsBounded r =
      (r.max_parallel_requests < u32_mod)
      × (0 < r.max_parallel_requests → r.usage.in_flight ≤ r.max_parallel_requests)

  abbrev set_in_flight : ℕ → KeyRecord F Net → KeyRecord F Net
  set_in_flight n r = record r { usage = record (r.usage) { in_flight = n } }

  take_slot-cases :
      (r : KeyRecord F Net)
      → IsBounded r
      → ((take_slot r ≡ none) × (has_slot r ≡ false))
        ⊎ (n : ℕ) × (take_slot r ≡ some (set_in_flight n r))
          × (has_slot r ≡ true)
          × (n ≡ (
              if ltb 0 r.max_parallel_requests then r.usage.in_flight + 1 else r.usage.in_flight))
  unfolding take_slot IsBounded
  take_slot-cases r b = elim (Bool-cases (has_slot r)) [
    | inr e ↦ inl (ground arith, e)
    | inl e ↦ inr (
      if ltb 0 r.max_parallel_requests then r.usage.in_flight + 1 else r.usage.in_flight,
      ground arith,
      e,
      refl,
    )
  ]

  abbrev set_window : ℕ → ℕ → KeyRecord F Net → KeyRecord F Net
  set_window start count r = record r {
    usage = record (r.usage) { rpm_window_start = start; rpm_window_count = count };
  }

  pass_rpm-cases :
      (now : ℕ) (r : KeyRecord F Net)
      → (start : ℕ) × (count : ℕ) × (pass_rpm now r
          ≡ (has_rpm_room now r, set_window start count r))
  unfolding pass_rpm
  pass_rpm-cases now r = (
    (pass_rpm now r).1.usage.rpm_window_start,
    (pass_rpm now r).1.usage.rpm_window_count,
    ground arith,
  )

  -- What a gate says and does, for a key `r`.
  abbrev pub IsGated : Bool → KeyRecord F Net → Verdict × KeyRecord F Net → Type 0
  IsGated passes r (v, r') =
      (is_granted v ≡ passes)
      × (r'.usage.in_flight ≡ (
          if holds_slot v && ltb 0 r.max_parallel_requests
          then r.usage.in_flight + 1
          else r.usage.in_flight))
      × (r'.max_parallel_requests ≡ r.max_parallel_requests)

module _ (fl : Float) (ch : Chrono) (net : IpNet) where
  open fl use {F, lit, div, le, of_nat}
  open net use {Net, IpAddr}

  -- The spend that counts at `now`: nothing if the window has run out.
  abbrev pub counted_spend : ℕ → KeyRecord F Net → Run ℕ
  counted_spend now r = elim (parse_duration_to_chrono ch r.budget_duration) [
    | panicked ↦ panicked
    | done none ↦ done r.usage.total_spend_usd
    | done (some d) ↦
        done (if Chrono.elapsed ch now r.budget_window_start d then 0 else r.usage.total_spend_usd)
  ]

  -- No budget, or a readable window and less spent than the budget.
  abbrev pub has_budget : ℕ → KeyRecord F Net → Bool
  has_budget now r = elim r.max_budget [
    | none ↦ true
    | some limit ↦ elim (counted_spend now r) [
      | panicked ↦ false
      | done spend ↦ not (le limit (div (of_nat spend) (lit 1000 0)))
    ]
  ]

  check_budget_lem :
      (now : ℕ) (r : KeyRecord F Net)
      → let (v, r') = check_budget fl ch net now r in
        (is_granted v ≡ has_budget now r)
        × (holds_slot v ≡ true)
        × (r'.usage.in_flight ≡ r.usage.in_flight)
        × (r'.max_parallel_requests ≡ r.max_parallel_requests)
  unfolding check_budget roll_budget
  check_budget_lem now r = elim (Option-cases r.max_budget) [
    | inl e ↦ rw e (refl, refl, refl, refl)
    | inr (limit, e) ↦ rw e (ground arith)
  ]

  check_slot_lem :
      (now : ℕ) (r : KeyRecord F Net)
      → IsBounded r
      → IsGated (has_slot r && has_budget now r) r (check_slot fl ch net now r)
  unfolding check_slot
  check_slot_lem now r b = elim (take_slot-cases r b) [
    | inl (e, none_left) ↦ rw (e, none_left) (refl, refl, refl)
    | inr (n, e, left, n_eq) ↦
        let (v_eq, holds, n_kept, cap) = check_budget_lem now (set_in_flight n r) in
        rw (e, left) (v_eq, rw holds (n_kept ∙ n_eq), cap)
  ]

  -- The gates of `check_limits`, one after the other.
  check_limits_lem :
      (now : ℕ) (r : KeyRecord F Net)
      → IsBounded r
      → IsGated
          (has_rpm_room now r && has_slot r && has_budget now r)
          r
          (check_limits fl ch net now r)
  unfolding check_limits IsBounded
  check_limits_lem now r b =
      let (start, count, e) = pass_rpm-cases now r in
      rw e (elim (Bool-cases (has_rpm_room now r)) [
        | inl room ↦ rw room (check_slot_lem now (set_window start count r) b)
        | inr full ↦ rw full (refl, refl, refl)
      ])

  address_error-cases :
      (cs : List Net) (ip : Option IpAddr)
      → (address_error net cs ip ≡ none)
        ⊎ (m : Text) × (address_error net cs ip ≡ some (unauthorized m))
  unfolding address_error
  address_error-cases [] ip = inl refl
  address_error-cases (c ∷ cs) none =
      inr (codes "client address unavailable; key requires allowed_cidrs", refl)
  address_error-cases (c ∷ cs) (some ip) =
      elim (Bool-cases (not (any (λ n. IpNet.contains net n ip) (c ∷ cs)))) [
        | inl e ↦ inr (codes "client address not in key's allowed_cidrs", rw e refl)
        | inr e ↦ inl (rw e refl)
      ]

  -- Every gate open, each read off the key as it was before the request.
  abbrev pub is_open : ℕ → Option IpAddr → KeyRecord F Net → Bool
  is_open now ip r =
      not r.blocked
      && not (has_expired now r.expires_at)
      && is_none (address_error net r.allowed_cidrs ip)
      && has_rpm_room now r
      && has_slot r
      && has_budget now r

  -- Where a key's counter is within its cap, `authorize` grants its request exactly if the key is
  -- neither blocked nor expired, its address list, request window and cap have room for the request,
  -- and its budget is not spent. A capped key's counter rises by one exactly if the request got past
  -- the cap: if it is granted, and also if the budget then refuses it or the reading of the budget's
  -- duration panics.
  pub admit-is_open :
      (now : ℕ) (ip : Option IpAddr) (r : KeyRecord F Net)
      → IsBounded r
      → IsGated (is_open now ip r) r (admit fl ch net now ip r)
  unfolding admit
  admit-is_open now ip r b = elim (Bool-cases r.blocked) [
    | inl e ↦ rw e (refl, refl, refl)
    | inr e ↦ elim (Bool-cases (has_expired now r.expires_at)) [
      | inl f ↦ rw (e, f) (refl, refl, refl)
      | inr f ↦ elim (address_error-cases r.allowed_cidrs ip) [
        | inl g ↦ rw (e, f, g) (check_limits_lem now r b)
        | inr (m, g) ↦ rw (e, f, g) (refl, refl, refl)
      ]
    ]
  ]

  -- A slot that a granted request holds is given back by `release`.
  pub release-admit :
      (now : ℕ) (ip : Option IpAddr) (r : KeyRecord F Net)
      → IsBounded r
      → (admit fl ch net now ip r).0 ≡ granted
      → (release (admit fl ch net now ip r).1).usage.in_flight ≡ r.usage.in_flight
  unfolding release IsBounded
  release-admit now ip r b e =
      let (v_eq, n_eq, cap) = admit-is_open now ip r b in ground (arith, e, n_eq, cap)
