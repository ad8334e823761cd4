-- ===== src/Auth/Gate.antt =====
-- src/auth/mod.rs: `authorize`, `record_usage` and `release`.
use polyglotmesh.Prelude.{
  ℕ, ◌+◌, Bool, true, false, not, Option, none, some, List, [], ◌∷◌, Text, codes, any, is_empty,
  ltb, leb, if◌then◌else◌, Heap, write, u32_mod, add32, sub32, add64, ◌%◌,
}
use polyglotmesh.Float.{Float}
use polyglotmesh.Error.{RouterError, unauthorized, too_many_requests, payment_required}
use polyglotmesh.Auth.{IpNet, KeyRecord, KeyUsage, AuthStore, lookup, token_of}
use polyglotmesh.Auth.Durations.{Run, panicked, done, Chrono, parse_duration_to_chrono}

-- 60 s in nanoseconds.
abbrev pub minute : ℕ
minute = 60_000_000_000

-- How a request is answered: with the address of its key, with an error, or by a panic of the
-- handler.
pub data Verdict : Type 0 where
  granted crashed : Verdict
  refused : RouterError → Verdict

-- `bearer_token`; the header is `none` where it is absent or not text.
unfoldable pub bearer_token : Option Text → Option Text
unfolding token_of
bearer_token none = none
bearer_token (some h) = let t = token_of h in if is_empty t then none else some t

-- `Utc::now() > exp`
abbrev pub has_expired : ℕ → Option ℕ → Bool
has_expired now none = false
has_expired now (some exp) = ltb exp now

-- The address allowlist: `none` passes.
unfoldable pub address_error :
    (net : IpNet) → List (IpNet.Net net) → Option (IpNet.IpAddr net) → Option RouterError
address_error net [] ip = none
address_error net (c ∷ cs) none =
    some (unauthorized (codes "client address unavailable; key requires allowed_cidrs"))
address_error net (c ∷ cs) (some ip) =
    if not (any (λ n. IpNet.contains net n ip) (c ∷ cs))
    then some (unauthorized (codes "client address not in key's allowed_cidrs"))
    else none

module _ {F Net : Type 0} where
  -- The request window of a key: whether the request passes, and the key after it.
  unfoldable pub pass_rpm : ℕ → KeyRecord F Net → Bool × KeyRecord F Net
  pass_rpm now r =
      if ltb 0 r.rpm_limit
      then (let fresh = ltb (r.usage.rpm_window_start + minute) now in
          let start = if fresh then now else r.usage.rpm_window_start in
          let cur = if fresh then 0 else r.usage.rpm_window_count in
          (
            not (leb r.rpm_limit cur),
            record r {
              usage = record (r.usage) { rpm_window_start = start; rpm_window_count = add32 cur 1 };
            },
          ))
      else (true, r)

  -- The cap on parallel requests: `none` refuses.
  unfoldable pub take_slot : KeyRecord F Net → Option (KeyRecord F Net)
  take_slot r =
      if ltb 0 r.max_parallel_requests
      then (if ltb r.usage.in_flight r.max_parallel_requests
          then some
              (record r { usage = record (r.usage) { in_flight = add32 r.usage.in_flight 1 } })
          else none)
      else some r

  -- `release`
  unfoldable pub release : KeyRecord F Net → KeyRecord F Net
  release r =
      if ltb 0 r.max_parallel_requests
      then record r { usage = record (r.usage) { in_flight = sub32 r.usage.in_flight 1 } }
      else r

  -- The budget window that has run out starts again at `now` with nothing spent.
  abbrev pub restart_budget : ℕ → Bool → KeyRecord F Net → KeyRecord F Net
  restart_budget now false r = r
  restart_budget now true r = record r {
    budget_window_start = now;
    usage = record (r.usage) { total_spend_usd = 0 };
  }

  -- The budget window: `panicked` where the duration's text panics.
  unfoldable pub roll_budget : Chrono → ℕ → KeyRecord F Net → Run (KeyRecord F Net)
  unfolding parse_duration_to_chrono
  roll_budget ch now r = elim (parse_duration_to_chrono ch r.budget_duration) [
    | panicked ↦ panicked
    | done none ↦ done r
    | done (some d) ↦ done (restart_budget now (Chrono.elapsed ch now r.budget_window_start d) r)
  ]

module _ (fl : Float) (ch : Chrono) (net : IpNet) where
  open fl use {F, lit, mul, div, le, of_nat, to_u64}
  open net use {Net, IpAddr}

  -- `spend >= limit`, of the spend in USD
  abbrev pub is_spent : F → KeyRecord F Net → Bool
  is_spent limit r = le limit (div (of_nat r.usage.total_spend_usd) (lit 1000 0))

  -- The verdict on a key whose budget window is up to date, with the key as it was before.
  abbrev pub after_roll : F → KeyRecord F Net → Run (KeyRecord F Net) → Verdict × KeyRecord F Net
  after_roll limit r panicked = (crashed, r)
  after_roll limit r (done r') =
      if is_spent limit r'
      then (refused (payment_required (codes "max_budget exceeded for this key")), r')
      else (granted, r')

  -- The budget check of a key with its slot taken.
  unfoldable pub check_budget : ℕ → KeyRecord F Net → Verdict × KeyRecord F Net
  check_budget now r = elim r.max_budget [
    | none ↦ (granted, r)
    | some limit ↦ after_roll limit r (roll_budget ch now r)
  ]

  abbrev pub after_slot : ℕ → KeyRecord F Net → Option (KeyRecord F Net) → Verdict × KeyRecord F Net
  after_slot now r none =
      (refused (too_many_requests (codes "max_parallel_requests exceeded for this key")), r)
  after_slot now r (some r') = check_budget now r'

  -- The cap on parallel requests, then the budget.
  unfoldable pub check_slot : ℕ → KeyRecord F Net → Verdict × KeyRecord F Net
  check_slot now r = after_slot now r (take_slot r)

  abbrev pub after_rpm : ℕ → Bool × KeyRecord F Net → Verdict × KeyRecord F Net
  after_rpm now (false, r) =
      (refused (too_many_requests (codes "rpm_limit exceeded for this key")), r)
  after_rpm now (true, r) = check_slot now r

  -- The limits of a key: requests per minute, then parallel requests, then the budget.
  unfoldable pub check_limits : ℕ → KeyRecord F Net → Verdict × KeyRecord F Net
  check_limits now r = after_rpm now (pass_rpm now r)

  -- `authorize` from the key's record on.
  unfoldable pub admit : ℕ → Option IpAddr → KeyRecord F Net → Verdict × KeyRecord F Net
  admit now ip r =
      if r.blocked
      then (refused (unauthorized (codes "key is blocked")), r)
      else if has_expired now r.expires_at
      then (refused (unauthorized (codes "key has expired")), r)
      else elim (address_error net r.allowed_cidrs ip) [
        | some e ↦ (refused e, r)
        | none ↦ check_limits now r
      ]

  abbrev pub after_lookup :
      ℕ
      → Option IpAddr
      → Heap (KeyRecord F Net)
      → Option ℕ
      → Verdict × Option ℕ × Heap (KeyRecord F Net)
  after_lookup now ip h none =
      (refused (unauthorized (codes "invalid or unknown API key")), none, h)
  after_lookup now ip h (some p) =
      ((admit now ip (h.at p)).0, some p, write h p (admit now ip (h.at p)).1)

  abbrev pub after_token :
      ℕ
      → Option IpAddr
      → Heap (KeyRecord F Net)
      → AuthStore
      → Option Text
      → Verdict × Option ℕ × Heap (KeyRecord F Net)
  after_token now ip h ks none =
      (refused (unauthorized (codes "missing Authorization header")), none, h)
  after_token now ip h ks (some token) = after_lookup now ip h (lookup token h ks)

  -- `authorize`: the verdict, the key it is about, and the heap.
  unfoldable pub authorize :
      ℕ
      → Option Text
      → Option IpAddr
      → Heap (KeyRecord F Net)
      → AuthStore
      → Verdict × Option ℕ × Heap (KeyRecord F Net)
  authorize now header ip h ks = after_token now ip h ks (bearer_token header)

  -- The token window of a key. The sum wraps to u64 and is then cut to u32.
  unfoldable pub count_tokens : ℕ → ℕ → ℕ → KeyUsage → KeyUsage
  count_tokens now input output u =
      let fresh = ltb (u.tpm_window_start + minute) now in
      record u {
        tpm_window_start = if fresh then now else u.tpm_window_start;
        tpm_window_tokens =
            add32 (if fresh then 0 else u.tpm_window_tokens) (add64 input output % u32_mod);
      }

  -- `record_usage`
  unfoldable pub record_usage : ℕ → ℕ → ℕ → F → KeyRecord F Net → KeyRecord F Net
  unfolding count_tokens
  record_usage now input output cost r =
      let u = record (r.usage) {
        total_requests = add64 r.usage.total_requests 1;
        total_input_tokens = add64 r.usage.total_input_tokens input;
        total_output_tokens = add64 r.usage.total_output_tokens output;
        total_spend_usd = add64 r.usage.total_spend_usd (to_u64 (mul cost (lit 1000 0)));
      } in
      record r { usage = if ltb 0 r.tpm_limit then count_tokens now input output u else u }
