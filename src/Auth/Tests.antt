-- ===== src/Auth/Tests.antt =====
-- Runs of src/auth/mod.rs.
use polyglotmesh.Prelude.{
  ℤ, pos, negsuc, ℕ, ◌+◌, ◌*◌, ◌≡◌, refl, false, Option, none, some, [], ◌∷◌, ◌++◌, codes, ltb,
  ◌==◌, Heap, arith, text_eq, trim, trim_start, is_whitespace, ◌<◌,
}
use polyglotmesh.Float.Fixed.{fixed}
use polyglotmesh.Config.{ApiKeyConfig}
use polyglotmesh.Error.{decimal, payment_required}
use polyglotmesh.Auth.{
  IpNet, expiry_of, KeyRecord, AuthStore, new_usage, short_alias, from_config, bare_config, lookup,
  add,
}
use polyglotmesh.Auth.Durations.{
  Chrono, done, parse_duration_to_chrono, of_unit, of_split, parse_i64, parse_below, parse_digits,
}
use polyglotmesh.Auth.Gate.{
  granted, refused, admit, authorize, release, check_limits, check_slot, check_budget, take_slot,
  pass_rpm, roll_budget, address_error,
}
use polyglotmesh.Auth.Slots.{IsBounded, IsGated, is_open, admit-is_open, release-admit}
use polyglotmesh.Auth.Store.{IsStored, lookup-add}
use polyglotmesh.Auth.Access.{IsAnswered, authorize-Bearer}
use polyglotmesh.Auth.Windows.{pass_all, InWindow, pass_all-new_window}
use polyglotmesh.Auth.Parse.{parse_duration-decimal}

abbrev scaled : ℕ → ℤ → Option ℕ
scaled k (pos n) = some (k * n)
scaled k (negsuc n) = none

-- Durations that are counts of seconds.
abbrev pub chrono : Chrono
chrono = record {
  Duration = ℕ;
  seconds = scaled 1;
  minutes = scaled 60;
  hours = scaled 3600;
  days = scaled 86400;
  weeks = scaled 604800;
  elapsed = λ now start d. ltb (start + d * 1_000_000_000) now;
  after = λ now d. some (now + d * 1_000_000_000);
  parse_from_rfc3339 = λ s. none;
}

-- Networks of one address each.
abbrev pub hosts : IpNet
hosts = record { Net = ℕ; IpAddr = ℕ; parse_net = λ s. none; contains = λ n ip. n == ip }

-- A key for one request at a time and five per minute.
abbrev pub limited : KeyRecord ℕ ℕ
limited = record {
  raw = codes "k";
  alias = codes "k";
  role = codes "api";
  models = [];
  allowed_providers = [];
  rpm_limit = 5;
  tpm_limit = 0;
  max_parallel_requests = 1;
  max_budget = none;
  soft_budget = none;
  budget_duration = none;
  budget_window_start = 0;
  expires_at = none;
  allowed_model_region = none;
  blocked = false;
  allowed_cidrs = [];
  created_at = 0;
  usage = new_usage 0;
}

-- The same key with a budget that is spent.
abbrev spent : KeyRecord ℕ ℕ
spent = record limited { max_budget = some 0 }

-- The refused request keeps its slot.
leaked :
    (admit fixed chrono hosts 1 none spent).0
    ≡ refused (payment_required (codes "max_budget exceeded for this key"))
unfolding admit check_limits check_slot check_budget take_slot pass_rpm roll_budget address_error
    parse_duration_to_chrono
leaked = refl

leaked_slot : (admit fixed chrono hosts 1 none spent).1.usage.in_flight ≡ 1
unfolding admit check_limits check_slot check_budget take_slot pass_rpm roll_budget address_error
    parse_duration_to_chrono
leaked_slot = refl

-- A month, as the documentation spells it, is not read.
month : parse_duration_to_chrono chrono (some (codes "1mo")) ≡ done none
unfolding parse_duration_to_chrono of_split parse_i64 parse_below parse_digits
month = refl

limited-IsBounded : IsBounded limited
unfolding IsBounded
limited-IsBounded = (omega arith, λ p. omega arith)

admit-is_open_example :
    IsGated
      (is_open fixed chrono hosts 1 none limited)
      limited
      (admit fixed chrono hosts 1 none limited)
admit-is_open_example = admit-is_open fixed chrono hosts 1 none limited limited-IsBounded

admitted : (admit fixed chrono hosts 1 none limited).0 ≡ granted
unfolding admit check_limits check_slot check_budget take_slot pass_rpm address_error
admitted = refl

release-admit_example : (release (admit fixed chrono hosts 1 none limited).1).usage.in_flight ≡ 0
release-admit_example = release-admit fixed chrono hosts 1 none limited limited-IsBounded admitted

abbrev one_key : Heap (KeyRecord ℕ ℕ)
one_key = record { at = λ p. limited; next = 1 }

in_window : InWindow 61_000_000_000 (61_000_000_001 ∷ 61_000_000_002 ∷ [])
unfolding InWindow
in_window = (omega arith, (omega arith, tt))

pass_all-new_window_example :
    (pass_all
      (61_000_000_000 ∷ 61_000_000_001 ∷ 61_000_000_002 ∷ [])
      (record limited { rpm_limit = 2 })).0
    ≡ 2
pass_all-new_window_example =
    pass_all-new_window 61_000_000_000 (61_000_000_001 ∷ 61_000_000_002 ∷ [])
      (record limited { rpm_limit = 2 }) (omega arith) (omega arith) in_window (omega arith)

parse_duration-decimal_example :
    parse_duration_to_chrono chrono (some (decimal 30 ++ (115 ∷ []))) ≡ done (some 30)
unfolding of_unit
parse_duration-decimal_example = parse_duration-decimal chrono 30 115 (omega arith)

one_key-IsStored : IsStored one_key (0 ∷ [])
unfolding IsStored
one_key-IsStored = (omega arith, tt)

-- The key is known, and has a free slot.
authorize-Bearer_example :
    IsAnswered fixed chrono hosts 1 none one_key
      (some 0)
      (authorize fixed chrono hosts 1 (some (codes " Bearer k")) none one_key (0 ∷ []))
unfolding trim trim_start is_whitespace text_eq
authorize-Bearer_example =
    authorize-Bearer fixed chrono hosts 1 (codes " Bearer k") (codes "k") none one_key (0 ∷ []) refl
      refl refl (limited-IsBounded, tt)

abbrev bare : ApiKeyConfig ℕ
bare = bare_config (codes "api") (codes "n")

abbrev new_key : KeyRecord ℕ ℕ
new_key = record limited {
  raw = codes "n";
  alias = short_alias (codes "n");
  rpm_limit = 0;
  max_parallel_requests = 0;
  budget_window_start = 1;
  created_at = 1;
  usage = new_usage 1;
}

bare_record : from_config chrono hosts 1 bare ≡ done (some new_key)
unfolding from_config trim trim_start is_whitespace expiry_of
bare_record = refl

lookup-add_example :
    (h : Heap (KeyRecord ℕ ℕ)) × (ks : AuthStore) × (add chrono hosts 1 bare one_key (0 ∷ [])
      ≡ done (h, ks))
    × (lookup (codes "n") h ks ≡ some 1)
    × (h.at 1 ≡ new_key)
    × ((p : ℕ) → p < 1 → h.at p ≡ limited)
    × IsStored h ks
unfolding lookup text_eq
lookup-add_example =
    lookup-add chrono hosts 1 bare new_key (codes "n") one_key (0 ∷ []) bare_record one_key-IsStored
