-- ===== src/Error.antt =====
-- src/error.rs: the router's errors and the HTTP status that each is answered with. Errors of other
-- libraries are one constructor with their text.
use polyglotmesh.Prelude.{
  ℕ, zero, suc, ◌+◌, ◌/◌, ◌%◌, [], ◌∷◌, Option, none, some, Text, ltb, if◌then◌else◌,
}

pub data RouterError : Type 0 where
  upstream_not_found : RouterError
  no_healthy_upstream upstream bad_request unauthorized too_many_requests payment_required not_found
        internal :
      Text → RouterError
  upstream_http : ℕ → Text → RouterError
  reqwest io json anyhow : Text → RouterError

pub data RouterResult (A : Type 0) : Type 0 where
  ok : A → RouterResult A
  err : RouterError → RouterResult A

-- The status of `into_response`. `StatusCode::from_u16` of the HTTP library is a parameter.
pub status_of : (ℕ → Option ℕ) → RouterError → ℕ
status_of from_u16 upstream_not_found = 404
status_of from_u16 (no_healthy_upstream m) = 503
status_of from_u16 (bad_request m) = 400
status_of from_u16 (unauthorized m) = 401
status_of from_u16 (too_many_requests m) = 429
status_of from_u16 (payment_required m) = 402
status_of from_u16 (not_found m) = 404
status_of from_u16 (upstream_http s b) = elim (from_u16 s) [ some c ↦ c | none ↦ 502 ]
status_of from_u16 (upstream m) = 500
status_of from_u16 (internal m) = 500
status_of from_u16 (reqwest m) = 500
status_of from_u16 (io m) = 500
status_of from_u16 (json m) = 500
status_of from_u16 (anyhow m) = 500

unfoldable pub digits_from : ℕ → ℕ → Text → Text
digits_from zero n acc = acc
digits_from (suc f) n acc =
    let rest = digits_from f (n / 10) ((48 + n % 10) ∷ acc) in
    if ltb n 10 then (48 + n) ∷ acc else rest

-- A u64 in decimal, as `{}` formats it: at most 20 digits.
unfoldable pub decimal : ℕ → Text
unfolding digits_from
decimal n = digits_from 20 n []
