-- ===== src/Admin/Probes.antt =====
-- src/admin/mod.rs: the handler that tests an upstream, and one round of the health checker. The HTTP
-- client is the parameter `send`, which also stands for what others do until the answer is there.
use polyglotmesh.Prelude.{
  ℕ, Bool, true, false, not, ◌&&◌, ◌||◌, Option, none, some, List, [], ◌∷◌, ◌++◌, Text, codes, ltb,
  leb, ◌==◌, min, if◌then◌else◌,
}
use polyglotmesh.Config.{ProviderKind, openai, anthropic, UpstreamConfig}
use polyglotmesh.Error.{upstream_not_found, decimal}
use polyglotmesh.Upstream.{record_success, record_failure}
use polyglotmesh.Registry
use polyglotmesh.Proxy.Forward.{trim_slashes}
use polyglotmesh.AppState.{Host, Clock, App}
use polyglotmesh.Admin.{Reply, reply, failure, audit}
use polyglotmesh.Admin.Upstreams.{change_at}

pub record ProbeRequest : Type 0 where
  pub url : Text
  -- the name and the value of the one header
  pub header : Text × Text
  pub timeout_ms : ℕ

-- The status of the answer, or the text of the client's error.
pub data ProbeReply : Type 0 where
  status : ℕ → ProbeReply
  lost : Text → ProbeReply

-- `StatusCode::is_success`
abbrev pub is_success : ℕ → Bool
is_success n = leb 200 n && ltb n 300

-- What the handler reports.
pub record Tested : Type 0 where
  pub ok : Bool
  pub answer : ProbeReply

module _ (host : Host) (send : ProbeRequest → App host → ProbeReply × Clock × App host) where
  open host use {fl, iter}
  open fl use {F}

  abbrev pub record_probe : Clock → ℕ → Bool → App host → App host
  record_probe t p true = change_at host p (record_success t.now)
  record_probe t p false = change_at host p (record_failure t.now)

  abbrev pub after_test :
      Option Text → Text → ℕ → ProbeReply × Clock × App host → Reply Tested × App host
  after_test header id p (status n, t, s) =
      let detail = codes "{\"id\":\"" ++ id ++ codes "\",\"status\":" ++ decimal n ++ codes "}" in
      (
        reply 200 (record { ok = is_success n; answer = status n }),
        record_probe t p (is_success n) (audit host t (codes "upstream.test") header detail s),
      )
  after_test header id p (lost e, t, s) =
      let detail = codes "{\"id\":\"" ++ id ++ codes "\",\"error\":\"" ++ e ++ codes "\"}" in
      (
        reply 200 (record { ok = false; answer = lost e }),
        audit host t (codes "upstream.test") header detail (record_probe t p false s),
      )

  -- `test_upstream`
  unfoldable pub test_upstream : Option Text → Text → App host → Reply Tested × App host
  unfolding record_success record_failure decimal audit
  test_upstream header id s = elim (Registry.get id s.registry) [
    | none ↦ (failure upstream_not_found, s)
    | some p ↦
        let cfg = (s.upstreams.at p).cfg in
        after_test header id p (
          send
            (record {
              url = trim_slashes cfg.base_url ++ codes "/v1/models";
              header = (codes "Authorization", codes "Bearer " ++ cfg.api_key);
              timeout_ms = min cfg.timeout_ms 10_000;
            })
            s)
  ]

  -- The request of the health checker, by the kind of the upstream.
  abbrev pub health_request : ℕ → UpstreamConfig F → ProviderKind → ProbeRequest
  health_request timeout_ms cfg openai = record {
    url = trim_slashes cfg.base_url ++ codes "/models";
    header = (codes "Authorization", codes "Bearer " ++ cfg.api_key);
    timeout_ms = timeout_ms;
  }
  health_request timeout_ms cfg anthropic = record {
    url = trim_slashes cfg.base_url ++ codes "/v1/messages";
    header = (codes "x-api-key", cfg.api_key);
    timeout_ms = timeout_ms;
  }

  abbrev pub is_alive : ProbeReply → Bool
  is_alive (status n) = is_success n || n == 405 || n == 404
  is_alive (lost e) = false

  abbrev pub after_check : ℕ → ProbeReply × Clock × App host → App host
  after_check p (answer, t, s) = record_probe t p (is_alive answer) s

  unfoldable pub check_one : ℕ → ℕ → App host → App host
  unfolding record_success record_failure
  check_one timeout_ms p s =
      let cfg = (s.upstreams.at p).cfg in
      if not cfg.enabled then s else after_check p (send (health_request timeout_ms cfg cfg.kind) s)

  unfoldable pub check_all : ℕ → List ℕ → App host → App host
  unfolding check_one
  check_all timeout_ms [] s = s
  check_all timeout_ms (p ∷ ps) s = check_all timeout_ms ps (check_one timeout_ms p s)

  -- One tick of `spawn_health_checker`.
  unfoldable pub health_tick : ℕ → App host → App host
  unfolding check_all
  health_tick timeout_ms s = check_all timeout_ms (Registry.all iter s.registry) s
