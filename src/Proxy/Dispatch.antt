-- ===== src/Proxy/Dispatch.antt =====
-- src/proxy/mod.rs: `dispatch_openai` and `dispatch_anthropic`, which differ in the provider. What
-- the spawned watcher of a stream's usage does is in Proxy.Watcher.
use polyglotmesh.Prelude.{
  ℕ, Bool, true, false, Option, none, some, List, [], ◌∷◌, Text, codes, is_empty, if◌then◌else◌,
  write,
}
use polyglotmesh.Float.{Float}
use polyglotmesh.Config.{
  ProviderKind, openai, anthropic, as_str, QueueConfig, ModelListEntry, ModelAliasEntry,
}
use polyglotmesh.Error.{RouterResult, ok, err, no_healthy_upstream}
use polyglotmesh.Upstream.{Upstream, record_success, record_failure}
use polyglotmesh.Upstream
use polyglotmesh.Registry.{Registry, for_provider}
use polyglotmesh.Queue.{World, acquire}
use polyglotmesh.State.{resolve_alias}
use polyglotmesh.Metrics.Series.{Labels, inc, dec}
use polyglotmesh.Metrics.Central.{Metrics}
use polyglotmesh.Proxy.{Bytes, Json, rewrite_model}
use polyglotmesh.Proxy.Models.{filter_upstreams_for_model}
use polyglotmesh.Proxy.Timer.{RequestTimer, new_timer, Outcome, finalize}
use polyglotmesh.Proxy.Forward.{HttpRequest, HttpReply, Response, Headers, Router, Answer, forward}

-- What a dispatch reads and does not change, and the functions of libraries that it calls.
pub record Setup (F : Type 0) : Type 0 where
  pub registry : Registry
  pub model_list : List ModelListEntry
  pub model_aliases : List (Text × List ModelAliasEntry)
  pub queue : QueueConfig
  -- the sleep of a waiting request, and the fuel of its rounds
  pub sleep : ℕ → World F → World F
  pub fuel : ℕ
  -- `RequestBuilder::send` and `String::from_utf8_lossy`
  pub send : HttpRequest → Router F → RouterResult HttpReply × Router F
  pub lossy : Bytes → Text
  -- `format!("{:.9}")`, `u64::from_str_radix(.., 16)` and the UTC time of an instant in nanoseconds
  pub show_cost : F → Text
  pub hex : Text → ℕ
  pub utc : ℕ → ℕ

-- The label tuple of the gauges.
abbrev pub gauge_of : ProviderKind → Labels
gauge_of kind = (codes "method", as_str kind) ∷ []

-- The gauges of running requests and streams at the start and at the end of a dispatch.
unfoldable pub start_gauges : ProviderKind → Bool → Metrics → Metrics
start_gauges kind stream m = record m {
  active_requests = inc (gauge_of kind) 1 m.active_requests;
  active_streams = if stream then inc (gauge_of kind) 1 m.active_streams else m.active_streams;
}

unfoldable pub end_gauges : ProviderKind → Bool → Metrics → Metrics
end_gauges kind stream m = record m {
  active_requests = dec (gauge_of kind) m.active_requests;
  active_streams = if stream then dec (gauge_of kind) m.active_streams else m.active_streams;
}

abbrev pub is_ok : {A : Type 0} → RouterResult A → Bool
is_ok (ok a) = true
is_ok (err e) = false

module _ (fl : Float) (js : Json (Float.F fl)) (st : Setup (Float.F fl)) where
  open fl use {F, lit}
  open st use {
    registry, model_list, model_aliases, queue, sleep, fuel, send, lossy, show_cost, hex, utc,
  }

  -- The body with the model's alias resolved.
  unfoldable pub resolved_body : ProviderKind → Bytes → Option Text → World F → Bytes
  unfolding resolve_alias rewrite_model
  resolved_body kind body none w = body
  resolved_body kind body (some model) w =
      elim (resolve_alias w.now model kind w.heap registry model_list model_aliases) [
        | some m ↦ rewrite_model js body m
        | none ↦ body
      ]

  unfoldable pub candidates : ProviderKind → Option Text → World F → List ℕ
  unfolding filter_upstreams_for_model
  candidates kind model w =
      filter_upstreams_for_model w.heap (for_provider kind w.heap registry) model

  -- The usage of an answer, zeros where there is none.
  abbrev pub usage_of : RouterResult (Answer fl js) → ℕ × ℕ × F
  usage_of (err e) = (0, 0, lit 0 0)
  usage_of (ok (r, none, accum)) = (0, 0, lit 0 0)
  usage_of (ok (r, some usage, accum)) = usage

  -- `result.map(|(r, u, _)| (r, u))`
  abbrev pub without_accum :
      RouterResult (Answer fl js) → RouterResult (Response × Option (ℕ × ℕ × F))
  without_accum (err e) = err e
  without_accum (ok (r, usage, accum)) = ok (r, usage)

  -- The upstream after its answer: the slot is given back and the outcome recorded.
  abbrev pub settle : ℕ → Bool → Upstream F → Upstream F
  settle now success u =
      if success
      then record_success now (Upstream.release u)
      else record_failure now (Upstream.release u)

  abbrev pub outcome_of : ℕ → RouterResult (Answer fl js) → World F → Outcome F
  outcome_of p result w =
      let (in_t, out_t, cost) = usage_of result in
      record {
        upstream_id = some (w.heap.at p).cfg.id;
        ok = is_ok result;
        status_label = if is_ok result then codes "ok" else codes "upstream_error";
        in_t = in_t;
        out_t = out_t;
        cost_usd = cost;
      }

  abbrev pub answered :
      RouterResult (Answer fl js)
      → World F
      → Option Metrics
      → Option (RouterResult (Response × Option (ℕ × ℕ × F)) × Router F)
  answered result w none = none
  answered result w (some m) = some (without_accum result, record { world = w; metrics = m })

  -- What follows the answer of the upstream at `p`.
  unfoldable pub conclude :
      ProviderKind
      → Bool
      → RequestTimer
      → ℕ
      → RouterResult (Answer fl js) × Router F
      → Option (RouterResult (Response × Option (ℕ × ℕ × F)) × Router F)
  unfolding finalize
  conclude kind stream timer p (result, s) =
      let w = s.world in
      let w' = record w { heap = write w.heap p (settle w.now (is_ok result) (w.heap.at p)) } in
      answered result w' (
        finalize fl show_cost hex (utc w.now) w.now timer (outcome_of p result w')
          (end_gauges kind stream s.metrics))

  -- What follows the wait for an upstream.
  unfoldable pub proceed :
      ProviderKind
      → Headers
      → Bytes
      → Bool
      → Option Text
      → RequestTimer
      → Metrics
      → Option (RouterResult ℕ × World F)
      → Option (RouterResult (Response × Option (ℕ × ℕ × F)) × Router F)
  unfolding conclude forward
  proceed kind hs body stream model timer m none = none
  proceed kind hs body stream model timer m (some (err e, w)) =
      some (err e, record { world = w; metrics = m })
  proceed kind hs body stream model timer m (some (ok p, w)) =
      conclude kind stream (record timer { upstream_start = some w.now }) p
        (forward fl js send lossy kind p hs body stream model (record { world = w; metrics = m }))

  -- The body of both functions. `none` means that the fuel ran out or a panic.
  unfoldable pub dispatch :
      ProviderKind
      → Headers
      → Bytes
      → Option Text
      → Bool
      → Router F
      → Option (RouterResult (Response × Option (ℕ × ℕ × F)) × Router F)
  unfolding resolved_body candidates start_gauges proceed
  dispatch kind hs body model stream s =
      let w = s.world in
      let ps = candidates kind model w in
      if is_empty ps
      then some (err (no_healthy_upstream (as_str kind)), s)
      else proceed kind hs (resolved_body kind body model w) stream model
          (new_timer w.now (as_str kind) model stream) (start_gauges kind stream s.metrics)
          (acquire fl queue sleep fuel ps kind w)

  -- `dispatch_openai`
  unfoldable pub dispatch_openai :
      Headers
      → Bytes
      → Option Text
      → Bool
      → Router F
      → Option (RouterResult (Response × Option (ℕ × ℕ × F)) × Router F)
  unfolding dispatch
  dispatch_openai = dispatch openai

  -- `dispatch_anthropic`
  unfoldable pub dispatch_anthropic :
      Headers
      → Bytes
      → Option Text
      → Bool
      → Router F
      → Option (RouterResult (Response × Option (ℕ × ℕ × F)) × Router F)
  unfolding dispatch
  dispatch_anthropic = dispatch anthropic
