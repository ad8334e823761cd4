-- ===== src/Proxy/Gauges.antt =====
-- src/proxy/mod.rs: how a dispatch ends, and what it leaves of the gauges of running requests.
use polyglotmesh.Prelude.{
  ℕ, ◌<◌, ◌*◌, ◌≡◌, refl, ◌∙◌, ap, Bool, true, Option, some, Text, is_empty, Bool-cases, inl, inr,
  write, u64_mod, arith,
}
use polyglotmesh.Float.{Float}
use polyglotmesh.Config.{ProviderKind, as_str}
use polyglotmesh.Error.{RouterError, RouterResult, ok, err, no_healthy_upstream}
use polyglotmesh.Queue.{World, acquire}
use polyglotmesh.Queue.Waiting.{acquire_total}
use polyglotmesh.Metrics.Series.{Series, Labels, value, dec, value-dec, value-dec-inc}
use polyglotmesh.Proxy.{Bytes, Json}
use polyglotmesh.Proxy.Timer.{RequestTimer, new_timer}
use polyglotmesh.Proxy.Counted.{Gained, inc-Gained, IsCounted, finalize-IsCounted}
use polyglotmesh.Proxy.Forward.{HttpRequest, Response, Headers, Router, Answer, request_of, forward}
use polyglotmesh.Proxy.Dispatch.{
  Setup, gauge_of, start_gauges, end_gauges, is_ok, candidates, resolved_body, without_accum,
  settle, outcome_of, answered, conclude, proceed, dispatch,
}

-- The gauge of running requests has the same values.
abbrev pub Same : Series → Series → Type 0
Same s s' = (j : Labels) → value j s' ≡ value j s

dec-Same : (k : Labels) (a b : Series) → Same a b → Same (dec k a) (dec k b)
dec-Same k a b same j = ground (arith, value-dec j k a, value-dec j k b, same j, same k)

module _ (fl : Float) (js : Json (Float.F fl)) (st : Setup (Float.F fl)) where
  open fl use {F}
  open st use {queue, sleep, fuel, send}

  -- How a dispatch ends, and the gauge of running requests then.
  pub data Ended (kind : ProviderKind) (model : Option Text) (s : Router F)
      : RouterResult (Response × Option (ℕ × ℕ × F)) × Router F → Type 0 where
    -- no upstream has the model: nothing is changed
    unserved :
        is_empty (candidates fl js st kind model s.world) ≡ true
        → Ended kind model s (err (no_healthy_upstream (as_str kind)), s)
    -- the queue refuses: the request stays in the gauge for good
    refused :
        (e : RouterError) (s' : Router F)
        → acquire fl queue sleep fuel (candidates fl js st kind model s.world) kind s.world
          ≡ some (err e, s'.world)
        → Gained (gauge_of kind) 1 s.metrics.active_requests s'.metrics.active_requests
        → Ended kind model s (err e, s')
    -- an upstream is asked: the gauge is as before
    served :
        (p : ℕ) (w : World F) (a : RouterResult (Response × Option (ℕ × ℕ × F))) (s' : Router F)
        → acquire fl queue sleep fuel (candidates fl js st kind model s.world) kind s.world
          ≡ some (ok p, w)
        → Same s.metrics.active_requests s'.metrics.active_requests
        → Ended kind model s (a, s')

  concluded :
      (kind : ProviderKind) (stream : Bool) (timer : RequestTimer) (p : ℕ)
      (a : RouterResult (Answer fl js) × Router F)
      → (r : RouterResult (Response × Option (ℕ × ℕ × F)) × Router F) × (conclude fl js st kind
            stream timer p a
          ≡ some r)
        × (r.1.metrics.active_requests ≡ dec (gauge_of kind) a.1.metrics.active_requests)
  unfolding conclude end_gauges IsCounted
  concluded kind stream timer p (result, s) =
      let w = s.world in
      let w' = record w {
        heap = write w.heap p (settle fl js st w.now (is_ok result) (w.heap.at p));
      } in
      let (m, e, counted) =
        finalize-IsCounted fl (st.show_cost) (st.hex) (st.utc w.now) w.now timer
          (outcome_of fl js st p result w') (end_gauges kind stream s.metrics) in
      (
        (without_accum fl js st result, record { world = w'; metrics = m }),
        ap (answered fl js st result w') e,
        counted.1,
      )

  module _ (passes : (b : ℕ) (w : World F) → w.now < (sleep b w).now)
      (enough : queue.queue_wait_timeout_ms * 1_000_000 < fuel)
      (keeps : (q : HttpRequest) (r : Router F)
        → Same r.metrics.active_requests (send q r).1.metrics.active_requests) where
    proceeds :
        (kind : ProviderKind) (hs : Headers) (body : Bytes) (model : Option Text) (stream : Bool)
        (s : Router F) (timer : RequestTimer) (x : RouterResult ℕ) (w : World F)
        → value (gauge_of kind) s.metrics.active_requests < u64_mod
        → acquire fl queue sleep fuel (candidates fl js st kind model s.world) kind s.world
          ≡ some (x, w)
        → (r : RouterResult (Response × Option (ℕ × ℕ × F)) × Router F) × (proceed fl js st kind hs
              body stream model timer
              (start_gauges kind stream s.metrics)
              (some (x, w))
            ≡ some r)
          × Ended kind model s r
    unfolding proceed start_gauges forward
    proceeds kind hs body model stream s timer (err e) w small found =
        (_, refl, refused e _ found (inc-Gained (gauge_of kind) 1 s.metrics.active_requests))
    proceeds kind hs body model stream s timer (ok p) w small found =
        let started : Router F = record {
          world = w;
          metrics = start_gauges kind stream s.metrics;
        } in
        let sent = forward fl js send (st.lossy) kind p hs body stream model started in
        let (r, e, same) =
          concluded kind stream (record timer { upstream_start = some w.now }) p sent in
        let kept = keeps (request_of kind (w.heap.at p) hs body) started in
        (
          r,
          e,
          served p w r.0 r.1 found (λ j.
              ap (value j) same
              ∙ (dec-Same (gauge_of kind) _ _ kept j
                  ∙ value-dec-inc j (gauge_of kind) s.metrics.active_requests small)),
        )

    -- If each sleep takes time and there is fuel for the time to wait, and what other requests do
    -- while the upstream answers leaves the gauge of running requests as it is, which is below 2^64,
    -- a dispatch ends; it leaves the gauge as it was if no upstream has the model, or if one was
    -- asked, with success or not; and it leaves the gauge one higher if the queue refuses.
    pub dispatch-Ended :
        (kind : ProviderKind) (hs : Headers) (body : Bytes) (model : Option Text) (stream : Bool)
        (s : Router F)
        → value (gauge_of kind) s.metrics.active_requests < u64_mod
        → (r : RouterResult (Response × Option (ℕ × ℕ × F)) × Router F) × (dispatch fl js st kind hs
              body model stream s
            ≡ some r)
          × Ended kind model s r
    unfolding dispatch
    dispatch-Ended kind hs body model stream s small =
        elim (Bool-cases (is_empty (candidates fl js st kind model s.world))) [
          | inl none_of ↦ (_, rw none_of refl, unserved none_of)
          | inr some_of ↦
              let (a, found, _) =
                acquire_total fl sleep passes queue (candidates fl js st kind model s.world) kind
                  fuel s.world enough in
              let (r, e, ended) =
                proceeds kind hs (resolved_body fl js st kind body model s.world) model stream s
                  (new_timer s.world.now (as_str kind) model stream) a.0 a.1 small found in
              (r, rw (some_of, found) e, ended)
        ]
