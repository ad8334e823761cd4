-- ===== src/Proxy/Tests.antt =====
-- Runs of the model of src/proxy/mod.rs, with a JSON library that reads any text as a usage object.
use polyglotmesh.Prelude.{
  ℕ, ◌+◌, ◌*◌, ◌≡◌, refl, true, false, Option, none, some, [], ◌∷◌, Text, codes, text_eq, length,
  Heap, ◌==◌, arith, if◌then◌else◌,
}
use polyglotmesh.BTree
use polyglotmesh.Float.Fixed.{fixed}
use polyglotmesh.Config.{openai, default_queue}
use polyglotmesh.Error.{RouterResult, ok, err, bad_request}
use polyglotmesh.Upstream.{Upstream, from_config}
use polyglotmesh.Upstream.Tests.{idle}
use polyglotmesh.Registry.{for_provider}
use polyglotmesh.Queue.{World}
use polyglotmesh.Auth.{KeyRecord}
use polyglotmesh.Auth.Tests.{chrono, hosts, limited}
use polyglotmesh.Storage.{new_storage}
use polyglotmesh.Metrics.Series.{value}
use polyglotmesh.Metrics.Central.{Metrics, new_metrics}
use polyglotmesh.Proxy.{Json, check_key_authorization}
use polyglotmesh.Proxy.Sse.{feed}
use polyglotmesh.Proxy.Chunks.{feed-join}
use polyglotmesh.Proxy.Timer.{RequestTimer, Outcome, new_timer, finalize}
use polyglotmesh.Proxy.Counted.{IsCounted, finalize-IsCounted}
use polyglotmesh.Proxy.Models.{filter_upstreams_for_model, filter_upstreams-offers}
use polyglotmesh.Proxy.Forward.{Response, Router}
use polyglotmesh.Proxy.Dispatch.{Setup, candidates, dispatch}
use polyglotmesh.Proxy.Handler.{body_read, Server, handle}
use polyglotmesh.Proxy.KeySlots.{handle-Leaves}
use polyglotmesh.Proxy.Gauges.{Ended, dispatch-Ended}

-- A JSON value: a number or one field of an object.
data Doc : Type 0 where
  number : ℕ → Doc
  field : Text → Doc → Doc

abbrev get_field : Text → Doc → Option Doc
get_field k (number n) = none
get_field k (field j v) = if text_eq j k then some v else none

abbrev as_number : Doc → Option ℕ
as_number (number n) = some n
as_number (field k v) = none

abbrev usage_doc : ℕ → Doc
usage_doc n = field (codes "usage") (field (codes "prompt_tokens") (number n))

abbrev simple : Json ℕ
simple = record {
  Value = Doc;
  from_slice = λ b. some (usage_doc (length b));
  from_str = λ s. some (usage_doc (length s));
  to_vec = λ v. none;
  get = get_field;
  as_u64 = as_number;
  as_f64 = λ v. none;
  as_bool = λ v. none;
  as_text = λ v. none;
  insert_text = λ k s v. v;
  from_utf8 = λ b. some b;
}

feed-join_example :
    feed simple (codes "data: {}" ∷ codes "data: {..}" ∷ []) none
    ≡ feed simple (codes "data: {..}" ∷ codes "data: {}" ∷ []) none
feed-join_example = (feed-join simple (codes "data: {}") (codes "data: {..}") [] none).1

abbrev finished : Outcome ℕ
finished = record {
  upstream_id = some (codes "a");
  ok = true;
  status_label = codes "ok";
  in_t = 30;
  out_t = 12;
  cost_usd = 0;
}

abbrev timer : RequestTimer
timer = new_timer 5 (codes "openai") none false

finalize-IsCounted_example :
    (m : Metrics) × (finalize fixed (λ c. []) (λ s. 0) 1_000 9_000 timer finished new_metrics
      ≡ some m)
    × IsCounted timer finished new_metrics m
finalize-IsCounted_example =
    finalize-IsCounted fixed (λ c. []) (λ s. 0) 1_000 9_000 timer finished new_metrics

abbrev listed : Upstream ℕ
unfolding from_config
listed = record idle { cfg = record idle.cfg { models = codes "m" ∷ [] } }

-- The first upstream has no list of models, the second one lists the model.
abbrev pair : Heap (Upstream ℕ)
unfolding from_config
pair = record { at = λ p. if p == 0 then idle else listed; next = 2 }

filter_upstreams-offers_example :
    filter_upstreams_for_model pair (0 ∷ 1 ∷ []) (some (codes "m")) ≡ 1 ∷ []
unfolding from_config text_eq
filter_upstreams-offers_example = (filter_upstreams-offers pair (0 ∷ 1 ∷ []) (codes "m")).0

abbrev world : World ℕ
unfolding from_config
world = record {
  now = 1_000;
  heap = pair;
  stats = record {
    total_waited = 0;
    total_rejected = 0;
    total_no_upstream = 0;
    total_dispatched = 0;
  };
  pending_waits = λ _. none;
}

abbrev router : Router ℕ
router = record { world = world; metrics = new_metrics }

-- An upstream that answers each request with one byte.
abbrev setup : Setup ℕ
setup = record {
  registry = record { upstreams = (codes "a", 0) ∷ []; by_provider = 0 ∷ [] };
  model_list = [];
  model_aliases = [];
  queue = record default_queue { queue_wait_timeout_ms = 50 };
  sleep = λ b w. record w { now = World.now w + (b * 1_000_000 + 1) };
  fuel = 60_000_000;
  send = λ q s. (ok (record { status = 200; headers = []; bytes = ok (1 ∷ []) }), s);
  lossy = λ b. b;
  show_cost = λ c. [];
  hex = λ s. 0;
  utc = λ n. n;
}

dispatch-Ended_example :
    (r : RouterResult (Response × Option (ℕ × ℕ × ℕ)) × Router ℕ) × (dispatch fixed simple setup
        openai [] [] none false router
      ≡ some r)
    × Ended fixed simple setup openai none router r
unfolding value BTree.get new_metrics
dispatch-Ended_example =
    dispatch-Ended fixed simple setup (λ b w. omega arith) (omega arith) (λ q r j. refl) openai []
      [] none false router (omega arith)

-- A key that holds one slot, and no upstream to ask.
abbrev holder : KeyRecord ℕ ℕ
holder = record limited { usage = record (limited.usage) { in_flight = 1 } }

abbrev server : Server ℕ ℕ
server = record { router = router; keys = record { at = λ p. holder; next = 1 }; db = new_storage }

abbrev deserted : Setup ℕ
deserted = record setup { registry = record { upstreams = []; by_provider = [] } }

abbrev handled : Option (RouterResult Response × Server ℕ ℕ)
handled =
    handle fixed chrono hosts simple deserted openai false [] (body_read (codes "{}")) (some 0)
      server

abbrev left : RouterResult Response × Server ℕ ℕ
left = elim handled [ some a ↦ a | none ↦ (err (bad_request []), server) ]

handled_lem : handled ≡ some left
unfolding handle dispatch candidates filter_upstreams_for_model for_provider check_key_authorization
    text_eq
handled_lem = refl

handle-Leaves_example : (left.1.keys.at 0).usage.in_flight ≡ 0
unfolding check_key_authorization
handle-Leaves_example =
    (handle-Leaves fixed chrono hosts simple deserted openai false [] (body_read (codes "{}")) 0
      server left.0 left.1 handled_lem).0
