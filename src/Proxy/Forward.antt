-- ===== src/Proxy/Forward.antt =====
-- src/proxy/mod.rs: a request as it is sent to an upstream, and its answer. The HTTP client is the
-- parameter `send`, which also stands for what other requests do until the answer is there.
use polyglotmesh.Prelude.{
  ℕ, Bool, true, false, ◌&&◌, Option, none, some, List, [], ◌∷◌, ◌++◌, Text, codes, text_eq, ltb,
  leb, ◌==◌, if◌then◌else◌, reverse,
}
use polyglotmesh.Float.{Float}
use polyglotmesh.Config.{ProviderKind, openai, anthropic}
use polyglotmesh.Error.{RouterResult, ok, err, upstream_http}
use polyglotmesh.Upstream.{Upstream}
use polyglotmesh.Queue.{World}
use polyglotmesh.Metrics.Central.{Metrics}
use polyglotmesh.Proxy.{Bytes, Json, extract_usage}

-- Header fields whose value is text.
abbrev pub Headers : Type 0
Headers = List (Text × Text)

abbrev pub header_of : Text → Headers → Option Text
header_of name [] = none
header_of name ((k, v) ∷ hs) = if text_eq k name then some v else header_of name hs

pub record HttpRequest : Type 0 where
  pub url : Text
  pub headers : Headers
  pub timeout_ms : ℕ
  pub body : Bytes

pub record HttpReply : Type 0 where
  pub status : ℕ
  pub headers : Headers
  -- what `bytes().await` gives
  pub bytes : RouterResult Bytes

-- The body of an answer: its bytes, or the bytes of the upstream as they come.
pub data Body : Type 0 where
  whole : Bytes → Body
  streamed : Body

pub record Response : Type 0 where
  pub status : ℕ
  pub headers : Headers
  pub body : Body

-- What the handlers share, besides the configuration.
pub record Router (F : Type 0) : Type 0 where
  pub world : World F
  pub metrics : Metrics

-- `trim_end_matches('/')`
abbrev pub drop_slashes : Text → Text
drop_slashes [] = []
drop_slashes (c ∷ s) = if c == 47 then drop_slashes s else c ∷ s

abbrev pub trim_slashes : Text → Text
trim_slashes s = reverse (drop_slashes (reverse s))

-- The headers of the client that are passed on, and those of the upstream that are copied.
abbrev pub pass_headers : List Text → Headers → Headers
pass_headers [] hs = []
pass_headers (n ∷ ns) hs = elim (header_of n hs) [
  | some v ↦ (n, v) ∷ pass_headers ns hs
  | none ↦ pass_headers ns hs
]

-- The parts in which the two providers differ.
abbrev pub path_of : ProviderKind → Text
path_of openai = codes "/chat/completions"
path_of anthropic = codes "/v1/messages"

abbrev pub key_headers : ProviderKind → Text → Headers
key_headers openai key = (codes "authorization", codes "Bearer " ++ key) ∷ []
key_headers anthropic key =
    (codes "x-api-key", key) ∷ (codes "anthropic-version", codes "2023-06-01") ∷ []

abbrev pub passed : ProviderKind → List Text
passed openai = codes "x-request-id" ∷ codes "x-correlation-id" ∷ codes "user-agent" ∷ []
passed anthropic = codes "x-request-id" ∷ codes "anthropic-beta" ∷ codes "user-agent" ∷ []

abbrev pub copied : ProviderKind → List Text
copied openai = codes "content-type" ∷ codes "x-request-id" ∷ []
copied anthropic = codes "content-type" ∷ codes "x-request-id" ∷ codes "request-id" ∷ []

unfoldable pub request_of : {F : Type 0} → ProviderKind → Upstream F → Headers → Bytes → HttpRequest
request_of kind u hs body = record {
  url = trim_slashes u.cfg.base_url ++ path_of kind;
  headers =
      key_headers kind u.cfg.api_key
      ++ ((codes "content-type", codes "application/json") ∷ pass_headers (passed kind) hs);
  timeout_ms = u.cfg.timeout_ms;
  body = body;
}

-- `resp.bytes().await.unwrap_or_default()`
abbrev pub bytes_or_empty : RouterResult Bytes → Bytes
bytes_or_empty (ok b) = b
bytes_or_empty (err e) = []

module _ (fl : Float) (js : Json (Float.F fl)) where
  open fl use {F}

  -- The answer, its usage, and whether there is an accumulator for the usage of a stream.
  abbrev pub Answer : Type 0
  Answer = Response × Option (ℕ × ℕ × F) × Bool

  abbrev pub whole_answer :
      Upstream F → Option Text → ℕ → Headers → RouterResult Bytes → RouterResult Answer
  whole_answer u model status hs (err e) = err e
  whole_answer u model status hs (ok bytes) = ok (
    record { status = status; headers = hs; body = whole bytes },
    some (extract_usage fl js bytes u model),
    false,
  )

  -- `forward_openai` and `forward_anthropic` after `send().await?`; `lossy` is
  -- `String::from_utf8_lossy`.
  unfoldable pub receive :
      ProviderKind
      → (Bytes → Text)
      → Upstream F
      → Bool
      → Option Text
      → RouterResult HttpReply
      → RouterResult Answer
  unfolding extract_usage
  receive kind lossy u stream model (err e) = err e
  receive kind lossy u stream model (ok reply) =
      let hs = pass_headers (copied kind) (HttpReply.headers reply) in
      if leb 200 (HttpReply.status reply) && ltb (HttpReply.status reply) 300
      then (if stream
          then ok (
            record { status = HttpReply.status reply; headers = hs; body = streamed },
            some (0, 0, Float.lit fl 0 0),
            true,
          )
          else whole_answer u model (HttpReply.status reply) hs (HttpReply.bytes reply))
      else err
          (upstream_http (HttpReply.status reply) (lossy (bytes_or_empty (HttpReply.bytes reply))))

  -- `forward_openai` and `forward_anthropic`: the configuration that the request is made of is read
  -- before it is sent, the prices after.
  unfoldable pub forward :
      (HttpRequest → Router F → RouterResult HttpReply × Router F)
      → (Bytes → Text)
      → ProviderKind
      → ℕ
      → Headers
      → Bytes
      → Bool
      → Option Text
      → Router F
      → RouterResult Answer × Router F
  unfolding receive request_of
  forward send lossy kind p hs body stream model s =
      let (reply, s') = send (request_of kind (s.world.heap.at p) hs body) s in
      (receive kind lossy (s'.world.heap.at p) stream model reply, s')

  -- `forward_openai`
  unfoldable pub forward_openai :
      (HttpRequest → Router F → RouterResult HttpReply × Router F)
      → (Bytes → Text)
      → ℕ
      → Headers
      → Bytes
      → Bool
      → Option Text
      → Router F
      → RouterResult Answer × Router F
  unfolding forward
  forward_openai send lossy = forward send lossy openai

  -- `forward_anthropic`
  unfoldable pub forward_anthropic :
      (HttpRequest → Router F → RouterResult HttpReply × Router F)
      → (Bytes → Text)
      → ℕ
      → Headers
      → Bytes
      → Bool
      → Option Text
      → Router F
      → RouterResult Answer × Router F
  unfolding forward
  forward_anthropic send lossy = forward send lossy anthropic
