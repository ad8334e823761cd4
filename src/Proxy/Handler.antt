-- ===== src/Proxy/Handler.antt =====
-- src/proxy/mod.rs: the handlers `openai_chat_completions` and `anthropic_messages`, which differ in
-- the provider, behind `auth_middleware`.
use polyglotmesh.Prelude.{
  ℕ, ◌/◌, ◌++◌, Bool, false, not, Option, none, some, Text, codes, if◌then◌else◌, Heap, write,
}
use polyglotmesh.Float.{Float}
use polyglotmesh.Config.{ProviderKind, openai, anthropic}
use polyglotmesh.Error.{RouterResult, ok, err, bad_request, unauthorized}
use polyglotmesh.Auth.{KeyRecord, AuthStore, IpNet}
use polyglotmesh.Auth.Durations.{Chrono}
use polyglotmesh.Auth.Gate.{Verdict, granted, crashed, refused}
use polyglotmesh.Storage.{Storage}
use polyglotmesh.Accounts.{record_key_usage, release_key, authorize_key}
use polyglotmesh.Proxy.{Bytes, Json, check_key_authorization, read_model, read_stream_requested}
use polyglotmesh.Proxy.Forward.{Headers, Response, Router}
use polyglotmesh.Proxy.Dispatch.{Setup, dispatch}

-- What `to_bytes` gives: the body, or the text of an error.
pub data BodyRead : Type 0 where
  body_read : Bytes → BodyRead
  body_failed : Text → BodyRead

-- What the handlers share.
pub record Server (F Net : Type 0) : Type 0 where
  pub router : Router F
  pub keys : Heap (KeyRecord F Net)
  pub db : Storage F

module _ (fl : Float) (ch : Chrono) (net : IpNet) (js : Json (Float.F fl))
    (st : Setup (Float.F fl)) where
  open fl use {F}
  open net use {Net, IpAddr}
  open st use {utc}

  -- Whether there is a key that may not use the provider.
  abbrev pub denied : ProviderKind → Option ℕ → Heap (KeyRecord F Net) → Bool
  denied kind none keys = false
  denied kind (some p) keys = not (check_key_authorization (keys.at p) none kind)

  -- The usage of a good answer is recorded for the key.
  unfoldable pub record_answer :
      Option Text
      → RouterResult (Response × Option (ℕ × ℕ × F))
      → ℕ
      → KeyRecord F Net
      → Storage F
      → KeyRecord F Net × Storage F
  unfolding record_key_usage
  record_answer model (ok (resp, some (input, output, cost))) now r db =
      record_key_usage fl ch net now (now / 1_000_000_000) r input output cost none model 200 db
  record_answer model (ok (resp, none)) now r db = (r, db)
  record_answer model (err e) now r db = (r, db)

  -- The key's usage and its slot after the dispatch.
  unfoldable pub settle_key :
      Option Text
      → RouterResult (Response × Option (ℕ × ℕ × F))
      → Option ℕ
      → Server F Net
      → Server F Net
  unfolding record_answer release_key
  settle_key model resp none s = s
  settle_key model resp (some p) s =
      let (r, db) = record_answer model resp (utc s.router.world.now) (s.keys.at p) s.db in
      let (r', db') = release_key r db in record s { keys = write s.keys p r'; db = db' }

  -- `resp.map(|(r, _)| r)`
  abbrev pub response_of : RouterResult (Response × Option (ℕ × ℕ × F)) → RouterResult Response
  response_of (ok (resp, usage)) = ok resp
  response_of (err e) = err e

  abbrev pub after_dispatch :
      Option Text
      → Option ℕ
      → Server F Net
      → Option (RouterResult (Response × Option (ℕ × ℕ × F)) × Router F)
      → Option (RouterResult Response × Server F Net)
  after_dispatch model key s none = none
  after_dispatch model key s (some (resp, router)) =
      some (response_of resp, settle_key model resp key (record s { router = router }))

  -- The body of both handlers; `accepts` is whether the accept header names an event stream.
  unfoldable pub handle :
      ProviderKind
      → Bool
      → Headers
      → BodyRead
      → Option ℕ
      → Server F Net
      → Option (RouterResult Response × Server F Net)
  unfolding dispatch settle_key check_key_authorization read_model read_stream_requested
  handle kind accepts hs (body_failed text) key s =
      some (err (bad_request (codes "read body: " ++ text)), s)
  handle kind accepts hs (body_read body) key s =
      if denied kind key s.keys
      then some (err (unauthorized (codes "key not allowed for this provider/model")), s)
      else after_dispatch (read_model js body) key s (
          dispatch fl js st kind hs body (read_model js body)
            (read_stream_requested js accepts body) s.router)

  -- `openai_chat_completions`
  unfoldable pub openai_chat_completions :
      Bool
      → Headers
      → BodyRead
      → Option ℕ
      → Server F Net
      → Option (RouterResult Response × Server F Net)
  unfolding handle
  openai_chat_completions = handle openai

  -- `anthropic_messages`
  unfoldable pub anthropic_messages :
      Bool
      → Headers
      → BodyRead
      → Option ℕ
      → Server F Net
      → Option (RouterResult Response × Server F Net)
  unfolding handle
  anthropic_messages = handle anthropic

  -- `auth_middleware`; `none` is a panic.
  abbrev pub after_authorize :
      (Option ℕ → Server F Net → Option (RouterResult Response × Server F Net))
      → Server F Net
      → Verdict × Option ℕ × Heap (KeyRecord F Net) × Storage F
      → Option (RouterResult Response × Server F Net)
  after_authorize next s (granted, key, keys, db) = next key (record s { keys = keys; db = db })
  after_authorize next s (refused e, key, keys, db) =
      some (err e, record s { keys = keys; db = db })
  after_authorize next s (crashed, key, keys, db) = none

  unfoldable pub auth_middleware :
      (Option ℕ → Server F Net → Option (RouterResult Response × Server F Net))
      → Option Text
      → Option IpAddr
      → AuthStore
      → Server F Net
      → Option (RouterResult Response × Server F Net)
  unfolding authorize_key
  auth_middleware next header ip store s =
      let now = utc s.router.world.now in
      after_authorize next s
        (authorize_key fl ch net (now / 1_000_000_000) now header ip s.keys store s.db)
