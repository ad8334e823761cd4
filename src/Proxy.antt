-- ===== src/Proxy.antt =====
-- src/proxy/mod.rs: what a request asks for and what its answer used. JSON is that of the serde_json
-- library, a parameter; a body is a list of bytes.
pub mod Sse
pub mod Chunks
pub mod Timer
pub mod Views
pub mod Counted
pub mod Models
pub mod Forward
pub mod Dispatch
pub mod Gauges
pub mod Handler
pub mod KeySlots
pub mod Watcher
pub mod Address
mod Tests
use polyglotmesh.Prelude.{
  ℕ, Bool, true, false, not, ◌&&◌, Option, none, some, List, [], ◌∷◌, Text, codes, text_eq, any,
  is_empty, if◌then◌else◌,
}
use polyglotmesh.Float.{Float}
use polyglotmesh.Config.{ProviderKind, kind_eq}
use polyglotmesh.Upstream.{Upstream}
use polyglotmesh.Pricing.{cost_for}
use polyglotmesh.Auth.{KeyRecord}

abbrev pub Bytes : Type 0
Bytes = List ℕ

-- `serde_json::Value` and the UTF-8 decoding of a chunk.
pub record Json (F : Type 0) : Type 1 where
  pub Value : Type 0
  -- `from_slice`, `from_str` and `to_vec`
  pub from_slice : Bytes → Option Value
  pub from_str : Text → Option Value
  pub to_vec : Value → Option Bytes
  pub get : Text → Value → Option Value
  pub as_u64 : Value → Option ℕ
  pub as_f64 : Value → Option F
  pub as_bool : Value → Option Bool
  pub as_text : Value → Option Text
  -- `as_object_mut` and `insert` of a text; a value that is no object stays
  pub insert_text : Text → Text → Value → Value
  -- `std::str::from_utf8`
  pub from_utf8 : Bytes → Option Text

infixl 5 ◌>>=◌
abbrev pub ◌>>=◌ : {A B : Type 0} → Option A → (A → Option B) → Option B
none >>= f = none
some a >>= f = f a

abbrev pub or_else : {A : Type 0} → Option A → Option A → Option A
or_else (some a) b = some a
or_else none b = b

abbrev pub unwrap_or : {A : Type 0} → Option A → A → A
unwrap_or (some a) d = a
unwrap_or none d = d

module _ {F : Type 0} (js : Json F) where
  open js use {Value, from_slice, to_vec, get, as_bool, as_text, insert_text}

  -- `read_stream_requested`; `accepts` is whether the accept header names an event stream.
  unfoldable pub read_stream_requested : Bool → Bytes → Bool
  read_stream_requested accepts body =
      if accepts
      then true
      else unwrap_or (from_slice body >>= λ v. get (codes "stream") v >>= as_bool) false

  -- `read_model`
  unfoldable pub read_model : Bytes → Option Text
  read_model body = from_slice body >>= λ v. get (codes "model") v >>= as_text

  -- `rewrite_model`
  unfoldable pub rewrite_model : Bytes → Text → Bytes
  rewrite_model body model =
      unwrap_or (from_slice body >>= λ v. to_vec (insert_text (codes "model") model v)) body

module _ (fl : Float) (js : Json (Float.F fl)) where
  open fl use {F}
  open js use {Value, from_slice, get, as_u64, as_f64}

  -- A count of the usage object under one of two names; 0 where there is none.
  abbrev pub usage_count : Option Value → Text → Text → ℕ
  usage_count usage first second =
      unwrap_or (or_else (usage >>= get first) (usage >>= get second) >>= as_u64) 0

  -- `extract_usage`: the tokens read and written, and the cost in USD.
  unfoldable pub extract_usage : Bytes → Upstream F → Option Text → ℕ × ℕ × F
  extract_usage body u model = elim (from_slice body) [
    | none ↦ (0, 0, Float.lit fl 0 0)
    | some v ↦
        let usage = get (codes "usage") v in
        let input = usage_count usage (codes "prompt_tokens") (codes "input_tokens") in
        let output = usage_count usage (codes "completion_tokens") (codes "output_tokens") in
        (
          input,
          output,
          unwrap_or
              (or_else (get (codes "_cost_usd") v >>= as_f64)
                (usage >>= get (codes "cost") >>= as_f64))
              (cost_for fl u model input output).0,
        )
  ]

-- Whether a list of names that is not empty lacks the model that is asked for.
abbrev pub excludes : List Text → Option Text → Bool
excludes models none = false
excludes models (some m) = not (is_empty models) && not (any (λ p. text_eq p m) models)

module _ {F Net : Type 0} where
  -- `check_key_authorization`
  unfoldable pub check_key_authorization : KeyRecord F Net → Option Text → ProviderKind → Bool
  check_key_authorization r model kind =
      if r.blocked
      then false
      else if excludes r.models model
      then false
      else if not (is_empty r.allowed_providers)
          && not (any (λ k. kind_eq k kind) r.allowed_providers)
      then false
      else true
