-- ===== src/Proxy/Sse.antt =====
-- src/proxy/mod.rs: the token counts of an event stream, `extract_usage_from_sse`. The shared
-- accumulator is an optional pair of counts.
use polyglotmesh.Prelude.{
  ℕ, Bool, true, false, Option, none, some, List, [], ◌∷◌, Text, ◌++◌, codes, text_eq, trim,
  strip_prefix, max, ◌==◌, if◌then◌else◌,
}
use polyglotmesh.Proxy.{Bytes, Json, ◌>>=◌}

-- `split('\n')` after the text `line` of the line that is being read, reversed.
abbrev pub split_from : ℕ → Text → Text → List Text
split_from sep line [] = line ∷ []
split_from sep line (c ∷ s) =
    let cut = split_from sep [] s in
    let go = split_from sep (line ++ (c ∷ [])) s in if c == sep then line ∷ cut else go

abbrev pub split_on : ℕ → Text → List Text
split_on sep s = split_from sep [] s

-- The counts so far and whether any was seen.
pub record Tally : Type 0 where
  pub in_t : ℕ
  pub out_t : ℕ
  pub found : Bool

abbrev pub accum_of : Option (ℕ × ℕ) → Tally
accum_of none = record { in_t = 0; out_t = 0; found = false }
accum_of (some (i, o)) = record { in_t = i; out_t = o; found = true }

-- The accumulator is written if counts were seen.
abbrev pub accum_with : Option (ℕ × ℕ) → Tally → Option (ℕ × ℕ)
accum_with cur t = if t.found then some (t.in_t, t.out_t) else cur

abbrev pub take_in : Option ℕ → Tally → Tally
take_in none t = t
take_in (some n) t = record t { in_t = max t.in_t n; found = true }

abbrev pub take_out : Option ℕ → Tally → Tally
take_out none t = t
take_out (some n) t = record t { out_t = max t.out_t n; found = true }

module _ {F : Type 0} (js : Json F) where
  open js use {Value, from_str, from_utf8, get, as_u64}

  -- The counts of a usage object under one pair of names.
  abbrev pub take_counts : Text → Text → Option Value → Tally → Tally
  take_counts first second none t = t
  take_counts first second (some u) t =
      take_out (get second u >>= as_u64) (take_in (get first u >>= as_u64) t)

  -- One event: the two pairs of names of its usage, and that of its message.
  abbrev pub take_event : Value → Tally → Tally
  take_event v t =
      take_counts (codes "input_tokens") (codes "output_tokens")
        (get (codes "message") v >>= get (codes "usage"))
        (take_counts (codes "input_tokens") (codes "output_tokens") (get (codes "usage") v) (
          take_counts (codes "prompt_tokens") (codes "completion_tokens") (get (codes "usage") v)
            t))

  -- The event of a line: `data: ` and JSON.
  abbrev pub event_of : Text → Option Value
  event_of line = strip_prefix (codes "data: ") (trim line) >>= λ payload.
      if text_eq payload (codes "[DONE]") then none else from_str payload

  abbrev pub take_line : Option Value → Tally → Tally
  take_line none t = t
  take_line (some v) t = take_event v t

  unfoldable pub take_lines : List Text → Tally → Tally
  take_lines [] t = t
  take_lines (line ∷ lines) t = take_lines lines (take_line (event_of line) t)

  -- The accumulator after the text of a chunk, which is `none` if it is not UTF-8.
  unfoldable pub take_text : Option (ℕ × ℕ) → Option Text → Option (ℕ × ℕ)
  unfolding take_lines
  take_text cur none = cur
  take_text cur (some text) = accum_with cur (take_lines (split_on 10 text) (accum_of cur))

  -- `extract_usage_from_sse`: the accumulator afterwards.
  unfoldable pub extract_usage_from_sse : Bytes → Option (ℕ × ℕ) → Option (ℕ × ℕ)
  unfolding take_text
  extract_usage_from_sse chunk cur = take_text cur (from_utf8 chunk)

  -- The accumulator after the chunks of a stream, in order.
  unfoldable pub feed : List Bytes → Option (ℕ × ℕ) → Option (ℕ × ℕ)
  unfolding extract_usage_from_sse
  feed [] cur = cur
  feed (c ∷ cs) cur = feed cs (extract_usage_from_sse c cur)

-- The greater counts of two accumulators.
abbrev pub join : Option (ℕ × ℕ) → Option (ℕ × ℕ) → Option (ℕ × ℕ)
join none b = b
join (some a) none = some a
join (some (i, o)) (some (j, q)) = some (max i j, max o q)
