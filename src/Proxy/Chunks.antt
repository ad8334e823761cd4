-- ===== src/Proxy/Chunks.antt =====
-- src/proxy/mod.rs: how the chunks of an event stream add up.
use polyglotmesh.Prelude.{
  ℕ, ◌≡◌, refl, ◌∙◌, ap, sym, false, ◌||◌, Option, none, some, List, [], ◌∷◌, Text, codes, max,
  arith,
}
use polyglotmesh.Proxy.{Bytes, Json, ◌>>=◌}
use polyglotmesh.Proxy.Sse.{
  Tally, accum_of, accum_with, take_text, take_in, take_out, take_counts, take_event, take_line,
  take_lines, event_of, split_on, extract_usage_from_sse, feed, join,
}

abbrev merge : Tally → Tally → Tally
merge s t = record {
  in_t = max s.in_t t.in_t;
  out_t = max s.out_t t.out_t;
  found = s.found || t.found;
}

abbrev nothing : Tally
nothing = record { in_t = 0; out_t = 0; found = false }

merge_assoc : (r s t : Tally) → merge (merge r s) t ≡ merge r (merge s t)
merge_assoc r s t = ground arith

merge-nothing : (t : Tally) → merge t nothing ≡ t
merge-nothing t = ground arith

take_pair :
    (a b : Option ℕ) (t : Tally)
    → take_out b (take_in a t) ≡ merge t (take_out b (take_in a nothing))
take_pair none none t = ground arith
take_pair none (some n) t = ground arith
take_pair (some m) none t = ground arith
take_pair (some m) (some n) t = ground arith

-- What a step adds does not depend on what was there.
abbrev IsAdditive : (Tally → Tally) → Type 0
IsAdditive f = (t : Tally) → f t ≡ merge t (f nothing)

compose : (f g : Tally → Tally) → IsAdditive f → IsAdditive g → IsAdditive (λ t. g (f t))
compose f g a b t =
    b (f t)
    ∙ (ap (λ s. merge s (g nothing)) (a t)
        ∙ (merge_assoc t (f nothing) (g nothing) ∙ ap (merge t) (sym (b (f nothing)))))

-- Nothing is counted before something is found.
abbrev IsClean : Tally → Type 0
IsClean t = t.found ≡ false → (t.in_t ≡ 0) × (t.out_t ≡ 0)

take_pair-IsClean : (a b : Option ℕ) (t : Tally) → IsClean t → IsClean (take_out b (take_in a t))
take_pair-IsClean none none t c = c
take_pair-IsClean none (some n) t c = λ e. cc
take_pair-IsClean (some m) none t c = λ e. cc
take_pair-IsClean (some m) (some n) t c = λ e. cc

join_comm : (a b c : Option (ℕ × ℕ)) → join (join a b) c ≡ join (join a c) b
join_comm none none none = refl
join_comm none none (some c) = refl
join_comm none (some b) none = refl
join_comm none (some b) (some c) = ground arith
join_comm (some a) none none = refl
join_comm (some a) none (some c) = refl
join_comm (some a) (some b) none = refl
join_comm (some a) (some b) (some c) = ground arith

join_twice : (a b : Option (ℕ × ℕ)) → join (join a b) b ≡ join a b
join_twice none none = refl
join_twice none (some b) = ground arith
join_twice (some a) none = refl
join_twice (some a) (some b) = ground arith

added :
    (cur : Option (ℕ × ℕ)) (t k : Tally)
    → t ≡ merge (accum_of cur) k
    → IsClean k
    → accum_with cur t ≡ join cur (accum_with none k)
added none t k e clean = rw e (ground arith)
added (some a) t k e clean = rw e (ground (arith, clean))

module _ {F : Type 0} (js : Json F) where
  open js use {Value, get, as_u64, from_utf8}

  take_counts_lem :
      (a b : Text) (u : Option Value) (t : Tally)
      → take_counts js a b u t ≡ merge t (take_counts js a b u nothing)
  take_counts_lem a b none t = sym (merge-nothing t)
  take_counts_lem a b (some u) t = take_pair (get a u >>= as_u64) (get b u >>= as_u64) t

  take_event_lem : (v : Value) → IsAdditive (take_event js v)
  take_event_lem v =
      compose
        (λ t.
          take_counts js in_a out_a (get usage v)
            (take_counts js (codes "prompt_tokens") (codes "completion_tokens") (get usage v) t))
        (take_counts js in_a out_a (get (codes "message") v >>= get usage))
        (compose (take_counts js (codes "prompt_tokens") (codes "completion_tokens") (get usage v))
          (take_counts js in_a out_a (get usage v))
          (take_counts_lem (codes "prompt_tokens") (codes "completion_tokens") (get usage v))
          (take_counts_lem in_a out_a (get usage v)))
        (take_counts_lem in_a out_a (get (codes "message") v >>= get usage))
    where
      usage : Text
      usage = codes "usage"

      in_a : Text
      in_a = codes "input_tokens"

      out_a : Text
      out_a = codes "output_tokens"

  take_line_lem : (e : Option Value) → IsAdditive (take_line js e)
  take_line_lem none t = sym (merge-nothing t)
  take_line_lem (some v) t = take_event_lem v t

  take_lines_lem : (lines : List Text) → IsAdditive (take_lines js lines)
  unfolding take_lines
  take_lines_lem [] t = sym (merge-nothing t)
  take_lines_lem (line ∷ lines) t =
      compose (take_line js (event_of js line)) (take_lines js lines)
        (take_line_lem (event_of js line)) (take_lines_lem lines) t

  take_counts-IsClean :
      (a b : Text) (u : Option Value) (t : Tally) → IsClean t → IsClean (take_counts js a b u t)
  take_counts-IsClean a b none t c = c
  take_counts-IsClean a b (some u) t c =
      take_pair-IsClean (get a u >>= as_u64) (get b u >>= as_u64) t c

  take_lines-IsClean : (lines : List Text) (t : Tally) → IsClean t → IsClean (take_lines js lines t)
  unfolding take_lines
  take_lines-IsClean [] t c = c
  take_lines-IsClean (line ∷ lines) t c =
      take_lines-IsClean lines (take_line js (event_of js line) t) (clean (event_of js line))
    where
      clean : (e : Option Value) → IsClean (take_line js e t)
      clean none = c
      clean (some v) =
          take_counts-IsClean (codes "input_tokens") (codes "output_tokens")
            (get (codes "message") v >>= get (codes "usage")) _
            (take_counts-IsClean (codes "input_tokens") (codes "output_tokens")
              (get (codes "usage") v) _
              (take_counts-IsClean (codes "prompt_tokens") (codes "completion_tokens")
                (get (codes "usage") v) t c))

  take_text-join :
      (cur : Option (ℕ × ℕ)) (text : Option Text)
      → take_text js cur text ≡ join cur (take_text js none text)
  unfolding take_text
  take_text-join none none = refl
  take_text-join (some a) none = refl
  take_text-join cur (some text) =
      let lines = split_on 10 text in
      added cur (take_lines js lines (accum_of cur)) (take_lines js lines nothing)
        (take_lines_lem lines (accum_of cur)) (take_lines-IsClean lines nothing (λ e. (refl, refl)))

  two_joins :
      (cur : Option (ℕ × ℕ)) (c d : Option Text)
      → take_text js (take_text js cur c) d ≡ take_text js (take_text js cur d) c
  two_joins cur c d =
      rw
        (
          take_text-join (take_text js cur c) d,
          take_text-join cur c,
          take_text-join (take_text js cur d) c,
          take_text-join cur d,
        )
        (join_comm cur (take_text js none c) (take_text js none d))

  joined_twice :
      (cur : Option (ℕ × ℕ)) (c : Option Text)
      → take_text js (take_text js cur c) c ≡ take_text js cur c
  joined_twice cur c =
      take_text-join (take_text js cur c) c
      ∙ (ap (λ a. join a (take_text js none c)) (take_text-join cur c)
          ∙ (join_twice cur (take_text js none c) ∙ sym (take_text-join cur c)))

  -- A chunk raises the accumulator to the greatest counts that it reports itself. So the order of
  -- the chunks of a stream does not matter, and neither does reading a chunk again.
  pub feed-join :
      (c d : Bytes) (cs : List Bytes) (cur : Option (ℕ × ℕ))
      → (extract_usage_from_sse js c cur ≡ join cur (extract_usage_from_sse js c none))
        × (feed js (c ∷ d ∷ cs) cur ≡ feed js (d ∷ c ∷ cs) cur)
        × (feed js (c ∷ c ∷ cs) cur ≡ feed js (c ∷ cs) cur)
  unfolding feed extract_usage_from_sse
  feed-join c d cs cur =
      let one = λ (x : Bytes) (a : Option (ℕ × ℕ)). take_text-join a (from_utf8 x) in
      (
        one c cur,
        ap (feed js cs) (two_joins cur (from_utf8 c) (from_utf8 d)),
        ap (feed js cs) (joined_twice cur (from_utf8 c)),
      )
