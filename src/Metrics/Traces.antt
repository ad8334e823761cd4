-- ===== src/Metrics/Traces.antt =====
-- src/metrics.rs: `TraceRing`, the last spans up to a capacity.
use polyglotmesh.Prelude.{
  ℕ, zero, suc, ◌-◌, ◌<◌, ◌≡◌, refl, ◌∙◌, ap, sym, true, false, Option, none, some, List, [], ◌∷◌,
  ◌++◌, Text, length, drop, leb, if◌then◌else◌, arith, Bool-cases, inl, inr, length-append,
  append_nil, append_cons,
}

pub record TraceSpan : Type 0 where
  pub name : Text
  pub trace_id : Text
  pub span_id : Text
  pub parent_span_id : Option Text
  pub kind : Text
  pub start_unix_nano : ℕ
  pub end_unix_nano : ℕ
  pub status_code : Text
  pub attributes : List (Text × Text)

-- `Vec::remove(0)`, which panics (`none`) on an empty vector.
abbrev pub remove_first : List TraceSpan → Option (List TraceSpan)
remove_first [] = none
remove_first (x ∷ xs) = some xs

-- `TraceRing::push`
unfoldable pub push : ℕ → TraceSpan → List TraceSpan → Option (List TraceSpan)
push capacity span g =
    if leb capacity (length g)
    then (elim (remove_first g) [ none ↦ none | some rest ↦ some (rest ++ (span ∷ [])) ])
    else some (g ++ (span ∷ []))

-- `TraceRing::snapshot`
unfoldable pub recent : ℕ → List TraceSpan → List TraceSpan
recent limit g = drop (length g - limit) g

-- Push the spans in order.
unfoldable pub push_all : ℕ → List TraceSpan → List TraceSpan → Option (List TraceSpan)
push_all capacity [] g = some g
push_all capacity (s ∷ ss) g = elim (push capacity s g) [
  | none ↦ none
  | some g' ↦ push_all capacity ss g'
]

drop-snoc :
    (k : ℕ) (xs : List TraceSpan) (y : TraceSpan)
    → k < length xs
    → (rest : List TraceSpan) × (remove_first (drop k xs) ≡ some rest)
      × (drop (suc k) (xs ++ (y ∷ [])) ≡ rest ++ (y ∷ []))
drop-snoc zero [] y h = absurd (omega (arith, h))
drop-snoc (suc k) [] y h = absurd (omega (arith, h))
drop-snoc zero (x ∷ xs) y h = (xs, refl, refl)
drop-snoc (suc k) (x ∷ xs) y h = drop-snoc k xs y (omega (arith, h))

drop_nil : (k : ℕ) → drop {A = TraceSpan} k [] ≡ []
drop_nil zero = refl
drop_nil (suc k) = refl

length-drop : (k : ℕ) (xs : List TraceSpan) → length (drop k xs) ≡ length xs - k
length-drop zero xs = omega arith
length-drop (suc k) [] = omega arith
length-drop (suc k) (x ∷ xs) = omega (arith, length-drop k xs)

push-recent :
    (capacity : ℕ) (xs : List TraceSpan) (y : TraceSpan)
    → 0 < capacity
    → push capacity y (recent capacity xs) ≡ some (recent capacity (xs ++ (y ∷ [])))
unfolding push recent
push-recent capacity xs y pos =
    let len = length-append xs (y ∷ []) in
    let cut = length-drop (length xs - capacity) xs in
    elim (Bool-cases (leb capacity (length xs))) [
      | inl le ↦
          let (rest, first, dropped) = drop-snoc (length xs - capacity) xs y (ground (arith, le)) in
          let full : leb capacity (length (drop (length xs - capacity) xs)) ≡ true =
            ground (arith, le, cut) in
          let one : length (xs ++ (y ∷ [])) - capacity ≡ suc (length xs - capacity) =
            ground (arith, le, len) in
          rw (full, first, one, dropped) refl
      | inr gt ↦
          let room : leb capacity (length (drop (length xs - capacity) xs)) ≡ false =
            ground (arith, gt, cut) in
          let all : length (xs ++ (y ∷ [])) - capacity ≡ 0 = ground (arith, gt, len) in
          let none_cut : length xs - capacity ≡ 0 = ground (arith, gt) in
          rw (room, all, none_cut) refl
    ]

push_all_lem :
    (capacity : ℕ) (xs ys : List TraceSpan)
    → 0 < capacity
    → push_all capacity ys (recent capacity xs) ≡ some (recent capacity (xs ++ ys))
unfolding push_all
push_all_lem capacity xs [] pos = rw (append_nil xs) refl
push_all_lem capacity xs (y ∷ ys) pos =
    rw (push_all, push-recent capacity xs y pos, append_cons xs y ys)
      (push_all_lem capacity (xs ++ (y ∷ [])) ys pos)

-- A ring of a positive capacity never panics, and holds the last spans that were pushed, up to its
-- capacity, in the order they came.
pub push_all-recent :
    (capacity : ℕ) (spans : List TraceSpan)
    → 0 < capacity
    → push_all capacity spans [] ≡ some (recent capacity spans)
unfolding recent
push_all-recent capacity spans pos =
    sym (ap (push_all capacity spans) (drop_nil (0 - capacity)))
    ∙ push_all_lem capacity [] spans pos
