-- ===== src/Metrics/Window.antt =====
-- src/metrics.rs: a rate ring against the log of its events, second by second.
use polyglotmesh.Prelude.{
  ℕ, zero, suc, ◌+◌, ◌-◌, ◌%◌, ◌≤◌, ◌<◌, ◌≡◌, refl, ◌∙◌, ap, sym, subst, true, false, List, [], ◌∷◌,
  length, replicate, get_or, set, min, ltb, leb, ◌==◌, if◌then◌else◌, saturating_add, length-set,
  length-replicate, get_or-set_self, get_or-set_ne, arith, Bool-cases, inl, inr,
}
use native.Mathlib.Nat.{mod-lt}
use polyglotmesh.Metrics.Rates.{RateRing, new_ring, advance, count_at, add, sum_back, sum_ring}
use polyglotmesh.Metrics.Buckets.{mod_ne, length-clear_from, kept, cleared_later}

-- The latest second that was counted, and the count of each second.
pub record Log : Type 0 where
  pub last : ℕ
  pub at : ℕ → ℕ

abbrev pub empty_log : Log
empty_log = record { last = 0; at = λ t. 0 }

-- An event earlier than the latest one is dropped.
abbrev pub log_add : ℕ → ℕ → Log → Log
log_add n now l =
    if ltb now l.last
    then l
    else record { last = now; at = λ t. if t == now then saturating_add (l.at t) n else l.at t }

-- The events of the `i` seconds up to a time.
unfoldable pub log_sum : ℕ → ℕ → Log → ℕ
log_sum now zero l = 0
log_sum now (suc i) l = saturating_add (log_sum now i l) (l.at (now - i))

-- The ring holds each second of its window in the second's bucket, and nothing is later.
unfoldable pub Refines : RateRing → Log → Type 0
Refines r l =
    (r.head ≡ l.last)
    × (length r.buckets ≡ r.window_s)
    × ((t : ℕ)
        → t ≤ r.head
        → r.head < t + r.window_s
        → get_or r.buckets (t % r.window_s) 0 ≡ l.at t)
    × ((t : ℕ) → r.head < t → l.at t ≡ 0)

-- The ring with its head moved on refines the same log, as seen at the new head.
unfoldable Moved : ℕ → RateRing → Log → Type 0
Moved now r l =
    (r.head ≡ now)
    × (length r.buckets ≡ r.window_s)
    × ((t : ℕ) → t ≤ now → now < t + r.window_s → get_or r.buckets (t % r.window_s) 0 ≡ l.at t)

advance-Moved :
    (now : ℕ) (r : RateRing) (l : Log)
    → 0 < r.window_s
    → r.head ≤ now
    → Refines r l
    → Moved now (advance now r) l
unfolding Moved Refines advance
advance-Moved now r l pos late (head, len, held, none_later) = elim (Bool-cases (ltb r.head now)) [
  | inl e ↦ rw e (
    refl,
    length-clear_from r.window_s (r.head + 1) (min (now - r.head) r.window_s) r.buckets ∙ len,
    λ t before within. elim (Bool-cases (leb t r.head)) [
      | inl old ↦
          kept r.window_s (r.head + 1) (min (now - r.head) r.window_s) t r.buckets
            (ground (arith, old)) (ground (arith, late, within))
          ∙ held t (ground (arith, old)) (omega (arith, late, within))
      | inr new ↦
          let after : r.head < t = ground (arith, new) in
          cleared_later r.window_s r.head now t r.buckets pos after before
          ∙ sym (none_later t after)
    ],
  )
  | inr e ↦
      let same : r.head ≡ now = ground (arith, e, late) in
      rw e (
        same,
        len,
        λ t before within. held t (omega (arith, same, before)) (omega (arith, same, within)),
      )
]

-- The count in the bucket of `now`.
count_at-Refines :
    (n now : ℕ) (r : RateRing) (l : Log)
    → 0 < r.window_s
    → Moved now r l
    → ((t : ℕ) → now < t → l.at t ≡ 0)
    → Refines
        (count_at n now r)
        (record { last = now; at = λ t. if t == now then saturating_add (l.at t) n else l.at t })
unfolding Moved Refines count_at
count_at-Refines n now r l pos (head, len, held) none_later = (
  head,
  length-set r.buckets (now % r.window_s) _ ∙ len,
  λ t before within. elim (Bool-cases (t == now)) [
    | inl e ↦
        let same : t ≡ now = ground (arith, e) in
        let full = held now (omega arith) (omega (arith, pos)) in
        let room = mod-lt now {m = r.window_s} pos in
        rw e (
          ap
            (λ x.
              get_or
                (set r.buckets (now % r.window_s)
                  (saturating_add (get_or r.buckets (now % r.window_s) 0) n))
                (x % r.window_s) 0)
            same
          ∙ (get_or-set_self r.buckets (now % r.window_s)
                (saturating_add (get_or r.buckets (now % r.window_s) 0) n) 0
                (omega (arith, len, room))
              ∙ (ap (λ x. saturating_add x n) full
                  ∙ ap (λ x. saturating_add (l.at x) n) (sym same))))
    | inr e ↦
        let less : t < now = ground (arith, e, before, head) in
        let there : t + (now - t) ≡ now = omega (arith, less) in
        let distinct =
          mod_ne t (now - t) r.window_s (omega (arith, less)) (omega (arith, within, head, less)) in
        rw e (
          get_or-set_ne r.buckets (now % r.window_s) (t % r.window_s) _ 0
            (λ same. ground (arith, same, distinct, ap (λ x. x % r.window_s) there))
          ∙ held t (omega (arith, less)) (omega (arith, within, head)))
  ],
  λ t after.
      let other : (t == now) ≡ false = ground (arith, after, head) in
      rw other (none_later t (omega (arith, after, head))),
)

advance-window : (now : ℕ) (r : RateRing) → (advance now r).window_s ≡ r.window_s
unfolding advance
advance-window now r = ground arith

add-Refines :
    (n now : ℕ) (r : RateRing) (l : Log)
    → 0 < r.window_s
    → Refines r l
    → Refines (add n now r) (log_add n now l)
unfolding add Refines
add-Refines n now r l pos (head, len, held, later) = elim (Bool-cases (ltb now r.head)) [
  | inl e ↦
      let e' : ltb now l.last ≡ true = ap (ltb now) (sym head) ∙ e in
      rw (e, e') (head, len, held, later)
  | inr e ↦
      let e' : ltb now l.last ≡ false = ap (ltb now) (sym head) ∙ e in
      let moved = advance-Moved now r l pos (ground (arith, e)) (head, len, held, later) in
      rw (e, e')
        (count_at-Refines n now (advance now r) l
          (subst (λ x. 0 < x) (sym (advance-window now r)) pos) moved
          (λ t after. later t (ground (arith, e, after))))
]

-- The ring and the log after events, each a count and its second, the last of the list first.
unfoldable pub ring_of : ℕ → List (ℕ × ℕ) → RateRing
unfolding add
ring_of w [] = new_ring w
ring_of w ((n, now) ∷ events) = add n now (ring_of w events)

unfoldable pub log_of : List (ℕ × ℕ) → Log
log_of [] = empty_log
log_of ((n, now) ∷ events) = log_add n now (log_of events)

get_or-replicate : (w i : ℕ) → get_or {A = ℕ} (replicate w 0) i 0 ≡ 0
get_or-replicate zero i = refl
get_or-replicate (suc w) zero = refl
get_or-replicate (suc w) (suc i) = get_or-replicate w i

new_ring-Refines : (w : ℕ) → Refines (new_ring w) empty_log
unfolding Refines
new_ring-Refines w =
    (refl, length-replicate w 0, λ t before within. get_or-replicate w (t % w), λ t after. refl)

window-add : (n now : ℕ) (r : RateRing) → (add n now r).window_s ≡ r.window_s
unfolding add advance count_at
window-add n now r = ground arith

ring_of-Refines :
    (w : ℕ) (events : List (ℕ × ℕ))
    → 0 < w
    → ((ring_of w events).window_s ≡ w) × Refines (ring_of w events) (log_of events)
unfolding ring_of log_of
ring_of-Refines w [] pos = (refl, new_ring-Refines w)
ring_of-Refines w ((n, now) ∷ events) pos =
    let (size, v) = ring_of-Refines w events pos in
    (
      window-add n now (ring_of w events) ∙ size,
      add-Refines n now (ring_of w events) (log_of events) (subst (λ x. 0 < x) (sym size) pos) v,
    )

sum_back-log_sum :
    (now i : ℕ) (r : RateRing) (l : Log)
    → r.head ≡ now
    → i ≤ r.window_s
    → r.window_s ≤ now
    → ((t : ℕ)
        → t ≤ r.head
        → r.head < t + r.window_s
        → get_or r.buckets (t % r.window_s) 0 ≡ l.at t)
    → sum_back r.window_s now i r.buckets ≡ log_sum now i l
unfolding sum_back log_sum
sum_back-log_sum now zero r l head room old held = refl
sum_back-log_sum now (suc i) r l head room old held =
    ap (λ x. saturating_add x (get_or r.buckets ((now - i) % r.window_s) 0))
      (sum_back-log_sum now i r l head (omega (arith, room)) old held)
    ∙ ap (saturating_add (log_sum now i l))
        (held (now - i) (omega (arith, head)) (omega (arith, head, room, old)))

-- Once the clock is past the length of the window, the sum of a ring at its latest event is the sum,
-- saturating at 2^64 - 1, of the events of the window's seconds up to then, where an event earlier than
-- the latest one before it is dropped.
pub sum_ring-log_sum :
    (w : ℕ) (events : List (ℕ × ℕ))
    → 0 < w
    → w ≤ (log_of events).last
    → sum_ring (log_of events).last (ring_of w events)
      ≡ log_sum (log_of events).last w (log_of events)
unfolding sum_ring Refines
sum_ring-log_sum w events pos old =
    let (size, (head, len, held, later)) = ring_of-Refines w events pos in
    let recent : ltb ((ring_of w events).head + (ring_of w events).window_s + 5)
          (log_of events).last
        ≡ false =
      ground (arith, head) in
    rw recent (
      sum_back-log_sum (log_of events).last (ring_of w events).window_s (ring_of w events)
        (log_of events) head (omega arith) (omega (arith, size, old)) held
      ∙ ap (λ x. log_sum (log_of events).last x (log_of events)) size)
