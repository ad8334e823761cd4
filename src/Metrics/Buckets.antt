-- ===== src/Metrics/Buckets.antt =====
-- src/metrics.rs: what clearing a range of seconds does to the buckets of a rate ring.
use polyglotmesh.Prelude.{
  ℕ, zero, suc, ◌+◌, ◌-◌, ◌%◌, ◌≤◌, ◌<◌, ◌≡◌, refl, ◌∙◌, ap, sym, subst, false, List, [], ◌∷◌,
  length, get_or, set, min, ltb, leb, ◌==◌, length-set, get_or-set_ne, arith, Bool-cases, inl, inr,
}
use native.Mathlib.Nat.{mod-add-mod, add-mod-mod, mod-eq_of_lt, mod-eq-sub-mod, mod-lt}
use polyglotmesh.Metrics.Rates.{clear_from}

-- Two seconds of one window have different buckets.
pub mod_ne : (t d w : ℕ) → 0 < d → d < w → (t % w == (t + d) % w) ≡ false
mod_ne t d w pos small =
    let below = mod-lt t {m = w} (omega arith) in
    let shift = mod-add-mod t w d in
    elim (Bool-cases (ltb (t % w + d) w)) [
      | inl e ↦
          ground (arith, below, shift, mod-eq_of_lt {n = t % w + d} {m = w} (ground (arith, e)))
      | inr e ↦ ground (
        arith,
        below,
        shift,
        mod-eq-sub-mod {n = t % w + d} {m = w} (ground (arith, e)),
        mod-eq_of_lt {n = t % w + d - w} {m = w} (omega (arith, below)),
      )
    ]

pub set_zero : (g : List ℕ) (i : ℕ) → get_or (set g i 0) i 0 ≡ 0
set_zero [] i = refl
set_zero (x ∷ g) zero = refl
set_zero (x ∷ g) (suc i) = set_zero g i

pub set_keeps_zero : (g : List ℕ) (i j : ℕ) → get_or g j 0 ≡ 0 → get_or (set g i 0) j 0 ≡ 0
set_keeps_zero [] i j e = refl
set_keeps_zero (x ∷ g) zero zero e = refl
set_keeps_zero (x ∷ g) zero (suc j) e = e
set_keeps_zero (x ∷ g) (suc i) zero e = e
set_keeps_zero (x ∷ g) (suc i) (suc j) e = set_keeps_zero g i j e

pub length-clear_from : (w first n : ℕ) (g : List ℕ) → length (clear_from w first n g) ≡ length g
unfolding clear_from
length-clear_from w first zero g = refl
length-clear_from w first (suc n) g =
    length-clear_from w (first + 1) n (set g (first % w) 0) ∙ length-set g (first % w) 0

pub clear_keeps_zero :
    (w first n : ℕ) (g : List ℕ) (j : ℕ)
    → get_or g j 0 ≡ 0
    → get_or (clear_from w first n g) j 0 ≡ 0
unfolding clear_from
clear_keeps_zero w first zero g j e = e
clear_keeps_zero w first (suc n) g j e =
    clear_keeps_zero w (first + 1) n (set g (first % w) 0) j (set_keeps_zero g (first % w) j e)

-- A bucket in the range is cleared.
pub cleared :
    (w first n s : ℕ) (g : List ℕ)
    → first ≤ s
    → s < first + n
    → get_or (clear_from w first n g) (s % w) 0 ≡ 0
unfolding clear_from
cleared w first zero s g from before = absurd (omega (arith, from, before))
cleared w first (suc n) s g from before = elim (Bool-cases (s == first)) [
  | inl e ↦
      let same : s ≡ first = ground (arith, e) in
      subst (λ x. get_or (clear_from w (first + 1) n (set g (first % w) 0)) (x % w) 0 ≡ 0)
        (sym same)
        (clear_keeps_zero w (first + 1) n (set g (first % w) 0) (first % w)
          (set_zero g (first % w)))
  | inr e ↦
      cleared w (first + 1) n s (set g (first % w) 0) (ground (arith, e, from))
        (omega (arith, before))
]

-- A second of the window before the range keeps its bucket.
pub kept :
    (w first n t : ℕ) (g : List ℕ)
    → t < first
    → first + n ≤ t + w
    → get_or (clear_from w first n g) (t % w) 0 ≡ get_or g (t % w) 0
unfolding clear_from
kept w first zero t g before within = refl
kept w first (suc n) t g before within =
    let same : t + (first - t) ≡ first = omega (arith, before) in
    let other = mod_ne t (first - t) w (omega (arith, before)) (omega (arith, within, before)) in
    kept w (first + 1) n t (set g (first % w) 0) (omega (arith, before)) (omega (arith, within))
    ∙ get_or-set_ne g (first % w) (t % w) 0 0 (λ e. ground (arith, e, other, ap (λ x. x % w) same))

-- Every bucket is cleared by a range as long as the ring.
pub cleared_all :
    (w first s : ℕ) (g : List ℕ) → 0 < w → first ≤ s → get_or (clear_from w first w g) (s % w) 0 ≡ 0
cleared_all w first s g pos from =
    let below = mod-lt (s - first) {m = w} pos in
    let wrap : (first + (s - first) % w) % w ≡ s % w =
      add-mod-mod first (s - first) w ∙ ap (λ x. x % w) (omega (arith, from)) in
    subst (λ j. get_or (clear_from w first w g) j 0 ≡ 0) wrap
      (cleared w first w (first + (s - first) % w) g (omega arith) (omega (arith, below)))

-- A second after the head is cleared.
pub cleared_later :
    (w head now t : ℕ) (g : List ℕ)
    → 0 < w
    → head < t
    → t ≤ now
    → get_or (clear_from w (head + 1) (min (now - head) w) g) (t % w) 0 ≡ 0
cleared_later w head now t g pos after before = elim (Bool-cases (leb (now - head) w)) [
  | inl e ↦
      cleared w (head + 1) (min (now - head) w) t g (omega (arith, after))
        (ground (arith, e, before, after))
  | inr e ↦
      let whole : w ≡ min (now - head) w = ground (arith, e) in
      subst (λ n. get_or (clear_from w (head + 1) n g) (t % w) 0 ≡ 0) whole
        (cleared_all w (head + 1) t g pos (omega (arith, after)))
]
