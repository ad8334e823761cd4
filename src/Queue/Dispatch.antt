-- ===== src/Queue/Dispatch.antt =====
-- src/queue/mod.rs: which upstream `try_acquire` chooses, and what the tries leave behind.
use polyglotmesh.Prelude.{
  Heap, write, ℕ, ◌+◌, ◌≡◌, refl, ◌≢◌, Bool, true, false, Option, none, some, List, [], ◌∷◌, ◌++◌,
  All, arith, ◌==◌, if◌then◌else◌, Bool-cases, inl, inr, ap, subst,
}
use polyglotmesh.Float.{Float}
use polyglotmesh.Upstream.{Upstream, try_acquire}
use polyglotmesh.Upstream.Slots.{IsBounded, slots, try_acquire-in_flight}
use polyglotmesh.Queue.{try_first}

module _ (fl : Float) where
  open fl use {F}

  -- One is taken, if the request was sent to `q`.
  abbrev pub gained : Option ℕ → ℕ → Upstream F → ℕ
  gained none q u = 0
  gained (some p) q u = if p == q then slots u 1 else 0

  -- What the tries do to the upstream at `q`: its configuration stays, its slots stay bounded, and
  -- one more is taken exactly where the request was sent to it.
  pub record Gains (h h' : Heap (Upstream F)) (got : Option ℕ) (q : ℕ) : Type 0 where
    pub stays_bounded : IsBounded (h'.at q)
    pub same_cfg : (h'.at q).cfg ≡ (h.at q).cfg
    pub one_more : (h'.at q).in_flight ≡ (h.at q).in_flight + gained got q (h.at q)

  abbrev answer : Bool → ℕ → Option ℕ
  answer true p = some p
  answer false p = none

  write-Gains :
      (h : Heap (Upstream F)) (p q now : ℕ)
      → IsBounded (h.at q)
      → let (taken, u) = try_acquire fl now (h.at p) in Gains h (write h p u) (answer taken p) q
  write-Gains h p q now b =
      let t = try_acquire-in_flight fl now (h.at q) b in
      record {
        stays_bounded = ground (arith, t);
        same_cfg = ground (arith, t);
        one_more = ground (arith, t);
      }

  then_Gains :
      (h h' h'' : Heap (Upstream F)) (got : Option ℕ) (q : ℕ)
      → Gains h h' none q
      → Gains h' h'' got q
      → Gains h h'' got q
  then_Gains h h' h'' none q a b = ground (arith, ap (λ c. c.max_concurrency) a.same_cfg)
  then_Gains h h' h'' (some p) q a b = ground (arith, ap (λ c. c.max_concurrency) a.same_cfg)

  -- A pass over the upstreams takes one slot of the upstream that it answers with and none of any
  -- other, keeps every counter within its limit, and changes no configuration.
  pub try_first-Gains :
      (ps : List ℕ) (now : ℕ) (h : Heap (Upstream F))
      → ((q : ℕ) → IsBounded (h.at q))
      → let (got, h') = try_first fl ps now h in (q : ℕ) → Gains h h' got q
  unfolding try_first
  try_first-Gains [] now h b q = record {
    stays_bounded = b q;
    same_cfg = refl;
    one_more = omega arith;
  }
  try_first-Gains (p ∷ ps) now h b q = elim (Bool-cases (try_acquire fl now (h.at p)).0) [
    | inl e ↦ rw (e, try_first) (one e)
    | inr e ↦
        rw (e, try_first)
          (then_Gains h (write h p (try_acquire fl now (h.at p)).1) _ _ q (one e) (
            try_first-Gains ps now (write h p (try_acquire fl now (h.at p)).1)
              (λ r. (write-Gains h p r now (b r)).stays_bounded) q))
  ]
    where
      one :
          {t : Bool}
          → (try_acquire fl now (h.at p)).0 ≡ t
          → Gains h (write h p (try_acquire fl now (h.at p)).1) (answer t p) q
      one e =
          subst (λ t. Gains h (write h p (try_acquire fl now (h.at p)).1) (answer t p) q) e
            (write-Gains h p q now (b q))

  -- The upstream at `q` would not admit the request.
  abbrev pub Refuses : Heap (Upstream F) → ℕ → ℕ → Type 0
  Refuses h now q = (try_acquire fl now (h.at q)).0 ≡ false

  -- What a pass over `ps` means by its answer: all refuse, or all before the chosen one do.
  pub data Chosen (ps : List ℕ) (now : ℕ) (h : Heap (Upstream F))
      : Option ℕ → Heap (Upstream F) → Type 0 where
    nobody : {h' : Heap (Upstream F)} → All (Refuses h now) ps → Chosen ps now h none h'
    first :
        {p : ℕ} {h' : Heap (Upstream F)} (pre post : List ℕ)
        → ps ≡ pre ++ p ∷ post
        → All (Refuses h now) pre
        → try_acquire fl now (h.at p) ≡ (true, h'.at p)
        → Chosen ps now h (some p) h'

  -- No address stands twice.
  abbrev pub IsDistinct : List ℕ → Type 0
  IsDistinct [] = Unit
  IsDistinct (p ∷ ps) = All (λ q. q ≢ p) ps × IsDistinct ps

  Refuses-write :
      (h : Heap (Upstream F)) (now p : ℕ) (u : Upstream F) (qs : List ℕ)
      → All (λ q. q ≢ p) qs
      → All (Refuses (write h p u) now) qs
      → All (Refuses h now) qs
  Refuses-write h now p u [] ne a = tt
  Refuses-write h now p u (q ∷ qs) ne a =
      (ground (arith, a.0, ne.0), Refuses-write h now p u qs ne.1 a.1)

  middle :
      (P : ℕ → Type 0) (pre : List ℕ) (x : ℕ) (post : List ℕ)
      → All P (pre ++ x ∷ post)
      → P x × All P pre
  middle P [] x post a = (a.0, tt)
  middle P (y ∷ pre) x post a = let m = middle P pre x post a.1 in (m.0, (a.0, m.1))

  after_refusal :
      (h h' : Heap (Upstream F)) (now p : ℕ) (u : Upstream F) (ps : List ℕ) (got : Option ℕ)
      → Refuses h now p
      → All (λ q. q ≢ p) ps
      → Chosen ps now (write h p u) got h'
      → Chosen (p ∷ ps) now h got h'
  after_refusal h h' now p u ps none e ne (nobody a) = nobody (e, Refuses-write h now p u ps ne a)
  after_refusal h h' now p u ps (some c) e ne (first pre post split a admits) =
      let m = middle (λ q. q ≢ p) pre c post (subst (All (λ q. q ≢ p)) split ne) in
      first (p ∷ pre) post (ap (λ l. p ∷ l) split) (e, Refuses-write h now p u pre m.1 a)
        (ground (arith, admits, m.0))

  -- Strict priority: where no upstream stands twice, a pass answers with the first upstream of the
  -- list that admits the request as it is, and leaves that upstream as its admission did; it answers
  -- with none only if every one refuses.
  pub try_first-Chosen :
      (ps : List ℕ) (now : ℕ) (h : Heap (Upstream F))
      → IsDistinct ps
      → let (got, h') = try_first fl ps now h in Chosen ps now h got h'
  unfolding try_first
  try_first-Chosen [] now h d = nobody tt
  try_first-Chosen (p ∷ ps) now h d = elim (Bool-cases (try_acquire fl now (h.at p)).0) [
    | inl e ↦ rw (e, try_first) (first [] ps refl tt (ground arith))
    | inr e ↦
        rw (e, try_first)
          (after_refusal h _ now p (try_acquire fl now (h.at p)).1 ps _ e d.0
            (try_first-Chosen ps now (write h p (try_acquire fl now (h.at p)).1) d.1))
  ]
