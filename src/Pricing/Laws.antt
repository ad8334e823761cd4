-- ===== src/Pricing/Laws.antt =====
-- src/upstream/mod.rs: which price applies.
use polyglotmesh.Prelude.{
  ℕ, ◌≡◌, refl, ◌≢◌, Bool, true, false, none, some, List, [], ◌∷◌, ◌++◌, All, Text, arith,
  if◌then◌else◌, cmp_text, Bool-cases, inl, inr, ◌∙◌, ◌⊎◌, any, ◌||◌, map, is_le, text_eq,
  text_eq_iff, cmp_text-flip, cmp_text_trans,
}
use polyglotmesh.Sort.{IsOrder, IsSorted, any-sort_by, sort_by-IsSorted}
use polyglotmesh.Float.{Float}
use polyglotmesh.Config.{ModelCost}
use polyglotmesh.BTree
use polyglotmesh.BTree.{text_cmp, IsMap}
use polyglotmesh.Upstream.{Upstream}
use polyglotmesh.Pricing.{
  after_last, before_first, base_name, default_price_for, compute_cost, cost_for, set_model_info,
  push_missing, known_models,
}

-- The character does not occur in the text.
abbrev pub Lacks : ℕ → Text → Type 0
Lacks c s = All (λ x. x ≢ c) s

after_last-Lacks : (c : ℕ) (s : Text) → Lacks c s → after_last c s ≡ none
unfolding after_last
after_last-Lacks c [] a = refl
after_last-Lacks c (x ∷ s) a = ground (arith, after_last-Lacks c s a.1)

after_last-append : (c : ℕ) (p s : Text) → Lacks c s → after_last c (p ++ c ∷ s) ≡ some s
unfolding after_last
after_last-append c [] s a = ground (arith, after_last-Lacks c s a)
after_last-append c (x ∷ p) s a = rw (after_last-append c p s a)

before_first-append : (c : ℕ) (s q : Text) → Lacks c s → before_first c (s ++ c ∷ q) ≡ s
unfolding before_first
before_first-append c [] q a = ground arith
before_first-append c (x ∷ s) q a = ground (arith, before_first-append c s q a.1)

before_first-Lacks : (c : ℕ) (s : Text) → Lacks c s → before_first c s ≡ s
unfolding before_first
before_first-Lacks c [] a = refl
before_first-Lacks c (x ∷ s) a = ground (arith, before_first-Lacks c s a.1)

Lacks-append : (c : ℕ) (s q : Text) → Lacks c s → Lacks c q → Lacks c (s ++ q)
Lacks-append c [] q a b = b
Lacks-append c (x ∷ s) q a b = (a.0, Lacks-append c s q a.1 b)

base_name-Lacks : (s : Text) → Lacks b'/' s → Lacks b':' s → base_name s ≡ s
unfolding base_name
base_name-Lacks s a b = rw (after_last-Lacks b'/' s a) (before_first-Lacks b':' s b)

-- A provider in front, behind any slashes, and a suffix behind a colon do not change the name that
-- is priced, where the name has neither character and the suffix no slash.
base_name-affixes :
    (p s q : Text)
    → Lacks b'/' s
    → Lacks b':' s
    → Lacks b'/' q
    → base_name (p ++ b'/' ∷ (s ++ b':' ∷ q)) ≡ s
unfolding base_name
base_name-affixes p s q a b d =
    rw
      (after_last-append b'/' p (s ++ b':' ∷ q)
        (Lacks-append b'/' s (b':' ∷ q) a (ground arith, d)))
      (before_first-append b':' s q b)

-- Text order, for the sort of `known_models`.
text_total : (a b : Text) → (is_le (cmp_text a b) ≡ true) ⊎ (is_le (cmp_text b a) ≡ true)
text_total a b = ground (arith, cmp_text-flip a b)

text_order : IsOrder (λ a b. is_le (cmp_text a b))
text_order = record { total = text_total; trans = cmp_text_trans }

any-append : (p : Text → Bool) (xs ys : List Text) → any p (xs ++ ys) ≡ (any p xs || any p ys)
any-append p [] ys = refl
any-append p (x ∷ xs) ys = ground (arith, any-append p xs ys)

any-push_missing :
    (m : Text) (out ks : List Text)
    → any (λ n. text_eq n m) (push_missing out ks)
      ≡ (any (λ n. text_eq n m) out || any (λ n. text_eq n m) ks)
unfolding push_missing
any-push_missing m out [] = ground arith
any-push_missing m out (k ∷ ks) = elim (Bool-cases (any (λ n. text_eq n k) out)) [
  | inl e ↦ rw (e, push_missing) (any-push_missing m out ks ∙ ground (arith, text_eq_iff k m, e))
  | inr e ↦
      rw (e, push_missing)
        (any-push_missing m (out ++ k ∷ []) ks
          ∙ rw (any-append (λ n. text_eq n m) out (k ∷ [])) (ground arith))
]

module _ {F : Type 0} where
  -- `known_models` is sorted, and names exactly the models that are configured or priced.
  pub known_models-any :
      (u : Upstream F) (m : Text)
      → (any (λ n. text_eq n m) (known_models u) ≡ (
          any (λ n. text_eq n m) u.cfg.models
          || any (λ n. text_eq n m) (map (λ e. e.0) u.cfg.model_info)))
        × IsSorted (λ a b. is_le (cmp_text a b)) (known_models u)
  unfolding known_models
  known_models-any u m = (
    any-sort_by by_name (λ n. text_eq n m) listed
        ∙ any-push_missing m u.cfg.models (map (λ e. e.0) u.cfg.model_info),
    sort_by-IsSorted by_name text_order listed,
  )
    where
      by_name : Text → Text → Bool
      by_name a b = is_le (cmp_text a b)

      listed : List Text
      listed = push_missing u.cfg.models (map (λ e. e.0) u.cfg.model_info)

module _ (fl : Float) where
  open fl use {F, lit}

  -- The built-in price of a model is that of its bare name: a provider and a slash in front, or a
  -- colon and a suffix behind, change nothing, where the bare name has no slash and no colon and the
  -- suffix no slash.
  pub default_price_for-affixes :
      (p s q : Text)
      → Lacks b'/' s
      → Lacks b':' s
      → Lacks b'/' q
      → default_price_for fl (p ++ b'/' ∷ (s ++ b':' ∷ q)) ≡ default_price_for fl s
  unfolding default_price_for
  default_price_for-affixes p s q a b d = rw (base_name-affixes p s q a b d, base_name-Lacks s a b)

  -- The upstream without prices of its own.
  abbrev pub unpriced : Upstream F → Upstream F
  unpriced u = record u { cfg = record u.cfg { model_info = [] } }

  -- After `set_model_info` a model that the new prices name is charged by them. Any other is charged
  -- as before if the maps were merged, and by the built-in table alone if the map was replaced.
  pub cost_for-set_model_info :
      (u : Upstream F) (prices : List (Text × ModelCost F)) (merge : Bool) (m : Text) (i o : ℕ)
      → IsMap cmp_text text_cmp prices
      → cost_for fl (set_model_info prices merge u) (some m) i o
        ≡ (elim (BTree.get cmp_text m prices) [
          | some c ↦ (compute_cost fl c i o, false)
          | none ↦ cost_for fl (if merge then u else unpriced u) (some m) i o
        ])
  unfolding cost_for set_model_info BTree.get
  cost_for-set_model_info u prices true m i o h =
      ground (arith, BTree.get-insert_all cmp_text text_cmp m prices u.cfg.model_info h)
  cost_for-set_model_info u prices false m i o h = ground arith
