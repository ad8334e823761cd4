-- ===== src/Pricing.antt =====
-- src/upstream/mod.rs: the price of a request, from the upstream's own map or the built-in table.
pub mod Laws
mod Tests
use polyglotmesh.Prelude.{
  ℕ, Bool, true, false, Option, none, some, List, [], ◌∷◌, ◌++◌, map, any, Text, codes, text_eq,
  ◌==◌, if◌then◌else◌, is_le, cmp_text,
}
use polyglotmesh.Float.{Float}
use polyglotmesh.Config.{ModelCost}
use polyglotmesh.BTree
use polyglotmesh.Sort.{sort_by}
use polyglotmesh.Upstream.{Upstream}

-- `rsplit_once(c)`, its right part: what follows the last `c`.
pub after_last : ℕ → Text → Option Text
after_last c [] = none
after_last c (x ∷ s) = elim (after_last c s) [
  | some r ↦ some r
  | none ↦ if x == c then some s else none
]

-- `split(c).next()`: what stands before the first `c`.
unfoldable pub before_first : ℕ → Text → Text
before_first c [] = []
before_first c (x ∷ s) = if x == c then [] else x ∷ before_first c s

-- `model.rsplit_once('/')` and then `split(':').next()`, as in `default_price_for`.
pub base_name : Text → Text
unfolding after_last before_first
base_name model = before_first b':' (elim (after_last b'/' model) [ some r ↦ r | none ↦ model ])

abbrev pub or_else {ℓ} : {A : Type ℓ} → Option A → A → A
or_else none d = d
or_else (some a) d = a

-- `for k in model_info.keys() { if !out.contains(k) { out.push(k) } }`
push_missing : List Text → List Text → List Text
push_missing out [] = out
push_missing out (k ∷ ks) =
    push_missing (if any (λ m. text_eq m k) out then out else out ++ k ∷ []) ks

module _ {F : Type 0} where
  cost : Option F → Option F → Option ℕ → Option ℕ → Option F → Option F → ModelCost F
  cost i o mi mo r w = record {
    input_cost_per_token = i;
    output_cost_per_token = o;
    max_input_tokens = mi;
    max_output_tokens = mo;
    cache_read_input_token_cost = r;
    cache_creation_input_token_cost = w;
  }

  -- The first arm of the table that names the model.
  pub find_price : Text → List (List Text × ModelCost F) → Option (ModelCost F)
  find_price m [] = none
  find_price m ((names, c) ∷ rows) =
      if any (λ n. text_eq n m) names then some c else find_price m rows

  -- `Upstream::set_model_info`
  unfoldable pub set_model_info : List (Text × ModelCost F) → Bool → Upstream F → Upstream F
  set_model_info prices merge u = record u {
    cfg = record u.cfg {
      model_info = if merge then BTree.insert_all cmp_text prices u.cfg.model_info else prices;
    };
  }

  -- `Upstream::known_models`
  pub known_models : Upstream F → List Text
  unfolding push_missing sort_by
  known_models u =
      sort_by (λ a b. is_le (cmp_text a b))
        (push_missing u.cfg.models (map (λ e. e.0) u.cfg.model_info))

module _ (fl : Float) where
  open fl use {F, lit, add, mul, of_nat}

  -- The table of `default_price_for`: USD per token.
  pub price_table : List (List Text × ModelCost F)
  unfolding cost
  price_table =
      (
        codes "gpt-4o" ∷ codes "gpt-4o-2024-08-06" ∷ codes "gpt-4o-2024-05-13" ∷ [],
        cost (some (lit 25 7)) (some (lit 10 6)) (some 128000) (some 16384) (some (lit 125 8)) none,
      )
      ∷ (
        codes "gpt-4o-mini" ∷ codes "gpt-4o-mini-2024-07-18" ∷ [],
        cost (some (lit 15 8)) (some (lit 6 7)) (some 128000) (some 16384) (some (lit 75 9)) none,
      )
      ∷ (
        codes "gpt-4-turbo" ∷ codes "gpt-4-turbo-2024-04-09" ∷ [],
        cost (some (lit 10 6)) (some (lit 30 6)) (some 128000) (some 4096) none none,
      )
      ∷ (
        codes "gpt-3.5-turbo" ∷ codes "gpt-3.5-turbo-0125" ∷ [],
        cost (some (lit 5 7)) (some (lit 15 7)) (some 16385) (some 4096) none none,
      )
      ∷ (
        codes "o1" ∷ codes "o1-2024-12-17" ∷ [],
        cost (some (lit 15 6)) (some (lit 60 6)) (some 200000) (some 100000) (some (lit 75 7)) none,
      )
      ∷ (
        codes "o1-mini" ∷ codes "o1-mini-2024-09-12" ∷ [],
        cost (some (lit 3 6)) (some (lit 12 6)) (some 128000) (some 65536) (some (lit 15 7)) none,
      )
      ∷ (
        codes "o3-mini" ∷ codes "o3-mini-2025-01-31" ∷ [],
        cost (some (lit 11 7)) (some (lit 44 7)) (some 200000) (some 100000) (some (lit 55 8)) none,
      )
      ∷ (
        codes "claude-3-5-sonnet-20241022" ∷ codes "claude-3-5-sonnet-latest" ∷ [],
        cost (some (lit 3 6)) (some (lit 15 6)) (some 200000) (some 8192) (some (lit 3 7))
            (some (lit 375 8)),
      )
      ∷ (
        codes "claude-3-5-haiku-20241022" ∷ codes "claude-3-5-haiku-latest" ∷ [],
        cost (some (lit 8 7)) (some (lit 4 6)) (some 200000) (some 8192) (some (lit 8 8))
            (some (lit 1 6)),
      )
      ∷ (
        codes "claude-3-opus-20240229" ∷ [],
        cost (some (lit 15 6)) (some (lit 75 6)) (some 200000) (some 4096) (some (lit 15 7))
            (some (lit 1875 8)),
      )
      ∷ (
        codes "claude-3-sonnet-20240229" ∷ [],
        cost (some (lit 3 6)) (some (lit 15 6)) (some 200000) (some 4096) (some (lit 3 7))
            (some (lit 375 8)),
      )
      ∷ (
        codes "claude-3-haiku-20240307" ∷ [],
        cost (some (lit 25 8)) (some (lit 125 8)) (some 200000) (some 4096) (some (lit 3 8))
            (some (lit 3 7)),
      )
      ∷ []

  -- `default_price_for`
  pub default_price_for : Text → Option (ModelCost F)
  unfolding base_name find_price price_table
  default_price_for model = find_price (base_name model) price_table

  -- `compute_cost`
  pub compute_cost : ModelCost F → ℕ → ℕ → F
  compute_cost c input output =
      add (mul (or_else c.input_cost_per_token (lit 0 0)) (of_nat input))
        (mul (or_else c.output_cost_per_token (lit 0 0)) (of_nat output))

  -- `Upstream::cost_for`: the cost, and whether the price is unknown.
  unfoldable pub cost_for : Upstream F → Option Text → ℕ → ℕ → F × Bool
  cost_for u model input output =
      let name = or_else model [] in
      elim (BTree.get cmp_text name u.cfg.model_info) [
        | some c ↦ (compute_cost c input output, false)
        | none ↦ elim (default_price_for name) [
          | some c ↦ (compute_cost c input output, false)
          | none ↦ (lit 0 0, true)
        ]
      ]
