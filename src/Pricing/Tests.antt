-- ===== src/Pricing/Tests.antt =====
-- Runs of the pricing of src/upstream/mod.rs.
use polyglotmesh.Prelude.{
  ℕ, ◌≡◌, refl, true, any, false, none, some, List, [], ◌∷◌, Text, codes, text_eq, cmp_text,
}
use polyglotmesh.Float.Fixed.{fixed}
use polyglotmesh.Config.{ModelCost}
use polyglotmesh.BTree
use polyglotmesh.Upstream.{from_config}
use polyglotmesh.Upstream.Tests.{idle}
use polyglotmesh.Pricing.{
  cost, cost_for, default_price_for, compute_cost, set_model_info, known_models,
}
use polyglotmesh.Pricing.Laws.{cost_for-set_model_info, known_models-any}

-- A million tokens each way for gpt-4o cost 12.50 USD.
builtin :
    cost_for fixed idle (some (codes "gpt-4o")) 1_000_000 1_000_000 ≡ (12_500_000_000_000, false)
unfolding cost_for default_price_for compute_cost from_config text_eq BTree.get
builtin = refl

abbrev cheap : List (Text × ModelCost ℕ)
unfolding cost
cheap = (codes "gpt-4o", cost (some 1_000_000) (some 1_000_000) none none none none) ∷ []

cost_for-set_model_info_example :
    cost_for fixed (set_model_info cheap true idle) (some (codes "gpt-4o")) 1_000_000 1_000_000
    ≡ (2_000_000_000_000, false)
unfolding BTree.get cmp_text compute_cost cost
cost_for-set_model_info_example =
    cost_for-set_model_info fixed idle cheap true (codes "gpt-4o") 1_000_000 1_000_000 (tt, tt)

known_models-any_example :
    any (λ n. text_eq n (codes "gpt-4o")) (known_models (set_model_info cheap true idle)) ≡ true
unfolding from_config set_model_info BTree.insert_all text_eq cost
known_models-any_example = (known_models-any (set_model_info cheap true idle) (codes "gpt-4o")).0
