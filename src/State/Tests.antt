-- ===== src/State/Tests.antt =====
-- Runs of src/state.rs.
use polyglotmesh.Prelude.{ℕ, ◌≡◌, [], ◌∷◌, none, some, codes, Heap, text_eq, cmp_text}
use polyglotmesh.Config.{openai}
use polyglotmesh.BTree
use polyglotmesh.Registry.{Registry, get, lookup}
use polyglotmesh.Upstream.Tests.{idle}
use polyglotmesh.Upstream.{Upstream, is_usable, from_config}
use polyglotmesh.State.{resolve_alias, serves}
use polyglotmesh.State.Aliases.{resolve_alias-first_served}

abbrev one : Heap (Upstream ℕ)
one = record { at = λ p. idle; next = 1 }

abbrev registered : Registry
registered = record { upstreams = (codes "u", 0) ∷ []; by_provider = 0 ∷ [] }

-- The first entry names an upstream that is not registered; the alias map answers.
resolve_alias-first_served_example :
    resolve_alias 0
      (codes "fast")
      openai
      one
      registered
      (record { model_name = codes "fast"; upstream_id = codes "gone"; upstream_model = none } ∷ [])
      ((codes "fast", record { upstream_id = codes "u"; upstream_model = codes "gpt-4o" } ∷ [])
        ∷ [])
    ≡ some (codes "gpt-4o")
unfolding serves resolve_alias text_eq cmp_text get lookup is_usable BTree.get from_config
resolve_alias-first_served_example =
    resolve_alias-first_served 0 (codes "fast") openai one registered
      (record { model_name = codes "fast"; upstream_id = codes "gone"; upstream_model = none } ∷ [])
      ((codes "fast", record { upstream_id = codes "u"; upstream_model = codes "gpt-4o" } ∷ [])
        ∷ [])
