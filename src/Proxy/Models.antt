-- ===== src/Proxy/Models.antt =====
-- src/proxy/mod.rs: which upstreams and which model names a request can have.
use polyglotmesh.Prelude.{
  ℕ, ◌≡◌, refl, Bool, false, not, ◌&&◌, ◌||◌, Option, none, some, List, [], ◌∷◌, ◌++◌, map, filter,
  any, is_empty, append_nil, append_cons, Text, text_eq, cmp_text, if◌then◌else◌, Heap, arith, ◌==◌,
}
use polyglotmesh.BTree
use polyglotmesh.Config.{openai, ModelListEntry, ModelAliasEntry}
use polyglotmesh.Upstream.{Upstream, is_usable}
use polyglotmesh.Registry.{Registry, for_provider}

module _ {F : Type 0} (h : Heap (Upstream F)) where
  -- The upstream names its models, and names this one.
  abbrev pub restricts : ℕ → Bool
  restricts p = not (is_empty (h.at p).cfg.models)

  abbrev pub offers : Text → ℕ → Bool
  offers model p = any (λ m. text_eq m model) (h.at p).cfg.models

  -- The loop, with the upstreams that match so far and whether any names its models.
  unfoldable pub filter_from : Text → List ℕ → List ℕ → Bool → List ℕ × Bool
  filter_from model [] matched any_filter = (matched, any_filter)
  filter_from model (p ∷ ps) matched any_filter =
      filter_from model ps (if restricts p && offers model p then matched ++ (p ∷ []) else matched)
        (any_filter || restricts p)

  -- `filter_upstreams_for_model`
  unfoldable pub filter_upstreams_for_model : List ℕ → Option Text → List ℕ
  unfolding filter_from
  filter_upstreams_for_model ps none = ps
  filter_upstreams_for_model ps (some model) =
      let (matched, any_filter) = filter_from model ps [] false in
      if any_filter then matched else ps

  offers_restricts :
      (model : Text) (models : List Text)
      → any (λ m. text_eq m model) models
        ≡ (not (is_empty models) && any (λ m. text_eq m model) models)
  offers_restricts model [] = refl
  offers_restricts model (m ∷ models) = refl

  filter_from_lem :
      (model : Text) (ps matched : List ℕ) (b : Bool)
      → filter_from model ps matched b
        ≡ (matched ++ filter (offers model) ps, b || any restricts ps)
  unfolding filter_from
  filter_from_lem model [] matched b = ground (arith, append_nil matched)
  filter_from_lem model (p ∷ ps) matched b = ground (
    arith,
    offers_restricts model (h.at p).cfg.models,
    filter_from_lem model ps (matched ++ (p ∷ [])) (b || restricts p),
    filter_from_lem model ps matched (b || restricts p),
    append_cons matched p (filter (offers model) ps),
  )

  -- A request that names a model is offered to the upstreams that list it, in their order, if any
  -- upstream lists models, so that one without a list gets nothing then; otherwise, and without a
  -- model, to all.
  pub filter_upstreams-offers :
      (ps : List ℕ) (model : Text)
      → (filter_upstreams_for_model ps (some model)
          ≡ (if any restricts ps then filter (offers model) ps else ps))
        × (filter_upstreams_for_model ps none ≡ ps)
  unfolding filter_upstreams_for_model
  filter_upstreams-offers ps model = (rw (filter_from_lem model ps [] false) refl, refl)

abbrev pub Mark : Type 0
Mark = Unit

-- A `BTreeSet<String>` is a map to nothing.
abbrev pub insert_all : List Text → List (Text × Mark) → List (Text × Mark)
insert_all [] s = s
insert_all (n ∷ ns) s = insert_all ns (BTree.insert cmp_text n tt s)

module _ {F : Type 0} where
  -- `openai_get_model`: whether the model is found.
  unfoldable pub openai_get_model : Heap (Upstream F) → Registry → Text → Bool
  openai_get_model h r model = any (offers h model) (for_provider openai h r)

  abbrev pub models_at : Heap (Upstream F) → List ℕ → List Text
  models_at h [] = []
  models_at h (p ∷ ps) = (h.at p).cfg.models ++ models_at h ps

  -- `openai_list_models`: the ids that it answers with.
  unfoldable pub openai_list_models :
      Heap (Upstream F)
      → Registry
      → List ModelListEntry
      → List (Text × List ModelAliasEntry)
      → List Text
  openai_list_models h r model_list aliases =
      map (λ e. e.0)
        (insert_all
          (models_at h (for_provider openai h r)
            ++ (map (λ e. ModelListEntry.model_name e) model_list ++ map (λ e. e.0) aliases))
          [])

  -- `health`: the ids of the critical upstreams that are down, and the status of the answer.
  unfoldable pub critical_down : ℕ → Heap (Upstream F) → List ℕ → List Text
  critical_down now h ps =
      map (λ p. (h.at p).cfg.id)
        (filter (λ p. (h.at p).cfg.critical && not (is_usable now (h.at p))) ps)

  unfoldable pub health_status : ℕ → Option ℕ → Heap (Upstream F) → List ℕ → ℕ × List Text
  unfolding critical_down
  health_status now strict h ups =
      let down = critical_down now h ups in
      (
        if not (elim strict [ some n ↦ n == 1 | none ↦ false ]) || is_empty down then 200 else 503,
        down,
      )
