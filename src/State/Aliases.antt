-- ===== src/State/Aliases.antt =====
-- src/state.rs: what `resolve_alias` answers with.
use polyglotmesh.Prelude.{
  ℕ, Bool, false, ◌&&◌, ◌≡◌, refl, Option, none, some, List, [], ◌∷◌, ◌++◌, Text, text_eq, arith,
  Heap, if◌then◌else◌,
}
use polyglotmesh.Config.{ProviderKind, kind_eq, ModelListEntry, ModelAliasEntry}
use polyglotmesh.Upstream.{Upstream, is_usable}
use polyglotmesh.Registry.{Registry, get}
use polyglotmesh.State.{serves, resolve_listed, resolve_entries, entries_of, resolve_alias}

-- The upstream and the model name that each entry offers for a model: the list's, then the alias's.
abbrev pub listed_offers : Text → List ModelListEntry → List (Text × Text)
listed_offers model [] = []
listed_offers model (e ∷ es) =
    if text_eq e.model_name model
    then (e.upstream_id, elim e.upstream_model [ some m ↦ m | none ↦ model ])
      ∷ listed_offers model es
    else listed_offers model es

abbrev pub alias_offers : List ModelAliasEntry → List (Text × Text)
alias_offers [] = []
alias_offers (e ∷ es) = (e.upstream_id, e.upstream_model) ∷ alias_offers es

module _ {F : Type 0} where
  -- The upstream of this id is registered, of the kind and usable.
  abbrev pub is_candidate : ℕ → ProviderKind → Heap (Upstream F) → Registry → Text → Bool
  is_candidate now kind h r id = elim (get id r) [
    | none ↦ false
    | some p ↦ kind_eq (h.at p).cfg.kind kind && is_usable now (h.at p)
  ]

  served :
      (now : ℕ) (kind : ProviderKind) (h : Heap (Upstream F)) (r : Registry) (id : Text)
      → serves now kind h r id ≡ is_candidate now kind h r id
  unfolding serves
  served now kind h r id = refl

  -- The first offer whose upstream is a candidate.
  abbrev pub first_served :
      ℕ → ProviderKind → Heap (Upstream F) → Registry → List (Text × Text) → Option Text
  first_served now kind h r [] = none
  first_served now kind h r (o ∷ os) =
      if is_candidate now kind h r o.0 then some o.1 else first_served now kind h r os

  -- The offers of the list are tried before any later ones.
  listed_first :
      (now : ℕ) (model : Text) (kind : ProviderKind) (h : Heap (Upstream F)) (r : Registry)
      (es : List ModelListEntry) (later : List (Text × Text))
      → first_served now kind h r (listed_offers model es ++ later)
        ≡ (elim (resolve_listed now model kind h r es) [
          | some m ↦ some m
          | none ↦ first_served now kind h r later
        ])
  unfolding resolve_listed
  listed_first now model kind h r [] later = refl
  listed_first now model kind h r (e ∷ es) later =
      ground (arith, served now kind h r e.upstream_id, listed_first now model kind h r es later)

  entries_first :
      (now : ℕ) (kind : ProviderKind) (h : Heap (Upstream F)) (r : Registry)
      (es : List ModelAliasEntry)
      → first_served now kind h r (alias_offers es) ≡ resolve_entries now kind h r es
  unfolding resolve_entries
  entries_first now kind h r [] = refl
  entries_first now kind h r (e ∷ es) =
      ground (arith, served now kind h r e.upstream_id, entries_first now kind h r es)

  -- `resolve_alias` answers with the model name of the first entry whose upstream is registered, of
  -- the kind and usable, the model list before the alias map, and with none only if there is no such
  -- entry.
  pub resolve_alias-first_served :
      (now : ℕ) (model : Text) (kind : ProviderKind) (h : Heap (Upstream F)) (r : Registry)
      (model_list : List ModelListEntry) (aliases : List (Text × List ModelAliasEntry))
      → resolve_alias now model kind h r model_list aliases
        ≡ first_served now kind h r
            (listed_offers model model_list ++ alias_offers (entries_of model aliases))
  unfolding resolve_alias
  resolve_alias-first_served now model kind h r model_list aliases =
      let offers = alias_offers (entries_of model aliases) in
      ground (
        arith,
        listed_first now model kind h r model_list offers,
        entries_first now kind h r (entries_of model aliases),
      )
