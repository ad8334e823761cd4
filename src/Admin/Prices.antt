-- ===== src/Admin/Prices.antt =====
-- src/admin/mod.rs: the handler that sets the prices of an upstream.
use polyglotmesh.Prelude.{
  ℕ, Bool, Option, none, some, List, Text, any, text_eq, length, cmp_text, if◌then◌else◌,
}
use polyglotmesh.BTree
use polyglotmesh.Config.{UpstreamConfig, ModelCost}
use polyglotmesh.Error.{upstream_not_found}
use polyglotmesh.Registry
use polyglotmesh.Pricing.{set_model_info}
use polyglotmesh.Storage.Keys.{upsert_upstream}
use polyglotmesh.AppState.{Host, Clock, unix, App, save_to_disk, or_same}
use polyglotmesh.Admin.{Reply, reply, failure}
use polyglotmesh.Admin.Upstreams.{with_upstreams, change_first, change_at, find_config}

pub record PricesBody (F : Type 0) : Type 0 where
  pub merge : Bool
  -- a map in key order
  pub prices : List (Text × ModelCost F)

-- How many prices a request sets, and how many there are afterwards.
pub record PricesSet : Type 0 where
  pub applied : ℕ
  pub total_prices : ℕ

module _ {F : Type 0} where
  -- The change of the configuration's own entry.
  abbrev pub price_config : PricesBody F → UpstreamConfig F → UpstreamConfig F
  price_config body c = record c {
    model_info =
        if body.merge then BTree.insert_all cmp_text body.prices c.model_info else body.prices;
  }

module _ (host : Host) where
  open host use {fl, upstream_json}
  open fl use {F}

  -- `storage.upsert_upstream` of the entry, if it is there.
  abbrev pub store_upstream : Clock → Option (UpstreamConfig F) → App host → App host
  store_upstream t none s = s
  store_upstream t (some c) s = record s {
    storage = or_same (upsert_upstream upstream_json (unix t) c s.storage) s.storage;
  }

  -- The entry of the configuration, after the upstream itself; without one, nothing else is done.
  abbrev pub price_entry : Clock → Text → PricesBody F → ℕ → App host → Reply PricesSet × App host
  price_entry t id body total s =
      if any (λ (c : UpstreamConfig F). text_eq c.id id) s.config.upstreams
      then (let s1 =
            with_upstreams host (change_first id (price_config body) s.config.upstreams) s in
          let s2 = (save_to_disk host s1).1 in
          (
            reply 200 (record { applied = length body.prices; total_prices = total }),
            store_upstream t (find_config id s2.config.upstreams) s2,
          ))
      else (failure upstream_not_found, s)

  -- `set_upstream_prices`
  unfoldable pub set_upstream_prices :
      Clock → Text → PricesBody F → App host → Reply PricesSet × App host
  unfolding set_model_info change_first save_to_disk upsert_upstream
  set_upstream_prices t id body s = elim (Registry.get id s.registry) [
    | none ↦ (failure upstream_not_found, s)
    | some p ↦
        let s1 = change_at host p (set_model_info body.prices body.merge) s in
        price_entry t id body (length (s1.upstreams.at p).cfg.model_info) s1
  ]
