-- ===== src/Accounts/Tests.antt =====
-- Runs of the model of the operations of src/state.rs on keys.
use polyglotmesh.Prelude.{ℕ, ◌≡◌, none, [], ◌∷◌, codes, text_eq, arith}
use polyglotmesh.Float.Fixed.{fixed}
use polyglotmesh.Auth.{KeyRecord}
use polyglotmesh.Auth.Tests.{chrono, hosts, limited}
use polyglotmesh.Storage.{Storage}
use polyglotmesh.Storage.Tally.{tally, IsTallied}
use polyglotmesh.Storage.Tests.{one_key}
use polyglotmesh.Accounts.{usage_event, record_key_usage}
use polyglotmesh.Accounts.Persisted.{record_key_usage-IsTallied}

abbrev team : KeyRecord ℕ ℕ
team = record limited { alias = codes "team" }

one_key-IsTallied : IsTallied one_key
unfolding IsTallied
one_key-IsTallied = (tt, tt)

abbrev after_request : Storage ℕ
after_request = (record_key_usage fixed chrono hosts 9 7 team 30 12 0 none none 200 one_key).1

record_key_usage-IsTallied_example :
    IsTallied after_request
    × (after_request.usage_events
        ≡ record { event = usage_event team 30 12 0 none none 200; at = 7 } ∷ [])
unfolding text_eq tally
record_key_usage-IsTallied_example =
    record_key_usage-IsTallied fixed chrono hosts 9 7 team 30 12 0 none none 200 one_key
      (omega arith) one_key-IsTallied
