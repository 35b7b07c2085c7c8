-- ===== src/Datastore/ConnectionInfo/Tests.antt =====
-- Two addresses.
use api_pack.Base.{◌≡◌, ◌≢◌, none, arith, refl, some, [], ◌∷◌}
use api_pack.Base.Text.{codes}
use api_pack.Datastore.ConnectionInfo.{construct, get_next_uri}
use api_pack.Datastore.ConnectionInfo.Rotation.{after_calls, at_uri, get_next_uri-after_calls}

two_hosts :
    construct
      (some (record { connections = some (codes "a" ∷ codes "b" ∷ []); fetch_size = some 7 }))
    ≡ at_uri 7 (codes "a") (codes "b" ∷ []) 0
unfolding construct
two_hosts = refl

get_next_uri-after_calls_example :
    ((get_next_uri (after_calls 4 (at_uri 7 (codes "a") (codes "b" ∷ []) 0))).1 ≡ some (codes "b"))
    × ((get_next_uri (after_calls 4 (at_uri 7 (codes "a") (codes "b" ∷ []) 0))).1 ≢ none)
get_next_uri-after_calls_example =
    get_next_uri-after_calls 7 (codes "a") (codes "b" ∷ []) 4 (omega arith)
