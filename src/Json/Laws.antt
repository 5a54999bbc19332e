-- ===== src/Json/Laws.antt =====
-- What `d[k] = v` and `d.pop(k, None)` do to the other operations of a JSON object.
use pbxpulse_agent.Prelude.{String, ◌≡◌, refl, not, ◌&&◌, ◌||◌, ◌==◌, eq_iff, arith, if◌then◌else◌}
use pbxpulse_agent.Json
use pbxpulse_agent.Json.{Json, Fields, end, field}

pub get-put :
    (d : Fields) (k : String) (v : Json) (j : String)
    → Json.get (Json.put d k v) j ≡ (if k == j then v else Json.get d j)
unfolding Json.get Json.put
get-put end k v j = refl
get-put (field i w d) k v j = ground (arith, eq_iff i k, eq_iff i j, eq_iff k j, get-put d k v j)

pub has-put :
    (d : Fields) (k : String) (v : Json) (j : String)
    → Json.has (Json.put d k v) j ≡ (k == j || Json.has d j)
unfolding Json.has Json.put
has-put end k v j = refl
has-put (field i w d) k v j = ground (arith, eq_iff i k, eq_iff i j, eq_iff k j, has-put d k v j)

pub has-pop :
    (d : Fields) (k j : String) → Json.has (Json.pop d k) j ≡ (not (k == j) && Json.has d j)
unfolding Json.has Json.pop
has-pop end k j = ground arith
has-pop (field i w d) k j = ground (arith, eq_iff i k, eq_iff i j, eq_iff k j, has-pop d k j)
