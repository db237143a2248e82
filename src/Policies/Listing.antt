-- ===== src/Policies/Listing.antt =====
-- What the map of managed policies holds.
use external_domain_broker.Prelude.{
  String, string_eq, ◌==◌, ◌≡◌, Option, none, some, List, [], ◌∷◌, lookup, arith, eq_iff,
  if◌then◌else◌,
}
use external_domain_broker.Env.{PolicyItem}
use external_domain_broker.Policies.{PolicyMap, assign, collect, is_policy_allowed}

lookup-assign :
    (p k v : String) (m : PolicyMap)
    → lookup p (assign k v m) ≡ (if k == p then some v else lookup p m)
unfolding lookup assign
lookup-assign p k v [] = ground (arith, eq_iff k p)
lookup-assign p k v ((j, w) ∷ rest) =
    ground (arith, lookup-assign p k v rest, eq_iff k p, eq_iff j k, eq_iff j p)

-- The id of the last item with a name, or else `found`.
unfoldable pub last_id : String → List PolicyItem → Option String → Option String
last_id p [] found = found
last_id p (none ∷ rest) found = last_id p rest found
last_id p (some (name, id) ∷ rest) found = last_id p rest (if name == p then some id else found)

-- The map that the loop over the listed items makes has, for an allowed name, the id of the last
-- item with that name, and what was there before if there is no such item; for any other name, it
-- has what was there before.
pub lookup-collect :
    (allowed : List String) (items : List PolicyItem) (found : PolicyMap) (p : String)
    → lookup p (collect allowed items found)
      ≡ (if is_policy_allowed p allowed then last_id p items (lookup p found) else lookup p found)
unfolding collect last_id is_policy_allowed
lookup-collect allowed [] found p = ground arith
lookup-collect allowed (none ∷ rest) found p = lookup-collect allowed rest found p
lookup-collect allowed (some (name, id) ∷ rest) found p = ground (
  arith,
  lookup-collect allowed rest found p,
  lookup-collect allowed rest (assign name id found) p,
  lookup-assign p name id found,
  eq_iff name p,
)
