-- ===== src/Policies.antt =====
-- broker/lib/cache_policy_manager.py and broker/lib/origin_request_policy_manager.py
pub mod Listing
use external_domain_broker.Prelude.{
  ℕ, zero, suc, String, string_eq, ◌==◌, Bool, Option, none, some, List, [], ◌∷◌, ◌++◌, Result, ok,
  err, ◌>>=◌, key_error, out_of_fuel, or_raise, elem, lookup, if◌then◌else◌,
}
use external_domain_broker.Env.{Env, Page, PolicyItem}

-- The ids of the policies, by name.
abbrev pub PolicyMap : Type 0
PolicyMap = List (String × String)

-- `is_cache_policy_allowed` and `is_origin_request_policy_allowed`
unfoldable pub is_policy_allowed : String → List String → Bool
is_policy_allowed name allowed = elem name allowed

-- `d[k] = v`
unfoldable pub assign : String → String → PolicyMap → PolicyMap
assign k v [] = (k, v) ∷ []
assign k v ((j, w) ∷ rest) =
    let later = assign k v rest in if j == k then (j, v) ∷ rest else (j, w) ∷ later

-- The loop over the pages of a listing.
unfoldable pub list_pages :
    ℕ → (Option String → Result Page) → Option String → Result (List PolicyItem)
list_pages zero list marker = err out_of_fuel
list_pages (suc fuel) list marker = do
  response ← list marker
  elim response.next_marker [
    | none ↦ ok response.page_items
    | some next ↦ do rest ← list_pages fuel list (some next); ok (response.page_items ++ rest)
  ]

-- The loop over the items; an item that is no policy, or is not allowed, is passed over.
unfoldable pub collect : List String → List PolicyItem → PolicyMap → PolicyMap
unfolding assign is_policy_allowed
collect allowed [] found = found
collect allowed (none ∷ rest) found = collect allowed rest found
collect allowed (some (name, id) ∷ rest) found =
    collect allowed rest (if is_policy_allowed name allowed then assign name id found else found)

unfoldable pub list_policies : ℕ → (Option String → Result Page) → List String → Result PolicyMap
unfolding list_pages collect
list_policies fuel list allowed = do
  policies ← list_pages fuel list none
  ok (collect allowed policies [])

-- `managed_policies`: the map is fetched once, and kept.
unfoldable pub managed_policies :
    Result PolicyMap → Option PolicyMap → Result PolicyMap × Option PolicyMap
managed_policies fetched (some kept) = (ok kept, some kept)
managed_policies (ok fetched) none = (ok fetched, some fetched)
managed_policies (err e) none = (err e, none)

-- `get_managed_policy_id` on the map.
unfoldable pub policy_id : String → PolicyMap → Result String
policy_id policy policies = or_raise key_error (lookup policy policies)

unfoldable pub cache_policy_id : Env → String → Result String
unfolding list_policies policy_id
cache_policy_id env policy = do
  policies ← list_policies env.fuel env.list_cache_policies env.allowed_cache_policies
  policy_id policy policies

unfoldable pub origin_request_policy_id : Env → String → Result String
unfolding list_policies policy_id
origin_request_policy_id env policy = do
  policies ←
      list_policies env.fuel env.list_origin_request_policies env.allowed_origin_request_policies
  policy_id policy policies
