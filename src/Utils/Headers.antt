-- ===== src/Utils/Headers.antt =====
-- `parse_header_options`, `normalize_header_list` and `parse_cookie_options`.
use external_domain_broker.Prelude.{String, string_eq, ◌≡◌, List, map, arith, elem}
use external_domain_broker.Env.{Env}
use external_domain_broker.Text.Order.{
  unique, IsAscending, sorted-unique-IsAscending, elem-sorted, elem-unique,
}
use external_domain_broker.Utils.Parse.{normalize_header_list}

-- The normalised headers are in ascending order, so none stands twice, and they are the headers of
-- the list in upper case.
pub normalize_header_list_lem :
    (env : Env) (headers : List String) (h : String)
    → IsAscending (normalize_header_list env headers)
      × (elem h (normalize_header_list env headers) ≡ elem h (map env.upper headers))
unfolding normalize_header_list
normalize_header_list_lem env headers h = (
  sorted-unique-IsAscending (map env.upper headers),
  ground (
    arith,
    elem-sorted h (unique (map env.upper headers)),
    elem-unique h (map env.upper headers),
  ),
)
