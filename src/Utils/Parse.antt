-- ===== src/Utils/Parse.antt =====
-- The parameter parsers of broker/lib/utils.py
use external_domain_broker.Prelude.{
  String, string_eq, ◌==◌, List, [], map, Result, ok, err, ◌>>=◌, ◌>>◌, attribute_error, Option,
  some, if◌then◌else◌,
}
use external_domain_broker.Json.{Json, null, str, arr, nil, items, Params, get, text_of, texts}
use external_domain_broker.Text.{without, split}
use external_domain_broker.Env.{Env}
use external_domain_broker.Text.Order.{sorted, unique}
use external_domain_broker.Validators.{validate_headers}

-- `CDNServiceInstance.ForwardCookiePolicy`
pub data CookiePolicy : Type 0 where
  all none whitelist : CookiePolicy

cookie_list : String → CookiePolicy × List String
cookie_list cookies =
    if cookies == ""
    then (none, [])
    else if cookies == "*"
    then (all, [])
    else (whitelist, split "," cookies)

unfoldable pub parse_cookie_options : Params → Result (CookiePolicy × List String)
unfolding cookie_list get without split
parse_cookie_options params = elim (get "forward_cookies" null params) [
  | null ↦ ok (all, [])
  | str cookies ↦ ok (cookie_list (without " " cookies))
  | _ ↦ err attribute_error
]

header_texts : Json → Result (List String)
header_texts null = ok []
header_texts v = do headers ← text_of v; ok (split "," (without " " headers))

unfoldable pub parse_header_options : Params → Result (List String)
unfolding header_texts get validate_headers
parse_header_options params = do
  forwarded_headers ← header_texts (get "forward_headers" null params)
  validate_headers forwarded_headers
  ok forwarded_headers

unfoldable pub normalize_header_list : Env → List String → List String
unfolding sorted unique
normalize_header_list env headers = sorted (unique (map env.upper headers))

clean : Env → String → String
clean env d = env.lower (env.strip d)

cleaned : Env → List String → Option (List String)
cleaned env ds = some (map (clean env) ds)

domain_items : Json → Option (List Json)
domain_items (str domains) = some (map str (split "," domains))
domain_items (arr xs) = some (items xs)
domain_items _ = Option.none

-- The function falls off its end, with `None`, on a value that is no text and no list.
unfoldable pub parse_domain_options : Env → Params → Result (Option (List String))
unfolding domain_items clean cleaned get texts
parse_domain_options env params = elim (domain_items (get "domains" (arr nil) params)) [
  | Option.none ↦ ok Option.none
  | some domains ↦ do ds ← texts domains; ok (cleaned env ds)
]

-- The values of `ForwardCookiePolicy`.
abbrev pub policy_value : CookiePolicy → String
policy_value all = "all"
policy_value none = "none"
policy_value whitelist = "whitelist"
