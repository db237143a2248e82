-- ===== src/Validators/Inputs.antt =====
-- The classes `ErrorResponseConfig`, `HeaderList` and `Hostname` of broker/validators.py
use Prim.Native.Char.{code}
use Prim.Native.String.{count}
use external_domain_broker.Prelude.{
  ℕ, String, string_eq, ◌==◌, Bool, true, false, ◌&&◌, ◌||◌, List, [], ◌∷◌, Result, ok, err, ◌>>◌,
  guard, not, leb, elem, nat_beq, length, bad_request, plain, value, type_error,
}
use external_domain_broker.Json.{Json, str, obj, fields}
use external_domain_broker.Text.{split}

valid_error_codes : List String
valid_error_codes =
    "400" ∷ "403" ∷ "404" ∷ "405" ∷ "414" ∷ "416" ∷ "500" ∷ "501" ∷ "502" ∷ "503" ∷ "504" ∷ []

abbrev starts_with_slash : String → Bool
starts_with_slash String.[] = false
starts_with_slash (String.◌∷◌ c s) = nat_beq (code c) b'/'

abbrev check_path : Json → Result (Unit {0})
check_path (str path) = do
  guard (not (path == "")) (bad_request (plain "error_response values must not be empty"))
  guard (starts_with_slash path)
      (bad_request (plain "error_response path must be a path starting with `/`"))
check_path _ = err (bad_request (plain "error_response values must be strings"))

-- The loop over `self.input.items()`.
unfoldable pub check_error_responses : List (String × Json) → Result (Unit {0})
unfolding valid_error_codes
check_error_responses [] = ok tt
check_error_responses ((key, path) ∷ rest) = do
  guard (elem key valid_error_codes) (bad_request (plain "error_response keys must be strings"))
  check_path path
  check_error_responses rest

unfoldable pub validate_error_responses : Json → Result (Unit {0})
unfolding check_error_responses
validate_error_responses (obj input) = check_error_responses (fields input)
validate_error_responses _ =
    err (bad_request (plain "error_response should be a dictionary of error code: response path"))

abbrev is_digit : ℕ → Bool
is_digit n = leb b'0' n && leb n b'9'

abbrev is_upper : ℕ → Bool
is_upper n = leb b'A' n && leb n b'Z'

abbrev is_lower : ℕ → Bool
is_lower n = leb b'a' n && leb n b'z'

-- `HeaderList.ALLOWED_CHARACTERS`: `!#$%&'*+-.`, digits, letters, and `^_`` ` ``|`
unfoldable pub is_allowed : ℕ → Bool
is_allowed n =
    nat_beq n b'!'
    || (leb b'#' n && leb n 39)
    || nat_beq n b'*'
    || nat_beq n b'+'
    || nat_beq n b'-'
    || nat_beq n b'.'
    || is_digit n
    || is_upper n
    || (leb b'^' n && leb n b'`')
    || is_lower n
    || nat_beq n b'|'

unfoldable pub all_allowed : String → Bool
unfolding is_allowed
all_allowed String.[] = true
all_allowed (String.◌∷◌ c s) = is_allowed (code c) && all_allowed s

unfoldable pub validate_headers : List String → Result (Unit {0})
unfolding all_allowed
validate_headers [] = ok tt
validate_headers (header ∷ rest) = do
  guard (not (header == "")) (bad_request (plain "Headers cannot be empty"))
  guard (all_allowed header) (bad_request (value header))
  validate_headers rest

abbrev is_alnum : ℕ → Bool
is_alnum n = is_lower n || is_upper n || is_digit n

-- `[a-zA-Z0-9\-]*[a-zA-Z0-9]`
ends_node : String → Bool
ends_node String.[] = false
ends_node (String.◌∷◌ c String.[]) = is_alnum (code c)
ends_node (String.◌∷◌ c (String.◌∷◌ d s)) =
    (is_alnum (code c) || nat_beq (code c) b'-') && ends_node (String.◌∷◌ d s)

abbrev starts_node : String → Bool
starts_node String.[] = false
starts_node (String.◌∷◌ c s) = is_alnum (code c)

-- A node of `least` to 63 characters that starts and ends with a letter or a digit.
unfoldable pub is_node : ℕ → String → Bool
unfolding ends_node
is_node least s = starts_node s && ends_node s && leb least (count s) && leb (count s) 63

-- The nodes before the last, and the last, which has two characters at least.
unfoldable pub are_nodes : List String → Bool
unfolding is_node
are_nodes [] = false
are_nodes (tld ∷ []) = is_node 2 tld
are_nodes (node ∷ next ∷ rest) = is_node 1 node && are_nodes (next ∷ rest)

-- The regular expression `Hostname.domain_name`: 1 to 62 nodes before the last. No node holds a
-- dot, so there is one way to divide a text into nodes.
unfoldable pub is_domain_name : String → Bool
unfolding are_nodes split
is_domain_name s =
    let nodes = split "." s in leb 2 (length nodes) && leb (length nodes) 63 && are_nodes nodes

-- `re.fullmatch` raises on what is no text.
unfoldable pub validate_hostname : Json → Result (Unit {0})
unfolding is_domain_name
validate_hostname (str origin) = do
  guard (is_domain_name origin) (bad_request (value origin))
  guard (leb (count origin) 253) (bad_request (value origin))
validate_hostname _ = err type_error
