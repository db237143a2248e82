-- ===== src/Validators/Cname.antt =====
-- broker/dns.py, and the class `CNAME` of broker/validators.py
use Prim.Native.String
use external_domain_broker.Prelude.{
  ℕ, zero, suc, String, string_eq, ◌==◌, true, false, Option, none, some, List, [], ◌∷◌, ◌++◌,
  Result, ok, err, ◌>>=◌, guard, is_empty, elem, CnameError, missing, loop, incorrect, cnames,
  bad_request, service_error, out_of_fuel,
}
use external_domain_broker.Env.{Env, Answer, target, nxdomain, no_answer, failure}

abbrev pub answered : Answer → Result String
answered (target name) = ok name
answered nxdomain = ok ""
answered no_answer = ok ""
answered (failure e) = err (service_error e)

unfoldable pub acme_challenge_cname_name : String → String
acme_challenge_cname_name domain = String.◌++◌ "_acme-challenge." domain

module _ (env : Env) where
  unfoldable pub get_cname : String → Result String
  get_cname domain = answered (env.resolve domain)

  unfoldable pub acme_challenge_cname_target : String → String
  acme_challenge_cname_target domain =
      String.◌++◌ "_acme-challenge." (String.◌++◌ domain (String.◌++◌ "." env.dns_root_domain))

  -- The `while cname` loop: the names visited, the last one resolved, and what it points to.
  unfoldable pub follow : ℕ → String → List String → String → String → Result (Option CnameError)
  follow zero goal visited last cname = err out_of_fuel
  follow (suc n) goal visited last cname = elim (cname == "") [
    | true ↦ ok (some (incorrect goal last))
    | false ↦ elim (cname == goal) [
      | true ↦ ok none
      | false ↦ do
        next ← get_cname cname
        elim (elem next (visited ++ cname ∷ [])) [
          | true ↦ ok (some (loop next (visited ++ cname ∷ [])))
          | false ↦ follow n goal (visited ++ cname ∷ []) cname next
        ]
    ]
  ]

  -- `none` is the empty text, no error.
  unfoldable pub error_for_domain : String → Result (Option CnameError)
  unfolding follow get_cname
  error_for_domain domain = do
    let name = acme_challenge_cname_name domain
    let goal = acme_challenge_cname_target domain
    cname ← get_cname name
    elim (cname == "") [
      | true ↦ ok (some (missing goal))
      | false ↦ follow env.fuel goal (name ∷ []) name cname
    ]

  abbrev add_error : Option CnameError → List CnameError → List CnameError
  add_error none errors = errors
  add_error (some e) errors = e ∷ errors

  unfoldable pub instructions : List String → Result (List CnameError)
  unfolding error_for_domain
  instructions [] = ok []
  instructions (d ∷ domains) = do
    e ← error_for_domain d
    rest ← instructions domains
    ok (add_error e rest)

  unfoldable pub validate_cnames : List String → Result (Unit {0})
  unfolding instructions
  validate_cnames domains = do
    errors ← instructions domains
    guard (is_empty errors) (bad_request (cnames errors))
