-- ===== src/Domains/Unique.antt =====
-- The class `UniqueDomains` of broker/validators.py, and `validate_domain_name_changes` of
-- broker/lib/utils.py
use external_domain_broker.Prelude.{
  ℕ, suc, String, string_eq, ◌==◌, Bool, true, false, not, ◌&&◌, Option, none, some, List, [], ◌∷◌,
  Result, ok, ◌>>◌, guard, is_empty, elem, filter, bad_request, duplicate_domains, if◌then◌else◌,
}
use external_domain_broker.Env.{Env}
use external_domain_broker.Text.Order.{sorted}
use external_domain_broker.Validators.{validate_cnames}
use external_domain_broker.Models.{ServiceInstance}

abbrev pub is_live : ServiceInstance → Bool
is_live i = elim i.deactivated_at [ none ↦ true | some t ↦ false ]

-- `ServiceInstance.id != ignore_instance.id`, if there is an instance to ignore
abbrev pub is_other : Option String → ServiceInstance → Bool
is_other none i = true
is_other (some ignored) i = not (i.id == ignored)

-- The count of the query in `_error_for_domain`, and whether it is zero.
unfoldable pub holders : Option String → String → List ServiceInstance → ℕ
holders ignored domain [] = 0
holders ignored domain (i ∷ is) =
    let rest = holders ignored domain is in
    if is_live i && elem domain i.domain_names && is_other ignored i then suc rest else rest

abbrev pub positive : ℕ → Bool
positive ℕ.zero = false
positive (suc n) = true

-- The domains for which there is an error.
unfoldable pub taken : Option String → List ServiceInstance → List String → List String
unfolding holders filter
taken ignored instances domains =
    filter (λ (d : String). positive (holders ignored d instances)) domains

unfoldable pub validate_unique :
    Option String → List ServiceInstance → List String → Result (Unit {0})
unfolding taken
validate_unique ignored instances domains =
    let instructions = taken ignored instances domains in
    guard (is_empty instructions) (bad_request (duplicate_domains instructions))

abbrev pub same_list : List String → List String → Bool
same_list [] [] = true
same_list (x ∷ xs) (y ∷ ys) = x == y && same_list xs ys
same_list _ _ = false

-- The domains that the update has to apply: none, if they are those of the instance.
unfoldable pub validate_domain_name_changes :
    Env → List ServiceInstance → List String → ServiceInstance → Result (List String)
unfolding validate_cnames validate_unique sorted
validate_domain_name_changes env instances [] i = ok []
validate_domain_name_changes env instances (d ∷ ds) i = do
  validate_cnames env (d ∷ ds)
  validate_unique (some i.id) instances (d ∷ ds)
  ok (if same_list (sorted (d ∷ ds)) (sorted i.domain_names) then [] else d ∷ ds)
