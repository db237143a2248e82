-- ===== src/Commands/Duplicates.antt =====
-- broker/commands/duplicate_certs.py
use external_domain_broker.Prelude.{
  ℕ, ◌+◌, String, string_eq, nat_eq, ◌==◌, Bool, false, not, ◌&&◌, Option, none, some, List, [],
  ◌∷◌, Result, ok, err, integrity_error, any, elem, filter, is_empty, length, leb, lookup, map,
  if◌then◌else◌,
}
use external_domain_broker.Json.{Json, str, is_str, truthy}
use external_domain_broker.Models.{
  ServiceInstance, Certificate, InstanceType, Operation, same_type, has_active_operations, alb,
  dedicated_alb,
}
use external_domain_broker.Tasks.Work.{
  Work, Act, Tables, Challenge, ◌>>=◌, ◌>>◌, pure, raise, call, tables_of,
}
use external_domain_broker.Tasks.Settings.{Settings}
use external_domain_broker.Tasks.Polling.{poll}
use external_domain_broker.Tasks.Alb.{LoadBalancers}
use external_domain_broker.Tasks.Iam.{Iam, refers, delete_one}
use external_domain_broker.Tasks.Shield.{put_id}

-- A certificate of the instance that is not the current one; `NULL` in SQL compares to nothing.
unfoldable pub is_duplicate : ServiceInstance → Certificate → Bool
is_duplicate i c =
    c.service_instance_id == i.id
    && elim i.current_certificate_id [ none ↦ false | some id ↦ not (id == c.id) ]

-- `get_duplicate_certs_for_service`
unfoldable pub duplicates_of : ServiceInstance → List Certificate → List Certificate
unfolding is_duplicate filter
duplicates_of i = filter (is_duplicate i)

-- `order_by(desc("cert_count"))`; SQL leaves the order of equals open.
unfoldable pub insert_count :
    ServiceInstance × ℕ → List (ServiceInstance × ℕ) → List (ServiceInstance × ℕ)
insert_count x [] = x ∷ []
insert_count x (y ∷ ys) =
    let rest = insert_count x ys in if leb (y.1) (x.1) then x ∷ y ∷ ys else y ∷ rest

unfoldable pub count_each :
    InstanceType → List Certificate → List ServiceInstance → List (ServiceInstance × ℕ)
unfolding duplicates_of insert_count
count_each kind cs [] = []
count_each kind cs (i ∷ rows) =
    let rest = count_each kind cs rows in
    let n = length (duplicates_of i cs) in
    if same_type i.instance_type kind && not (leb n 0) then insert_count (i, n) rest else rest

unfoldable pub find_duplicate_alb_certs : InstanceType → Tables → List (ServiceInstance × ℕ)
unfolding count_each
find_duplicate_alb_certs kind t = count_each kind t.certificates t.instances

-- `listener_arns_dict.get(…)`
abbrev pub listener_for : Json → List (String × String) → Option String
unfolding lookup
listener_for (str arn) d = lookup arn d
listener_for _ d = none

abbrev pub arns_of : List Certificate → List Json
arns_of cs = map (λ (c : Certificate). c.iam_server_certificate_arn) cs

-- The members of `set(found) & set(arns)`, each once.
unfoldable pub matched_arns : List Json → List String → List String
unfolding any elem
matched_arns arns [] = []
matched_arns arns (a ∷ found) =
    let rest = matched_arns arns found in
    if any (is_str a) arns && not (elem a rest) then a ∷ rest else rest

unfoldable pub put_each : String → List String → List (String × String) → List (String × String)
unfolding put_id
put_each listener [] d = d
put_each listener (a ∷ arns) d = put_each listener arns (put_id a listener d)

-- `except Exception: db.session.rollback()`
abbrev pub rolled_back : {W : Type 0} → Tables → Result (Unit {0}) → Work W → Work W
rolled_back t (ok u) s = s
rolled_back t (err e) s = record s { tables = t }

module _ {W : Type 0} where
  unfoldable pub in_transaction : Act W (Unit {0}) → Act W (Unit {0})
  in_transaction m s = let (r, s') = m s in (ok tt, rolled_back s.tables r s')

  abbrev pub without_row : ℕ → Work W → Result (Unit {0}) × Work W
  unfolding filter
  without_row id u = (
    ok tt,
    record u {
      tables = record u.tables {
        certificates = filter (λ (c : Certificate). not (c.id == id)) u.tables.certificates;
        challenges = filter (λ (x : Challenge). not (x.certificate_id == id)) u.tables.challenges;
      };
    },
  )

  -- The commit of the deletion of a row; a foreign key may refer to it.
  unfoldable pub delete_row : ℕ → Act W (Unit {0})
  unfolding refers any raise without_row
  delete_row id s =
      (if any (refers id) s.tables.instances then raise integrity_error else without_row id) s

module _ {W : Type 0} (lb : LoadBalancers W) (iam : Iam W) (settings : Settings) where
  -- The loop of `get_matching_alb_listener_arns_for_cert_arns`, with the number matched_arns so far.
  unfoldable pub match_listeners :
      List Json → ℕ → List (String × String) → List String → Act W (List (String × String))
  unfolding call matched_arns put_each pure ◌>>=◌
  match_listeners arns n d [] = pure d
  match_listeners arns n d (l ∷ listeners) = do
    found ← call (lb.describe_listener_certificates l)
    let here = matched_arns arns found
    let more = put_each l here d
    let total = n + length here
    if not (is_empty here) && total == length arns
        then pure more
        else match_listeners arns total more listeners

  -- `verify_listener_certificate_is_removed`
  unfoldable pub is_removed : String → Json → Act W Bool
  unfolding call pure any ◌>>=◌
  is_removed listener arn = do
    found ← call (lb.describe_listener_certificates listener)
    pure (not (any (λ (a : String). is_str a arn) found))

  unfoldable pub remove_and_verify : String → Json → Act W Bool
  unfolding call poll is_removed ◌>>=◌
  remove_and_verify listener arn = do
    call (lb.remove_listener_certificates (str listener) arn)
    poll settings.aws_poll_max_attempts (is_removed listener arn)

  -- `if listener_arn: …`, whose value is not used
  unfoldable pub remove_from : Option String → Json → Act W (Unit {0})
  unfolding remove_and_verify pure ◌>>=◌
  remove_from none arn = pure tt
  remove_from (some l) arn =
      if l == "" then pure tt else (do removed ← remove_and_verify l arn; pure tt)

  unfoldable pub delete_resource : Certificate → Act W (Unit {0})
  unfolding delete_one pure
  delete_resource c = if truthy c.iam_server_certificate_name then delete_one iam c else pure tt

  unfoldable pub delete_cert_record_and_resource : Certificate → Option String → Act W (Unit {0})
  unfolding in_transaction remove_from delete_resource delete_row ◌>>=◌
  delete_cert_record_and_resource c listener =
      in_transaction
        (do remove_from listener c.iam_server_certificate_arn; delete_resource c; delete_row c.id)

  unfoldable pub delete_duplicates : List (String × String) → List Certificate → Act W (Unit {0})
  unfolding delete_cert_record_and_resource lookup pure ◌>>=◌
  delete_duplicates d [] = pure tt
  delete_duplicates d (c ∷ cs) = do
    delete_cert_record_and_resource c (listener_for c.iam_server_certificate_arn d)
    delete_duplicates d cs

  -- The loop of `remove_duplicate_alb_certs` over the instances of one class.
  unfoldable pub clean_each :
      List Operation → List String → List (ServiceInstance × ℕ) → Act W (Unit {0})
  unfolding has_active_operations tables_of match_listeners delete_duplicates duplicates_of pure
      ◌>>=◌
  clean_each operations listeners [] = pure tt
  clean_each operations listeners ((i, n) ∷ rest) =
      if has_active_operations i.id operations then clean_each operations listeners rest else (do
        t ← tables_of
        let duplicates = duplicates_of i t.certificates
        d ← match_listeners (arns_of duplicates) 0 [] listeners
        delete_duplicates d duplicates
        clean_each operations listeners rest)

  unfoldable pub remove_duplicate_alb_certs :
      List Operation → List String → List String → Act W (Unit {0})
  unfolding tables_of clean_each find_duplicate_alb_certs ◌>>=◌
  remove_duplicate_alb_certs operations listeners dedicated = do
    t ← tables_of
    clean_each operations listeners (find_duplicate_alb_certs alb t)
    u ← tables_of
    clean_each operations dedicated (find_duplicate_alb_certs dedicated_alb u)
