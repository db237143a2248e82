-- ===== src/Commands/Kept.antt =====
-- The certificates that the commands of broker/commands/duplicate_certs.py leave.
use external_domain_broker.Prelude.{
  ℕ, zero, suc, nat_beq_iff, ◌+◌, nat_eq, String, string_eq, ◌==◌, Bool, true, false, not, ◌&&◌,
  Option, none, some, List, [], ◌∷◌, Result, ok, err, integrity_error, ◌≡◌, refl, subst, sym, ◌∙◌,
  arith, any, ap, All, filter, length, is_empty,
}
use external_domain_broker.Json.{Json, str, truthy}
use external_domain_broker.Models.{
  ServiceInstance, Certificate, Operation, has_active_operations, alb, dedicated_alb,
}
use external_domain_broker.Tasks.Work.{
  Work, Act, Tables, ◌>>=◌, ◌>>◌, pure, raise, tables_of, find_certificate,
}
use external_domain_broker.Tasks.Settings.{Settings}
use external_domain_broker.Tasks.Polling.{poll}
use external_domain_broker.Tasks.Rules.{
  Ends, pure-Ends, raise-Ends, choice-Ends, bind-Ends, asked-Ends, relax-Ends,
}
use external_domain_broker.Tasks.Alb.{LoadBalancers}
use external_domain_broker.Tasks.Iam.{Iam, refers, delete_one}
use external_domain_broker.Tasks.Iam.Kept.{other_id}
use external_domain_broker.Tasks.Iam.Previous.{IsRow, IsRow-filter}
use external_domain_broker.Tasks.Iam.Deletes.{Untouched, Gone, delete_one-Ends}
use external_domain_broker.Commands.Old.{
  IsOld, Spares, Counted, duplicates_of-Old, count_each-Counted,
}
use external_domain_broker.Commands.Duplicates.{
  duplicates_of, find_duplicate_alb_certs, matched_arns, put_each, listener_for, arns_of,
  in_transaction, rolled_back, without_row, delete_row, match_listeners, is_removed,
  remove_and_verify, remove_from, delete_resource, delete_cert_record_and_resource,
  delete_duplicates, clean_each, count_each, remove_duplicate_alb_certs,
}

-- The rows of the instances are as before, what one of them refers to is found as before, and no
-- certificate is new.
pub record KeepsReferred (t u : Tables) : Type 0 where
  pub instances : u.instances ≡ t.instances
  pub referred :
      (id : ℕ)
      → any (refers id) t.instances ≡ true
      → find_certificate id u.certificates ≡ find_certificate id t.certificates
  pub rows : (c : Certificate) → IsRow c u.certificates → IsRow c t.certificates

find_other :
    (gone id : ℕ) (cs : List Certificate)
    → (gone == id) ≡ false
    → find_certificate id (filter (λ (c : Certificate). not (c.id == gone)) cs)
      ≡ find_certificate id cs
unfolding find_certificate filter
find_other gone id [] h = refl
find_other gone id (c ∷ cs) h =
    let rest = find_other gone id cs h in
    ground (arith, rest, nat_beq_iff c.id gone, nat_beq_iff c.id id, nat_beq_iff gone id)

module _ {W : Type 0} (lb : LoadBalancers W) (iam : Iam W) (settings : Settings) (P : W → Type 0)
    (t : Tables) (law : Spares lb iam P (IsOld t)) where
  abbrev K : Work W → Type 0
  K s = KeepsReferred t s.tables × P s.world

  abbrev D : {A : Type 0} → A → Work W → Type 0
  D a = K

  -- After a call `P` holds.
  after : {A : Type 0} {r : Result A} {w : W} {x : Result A × W} → x ≡ (r, w) → P (x.1) → P w
  after h p = subst P (ap (λ (y : Result _ × W). y.1) h) p

  delete_row-Ends : (id : ℕ) (s : Work W) → K s → Ends K D (delete_row id s)
  unfolding delete_row
  delete_row-Ends id s h =
      choice-Ends K D (any (refers id) s.tables.instances) (raise integrity_error) (without_row id)
        s (λ y. raise-Ends K D integrity_error s h)
        λ n. record {
          at = (
            record {
              instances = h.0.instances;
              referred = λ other r.
                  find_other id other s.tables.certificates (
                    other_id id other s.tables.instances n
                      (subst (λ rows. any (refers other) rows ≡ true) (sym h.0.instances) r))
                  ∙ h.0.referred other r;
              rows = λ c r.
                  h.0.rows c (
                    IsRow-filter c (λ (d : Certificate). not (d.id == id)) s.tables.certificates r);
            },
            h.1,
          );
        }

  in_transaction-Ends :
      (m : Act W (Unit {0})) (s : Work W) → K s → Ends K D (m s) → Ends K D (in_transaction m s)
  unfolding in_transaction
  in_transaction-Ends m s h e = let (r, u) = m s in ended r u e
    where
      ended :
          (r : Result (Unit {0})) (u : Work W)
          → Ends K D (r, u)
          → Ends K D (ok tt, rolled_back s.tables r u)
      ended (ok a) u e = record { at = e.at }
      ended (err c) u e = record { at = (h.0, e.at.1) }

  poll-Ends :
      (n : ℕ) (m : Act W Bool) (s : Work W)
      → ((u : Work W) → K u → Ends K D (m u))
      → K s
      → Ends K D (poll n m s)
  unfolding poll
  poll-Ends zero m s k h = pure-Ends K D false s h
  poll-Ends (suc n) m s k h =
      bind-Ends K D D m _ s (k s h) λ done u q.
        choice-Ends K D done _ _ u (λ e. pure-Ends K D true u q) λ e. poll-Ends n m u k q

  match_listeners-Ends :
      (arns : List Json) (n : ℕ) (d : List (String × String)) (listeners : List String) (s : Work W)
      → K s
      → Ends K D (match_listeners lb iam settings arns n d listeners s)
  unfolding match_listeners
  match_listeners-Ends arns n d [] s h = pure-Ends K D d s h
  match_listeners-Ends arns n d (l ∷ listeners) s h =
      asked-Ends K D _ s (lb.describe_listener_certificates l)
        (λ x w e. (h.0, after e (law.describes l s.world h.1)))
        λ found w e.
          let k : K (record s { world = w }) = (h.0, after e (law.describes l s.world h.1)) in
          let here = matched_arns arns found in
          let more = put_each l here d in
          let total = n + length here in
          let u = record s { world = w } in
          choice-Ends K D (not (is_empty here) && total == length arns) (pure more)
            (match_listeners lb iam settings arns total more listeners) u
            (λ y. pure-Ends K D more u k) λ y. match_listeners-Ends arns total more listeners u k

  is_removed-Ends :
      (listener : String) (arn : Json) (s : Work W)
      → K s
      → Ends K D (is_removed lb iam settings listener arn s)
  unfolding is_removed
  is_removed-Ends listener arn s h =
      asked-Ends K D _ s (lb.describe_listener_certificates listener)
        (λ x w e. (h.0, after e (law.describes listener s.world h.1)))
        λ found w e.
          pure-Ends K D _ (record s { world = w })
            (h.0, after e (law.describes listener s.world h.1))

  remove_and_verify-Ends :
      (listener : String) (c : Certificate) (s : Work W)
      → IsOld t c
      → K s
      → Ends K D (remove_and_verify lb iam settings listener c.iam_server_certificate_arn s)
  unfolding remove_and_verify
  remove_and_verify-Ends listener c s old h =
      let arn = c.iam_server_certificate_arn in
      asked-Ends K D _ s (lb.remove_listener_certificates (str listener) arn)
        (λ x w e. (h.0, after e (law.removes c listener s.world old h.1)))
        λ u w e.
          poll-Ends settings.aws_poll_max_attempts (is_removed lb iam settings listener arn)
            (record s { world = w }) (is_removed-Ends listener arn)
            (h.0, after e (law.removes c listener s.world old h.1))

  remove_from-Ends :
      (o : Option String) (c : Certificate) (s : Work W)
      → IsOld t c
      → K s
      → Ends K D (remove_from lb iam settings o c.iam_server_certificate_arn s)
  unfolding remove_from
  remove_from-Ends none c s old h = pure-Ends K D tt s h
  remove_from-Ends (some l) c s old h =
      choice-Ends K D (l == "") _ _ s (λ y. pure-Ends K D tt s h)
        λ y.
          bind-Ends K D D (remove_and_verify lb iam settings l c.iam_server_certificate_arn) _ s
            (remove_and_verify-Ends l c s old h) λ r u q. pure-Ends K D tt u q

  delete_resource-Ends :
      (c : Certificate) (s : Work W)
      → IsOld t c
      → K s
      → Ends K D (delete_resource lb iam settings c s)
  unfolding delete_resource
  delete_resource-Ends c s old h =
      let Here = Untouched iam P (IsOld t) (λ name w. Unit) law.certificates s.tables in
      let Out = Gone iam P (IsOld t) (λ name w. Unit) law.certificates s.tables (c ∷ []) in
      choice-Ends K D (truthy c.iam_server_certificate_name) (delete_one iam c) (pure tt) s
        (λ y.
          relax-Ends K Here Out D _
            (delete_one-Ends iam P (IsOld t) (λ name w. Unit) law.certificates s.tables c [] s old
              ((refl, h.1), tt))
            same λ a u x. same u (x.0))
        λ y. pure-Ends K D tt s h
    where
      same : (u : Work W) → (u.tables ≡ s.tables) × P u.world → K u
      same u (e, p) = (subst (KeepsReferred t) (sym e) h.0, p)

  delete_cert-Ends :
      (c : Certificate) (o : Option String) (s : Work W)
      → IsOld t c
      → K s
      → Ends K D (delete_cert_record_and_resource lb iam settings c o s)
  unfolding delete_cert_record_and_resource
  delete_cert-Ends c o s old h =
      in_transaction-Ends
        (remove_from lb iam settings o c.iam_server_certificate_arn
          >> (delete_resource lb iam settings c >> delete_row c.id))
        s h
        (bind-Ends K D D (remove_from lb iam settings o c.iam_server_certificate_arn) _ s
          (remove_from-Ends o c s old h)
          λ a u q.
            bind-Ends K D D (delete_resource lb iam settings c) _ u (delete_resource-Ends c u old q)
              λ b v r. delete_row-Ends c.id v r)

  delete_duplicates-Ends :
      (d : List (String × String)) (cs : List Certificate) (s : Work W)
      → All (IsOld t) cs
      → K s
      → Ends K D (delete_duplicates lb iam settings d cs s)
  unfolding delete_duplicates
  delete_duplicates-Ends d [] s all h = pure-Ends K D tt s h
  delete_duplicates-Ends d (c ∷ cs) s (old, all) h =
      let o = listener_for c.iam_server_certificate_arn d in
      bind-Ends K D D (delete_cert_record_and_resource lb iam settings c o) _ s
        (delete_cert-Ends c o s old h) λ a u q. delete_duplicates-Ends d cs u all q

  clean_each-Ends :
      (operations : List Operation) (listeners : List String) (counts : List (ServiceInstance × ℕ))
      (s : Work W)
      → Counted t.instances counts
      → K s
      → Ends K D (clean_each lb iam settings operations listeners counts s)
  unfolding clean_each tables_of ◌>>=◌
  clean_each-Ends operations listeners [] s all h = pure-Ends K D tt s h
  clean_each-Ends operations listeners ((i, n) ∷ rest) s (m, all) h =
      let duplicates = duplicates_of i s.tables.certificates in
      let arns = arns_of duplicates in
      choice-Ends K D (has_active_operations i.id operations)
        (clean_each lb iam settings operations listeners rest) _ s
        (λ y. clean_each-Ends operations listeners rest s all h)
        λ y.
          bind-Ends K D D (match_listeners lb iam settings arns 0 [] listeners) _ s
            (match_listeners-Ends arns 0 [] listeners s h)
            λ d u q.
              bind-Ends K D D (delete_duplicates lb iam settings d duplicates) _ u
                (delete_duplicates-Ends d duplicates u
                  (duplicates_of-Old t i s.tables.certificates m h.0.rows) q)
                λ a v r. clean_each-Ends operations listeners rest v all r

module _ {W : Type 0} (lb : LoadBalancers W) (iam : Iam W) (settings : Settings) (P : W → Type 0)
    (s : Work W) (law : Spares lb iam P (IsOld s.tables)) where
  -- Let `P` be kept by looking at listeners and certificates, and by removing from a listener and
  -- deleting in IAM a stored certificate of an instance that has another current one. If `P`
  -- holds, it holds however the removal of the duplicate certificates ends: no other certificate
  -- is removed or deleted. The rows of the instances are as they were, and each
  -- certificate that one of them refers to is still in the table.
  pub remove_duplicate_alb_certs-Ends :
      (operations : List Operation) (listeners dedicated : List String)
      → P s.world
      → Ends
          (λ u. KeepsReferred s.tables u.tables × P u.world)
          (λ a u. KeepsReferred s.tables u.tables × P u.world)
          (remove_duplicate_alb_certs lb iam settings operations listeners dedicated s)
  unfolding remove_duplicate_alb_certs tables_of ◌>>=◌ find_duplicate_alb_certs
  remove_duplicate_alb_certs-Ends operations listeners dedicated p =
      let t = s.tables in
      let In_table = λ (u : Work W). KeepsReferred t u.tables × P u.world in
      let kept = clean_each-Ends lb iam settings P t law operations in
      let first = find_duplicate_alb_certs alb t in
      bind-Ends In_table (λ a. In_table) (λ a. In_table)
        (clean_each lb iam settings operations listeners first) _ s
        (kept listeners first s (count_each-Counted alb t.certificates t.instances)
          (record { instances = refl; referred = λ id r. refl; rows = λ c r. r }, p))
        λ a u q.
          kept dedicated (find_duplicate_alb_certs dedicated_alb u.tables) u
            (subst
              (λ rows.
                Counted rows (count_each dedicated_alb u.tables.certificates u.tables.instances))
              q.0.instances
              (count_each-Counted dedicated_alb u.tables.certificates u.tables.instances))
            q
