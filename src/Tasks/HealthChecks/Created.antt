-- ===== src/Tasks/HealthChecks/Created.antt =====
-- The checks that the loop of `_create_health_checks` adds.
use external_domain_broker.Prelude.{
  ℕ, suc, String, string_eq, ◌==◌, true, false, ◌||◌, List, [], ◌∷◌, ◌++◌, ◌≡◌, refl, ◌∙◌, ok, elem,
  All, All-append, arith, is_empty, if◌then◌else◌,
}
use external_domain_broker.Text.Order.{str_leb}
use external_domain_broker.Models.{ServiceInstance, HealthCheck, Tag}
use external_domain_broker.Tasks.Work.{Work, Tables, pure, call, ◌>>◌}
use external_domain_broker.Tasks.Rules.{
  Ends, pure-Ends, bind-Ends, call-Ends, choice-Ends, weaken-Ends,
}
use external_domain_broker.Tasks.Route53.{Route53}
use external_domain_broker.Tasks.HealthChecks.{
  create_health_check, create_each, create_health_checks, caller_reference, sort_checks,
  insert_check, domains_of, listed,
}

-- An id stands for one health check, whose domain is `names id`.
pub record Naming {W : Type 0} (r : Route53 W) (names : String → String) : Type 0 where
  pub created :
      (reference domain id : String) (w w' : W)
      → r.create_health_check reference domain w ≡ (ok id, w')
      → names id ≡ domain

module _ (names : String → String) where
  abbrev pub IsNamed : HealthCheck → Type 0
  IsNamed c = names c.health_check_id ≡ c.domain_name

insert_check-domains :
    (d : String) (c : HealthCheck) (cs : List HealthCheck)
    → elem d (domains_of (insert_check c cs)) ≡ (c.domain_name == d || elem d (domains_of cs))
unfolding insert_check elem
insert_check-domains d c [] = refl
insert_check-domains d c (e ∷ cs) = ground (arith, insert_check-domains d c cs)

sort_checks-domains :
    (d : String) (cs : List HealthCheck)
    → elem d (domains_of (sort_checks cs)) ≡ elem d (domains_of cs)
unfolding sort_checks elem
sort_checks-domains d [] = refl
sort_checks-domains d (c ∷ cs) =
    insert_check-domains d c (sort_checks cs) ∙ ground (arith, sort_checks-domains d cs)

module _ (P : HealthCheck → Type 0) where
  insert_check-All :
      (c : HealthCheck) (cs : List HealthCheck) → P c → All P cs → All P (insert_check c cs)
  unfolding insert_check
  insert_check-All c [] p h = (p, tt)
  insert_check-All c (e ∷ cs) p h =
      elim (str_leb c.domain_name e.domain_name)
        as (λ b. All P (if b then c ∷ e ∷ cs else e ∷ insert_check c cs)) [
          | true ↦ (p, h)
          | false ↦ (h.0, insert_check-All c cs p h.1)
        ]

  sort_checks-All : (cs : List HealthCheck) → All P cs → All P (sort_checks cs)
  unfolding sort_checks
  sort_checks-All [] h = tt
  sort_checks-All (c ∷ cs) h = insert_check-All c (sort_checks cs) h.0 (sort_checks-All cs h.1)

domains-append :
    (d : String) (cs : List HealthCheck) (e : HealthCheck)
    → elem d (domains_of (cs ++ e ∷ [])) ≡ (elem d (domains_of cs) || e.domain_name == d)
unfolding elem
domains-append d [] e = ground arith
domains-append d (c ∷ cs) e = ground (arith, domains-append d cs e)

nothing-added :
    (old : List HealthCheck) (d : String)
    → elem d (domains_of old) ≡ (elem d (domains_of old) || elem d [])
unfolding elem
nothing-added old d = ground arith

one-added :
    (old : List HealthCheck) (ds : List String) (e id d : String)
    → (elem d (domains_of (old ++ record { domain_name = e; health_check_id = id } ∷ []))
        || elem d ds)
      ≡ (elem d (domains_of old) || elem d (e ∷ ds))
unfolding elem
one-added old ds e id d =
    ground (arith, domains-append d old record { domain_name = e; health_check_id = id })

module _ {W : Type 0} (r : Route53 W) (names : String → String) (naming : Naming r names)
    (t : Tables) where
  -- The tables are as they were.
  abbrev pub Untouched : Work W → Type 0
  Untouched s = s.tables ≡ t

  -- The id that is returned stands for the domain.
  abbrev Makes : String → String → Work W → Type 0
  Makes domain id u = Untouched u × (names id ≡ domain)

  create_health_check-Ends :
      (idx : ℕ) (id domain : String) (tags : List Tag) (s : Work W)
      → Untouched s
      → Ends Untouched (Makes domain) (create_health_check r idx id domain tags s)
  unfolding create_health_check
  create_health_check-Ends idx id domain tags s h =
      let reference = caller_reference id idx in
      call-Ends Untouched (Makes domain)
        (λ k. if is_empty tags then pure k else (do call (r.tag_health_check k tags); pure k)) s
        (r.create_health_check reference domain) (λ w. h)
        λ k w e.
          choice-Ends Untouched (Makes domain) (is_empty tags) (pure k)
            (do call (r.tag_health_check k tags); pure k) (record s { world = w })
            (λ _.
              pure-Ends Untouched (Makes domain) k (record s { world = w })
                (h, naming.created reference domain k s.world w e))
            λ _.
              call-Ends Untouched (Makes domain) (λ _. pure k) (record s { world = w })
                (r.tag_health_check k tags) (λ v. h)
                λ _ v _.
                  pure-Ends Untouched (Makes domain) k (record s { world = v })
                    (h, naming.created reference domain k s.world w e)

  -- The checks have the domains of `old` and those of `ds`, and each id stands for its domain.
  abbrev pub Adds : List String → List HealthCheck → List HealthCheck → Work W → Type 0
  Adds ds old checks u =
      Untouched u
      × ((d : String) → elem d (domains_of checks) ≡ (elem d (domains_of old) || elem d ds))
      × All (IsNamed names) checks

  create_each-Ends :
      (ds : List String) (idx : ℕ) (i : ServiceInstance) (old : List HealthCheck) (s : Work W)
      → Untouched s
      → All (IsNamed names) old
      → Ends Untouched (Adds ds old) (create_each r idx i ds old s)
  unfolding create_each
  create_each-Ends [] idx i old s h k =
      pure-Ends Untouched (Adds [] old) old s (h, (λ d. nothing-added old d), k)
  create_each-Ends (e ∷ ds) idx i old s h k =
      bind-Ends Untouched (Makes e) (Adds (e ∷ ds) old)
        (create_health_check r idx i.id e (listed i.tags))
        (λ id.
          create_each r (suc idx) i ds
            (old ++ record { domain_name = e; health_check_id = id } ∷ []))
        s (create_health_check-Ends idx i.id e (listed i.tags) s h)
        λ id u (hu, n).
          let extended = old ++ record { domain_name = e; health_check_id = id } ∷ [] in
          weaken-Ends Untouched (Adds ds extended) (Adds (e ∷ ds) old)
            (create_each r (suc idx) i ds extended u)
            (create_each-Ends ds (suc idx) i extended u hu (
              All-append (IsNamed names) old (record { domain_name = e; health_check_id = id } ∷ [])
                k (n, tt)))
            λ cs v (hv, ha, hn). (hv, (λ d. ha d ∙ one-added old ds e id d), hn)

  pub create_health_checks-Ends :
      (i : ServiceInstance) (ds : List String) (old : List HealthCheck) (s : Work W)
      → Untouched s
      → All (IsNamed names) old
      → Ends Untouched (Adds ds old) (create_health_checks r i ds old s)
  unfolding create_health_checks
  create_health_checks-Ends i ds old s h k =
      bind-Ends Untouched (Adds ds old) (Adds ds old) (create_each r 0 i ds old)
        (λ cs. pure (sort_checks cs)) s (create_each-Ends ds 0 i old s h k)
        λ cs u (hu, ha, hn).
          pure-Ends Untouched (Adds ds old) (sort_checks cs) u
            (hu, (λ d. sort_checks-domains d cs ∙ ha d), sort_checks-All (IsNamed names) cs hn)
