-- ===== src/Tasks/HealthChecks/Settled.antt =====
-- The two tasks that a pipeline uses to bring the health checks of an instance to its domains.
use external_domain_broker.Prelude.{
  String, string_eq, true, not, ◌&&◌, ◌||◌, some, List, [], ◌∷◌, ◌≡◌, refl, sym, subst, ap, ◌∙◌, ok,
  elem, filter, All, arith, eq_iff, eq_refl, if◌then◌else◌, Bool-cases, inl, inr, is_empty,
  or_raise, type_error,
}
use external_domain_broker.Models.{ServiceInstance, HealthCheck, find, write}
use external_domain_broker.Domains.Holders.{find-id, find-written}
use external_domain_broker.Tasks.Work.{Work, Act, Tables, save, ◌>>=◌, ◌>>◌}
use external_domain_broker.Tasks.Rules.{
  Ends, ok-Ends, bind-Ends, load-Ends, lift-Ends, choice-Ends, relax-Ends,
}
use external_domain_broker.Tasks.Route53.{Route53}
use external_domain_broker.Tasks.HealthChecks.{
  create_new_health_checks, delete_unused_health_checks, create_health_checks, delete_each,
  missing_domains, unused_checks, listed, domains_of,
}
use external_domain_broker.Tasks.HealthChecks.Created.{
  IsNamed, Naming, Adds, create_health_checks-Ends,
}
use external_domain_broker.Tasks.HealthChecks.Deleted.{
  Leaves, Covered, IsUnused, is_covered, delete_each-Ends,
}

-- No domain is missing.
none_missing :
    (old ns : List String) (d : String)
    → is_empty (filter (λ (e : String). not (elem e old)) ns) ≡ true
    → elem d ns ≡ true
    → elem d old ≡ true
unfolding filter elem
none_missing old [] d h k = absurd (ground arith)
none_missing old (e ∷ ns) d h k = ground (arith, none_missing old ns d, eq_iff e d)

elem-missing :
    (old ns : List String) (d : String)
    → elem d (filter (λ (e : String). not (elem e old)) ns) ≡ (elem d ns && not (elem d old))
unfolding filter elem
elem-missing old [] d = refl
elem-missing old (e ∷ ns) d = ground (arith, elem-missing old ns d, eq_iff e d)

missing_added :
    (i : ServiceInstance) (cs : List HealthCheck)
    → ((d : String)
        → elem d (domains_of cs)
          ≡ (elem d (domains_of (listed i.route53_health_checks)) || elem d (missing_domains i)))
    → (d : String) → elem d i.domain_names ≡ true
    → elem d (domains_of cs) ≡ true
unfolding missing_domains filter
missing_added i cs a d k =
    ground (arith, a d, elem-missing (domains_of (listed i.route53_health_checks)) i.domain_names d)

empty_nil : (cs : List HealthCheck) → is_empty cs ≡ true → cs ≡ []
empty_nil [] h = refl
empty_nil (c ∷ cs) h = cc

module _ (names : String → String) (ns : List String) where
  abbrev unused : List HealthCheck → List HealthCheck
  unfolding filter
  unused = filter λ (c : HealthCheck). not (elem c.domain_name ns)

  Covered-more :
      (u : HealthCheck) (us cs : List HealthCheck)
      → Covered names ns us cs
      → Covered names ns (u ∷ us) cs
  unfolding is_covered elem
  Covered-more u us [] h = tt
  Covered-more u us (c ∷ cs) (h, k) = (ground arith, Covered-more u us cs k)

  unused-Covered : (cs : List HealthCheck) → Covered names ns (unused cs) cs
  unfolding filter is_covered elem
  unused-Covered [] = tt
  unused-Covered (c ∷ cs) = elim (Bool-cases (elem c.domain_name ns)) [
    | inl e ↦
        subst (λ b. Covered names ns (if not b then c ∷ unused cs else unused cs) (c ∷ cs)) (sym e)
          (ground arith, unused-Covered cs)
    | inr e ↦
        subst (λ b. Covered names ns (if not b then c ∷ unused cs else unused cs) (c ∷ cs)) (sym e)
          (
            ground (arith, eq_refl c.health_check_id),
            Covered-more c (unused cs) cs (unused-Covered cs),
          )
  ]

  unused-IsUnused :
      (cs : List HealthCheck) → All (IsNamed names) cs → All (IsUnused names ns) (unused cs)
  unfolding filter
  unused-IsUnused [] h = tt
  unused-IsUnused (c ∷ cs) (n, h) = elim (Bool-cases (elem c.domain_name ns)) [
    | inl e ↦
        subst (λ b. All (IsUnused names ns) (if not b then c ∷ unused cs else unused cs)) (sym e)
          (unused-IsUnused cs h)
    | inr e ↦
        subst (λ b. All (IsUnused names ns) (if not b then c ∷ unused cs else unused cs)) (sym e)
          ((n, e), unused-IsUnused cs h)
  ]

  Covered-domains :
      (cs : List HealthCheck) (d : String)
      → Covered names ns [] cs
      → elem d (domains_of cs) ≡ true
      → elem d ns ≡ true
  unfolding is_covered elem
  Covered-domains [] d h k = absurd (ground arith)
  Covered-domains (c ∷ cs) d (h, i) k =
      ground (arith, Covered-domains cs d i, eq_iff c.domain_name d)

module _ (id : String) where
  -- A row that is written back is found.
  written :
      (i j : ServiceInstance) (t : Tables)
      → find id t.instances ≡ some i
      → j.id ≡ i.id
      → find id (write j t.instances) ≡ some j
  written i j t f e = find-written id j t.instances i (e ∙ find-id id t.instances i f) f

module _ {W : Type 0} (names : String → String) (id : String) (ns : List String) where
  -- The instance is stored with the domains `ns`, and each of its checks is one of its domain.
  pub record IsReady (s : Work W) : Type 0 where
    pub row : ServiceInstance
    pub stored : find id s.tables.instances ≡ some row
    pub domains : row.domain_names ≡ ns
    pub named : All (IsNamed names) (listed row.route53_health_checks)

  -- Each domain of the instance has a check.
  pub record HasAll (s : Work W) : Type 0 where
    pub ready : IsReady s
    pub each :
        (d : String)
        → elem d ns ≡ true
        → elem d (domains_of (listed ready.row.route53_health_checks)) ≡ true

  -- Exactly the domains of the instance have a check.
  pub record HasExactly (s : Work W) : Type 0 where
    pub ready : IsReady s
    pub each :
        (d : String) → elem d (domains_of (listed ready.row.route53_health_checks)) ≡ elem d ns

  abbrev After : (Work W → Type 0) → Unit {0} → Work W → Type 0
  After P a = P

  module _ (r : Route53 W) (naming : Naming r names) where
    -- An instance that is written back, in tables that are as they were.
    saved :
        (i j : ServiceInstance) (s u : Work W)
        → find id s.tables.instances ≡ some i
        → u.tables ≡ s.tables
        → j.id ≡ i.id
        → j.domain_names ≡ ns
        → All (IsNamed names) (listed j.route53_health_checks)
        → IsReady (record u { tables = record u.tables { instances = write j u.tables.instances } })
    saved i j s u f e a d n = record {
      row = j;
      stored =
          written id i j u.tables (subst (λ (t : Tables). find id t.instances ≡ some i) (sym e) f)
            a;
      domains = d;
      named = n;
    }

    unchanged : (s u : Work W) → IsReady s → u.tables ≡ s.tables → IsReady u
    unchanged s u h e = record {
      row = h.row;
      stored = subst (λ (t : Tables). find id t.instances ≡ some h.row) (sym e) h.stored;
      domains = h.domains;
      named = h.named;
    }

    known :
        (i : ServiceInstance) (s : Work W) (h : IsReady s)
        → find id s.tables.instances ≡ some i
        → i ≡ h.row
    known i s h f = ground (arith, h.stored)

    create_missing-Ends :
        (s : Work W) (h : IsReady s)
        → Ends IsReady (After HasAll) (
            (create_health_checks r h.row
                  (missing_domains h.row)
                  (listed h.row.route53_health_checks)
                >>= λ updated. save (record h.row { route53_health_checks = some updated }))
              s)
    unfolding save saved
    create_missing-Ends s h =
        let i = h.row in
        let old = listed i.route53_health_checks in
        let ds = missing_domains i in
        bind-Ends IsReady (Adds r names naming s.tables ds old) (After HasAll)
          (create_health_checks r i ds old) _ s
          (relax-Ends IsReady (λ u. u.tables ≡ s.tables) (Adds r names naming s.tables ds old)
            (Adds r names naming s.tables ds old) (create_health_checks r i ds old s)
            (create_health_checks-Ends r names naming s.tables i ds old s refl h.named)
            (λ u e. unchanged s u h e) λ cs u a. a)
          λ cs u (e, a, n). ok-Ends IsReady (After HasAll) tt _ record {
            ready =
                saved i (record i { route53_health_checks = some cs }) s u h.stored e refl h.domains
                  n;
            each =
                subst (λ l. (d : String) → elem d l ≡ true → elem d (domains_of cs) ≡ true)
                  h.domains (missing_added i cs a);
          }

    create_new_health_checks-Ends :
        (s : Work W) → IsReady s → Ends IsReady (After HasAll) (create_new_health_checks r id s)
    unfolding create_new_health_checks save filter missing_domains saved
    create_new_health_checks-Ends s h = load-Ends IsReady (After HasAll) s id _ h λ i f.
        subst
          (λ j. Ends IsReady (After HasAll) (
            (if is_empty (missing_domains j) then save j else (do
              updated ←
                  create_health_checks r j (missing_domains j) (listed j.route53_health_checks)
              save (record j { route53_health_checks = some updated })))
              s))
          (sym (known i s h f))
          (choice-Ends IsReady (After HasAll) (is_empty (missing_domains h.row)) (save h.row) _ s
            (λ e. ok-Ends IsReady (After HasAll) tt _ record {
              ready = saved h.row h.row s s h.stored refl refl h.domains h.named;
              each =
                  subst
                    (λ l.
                      (d : String)
                      → elem d l ≡ true
                      → elem d (domains_of (listed h.row.route53_health_checks)) ≡ true)
                    h.domains
                    λ d.
                      none_missing (domains_of (listed h.row.route53_health_checks))
                        h.row.domain_names d e;
            })
            λ _. create_missing-Ends s h)

    -- The checks that are left, when those of other domains are deleted.
    left_exactly :
        (old cs : List HealthCheck)
        → ((d : String) → elem d ns ≡ true → elem d (domains_of old) ≡ true)
        → ((d : String) → elem d ns ≡ true → elem d (domains_of cs) ≡ elem d (domains_of old))
        → Covered names ns [] cs
        → (d : String) → elem d (domains_of cs) ≡ elem d ns
    left_exactly old cs a e c d =
        let k = Covered-domains names ns cs d c in
        elim (Bool-cases (elem d ns)) [ inl y ↦ e d y ∙ a d y ∙ sym y | inr n ↦ ground (arith, k) ]

    stored_checks :
        (i j : ServiceInstance) (checks : List HealthCheck)
        → i ≡ j
        → or_raise type_error i.route53_health_checks ≡ ok checks
        → j.route53_health_checks ≡ some checks
    stored_checks i j checks e c = ground arith

    -- The end of `delete_unused_health_checks`.
    abbrev delete_of : ServiceInstance → List HealthCheck → List HealthCheck → Act W (Unit {0})
    unfolding save
    delete_of i us checks = if is_empty us then save i else (do
      updated ← delete_each r us checks
      save (record i { route53_health_checks = some updated }))

    module _ (s : Work W) (h : HasAll s) (checks : List HealthCheck)
        (some_checks : h.ready.row.route53_health_checks ≡ some checks) where
      listed_checks : listed h.ready.row.route53_health_checks ≡ checks
      listed_checks = ap listed some_checks

      checks-All : All (IsNamed names) checks
      checks-All = subst (All (IsNamed names)) listed_checks h.ready.named

      all_there : (d : String) → elem d ns ≡ true → elem d (domains_of checks) ≡ true
      all_there =
          subst (λ l. (d : String) → elem d ns ≡ true → elem d (domains_of l) ≡ true) listed_checks
            h.each

      nothing_unused : is_empty (unused names ns checks) ≡ true → Covered names ns [] checks
      nothing_unused e =
          subst (λ l. Covered names ns l checks) (empty_nil (unused names ns checks) e)
            (unused-Covered names ns checks)

      delete_these-Ends :
          Ends IsReady (After HasExactly) (delete_of h.ready.row (unused names ns checks) checks s)
      unfolding save saved
      delete_these-Ends =
          let i = h.ready.row in
          let us = unused names ns checks in
          choice-Ends IsReady (After HasExactly) (is_empty us) (save i) _ s
            (λ e. ok-Ends IsReady (After HasExactly) tt _ record {
              ready = saved i i s s h.ready.stored refl refl h.ready.domains h.ready.named;
              each =
                  subst (λ l. (d : String) → elem d (domains_of l) ≡ elem d ns) (sym listed_checks)
                    (left_exactly checks checks all_there (λ d k. refl) (nothing_unused e));
            })
            λ _.
              bind-Ends IsReady (Leaves r names ns s.tables checks) (After HasExactly)
                (delete_each r us checks) _ s
                (relax-Ends IsReady (λ u. u.tables ≡ s.tables) (Leaves r names ns s.tables checks)
                  (Leaves r names ns s.tables checks) (delete_each r us checks s)
                  (delete_each-Ends r names ns s.tables us checks s refl
                    (unused-IsUnused names ns checks checks-All) checks-All
                    (unused-Covered names ns checks))
                  (λ u e. unchanged s u h.ready e) λ cs u a. a)
                λ cs u (e, k, n, c). ok-Ends IsReady (After HasExactly) tt _ record {
                  ready =
                      saved i (record i { route53_health_checks = some cs }) s u h.ready.stored e
                        refl h.ready.domains n;
                  each = left_exactly checks cs all_there k c;
                }

    delete_unused_health_checks-Ends :
        (s : Work W)
        → HasAll s
        → Ends IsReady (After HasExactly) (delete_unused_health_checks r id s)
    unfolding delete_unused_health_checks save filter unused_checks saved
    delete_unused_health_checks-Ends s h =
        load-Ends IsReady (After HasExactly) s id _ h.ready λ i f.
          lift-Ends IsReady (After HasExactly) _ s (or_raise type_error i.route53_health_checks)
            h.ready
            λ checks c.
              let same = known i s h.ready f in
              let kept = delete_these-Ends s h checks (stored_checks i h.ready.row checks same c) in
              subst
                (λ j.
                  Ends IsReady (After HasExactly) (delete_of j (unused_checks j checks) checks s))
                (sym same)
                (subst
                  (λ l.
                    Ends IsReady (After HasExactly)
                      (delete_of h.ready.row (unused names l checks) checks s))
                  (sym h.ready.domains) kept)

    -- If the instance is stored and each of its checks has the domain that its id stands for, then
    -- creating the missing checks and deleting the unused ones, when both tasks return, leaves it
    -- stored with a check of exactly its domains. When one raises, what is stored is again such
    -- that the two tasks can run.
    pub settle-Ends :
        (s : Work W)
        → IsReady s
        → Ends IsReady
            (After HasExactly)
            ((create_new_health_checks r id >> delete_unused_health_checks r id) s)
    settle-Ends s h =
        bind-Ends IsReady (After HasAll) (After HasExactly) (create_new_health_checks r id)
          (λ _. delete_unused_health_checks r id) s (create_new_health_checks-Ends s h)
          λ a u k. delete_unused_health_checks-Ends u k
