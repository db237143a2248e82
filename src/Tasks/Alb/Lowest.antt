-- ===== src/Tasks/Alb/Lowest.antt =====
-- The listener that `get_lowest_used_alb` of broker/tasks/alb.py chooses.
use external_domain_broker.Prelude.{
  ℕ, String, string_eq, true, false, List, [], ◌∷◌, ok, ◌≡◌, refl, sym, subst, ap, ◌∙◌, ◌≤◌, arith,
  length, map, is_empty, leb, leb→le, elem, All, if◌then◌else◌, eq_refl, ok_same, Bool-cases, inl,
  inr, runtime_error, plain,
}
use external_domain_broker.Tasks.Work.{Work, call, lift, raise, ◌>>=◌}
use external_domain_broker.Tasks.Rules.{
  Ends, pure-Ends, raise-Ends, bind-Ends, call-Ends, lift-Ends, result-Ends,
}
use external_domain_broker.Tasks.Alb.Listeners.{
  LoadBalancers, first_of, insert_listener, sort_listeners, describe_each, get_lowest_used_alb,
}

-- What the documentation says of the two calls: the certificates of a listener do not depend on
-- what was looked at before, and a description of a listener names it.
pub record Describes {W : Type 0} (lb : LoadBalancers W) (certificates : String → List String)
    : Type 0 where
  pub listed :
      (arn : String) (w w' : W) (r : List String)
      → lb.describe_listener_certificates arn w ≡ (ok r, w')
      → r ≡ certificates arn
  pub named :
      (arn : String) (w w' : W) (x : String × String) (rest : List (String × String))
      → lb.describe_listeners arn w ≡ (ok (x ∷ rest), w')
      → x.1 ≡ arn

abbrev Row : Type 0
Row = String × List String

insert_listener-first :
    (y x : Row) (l : List Row)
    → first_of l ≡ ok x
    → first_of (insert_listener y l) ≡ ok (if leb (length (y.1)) (length (x.1)) then y else x)
unfolding insert_listener
insert_listener-first y x [] h = absurd (ground arith)
insert_listener-first y x (z ∷ l) h =
    subst
      (λ w.
        first_of (insert_listener y (z ∷ l))
        ≡ ok (if leb (length (y.1)) (length (w.1)) then y else w))
      (ground arith)
      (elim (leb (length (y.1)) (length (z.1)))
        as (λ b.
          first_of (if b then y ∷ z ∷ l else z ∷ insert_listener y l) ≡ ok (if b then y else z)) [
            | true ↦ refl
            | false ↦ refl
          ])

module _ (certificates : String → List String) where
  abbrev used : String → ℕ
  used a = length (certificates a)

  abbrev row : String → Row
  row a = (a, certificates a)

  -- One of the listeners, such that no other has fewer certificates.
  pub record IsLeastUsed (x : String) (arns : List String) : Type 0 where
    pub one_of : elem x arns ≡ true
    pub least : All (λ a. used x ≤ used a) arns

  record Chosen (arns : List String) : Type 0 where
    arn : String
    first : first_of (sort_listeners (map row arns)) ≡ ok (row arn)
    is_least : IsLeastUsed arn arns

  weaker :
      (x y : String) (arns : List String)
      → used y ≤ used x
      → All (λ a. used x ≤ used a) arns
      → All (λ a. used y ≤ used a) arns
  weaker x y [] h k = tt
  weaker x y (a ∷ arns) h (k, l) = (omega arith, weaker x y arns h l)

  chosen : (a : String) (arns : List String) → Chosen (a ∷ arns)
  unfolding sort_listeners elem insert_listener
  chosen a [] = record {
    arn = a;
    first = refl;
    is_least = record { one_of = ground (arith, eq_refl a); least = (omega arith, tt) };
  }
  chosen a (b ∷ arns) =
      let c = chosen b arns in
      let first =
        insert_listener-first (row a) (row c.arn) (sort_listeners (map row (b ∷ arns))) c.first in
      elim (Bool-cases (leb (used a) (used c.arn))) [
        | inl y ↦ record {
          arn = a;
          first =
              subst
                (λ t.
                  first_of (sort_listeners (map row (a ∷ b ∷ arns)))
                  ≡ ok (if t then row a else row c.arn))
                y first;
          is_least = record {
            one_of = ground (arith, eq_refl a);
            least = (
              omega arith,
              weaker c.arn a (b ∷ arns) (leb→le (used a) (used c.arn) y) c.is_least.least,
            );
          };
        }
        | inr n ↦ record {
          arn = c.arn;
          first =
              subst
                (λ t.
                  first_of (sort_listeners (map row (a ∷ b ∷ arns)))
                  ≡ ok (if t then row a else row c.arn))
                n first;
          is_least = record {
            one_of = ground (arith, c.is_least.one_of);
            least = (ground arith, c.is_least.least);
          };
        }
      ]

  module _ {W : Type 0} (lb : LoadBalancers W) (law : Describes lb certificates)
      (P : Work W → Type 0)
      (any_world : (s : Work W) (w : W) → P s → P (record s { world = w })) where
    abbrev Rows : List String → List Row → Work W → Type 0
    Rows arns rows u = P u × (rows ≡ map row arns)

    describe_each-Ends :
        (arns : List String) (s : Work W) → P s → Ends P (Rows arns) (describe_each lb arns s)
    unfolding describe_each
    describe_each-Ends [] s p = pure-Ends P (Rows []) [] s (p, refl)
    describe_each-Ends (a ∷ arns) s p =
        call-Ends P (Rows (a ∷ arns)) _ s (lb.describe_listener_certificates a)
          (λ w. any_world s w p)
          λ found w h.
            bind-Ends P (Rows arns) (Rows (a ∷ arns)) (describe_each lb arns) _ _
              (describe_each-Ends arns _ (any_world s w p))
              λ rows u (q, e).
                pure-Ends P (Rows (a ∷ arns)) _ u
                  (q, ground (arith, e, law.listed a s.world w found h))

    -- What holds whatever the service does, and the listener is one of those given, with the fewest
    -- certificates.
    unfoldable pub Lowest : List String → String × String → Work W → Type 0
    Lowest arns x u = P u × IsLeastUsed (x.1) arns

    -- The listener that was chosen is looked up.
    looked_up-Ends :
        (arns : List String) (arn : String) (s : Work W)
        → P s
        → IsLeastUsed arn arns
        → Ends P
            (Lowest arns)
            ((call (lb.describe_listeners arn) >>= λ found. lift (first_of found)) s)
    unfolding Lowest
    looked_up-Ends arns arn s p l =
        call-Ends P (Lowest arns) (λ found. lift (first_of found)) s (lb.describe_listeners arn)
          (λ w. any_world s w p)
          λ found w h. result-Ends P (Lowest arns) (first_of found) _ (any_world s w p) λ x e.
            (any_world s w p, subst (λ b. IsLeastUsed b arns) (sym (is_named found x w e h)) l)
      where
        is_named :
            (found : List (String × String)) (x : String × String) (w : W)
            → first_of found ≡ ok x
            → lb.describe_listeners arn s.world ≡ (ok found, w)
            → x.1 ≡ arn
        is_named [] x w e h = absurd (ground arith)
        is_named (y ∷ ys) x w e h =
            ap (λ (z : String × String). z.1) (sym (ok_same e)) ∙ law.named arn s.world w y ys h

    -- If the service lists the certificates of each listener and names the listener that it
    -- describes, then get_lowest_used_alb, when it returns, gives one of the listeners, and none of
    -- them has fewer certificates; what no call of the service can change is as before, however it
    -- ends.
    pub get_lowest_used_alb-Ends :
        (arns : List String) (s : Work W)
        → P s
        → Ends P (Lowest arns) (get_lowest_used_alb lb arns s)
    unfolding get_lowest_used_alb Lowest
    get_lowest_used_alb-Ends [] s p = raise-Ends P (Lowest []) _ s p
    get_lowest_used_alb-Ends (a ∷ arns) s p =
        let c = chosen a arns in
        bind-Ends P (Rows (a ∷ arns)) (Lowest (a ∷ arns)) (describe_each lb (a ∷ arns)) _ s
          (describe_each-Ends (a ∷ arns) s p)
          λ rows u (q, e).
            subst
              (λ l. Ends P (Lowest (a ∷ arns)) (
                (if is_empty l
                    then raise (runtime_error (plain "Could not find any HTTPS listeners"))
                    else (do
                      selected ← lift (first_of (sort_listeners l))
                      found ← call (lb.describe_listeners (selected.0))
                      lift (first_of found)))
                  u))
              (sym e)
              (lift-Ends P (Lowest (a ∷ arns)) _ u (first_of (sort_listeners (map row (a ∷ arns))))
                q
                λ selected h. looked_up-Ends (a ∷ arns) (selected.0) u q (
                  subst (λ b. IsLeastUsed b (a ∷ arns))
                    (ap (λ (z : Row). z.0) (ok_same (sym c.first ∙ h))) c.is_least))
