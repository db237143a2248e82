-- ===== src/Tasks/Rules.antt =====
-- What a task has done when it ends, and the rules for a task that is a `do` block.
use external_domain_broker.Prelude.{
  Bool, true, false, if◌then◌else◌, Error, ◌≡◌, refl, ap, Result, ok, err, String, Option, none,
  some, attribute_error,
}
use external_domain_broker.Models.{ServiceInstance, Certificate, find}
use external_domain_broker.Tasks.Work.{
  Work, Act, Service, proceed, ◌>>=◌, pure, raise, lift, call, tried, load, unless, accepting,
  new_certificate_of, current_certificate_of,
}

abbrev Holds :
    {W A : Type 0} (E : Work W → Type 0) (Q : A → Work W → Type 0) → Result A × Work W → Type 0
Holds E Q (ok a, s) = Q a s
Holds E Q (err e, s) = E s

-- `Q` holds of the value and the state if the task returns, and `E` of the state if it raises.
pub record Ends {W A : Type 0} (E : Work W → Type 0) (Q : A → Work W → Type 0)
    (x : Result A × Work W) : Type 0 where
  pub at : Holds E Q x

module _ {W : Type 0} (E : Work W → Type 0) where
  module _ {A : Type 0} (Q : A → Work W → Type 0) where
    pub ok-Ends : (a : A) (s : Work W) → Q a s → Ends E Q (ok a, s)
    ok-Ends a s q = record { at = q }

    pub err-Ends : (e : Error) (s : Work W) → E s → Ends E Q (err e, s)
    err-Ends e s q = record { at = q }

    pub pure-Ends : (a : A) (s : Work W) → Q a s → Ends E Q (pure a s)
    unfolding pure
    pure-Ends a s q = record { at = q }

    pub raise-Ends : (e : Error) (s : Work W) → E s → Ends E Q (raise e s)
    unfolding raise
    raise-Ends e s q = record { at = q }

    pub result-Ends :
        (r : Result A) (s : Work W) → E s → ((a : A) → r ≡ ok a → Q a s) → Ends E Q (lift r s)
    unfolding lift
    result-Ends (ok a) s e k = record { at = k a refl }
    result-Ends (err c) s e k = record { at = e }

    -- A call that ends the task.
    pub service-Ends :
        (m : Service W A) (s : Work W)
        → ((w : W) → E (record s { world = w }))
        → ((a : A) (w : W) → m s.world ≡ (ok a, w) → Q a (record s { world = w }))
        → Ends E Q (call m s)
    unfolding call
    service-Ends m s e k = answered (m s.world) refl
      where
        answered : (x : Result A × W) → m s.world ≡ x → Ends E Q (x.0, record s { world = x.1 })
        answered (ok a, w) h = record { at = k a w h }
        answered (err c, w) h = record { at = e w }

    -- A call that ends the task, with what it did also when it raises.
    pub request-Ends :
        (m : Service W A) (s : Work W)
        → ((e : Error) (w : W) → m s.world ≡ (err e, w) → E (record s { world = w }))
        → ((a : A) (w : W) → m s.world ≡ (ok a, w) → Q a (record s { world = w }))
        → Ends E Q (call m s)
    unfolding call
    request-Ends m s e k = answered (m s.world) refl
      where
        answered : (x : Result A × W) → m s.world ≡ x → Ends E Q (x.0, record s { world = x.1 })
        answered (ok a, w) h = record { at = k a w h }
        answered (err c, w) h = record { at = e c w h }

    pub choice-Ends :
        (b : Bool) (m n : Act W A) (s : Work W)
        → (b ≡ true → Ends E Q (m s))
        → (b ≡ false → Ends E Q (n s))
        → Ends E Q ((if b then m else n) s)
    choice-Ends true m n s h k = h refl
    choice-Ends false m n s h k = k refl

  pub unless-Ends :
      (Q : Unit {0} → Work W → Type 0) (is_accepted : Error → Bool) (m : Service W (Unit {0}))
      (s : Work W)
      → ((w : W) → E (record s { world = w }))
      → ((w : W) → Q tt (record s { world = w }))
      → Ends E Q (unless is_accepted m s)
  unfolding unless
  unless-Ends Q is_accepted m s e q = let (r, w) = m s.world in answered r w
    where
      answered :
          (r : Result (Unit {0})) (w : W)
          → Ends E Q (accepting is_accepted r, record s { world = w })
      answered (ok a) w = record { at = q w }
      answered (err c) w =
          elim (is_accepted c)
            as (λ b. Ends E Q (if b then ok tt else err c, record s { world = w })) [
              | true ↦ record { at = q w }
              | false ↦ record { at = e w }
            ]

  -- The same, with what the call did.
  pub unless_asked-Ends :
      (Q : Unit {0} → Work W → Type 0) (is_accepted : Error → Bool) (m : Service W (Unit {0}))
      (s : Work W)
      → ((e : Error) (w : W) → m s.world ≡ (err e, w) → E (record s { world = w }))
      → ((w : W) → m s.world ≡ (ok tt, w) → Q tt (record s { world = w }))
      → ((e : Error) (w : W)
          → m s.world ≡ (err e, w)
          → is_accepted e ≡ true
          → Q tt (record s { world = w }))
      → Ends E Q (unless is_accepted m s)
  unfolding unless
  unless_asked-Ends Q is_accepted m s e q k = answered (m s.world) refl
    where
      split :
          (b : Bool) (c : Error) (w : W)
          → E (record s { world = w })
          → (b ≡ true → Q tt (record s { world = w }))
          → Ends E Q (if b then ok tt else err c, record s { world = w })
      split true c w x y = record { at = y refl }
      split false c w x y = record { at = x }

      answered :
          (x : Result (Unit {0}) × W)
          → m s.world ≡ x
          → Ends E Q (accepting is_accepted (x.0), record s { world = x.1 })
      answered (ok a, w) h = record { at = q w h }
      answered (err c, w) h = split (is_accepted c) c w (e c w h) (k c w h)

  module _ {A B : Type 0} (Q : A → Work W → Type 0) (R : B → Work W → Type 0) where
    proceed-Ends :
        (r : Result A) (s : Work W) (f : A → Act W B)
        → Ends E Q (r, s)
        → ((a : A) (t : Work W) → Q a t → Ends E R (f a t))
        → Ends E R (proceed r f s)
    proceed-Ends (ok a) s f h k = k a s h.at
    proceed-Ends (err e) s f h k = record { at = h.at }

    pub bind-Ends :
        (m : Act W A) (f : A → Act W B) (s : Work W)
        → Ends E Q (m s)
        → ((a : A) (t : Work W) → Q a t → Ends E R (f a t))
        → Ends E R ((m >>= f) s)
    unfolding ◌>>=◌
    bind-Ends m f s h k = let (r, t) = m s in proceed-Ends r t f h k

  module _ {A : Type 0} (Q R : A → Work W → Type 0) where
    pub weaken-Ends :
        (x : Result A × Work W) → Ends E Q x → ((a : A) (s : Work W) → Q a s → R a s) → Ends E R x
    weaken-Ends (ok a, s) h k = record { at = k a s h.at }
    weaken-Ends (err e, s) h k = record { at = h.at }

  module _ {A : Type 0} (F : Work W → Type 0) (Q R : A → Work W → Type 0) where
    -- Weaker statements for both ends.
    pub relax-Ends :
        (x : Result A × Work W)
        → Ends F Q x
        → ((s : Work W) → F s → E s)
        → ((a : A) (s : Work W) → Q a s → R a s)
        → Ends E R x
    relax-Ends (ok a, s) h e k = record { at = k a s h.at }
    relax-Ends (err c, s) h e k = record { at = e s h.at }

  module _ {A B : Type 0} (R : B → Work W → Type 0) (f : A → Act W B) (s : Work W) where
    -- A call of a service, which leaves the tables as they are.
    pub call-Ends :
        (m : Service W A)
        → ((w : W) → E (record s { world = w }))
        → ((a : A) (w : W) → m s.world ≡ (ok a, w) → Ends E R (f a (record s { world = w })))
        → Ends E R ((call m >>= f) s)
    unfolding ◌>>=◌ call
    call-Ends m e k = answered (m s.world) refl
      where
        answered :
            (x : Result A × W)
            → m s.world ≡ x
            → Ends E R (proceed (x.0) f (record s { world = x.1 }))
        answered (ok a, w) h = k a w h
        answered (err c, w) h = record { at = e w }

    -- The same, with what the call did also when it raises.
    pub asked-Ends :
        (m : Service W A)
        → ((e : Error) (w : W) → m s.world ≡ (err e, w) → E (record s { world = w }))
        → ((a : A) (w : W) → m s.world ≡ (ok a, w) → Ends E R (f a (record s { world = w })))
        → Ends E R ((call m >>= f) s)
    unfolding ◌>>=◌ call
    asked-Ends m e k = answered (m s.world) refl
      where
        answered :
            (x : Result A × W)
            → m s.world ≡ x
            → Ends E R (proceed (x.0) f (record s { world = x.1 }))
        answered (ok a, w) h = k a w h
        answered (err c, w) h = record { at = e c w h }

    pub lift-Ends :
        (r : Result A) → E s → ((a : A) → r ≡ ok a → Ends E R (f a s)) → Ends E R ((lift r >>= f) s)
    unfolding ◌>>=◌ lift
    lift-Ends (ok a) e k = k a refl
    lift-Ends (err c) e k = record { at = e }

  module _ {B : Type 0} (R : B → Work W → Type 0) (s : Work W) (i : ServiceInstance)
      (f : Certificate → Act W B) (e : E s)
      (k : (certificate : Certificate) → Ends E R (f certificate s)) where
    pub new_certificate-Ends : Ends E R ((new_certificate_of i >>= f) s)
    unfolding ◌>>=◌ lift new_certificate_of
    new_certificate-Ends = lift-Ends R f s ((new_certificate_of i s).0) e λ a h. k a

    pub current_certificate-Ends : Ends E R ((current_certificate_of i >>= f) s)
    unfolding ◌>>=◌ lift current_certificate_of
    current_certificate-Ends = lift-Ends R f s ((current_certificate_of i s).0) e λ a h. k a

  module _ {B : Type 0} (R : B → Work W → Type 0) (s : Work W) where
    pub load-Ends :
        (id : String) (g : ServiceInstance → Act W B)
        → E s
        → ((i : ServiceInstance) → find id s.tables.instances ≡ some i → Ends E R (g i s))
        → Ends E R ((load id >>= g) s)
    unfolding ◌>>=◌ load
    load-Ends id g e k = found (find id s.tables.instances) refl
      where
        found :
            (o : Option ServiceInstance)
            → find id s.tables.instances ≡ o
            → Ends E R (
                proceed
                  ((elim o as (λ x. Result ServiceInstance × Work W) [
                    | none ↦ (err attribute_error, s)
                    | some i ↦ (ok i, s)
                  ]).0)
                  g
                  ((elim o as (λ x. Result ServiceInstance × Work W) [
                    | none ↦ (err attribute_error, s)
                    | some i ↦ (ok i, s)
                  ]).1))
        found none h = record { at = e }
        found (some i) h = k i h

    -- A call whose exceptions are looked at.
    pub tried-Ends :
        {A : Type 0} (m : Service W A) (g : Result A → Act W B)
        → ((r : Result A) (w : W) → m s.world ≡ (r, w) → Ends E R (g r (record s { world = w })))
        → Ends E R ((tried (call m) >>= g) s)
    unfolding ◌>>=◌ call tried
    tried-Ends m g k = let (r, w) = m s.world in k r w refl

module _ {W B : Type 0} where
  -- A loaded instance.
  pub load_found :
      (s : Work W) (id : String) (i : ServiceInstance) (g : ServiceInstance → Act W B)
      → find id s.tables.instances ≡ some i
      → (load id >>= g) s ≡ g i s
  unfolding load ◌>>=◌
  load_found s id i g f =
      ap
        (λ (o : Option ServiceInstance).
          let x = elim o as (λ p. Result ServiceInstance × Work W) [
            | none ↦ (err attribute_error, s)
            | some j ↦ (ok j, s)
          ] in
          proceed (x.0) g (x.1))
        f
