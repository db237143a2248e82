-- ===== src/Models/Post.antt =====
-- What a handler has done when it ends, and the rules for a handler that is a `do` block.
use external_domain_broker.Prelude.{
  Bool, true, false, if◌then◌else◌, Error, ◌≡◌, refl, sym, subst, Result, ok, err,
}
use external_domain_broker.Models.Store.{Session, Exec, pure, lift, require, proceed, ◌>>=◌}

abbrev Ends :
    {A : Type 0} (P : Session → Type 0) (Q : A → Session → Type 0) → Result A × Session → Type 0
Ends P Q (ok a, s) = P s × Q a s
Ends P Q (err e, s) = P s

-- `P` holds of the session in either case; `Q` of the value and the session, if there is a value.
pub record Post {A : Type 0} (P : Session → Type 0) (Q : A → Session → Type 0)
    (x : Result A × Session) : Type 0 where
  pub ends : Ends P Q x

-- Nothing about the value.
abbrev pub Any : {A : Type 0} → A → Session → Type 0
Any a s = Unit {0}

module _ {A : Type 0} (P : Session → Type 0) (Q : A → Session → Type 0) where
  pub ok-Post : (a : A) (s : Session) → P s → Q a s → Post P Q (ok a, s)
  ok-Post a s p q = record { ends = (p, q) }

  pub err-Post : (e : Error) (s : Session) → P s → Post P Q (err e, s)
  err-Post e s p = record { ends = p }

  pub pure-Post : (a : A) (s : Session) → P s → Q a s → Post P Q (pure a s)
  unfolding pure
  pure-Post a s p q = record { ends = (p, q) }

  ended : (x : Result A × Session) → Post P Q x → P (x.1)
  ended (ok a, s) h = (h.ends).0
  ended (err e, s) h = h.ends

  -- Whatever the handler gives.
  pub after : (m : Exec A) (s : Session) → Post P Q (m s) → P (m s).1
  after m s h = ended (m s) h

  pub if-Post :
      (b : Bool) (x y : Result A × Session)
      → Post P Q x
      → Post P Q y
      → Post P Q (if b then x else y)
  if-Post true x y h k = h
  if-Post false x y h k = k

pub choice-Post :
    {A : Type 0} (P : Session → Type 0) (Q : A → Session → Type 0) (b : Bool) (m n : Exec A)
    (s : Session)
    → Post P Q (m s)
    → Post P Q (n s)
    → Post P Q ((if b then m else n) s)
choice-Post P Q true m n s h k = h
choice-Post P Q false m n s h k = k

module _ {A B : Type 0} (P : Session → Type 0) where
  proceed-Post :
      (Q : A → Session → Type 0) (R : B → Session → Type 0) (r : Result A) (s : Session)
      (f : A → Exec B)
      → Post P Q (r, s)
      → ((a : A) (s' : Session) → P s' → Q a s' → Post P R (f a s'))
      → Post P R (proceed r f s)
  proceed-Post Q R (ok a) s f h k = k a s (h.ends).0 (h.ends).1
  proceed-Post Q R (err e) s f h k = record { ends = h.ends }

  pub bind-Post :
      (Q : A → Session → Type 0) (R : B → Session → Type 0) (m : Exec A) (f : A → Exec B)
      (s : Session)
      → Post P Q (m s)
      → ((a : A) (s' : Session) → P s' → Q a s' → Post P R (f a s'))
      → Post P R ((m >>= f) s)
  unfolding ◌>>=◌
  bind-Post Q R m f s h k = let (r, s') = m s in proceed-Post Q R r s' f h k

  module _ (R : B → Session → Type 0) (f : A → Exec B) (s : Session) (p : P s) where
    read_proceed :
        (r : Result A) → ((a : A) → r ≡ ok a → Post P R (f a s)) → Post P R (proceed r f s)
    read_proceed (ok a) k = k a refl
    read_proceed (err e) k = record { ends = p }

    -- A step that only reads the session.
    pub read-Post :
        (m : Exec A) (r : Result A)
        → m s ≡ (r, s)
        → ((a : A) → r ≡ ok a → Post P R (f a s))
        → Post P R ((m >>= f) s)
    unfolding ◌>>=◌
    read-Post m r e k =
        subst (λ (x : Result A × Session). Post P R (proceed (x.0) f (x.1))) (sym e)
          (read_proceed r k)

    pub lift-Post :
        (r : Result A) → ((a : A) → r ≡ ok a → Post P R (f a s)) → Post P R ((lift r >>= f) s)
    unfolding lift
    lift-Post r k = read-Post (lift r) r refl k

-- A test that raises, and what comes after it.
pub require-Post :
    {B : Type 0} (P : Session → Type 0) (R : B → Session → Type 0) (b : Bool) (e : Error)
    (f : Unit {0} → Exec B) (s : Session)
    → P s
    → (b ≡ true → Post P R (f tt s))
    → Post P R ((require b e >>= f) s)
unfolding ◌>>=◌ require
require-Post P R true e f s p k = k refl
require-Post P R false e f s p k = record { ends = p }

weaken-Ends :
    {A : Type 0} {P P' : Session → Type 0} {Q Q' : A → Session → Type 0} (x : Result A × Session)
    → ((s : Session) → P s → P' s)
    → ((a : A) (s : Session) → P s → Q a s → Q' a s)
    → Ends P Q x
    → Ends P' Q' x
weaken-Ends (ok a, s) f g h = (f s h.0, g a s h.0 h.1)
weaken-Ends (err e, s) f g h = f s h

pub weaken-Post :
    {A : Type 0} {P P' : Session → Type 0} {Q Q' : A → Session → Type 0} (x : Result A × Session)
    → ((s : Session) → P s → P' s)
    → ((a : A) (s : Session) → P s → Q a s → Q' a s)
    → Post P Q x
    → Post P' Q' x
weaken-Post x f g h = record { ends = weaken-Ends x f g h.ends }
