-- ===== src/Tasks/Balancers/Twice.antt =====
-- Loading the dedicated load balancers again, in broker/models.py.
use external_domain_broker.Prelude.{
  String, string_eq, ◌==◌, eq_refl, eq_iff, Bool, true, false, not, ◌||◌, ◌&&◌, List, [], ◌∷◌, ◌++◌,
  ok, ◌≡◌, refl, sym, subst, ap, ◌∙◌, arith, any, is_empty, All, if◌then◌else◌, Bool-cases, inl,
  inr, ◌⊎◌,
}
use external_domain_broker.Tasks.Work.{Work, DedicatedAlbListener}
use external_domain_broker.Tasks.Balancers.{
  Entry, insert_new_listener, insert_listeners, new_listener, load_alb_listeners,
}

unfoldable pub has_listener : String → List DedicatedAlbListener → Bool
unfolding any
has_listener arn ls = any (λ (k : DedicatedAlbListener). k.listener_arn == arn) ls

-- No ARN twice.
unfoldable pub is_unique : List DedicatedAlbListener → Bool
unfolding has_listener
is_unique [] = true
is_unique (l ∷ ls) = not (has_listener l.listener_arn ls) && is_unique ls

has_listener-append :
    (a : String) (ls : List DedicatedAlbListener) (l : DedicatedAlbListener)
    → has_listener a (ls ++ l ∷ []) ≡ (has_listener a ls || l.listener_arn == a)
unfolding any has_listener
has_listener-append a [] l = ground arith
has_listener-append a (k ∷ ls) l = ground (arith, has_listener-append a ls l)

-- A listener that is there is not inserted.
inserted_there :
    (l : DedicatedAlbListener) (ls : List DedicatedAlbListener)
    → has_listener l.listener_arn ls ≡ true
    → insert_new_listener l ls ≡ ls
unfolding insert_new_listener any has_listener
inserted_there l ls h = ap (λ b. if b then ls else ls ++ l ∷ []) h

inserted_last :
    (l : DedicatedAlbListener) (ls : List DedicatedAlbListener)
    → has_listener l.listener_arn ls ≡ false
    → insert_new_listener l ls ≡ ls ++ l ∷ []
unfolding insert_new_listener any has_listener
inserted_last l ls h = ap (λ b. if b then ls else ls ++ l ∷ []) h

insert_new_listener-has :
    (a : String) (l : DedicatedAlbListener) (ls : List DedicatedAlbListener)
    → has_listener a (insert_new_listener l ls) ≡ (has_listener a ls || l.listener_arn == a)
insert_new_listener-has a l ls = elim (Bool-cases (has_listener l.listener_arn ls)) [
  | inl y ↦
      ap (has_listener a) (inserted_there l ls y) ∙ absorbed (Bool-cases (l.listener_arn == a)) y
  | inr n ↦ ap (has_listener a) (inserted_last l ls n) ∙ has_listener-append a ls l
]
  where
    absorbed :
        ((l.listener_arn == a) ≡ true) ⊎ ((l.listener_arn == a) ≡ false)
        → has_listener l.listener_arn ls ≡ true
        → has_listener a ls ≡ (has_listener a ls || l.listener_arn == a)
    absorbed (inl e) y =
        let there = subst (λ b. has_listener b ls ≡ true) ((eq_iff l.listener_arn a).0 e) y in
        there ∙ sym (ap (λ b. b || l.listener_arn == a) there)
    absorbed (inr e) y = ground (arith, e)

still_there :
    (a : String) (es : List Entry) (ls : List DedicatedAlbListener)
    → has_listener a ls ≡ true
    → has_listener a (insert_listeners es ls) ≡ true
unfolding insert_listeners
still_there a [] ls h = h
still_there a (e ∷ es) ls h =
    still_there a es (insert_new_listener (new_listener e) ls)
      (insert_new_listener-has a (new_listener e) ls ∙ ap (λ b. b || (e.listener_arn == a)) h)

-- Every entry has its listener.
abbrev pub Present : List Entry → List DedicatedAlbListener → Type 0
Present es ls = All (λ (e : Entry). has_listener e.listener_arn ls ≡ true) es

all-Present :
    (es : List Entry) (ls : List DedicatedAlbListener) → Present es (insert_listeners es ls)
unfolding insert_listeners
all-Present [] ls = tt
all-Present (e ∷ es) ls = (
  still_there e.listener_arn es (insert_new_listener (new_listener e) ls) (
      insert_new_listener-has e.listener_arn (new_listener e) ls
      ∙ ground (arith, eq_refl e.listener_arn)),
  all-Present es (insert_new_listener (new_listener e) ls),
)

inserted_again :
    (es : List Entry) (ls : List DedicatedAlbListener) → Present es ls → insert_listeners es ls ≡ ls
unfolding insert_listeners
inserted_again [] ls h = refl
inserted_again (e ∷ es) ls (p, h) =
    ap (insert_listeners es) (inserted_there (new_listener e) ls p) ∙ inserted_again es ls h

is_unique-append :
    (ls : List DedicatedAlbListener) (l : DedicatedAlbListener)
    → is_unique ls ≡ true
    → has_listener l.listener_arn ls ≡ false
    → is_unique (ls ++ l ∷ []) ≡ true
unfolding is_unique has_listener any
is_unique-append [] l h n = refl
is_unique-append (k ∷ ls) l h n = ground (
  arith,
  is_unique-append ls l,
  has_listener-append k.listener_arn ls l,
  eq_iff k.listener_arn l.listener_arn,
  eq_iff l.listener_arn k.listener_arn,
)

insert_listeners_unique :
    (es : List Entry) (ls : List DedicatedAlbListener)
    → is_unique ls ≡ true
    → is_unique (insert_listeners es ls) ≡ true
unfolding insert_listeners
insert_listeners_unique [] ls h = h
insert_listeners_unique (e ∷ es) ls h =
    insert_listeners_unique es _ (elim (Bool-cases (has_listener e.listener_arn ls)) [
      | inl y ↦ subst (λ k. is_unique k ≡ true) (sym (inserted_there (new_listener e) ls y)) h
      | inr n ↦
          subst (λ k. is_unique k ≡ true) (sym (inserted_last (new_listener e) ls n))
            (is_unique-append ls (new_listener e) h n)
    ])

-- What loading the listeners does: no ARN comes twice, every listener of the map is there, and
-- loading them again changes nothing.
pub record IsLoaded {W : Type 0} (es : List Entry) (s : Work W) : Type 0 where
  pub unique : is_unique s.tables.listeners ≡ true
  pub present : Present es s.tables.listeners
  pub again : load_alb_listeners es s ≡ (ok tt, s)

-- If the map is not empty and no two rows of the listeners have the same ARN, load_alb_listeners
-- returns, and then no two have, each listener of the map is there, and running it again changes
-- nothing.
pub load_alb_listeners-IsLoaded :
    {W : Type 0} (es : List Entry) (s : Work W)
    → is_empty es ≡ false
    → is_unique s.tables.listeners ≡ true
    → let x = load_alb_listeners es s in (x.0 ≡ ok tt) × IsLoaded es (x.1)
unfolding load_alb_listeners
load_alb_listeners-IsLoaded [] s n h = absurd (ground arith)
load_alb_listeners-IsLoaded (e ∷ es) s n h =
    let all = e ∷ es in
    (
      refl,
      record {
        unique = insert_listeners_unique all s.tables.listeners h;
        present = all-Present all s.tables.listeners;
        again =
            ap (λ ls. (ok tt, record s { tables = record s.tables { listeners = ls } }))
              (inserted_again all (insert_listeners all s.tables.listeners)
                (all-Present all s.tables.listeners));
      },
    )
