-- ===== src/Text/Order.antt =====
-- The order of texts by code points, `sorted`, and the set of a list's texts.
use Prim.Native.Char.{code}
use external_domain_broker.Prelude.{
  string_eq, String, Bool, true, false, ◌||◌, ◌≡◌, refl, List, [], ◌∷◌, ltb, if◌then◌else◌, elem,
  ◌==◌, eq_iff, arith,
}

-- `a <= b`
unfoldable pub str_leb : String → String → Bool
str_leb String.[] t = true
str_leb (String.◌∷◌ c s) String.[] = false
str_leb (String.◌∷◌ c s) (String.◌∷◌ d t) =
    let rest = str_leb s t in
    if ltb (code c) (code d) then true else if ltb (code d) (code c) then false else rest

pub str_leb_total : (a b : String) → str_leb a b ≡ false → str_leb b a ≡ true
unfolding str_leb
str_leb_total String.[] b h = ground arith
str_leb_total (String.◌∷◌ c s) String.[] h = refl
str_leb_total (String.◌∷◌ c s) (String.◌∷◌ d t) h = ground (arith, str_leb_total s t)

pub str_leb_trans : (a b c : String) → str_leb a b ≡ true → str_leb b c ≡ true → str_leb a c ≡ true
unfolding str_leb
str_leb_trans String.[] b c h k = refl
str_leb_trans (String.◌∷◌ x a) String.[] c h k = ground arith
str_leb_trans (String.◌∷◌ x a) (String.◌∷◌ y b) String.[] h k = ground arith
str_leb_trans (String.◌∷◌ x a) (String.◌∷◌ y b) (String.◌∷◌ z c) h k =
    ground (arith, str_leb_trans a b c)

insert : String → List String → List String
insert x [] = x ∷ []
insert x (y ∷ ys) = let rest = insert x ys in if str_leb x y then x ∷ y ∷ ys else y ∷ rest

-- `sorted(xs)`
unfoldable pub sorted : List String → List String
unfolding insert
sorted [] = []
sorted (x ∷ xs) = insert x (sorted xs)

-- `list({x for x in xs})`, in some order
unfoldable pub unique : List String → List String
unique [] = []
unique (x ∷ xs) = let rest = unique xs in if elem x rest then rest else x ∷ rest

elem-insert : (d x : String) (xs : List String) → elem d (insert x xs) ≡ (x == d || elem d xs)
unfolding elem insert
elem-insert d x [] = refl
elem-insert d x (y ∷ ys) = ground (arith, elem-insert d x ys)

pub elem-sorted : (d : String) (xs : List String) → elem d (sorted xs) ≡ elem d xs
unfolding sorted elem
elem-sorted d [] = refl
elem-sorted d (x ∷ xs) = ground (arith, elem-insert d x (sorted xs), elem-sorted d xs)

pub elem-unique : (d : String) (xs : List String) → elem d (unique xs) ≡ elem d xs
unfolding unique elem
elem-unique d [] = refl
elem-unique d (x ∷ xs) = ground (arith, elem-unique d xs, elem-unique x xs, eq_iff x d)

-- Every text is above the ones before it and differs from them.
abbrev pub Above : String → List String → Type 0
Above x [] = Unit
Above x (y ∷ ys) = (str_leb x y ≡ true) × ((x == y) ≡ false) × Above x ys

abbrev pub IsAscending : List String → Type 0
IsAscending [] = Unit
IsAscending (x ∷ xs) = Above x xs × IsAscending xs

Above-insert :
    (y x : String) (xs : List String)
    → str_leb y x ≡ true
    → (y == x) ≡ false
    → Above y xs
    → Above y (insert x xs)
unfolding insert
Above-insert y x [] h k a = (h, k, tt)
Above-insert y x (z ∷ xs) h k a = ground (arith, Above-insert y x xs h k)

Above-of_leb :
    (x y : String) (xs : List String)
    → str_leb x y ≡ true
    → elem x xs ≡ false
    → Above y xs
    → Above x xs
unfolding elem
Above-of_leb x y [] h k a = tt
Above-of_leb x y (z ∷ xs) h k a =
    ground (arith, str_leb_trans x y z h, eq_iff z x, eq_iff x z, Above-of_leb x y xs h)

insert-IsAscending :
    (x : String) (xs : List String) → elem x xs ≡ false → IsAscending xs → IsAscending (insert x xs)
unfolding insert elem
insert-IsAscending x [] k a = (tt, tt)
insert-IsAscending x (y ∷ xs) k a = ground (
  arith,
  str_leb_total x y,
  Above-of_leb x y xs,
  Above-insert y x xs,
  insert-IsAscending x xs,
  eq_iff y x,
  eq_iff x y,
)

-- The sorted set of a list's texts holds no text twice.
pub sorted-unique-IsAscending : (xs : List String) → IsAscending (sorted (unique xs))
unfolding sorted unique
sorted-unique-IsAscending [] = tt
sorted-unique-IsAscending (x ∷ xs) = ground (
  arith,
  sorted-unique-IsAscending xs,
  elem-sorted x (unique xs),
  insert-IsAscending x (sorted (unique xs)),
)

insert_of_Above : (x : String) (xs : List String) → Above x xs → insert x xs ≡ x ∷ xs
unfolding insert
insert_of_Above x [] a = refl
insert_of_Above x (y ∷ xs) a = ground arith

pub sorted_of_IsAscending : (xs : List String) → IsAscending xs → sorted xs ≡ xs
unfolding sorted
sorted_of_IsAscending [] a = refl
sorted_of_IsAscending (x ∷ xs) a = rw (sorted_of_IsAscending xs a.1) (insert_of_Above x xs a.0)

elem_of_Above : (x : String) (xs : List String) → Above x xs → elem x xs ≡ false
unfolding elem
elem_of_Above x [] a = refl
elem_of_Above x (y ∷ xs) a = ground (arith, elem_of_Above x xs, eq_iff x y, eq_iff y x)

pub unique_of_IsAscending : (xs : List String) → IsAscending xs → unique xs ≡ xs
unfolding unique
unique_of_IsAscending [] a = refl
unique_of_IsAscending (x ∷ xs) a =
    rw (unique_of_IsAscending xs a.1) (ground (arith, elem_of_Above x xs))
