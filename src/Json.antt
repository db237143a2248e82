-- ===== src/Json.antt =====
-- JSON values: the parameters of a request, and the columns that store a parameter unchanged.
-- A parsed number is one of the natural numbers; a dictionary lists its keys once, in order.
pub mod Dicts
use external_domain_broker.Prelude.{
  string_eq, ℕ, zero, suc, String, Bool, true, false, none, some, List, [], ◌∷◌, ◌++◌, map, Result,
  ok, err, type_error, attribute_error, key_error, ◌>>=◌, lookup, ◌==◌,
}

mutual
  pub data Json : Type 0 where
    null : Json
    bool : Bool → Json
    num : ℕ → Json
    str : String → Json
    arr : Items → Json
    obj : Fields → Json

  pub data Items : Type 0 where
    nil : Items
    cons : Json → Items → Items

  pub data Fields : Type 0 where
    end : Fields
    field : String → Json → Fields → Fields

abbrev pub items : Items → List Json
items nil = []
items (cons x xs) = x ∷ items xs

abbrev pub fields : Fields → List (String × Json)
fields end = []
fields (field k v fs) = (k, v) ∷ fields fs

abbrev pub items_of : List Json → Items
items_of [] = nil
items_of (x ∷ xs) = cons x (items_of xs)

-- A parameter dictionary.
abbrev pub Params : Type 0
Params = List (String × Json)

-- `bool(x)`
abbrev pub truthy : Json → Bool
truthy null = false
truthy (bool b) = b
truthy (num zero) = false
truthy (num (suc n)) = true
truthy (str s) = elim (s == "") [ true ↦ false | false ↦ true ]
truthy (arr nil) = false
truthy (arr (cons x xs)) = true
truthy (obj end) = false
truthy (obj (field k v fs)) = true

-- `x is None`
abbrev pub is_null : Json → Bool
is_null null = true
is_null _ = false

-- `x == s` for a text `s`
abbrev pub is_str : String → Json → Bool
is_str s (str t) = t == s
is_str s _ = false

-- `params.get(k, default)`
unfoldable pub get : String → Json → Params → Json
unfolding lookup
get k default params = elim (lookup k params) [ none ↦ default | some v ↦ v ]

-- `k in params`
unfoldable pub has : String → Params → Bool
unfolding lookup
has k params = elim (lookup k params) [ none ↦ false | some v ↦ true ]

-- `params[k]`
unfoldable pub item : String → Params → Result Json
unfolding lookup
item k params = elim (lookup k params) [ none ↦ err key_error | some v ↦ ok v ]

-- A method of `str` called on a value.
abbrev pub text_of : Json → Result String
text_of (str s) = ok s
text_of _ = err attribute_error

-- The texts that a list holds, where a method of `str` is called on each item.
unfoldable pub texts : List Json → Result (List String)
texts [] = ok []
texts (x ∷ xs) = do s ← text_of x; rest ← texts xs; ok (s ∷ rest)

abbrev pub strings : List String → Json
strings ss = arr (items_of (map str ss))

-- `for x in v`: a list's items or a dictionary's keys; the characters of a text are no items here.
abbrev pub iterate : Json → Result (List Json)
iterate (arr xs) = ok (items xs)
iterate (obj fs) = ok (map (λ (e : String × Json). str e.0) (fields fs))
iterate _ = err type_error

-- `v.copy()`
abbrev pub copied : Json → Result Json
copied (arr xs) = ok (arr xs)
copied (obj fs) = ok (obj fs)
copied _ = err attribute_error

-- `v.append(x)`
abbrev pub appended : Json → Json → Result Json
appended (arr xs) x = ok (arr (items_of (items xs ++ x ∷ [])))
appended _ x = err attribute_error
