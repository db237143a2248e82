-- ===== src/Text/Defs.antt =====
-- Python's `strip`, `replace`, `split`, `upper` and `lower`.
use Prim.Native.Char.{Char, code}
use Prim.Native.String.{[], ◌∷◌}
use text.Mathlib.TextEquality.{Char-path}
use mathlib.Core.List.{List}
use external_domain_broker.Prelude.{
  String, Bool, true, ◌&&◌, ◌||◌, ◌≡◌, ◌⊎◌, inl, inr, refl, ap, leb, if◌then◌else◌, nat_beq,
  nat_beq_iff, arith,
}
use external_domain_broker.Text.Letters.{Table, upper_table, lower_table}

abbrev pub same_char : Char → Char → Bool
same_char a b = nat_beq (code a) (code b)

translate : Table → Char → Char
translate List.[] c = c
translate (List.◌∷◌ (from, to) rest) c = if same_char from c then to else translate rest c

each : (Char → Char) → String → String
each f [] = []
each f (c ∷ s) = f c ∷ each f s

unfoldable pub upper : String → String
unfolding translate each
upper = each (translate upper_table)

unfoldable pub lower : String → String
unfolding translate each
lower = each (translate lower_table)

-- space, tab, line feed, vertical tab, form feed, carriage return, and the separators 28 to 31
abbrev is_space : Char → Bool
is_space c = let n = code c in nat_beq n 32 || (leb 9 n && leb n 13) || (leb 28 n && leb n 31)

lstrip : String → String
lstrip [] = []
lstrip (c ∷ s) = let rest = lstrip s in if is_space c then rest else c ∷ s

abbrev keep : Bool → Char → String → String
keep space c [] = if space then [] else c ∷ []
keep space c (d ∷ s) = c ∷ d ∷ s

rstrip : String → String
rstrip [] = []
rstrip (c ∷ s) = keep (is_space c) c (rstrip s)

unfoldable pub strip : String → String
unfolding lstrip rstrip
strip s = rstrip (lstrip s)

-- `s.replace(c, "")` for one character
unfoldable pub without : Char → String → String
without sep [] = []
without sep (c ∷ s) = let rest = without sep s in if same_char sep c then rest else c ∷ rest

abbrev grow : Char → List String → List String
grow c List.[] = List.◌∷◌ (c ∷ []) List.[]
grow c (List.◌∷◌ s rest) = List.◌∷◌ (c ∷ s) rest

-- `s.split(sep)` for one character
unfoldable pub split : Char → String → List String
split sep [] = List.◌∷◌ [] List.[]
split sep (c ∷ s) =
    let rest = split sep s in if same_char sep c then List.◌∷◌ [] rest else grow c rest

-- Every letter that the table gives stays as it is.
fixed : Table → Table → Bool
fixed all List.[] = true
fixed all (List.◌∷◌ (from, to) rest) = same_char (translate all to) to && fixed all rest

translate-fixed :
    (all t : Table) (c : Char)
    → fixed all t ≡ true
    → (code (translate all (translate t c)) ≡ code (translate t c)) ⊎ (translate t c ≡ c)
unfolding fixed translate
translate-fixed all List.[] c h = inr refl
translate-fixed all (List.◌∷◌ (from, to) rest) c h =
    ground (arith, translate-fixed all rest c, nat_beq_iff (code (translate all to)) (code to))

upper_fixed : fixed upper_table upper_table ≡ true
unfolding fixed translate
upper_fixed = refl

lower_fixed : fixed lower_table lower_table ≡ true
unfolding fixed translate
lower_fixed = refl

translate_idem :
    (t : Table) (c : Char) → fixed t t ≡ true → translate t (translate t c) ≡ translate t c
translate_idem t c h = elim (translate-fixed t t c h) [
  | inl same ↦ Char-path _ _ same
  | inr same ↦ ap (translate t) same
]

each_idem :
    (f : Char → Char) → ((c : Char) → f (f c) ≡ f c) → (s : String) → each f (each f s) ≡ each f s
unfolding each
each_idem f h [] = refl
each_idem f h (c ∷ s) = cc (h c, each_idem f h s)

pub upper_idem : (s : String) → upper (upper s) ≡ upper s
unfolding upper
upper_idem s = each_idem (translate upper_table) (λ c. translate_idem upper_table c upper_fixed) s

pub lower_idem : (s : String) → lower (lower s) ≡ lower s
unfolding lower
lower_idem s = each_idem (translate lower_table) (λ c. translate_idem lower_table c lower_fixed) s
