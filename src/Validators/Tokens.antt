-- ===== src/Validators/Tokens.antt =====
-- The characters of a header's name, as RFC 7230 lists them, and those that the class `HeaderList`
-- of broker/validators.py allows.
use Prim.Native.Char.{code}
use external_domain_broker.Prelude.{
  ℕ, String, string_eq, ◌==◌, ok, refl, ◌↔◌, Bool, true, false, not, ◌&&◌, ◌||◌, leb, nat_beq, ◌≡◌,
  List, [], ◌∷◌, arith,
}
use external_domain_broker.Validators.Inputs.{is_allowed, all_allowed, validate_headers}

-- The marks of `tchar`.
abbrev pub marks : List ℕ
marks =
    b'!' ∷ b'#' ∷ b'$' ∷ b'%' ∷ b'&' ∷ 39 ∷ b'*' ∷ b'+' ∷ b'-' ∷ b'.' ∷ b'^' ∷ b'_' ∷ b'`' ∷ b'|'
    ∷ b'~' ∷ []

abbrev pub is_among : ℕ → List ℕ → Bool
is_among n [] = false
is_among n (m ∷ ms) = nat_beq n m || is_among n ms

abbrev pub is_token : ℕ → Bool
is_token n =
    is_among n marks
    || (leb b'0' n && leb n b'9')
    || (leb b'A' n && leb n b'Z')
    || (leb b'a' n && leb n b'z')

-- The characters that are allowed in a header are the token characters of RFC 7230, except for the
-- tilde, which is not allowed.
pub is_allowed-is_token : (n : ℕ) → is_allowed n ≡ (is_token n && not (nat_beq n b'~'))
unfolding is_allowed
is_allowed-is_token n = ground arith

-- Every character of a text is a token character, and none is a tilde.
is_plain_token : String → Bool
is_plain_token String.[] = true
is_plain_token (String.◌∷◌ c s) =
    is_token (code c) && not (nat_beq (code c) b'~') && is_plain_token s

all_allowed-is_plain_token : (s : String) → all_allowed s ≡ is_plain_token s
unfolding all_allowed is_plain_token
all_allowed-is_plain_token String.[] = refl
all_allowed-is_plain_token (String.◌∷◌ c s) =
    rw (is_allowed-is_token (code c), all_allowed-is_plain_token s) refl

pub are_plain_tokens : List String → Bool
are_plain_tokens [] = true
are_plain_tokens (h ∷ hs) = not (h == "") && is_plain_token h && are_plain_tokens hs

-- A list of headers is accepted exactly when none of them is empty and every character of each is a
-- token character of RFC 7230 other than the tilde.
pub validate_headers_iff :
    (hs : List String) → (validate_headers hs ≡ ok tt) ↔ (are_plain_tokens hs ≡ true)
unfolding validate_headers are_plain_tokens
validate_headers_iff [] = ground arith
validate_headers_iff (h ∷ hs) =
    ground (arith, validate_headers_iff hs, all_allowed-is_plain_token h)
