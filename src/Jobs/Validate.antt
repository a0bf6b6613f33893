-- ===== src/Jobs/Validate.antt =====
-- The argument checks of legal_rag/jobs/store.py. A value has its Python type in the model, so the
-- `isinstance` tests are always passed; a text is checked by its code points.
use legal_rag_agent.Prelude.{
  ℕ, ◌≡◌, arith, Bool, true, false, ◌&&◌, ◌||◌, not, Option, none, some, List, [], ◌∷◌, String,
  ◌++◌, length, all, any, codes, ltb, leb, ◌==◌,
}
use legal_rag_agent.Jobs.Result.{Result, ok, err, contract, require}

is_lower : ℕ → Bool
is_lower c = leb b'a' c && leb c b'z'

is_upper : ℕ → Bool
is_upper c = leb b'A' c && leb c b'Z'

is_digit : ℕ → Bool
is_digit c = leb b'0' c && leb c b'9'

is_alnum : ℕ → Bool
unfolding is_lower is_upper is_digit
is_alnum c = is_lower c || (is_upper c || is_digit c)

-- A code point is blank for Python's `str.strip`: ASCII and Latin-1 spaces, and the Unicode ones.
unfoldable pub is_space : ℕ → Bool
is_space c =
    (leb 9 c && leb c 13)
    || ((leb 28 c && leb c 32)
        || ((c == 0x85 || c == 0xa0)
            || ((c == 0x1680 || (leb 0x2000 c && leb c 0x200a))
                || ((c == 0x2028 || c == 0x2029)
                    || (c == 0x202f || (c == 0x205f || c == 0x3000))))))

-- A first character in one class, the rest in another, and at most `bound` characters.
matches : (ℕ → Bool) → (ℕ → Bool) → ℕ → List ℕ → Bool
matches first rest bound [] = false
matches first rest bound (c ∷ cs) = first c && (all rest cs && leb (length (c ∷ cs)) bound)

opaque_char : ℕ → Bool
unfolding is_alnum
opaque_char c = is_alnum c || (c == b'.' || (c == b'_' || c == b'-'))

-- `_OPAQUE_ID` and `_RESULT_PART`: the same expression.
unfoldable pub opaque_re : List ℕ → Bool
unfolding matches opaque_char
opaque_re cs = matches is_alnum opaque_char 128 cs

-- `_HASH`: 64 lowercase hexadecimal digits.
unfoldable pub hash_re : List ℕ → Bool
unfolding is_digit
hash_re cs = length cs == 64 && all (λ c. is_digit c || (leb b'a' c && leb c b'f')) cs

-- `_STAGE`.
unfoldable pub stage_re : List ℕ → Bool
unfolding matches is_lower is_digit
stage_re cs = matches is_lower (λ c. is_lower c || (is_digit c || c == b'_')) 64 cs

-- `_ERROR`.
unfoldable pub error_re : List ℕ → Bool
unfolding matches is_lower is_digit
error_re cs =
    matches (λ c. is_lower c || is_digit c)
      (λ c. is_lower c || (is_digit c || (c == b'_' || (c == b'.' || c == b'-')))) 64 cs

-- `_required_string`: not blank, not too long, no control character.
unfoldable pub required_string : String → ℕ → Result (Unit {0})
required_string value max_length =
    let cs = codes value in
    require
      (not (all is_space cs)
        && (leb (length cs) max_length && not (any (λ c. ltb c 32 || c == 127) cs)))
      contract

unfoldable pub opaque_id : String → Result (Unit {0})
opaque_id value = elim (required_string value 128) [
  | ok _ ↦ require (opaque_re (codes value)) contract
  | err e ↦ err e
]

unfoldable pub hash : String → Result (Unit {0})
hash value = require (hash_re (codes value)) contract

unfoldable pub error_code : Option String → Result (Unit {0})
unfolding error_re
error_code none = ok tt
error_code (some value) = require (error_re (codes value)) contract

-- The text cut at each `/`, as `str.split`: never the empty list.
split_slash : List ℕ → List ℕ → List (List ℕ)
split_slash part [] = part ∷ []
split_slash part (c ∷ cs) =
    let cut = part ∷ split_slash [] cs in
    let longer = split_slash (part ++ c ∷ []) cs in elim (c == b'/') [ true ↦ cut | false ↦ longer ]

unfoldable pub result_ref : String → Result (Unit {0})
unfolding required_string opaque_re split_slash
result_ref value = elim (required_string value 255) [
  | ok _ ↦ require (all opaque_re (split_slash [] (codes value))) contract
  | err e ↦ err e
]

unfoldable pub count : ℕ → ℕ → ℕ → Result (Unit {0})
count value minimum maximum = require (leb minimum value && leb value maximum) contract

all_blank : (cs : List ℕ) → all is_space cs ≡ false → all (λ c. c == 32) cs ≡ false
unfolding is_space
all_blank [] h = h
all_blank (c ∷ cs) h = ground (arith, all_blank cs)

-- What the checks say of the texts that pass.
pub required_string-visible :
    (value : String) (n : ℕ)
    → required_string value n ≡ ok tt
    → all (λ c. c == 32) (codes value) ≡ false
unfolding required_string
required_string-visible value n h = ground (arith, all_blank (codes value))

pub opaque_id-re : (value : String) → opaque_id value ≡ ok tt → opaque_re (codes value) ≡ true
unfolding opaque_id
opaque_id-re value h = ground arith

pub hash-re : (value : String) → hash value ≡ ok tt → hash_re (codes value) ≡ true
unfolding hash
hash-re value h = ground arith
