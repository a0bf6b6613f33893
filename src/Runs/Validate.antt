-- ===== src/Runs/Validate.antt =====
-- The argument checks of legal_rag/services/run_service.py. A value has its Python type in the
-- model, so the type tests are always passed.
use legal_rag_agent.Prelude.{
  ℕ, Bool, true, false, ◌&&◌, not, List, [], ◌∷◌, String, length, codes, leb,
}
use legal_rag_agent.Jobs.Validate.{is_space, hash_re, error_re}
use legal_rag_agent.Runs.Result.{Result, contract, require, ◌>>◌}

-- The last code point is blank.
ends_blank : List ℕ → Bool
ends_blank [] = false
ends_blank (c ∷ []) = is_space c
ends_blank (c ∷ d ∷ cs) = ends_blank (d ∷ cs)

starts_blank : List ℕ → Bool
starts_blank [] = true
starts_blank (c ∷ cs) = is_space c

-- `_canonical_identifier`: not empty, no blank at its ends, and not too long.
unfoldable pub canonical_identifier : String → ℕ → Result (Unit {0})
unfolding starts_blank ends_blank
canonical_identifier value max_length =
    let cs = codes value in
    require (not (starts_blank cs) && (not (ends_blank cs) && leb (length cs) max_length)) contract

unfoldable pub canonical_sha256_identifier : String → Result (Unit {0})
canonical_sha256_identifier value = do
  canonical_identifier value 64
  require (hash_re (codes value)) contract

-- `_canonical_positive_integer`, with and without a maximum.
unfoldable pub canonical_positive_integer : ℕ → Result (Unit {0})
canonical_positive_integer value = require (leb 1 value) contract

unfoldable pub canonical_integer_up_to : ℕ → ℕ → Result (Unit {0})
canonical_integer_up_to value maximum = require (leb 1 value && leb value maximum) contract

-- `_canonical_error_code`.
unfoldable pub canonical_error_code : String → Result (Unit {0})
canonical_error_code value = require (error_re (codes value)) contract
