-- ===== src/Chunking.antt =====
-- legal_rag/chunking.py: the chunks of law articles that are indexed. A text is a list of code points.
pub mod Covers
pub mod Splits
pub mod Chunks
pub mod Strategies
pub mod Windows
pub mod Endings
pub mod Some
pub mod Neighbors
use legal_rag_agent.Prelude.{
  ℕ, zero, suc, ◌+◌, ◌-◌, Bool, true, false, ◌||◌, Option, none, some, List, [], ◌∷◌, ◌++◌, length,
  take, drop, ltb, leb, ◌==◌, if◌then◌else◌,
}
use legal_rag_agent.Articles.{Text, strip}

-- 。 ； and ;
abbrev pub ends_sentence : ℕ → Bool
ends_sentence c = c == 0x3002 || (c == 0xff1b || c == 0x3b)

unfoldable pub onto : ℕ → List Text → List Text
onto c [] = (c ∷ []) ∷ []
onto c (s ∷ ss) = (c ∷ s) ∷ ss

-- `re.split(r"(?<=[。；;])", text)`, which splits after each of these characters, without the empty
-- parts.
unfoldable pub split_sentences : Text → List Text
split_sentences [] = []
split_sentences (c ∷ cs) =
    let rest = split_sentences cs in if ends_sentence c then (c ∷ []) ∷ rest else onto c rest

-- The sentences of a text, or the text.
unfoldable pub sentences : Text → List Text
sentences text = elim (split_sentences text) [ [] ↦ text ∷ [] | s ∷ ss ↦ s ∷ ss ]

-- The loop `while len(current) > max_chars`: the parts that it appends, and the current text that it
-- leaves. It runs on fuel.
unfoldable pub cut : ℕ → ℕ → ℕ → Text → Option (List Text × Text)
cut zero max_chars overlap_chars current = none
cut (suc fuel) max_chars overlap_chars current = elim (ltb max_chars (length current)) [
  | false ↦ some ([], current)
  | true ↦ elim (cut fuel max_chars overlap_chars (drop (max_chars - overlap_chars) current)) [
    | none ↦ none
    | some r ↦ some (strip (take max_chars current) ∷ r.0, r.1)
  ]
]

-- `if current: parts.append(current.strip())`.
unfoldable pub flushed : Text → List Text
flushed [] = []
flushed (c ∷ cs) = strip (c ∷ cs) ∷ []

-- The loop over the sentences: the parts that it appends from a current text on, with the last one.
unfoldable pub pack : ℕ → ℕ → ℕ → List Text → Text → Option (List Text)
pack fuel max_chars overlap_chars [] current = some (flushed current)
pack fuel max_chars overlap_chars (s ∷ ss) current =
    elim (leb (length current + length s) max_chars) [
      | true ↦ pack fuel max_chars overlap_chars ss (current ++ s)
      | false ↦ elim (cut fuel max_chars overlap_chars s) [
        | none ↦ none
        | some r ↦ elim (pack fuel max_chars overlap_chars ss r.1) [
          | none ↦ none
          | some parts ↦ some (flushed current ++ (r.0 ++ parts))
        ]
      ]
    ]

unfoldable pub split_long_text : ℕ → ℕ → ℕ → Text → Option (List Text)
split_long_text fuel max_chars overlap_chars text =
    pack fuel max_chars overlap_chars (sentences text) []
