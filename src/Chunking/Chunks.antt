-- ===== src/Chunking/Chunks.antt =====
-- legal_rag/chunking.py: the strategies. A loop that may not end runs on fuel.
use legal_rag_agent.Prelude.{
  ℕ, ◌+◌, ◌-◌, Bool, true, false, ◌&&◌, Option, none, some, List, [], ◌∷◌, ◌++◌, map, any, length,
  codes, String, ◌==◌, if◌then◌else◌,
}
use legal_rag_agent.Articles.{Text}

-- What a call does: it returns, it raises ValueError, or its fuel is used up.
pub data Outcome {ℓ} (A : Type ℓ) : Type ℓ where
  returned : A → Outcome A
  raised running : Outcome A

infixl 5 ◌>>=◌
abbrev pub ◌>>=◌ {κ ℓ} : {B : Type κ} {A : Type ℓ} → Outcome B → (B → Outcome A) → Outcome A
returned b >>= next = next b
raised >>= next = raised
running >>= next = running

infixl 5 ◌>>◌
abbrev pub ◌>>◌ {ℓ} : {A : Type ℓ} → Outcome (Unit {0}) → Outcome A → Outcome A
check >> rest = check >>= λ _. rest

-- `if not condition: raise ValueError`.
abbrev pub require : Bool → Outcome (Unit {0})
require b = if b then returned tt else raised

abbrev pub ended {ℓ} : {A : Type ℓ} → Option A → Outcome A
ended none = running
ended (some a) = returned a

-- A loop that appends what its body gives for each element.
unfoldable pub each {κ ℓ} :
    {A : Type κ} {B : Type ℓ} → (A → Outcome (List B)) → List A → Outcome (List B)
each f [] = returned []
each f (x ∷ xs) = f x >>= λ ys. each f xs >>= λ zs. returned (ys ++ zs)

pub record LawArticle : Type 0 where
  pub article_id : Text
  pub law_name : Text
  pub article_number : Text
  pub body : Text
  pub raw_text : Text
  pub source_file : Text
  pub line_no : ℕ
  pub parse_status : Text

-- The keys of a chunk's metadata, by strategy; `window` is window_start and window_end.
pub data Metadata : Type 0 where
  of_articles : (article_ids : List Text) (article_count char_length : ℕ) → Metadata
  of_window :
      (article_ids : List Text)
      (article_count char_length neighbor_window neighbor_stride window_start window_end : ℕ)
      → Metadata
  of_part : (part_index part_count : ℕ) (article_id : Text) → Metadata
  of_characters : (part_index size overlap : ℕ) → Metadata

pub record Chunk : Type 0 where
  pub chunk_id : Text
  pub text : Text
  pub law_names : List Text
  pub article_numbers : List Text
  pub source_files : List Text
  pub line_nos : List ℕ
  pub strategy : String
  pub metadata : Metadata

-- `stable_id` of data.py, a digest; `Path(source_file).stem`; and `str` of an integer.
pub record External : Type 0 where
  pub stable_id : List Text → Text
  pub stem : Text → Text
  pub str : ℕ → Text

unfoldable pub is_same : Text → Text → Bool
is_same [] [] = true
is_same (c ∷ cs) (d ∷ ds) = c == d && is_same cs ds
is_same _ _ = false

-- `unique`, with the values that are seen.
unfoldable pub unseen : List Text → List Text → List Text
unseen seen [] = []
unseen seen (v ∷ vs) = elim (any (is_same v) seen) [
  | true ↦ unseen seen vs
  | false ↦ v ∷ unseen (v ∷ seen) vs
]

unfoldable pub unique : List Text → List Text
unique values = unseen [] values

-- `"\n".join`.
unfoldable pub join : List Text → Text
join [] = []
join (t ∷ []) = t
join (t ∷ (u ∷ ts)) = t ++ (10 ∷ join (u ∷ ts))

-- The texts that are not empty.
unfoldable pub nonempty : List Text → List Text
nonempty [] = []
nonempty ([] ∷ ts) = nonempty ts
nonempty ((c ∷ cs) ∷ ts) = (c ∷ cs) ∷ nonempty ts

abbrev pub texts : List LawArticle → Text
texts articles = join (map (λ (a : LawArticle). a.raw_text) articles)

abbrev pub ids : List LawArticle → List Text
ids articles = map (λ (a : LawArticle). a.article_id) articles

-- The chunk of articles that are given, of which there is one.
unfoldable pub made_chunk : External → String → Metadata → List LawArticle → Chunk
made_chunk x strategy metadata articles = record {
  chunk_id = x.stable_id (codes strategy ∷ ids articles);
  text = texts articles;
  law_names = unique (map (λ (a : LawArticle). a.law_name) articles);
  article_numbers = unique (nonempty (map (λ (a : LawArticle). a.article_number) articles));
  source_files = unique (map (λ (a : LawArticle). a.source_file) articles);
  line_nos = map (λ (a : LawArticle). a.line_no) articles;
  strategy = strategy;
  metadata = metadata;
}

-- `chunk_from_articles`; a window is the size, the stride and the start that neighbor_chunks adds.
unfoldable pub chunk_from_articles :
    External → List LawArticle → String → Option (ℕ × ℕ × ℕ) → Outcome Chunk
chunk_from_articles x [] strategy window = raised
chunk_from_articles x (a ∷ more) strategy none = returned (
    made_chunk x strategy
      (of_articles (ids (a ∷ more)) (length (a ∷ more)) (length (texts (a ∷ more)))) (a ∷ more))
chunk_from_articles x (a ∷ more) strategy (some (window, stride, start)) = returned (
    made_chunk x strategy
      (of_window (ids (a ∷ more)) (length (a ∷ more)) (length (texts (a ∷ more))) window stride
        start (start + length (a ∷ more) - 1))
      (a ∷ more))

unfoldable pub article_chunks : External → List LawArticle → Outcome (List Chunk)
article_chunks x articles =
    each (λ a. chunk_from_articles x (a ∷ []) "article" none >>= λ c. returned (c ∷ [])) articles
