-- ===== src/Chunking/Strategies.antt =====
-- legal_rag/chunking.py: neighbor_chunks, long_split_chunks, fixed_char_chunks and build_chunks.
use legal_rag_agent.Prelude.{
  ℕ, zero, suc, ◌+◌, ◌-◌, Bool, true, false, ◌&&◌, ◌||◌, not, Option, none, some, List, [], ◌∷◌,
  map, length, take, drop, codes, String, ltb, leb, ◌==◌, ◌=t=◌, if◌then◌else◌,
}
use legal_rag_agent.Articles.{Text, strip}
use legal_rag_agent.Chunking.{split_long_text}
use legal_rag_agent.Chunking.Chunks.{
  Outcome, returned, raised, ◌>>=◌, ◌>>◌, require, ended, each, LawArticle, Chunk, of_part,
  of_characters, External, is_same, unique, nonempty, texts, chunk_from_articles, article_chunks,
}

-- Slices of `size` elements that start every `step` elements: `xs[start : start + size]` while
-- `start < len(xs)`.
unfoldable pub slices {ℓ} : {A : Type ℓ} → ℕ → ℕ → ℕ → List A → Option (List (List A))
slices zero step size xs = none
slices (suc fuel) step size [] = some []
slices (suc fuel) step size (x ∷ xs) = elim (slices fuel step size (drop step (x ∷ xs))) [
  | none ↦ none
  | some parts ↦ some (take size (x ∷ xs) ∷ parts)
]

-- The elements with their positions, counted from `n` in steps.
unfoldable pub enumerate {ℓ} : {A : Type ℓ} → ℕ → ℕ → List A → List (ℕ × A)
enumerate n step [] = []
enumerate n step (x ∷ xs) = (n, x) ∷ enumerate (n + step) step xs

-- Python's order of texts, by code points.
unfoldable pub precedes : Text → Text → Bool
precedes [] ds = true
precedes (c ∷ cs) [] = false
precedes (c ∷ cs) (d ∷ ds) = ltb c d || (c == d && precedes cs ds)

-- `sorted`, which keeps the order of elements that are not told apart.
unfoldable pub place {ℓ} : {A : Type ℓ} → (A → A → Bool) → A → List A → List A
place before x [] = x ∷ []
place before x (y ∷ ys) = if before x y then x ∷ (y ∷ ys) else y ∷ place before x ys

unfoldable pub sorted {ℓ} : {A : Type ℓ} → (A → A → Bool) → List A → List A
sorted before [] = []
sorted before (x ∷ xs) = place before x (sorted before xs)

-- `sorted(grouped)`, the source files of the articles.
unfoldable pub sources : List LawArticle → List Text
sources articles = sorted precedes (unique (map (λ (a : LawArticle). a.source_file) articles))

-- `grouped[source_file]`.
unfoldable pub group : Text → List LawArticle → List LawArticle
group source [] = []
group source (a ∷ more) =
    let rest = group source more in if is_same a.source_file source then a ∷ rest else rest

unfoldable pub items : Text → List LawArticle → List LawArticle
items source articles =
    sorted (λ (a : LawArticle) (b : LawArticle). leb a.line_no b.line_no) (group source articles)

-- `if stride is None: stride = window`.
abbrev pub or_window : ℕ → Option ℕ → ℕ
or_window window none = window
or_window window (some stride) = stride

unfoldable pub neighbor_chunk : External → ℕ → ℕ → ℕ × List LawArticle → Outcome (List Chunk)
neighbor_chunk x window stride (start, []) = returned []
neighbor_chunk x window stride (start, a ∷ more) =
    chunk_from_articles x (a ∷ more) "neighbor" (some (window, stride, start)) >>= λ c.
    returned (c ∷ [])

unfoldable pub neighbor_chunks :
    External → ℕ → List LawArticle → ℕ → Option ℕ → Outcome (List Chunk)
neighbor_chunks x fuel articles window stride =
    let step = or_window window stride in
    require (ltb 0 window)
    >> (require (ltb 0 step)
        >> each
            (λ source. ended (slices fuel step window (items source articles)) >>= λ parts.
              each (neighbor_chunk x window step) (enumerate 0 step parts))
            (sources articles))

-- The chunk of one part of a long article.
unfoldable pub part_chunk : External → LawArticle → ℕ → ℕ × Text → Chunk
part_chunk x a count (index, part) = record {
  chunk_id = x.stable_id (a.article_id ∷ (codes "long_split" ∷ (x.str index ∷ (part ∷ []))));
  text = part;
  law_names = a.law_name ∷ [];
  article_numbers = a.article_number ∷ [];
  source_files = a.source_file ∷ [];
  line_nos = a.line_no ∷ [];
  strategy = "long_split";
  metadata = of_part index count a.article_id;
}

unfoldable pub long_article_chunks : External → ℕ → ℕ → ℕ → LawArticle → Outcome (List Chunk)
long_article_chunks x fuel max_chars overlap_chars a =
    if leb (length a.raw_text) max_chars
    then (chunk_from_articles x (a ∷ []) "long_split" none >>= λ c. returned (c ∷ []))
    else (ended (split_long_text fuel max_chars overlap_chars a.raw_text) >>= λ parts.
        returned (map (part_chunk x a (length parts)) (enumerate 1 1 parts)))

unfoldable pub long_split_chunks : External → ℕ → List LawArticle → ℕ → ℕ → Outcome (List Chunk)
long_split_chunks x fuel articles max_chars overlap_chars =
    each (long_article_chunks x fuel max_chars overlap_chars) articles

unfoldable pub starts_with : Text → Text → Bool
starts_with [] cs = true
starts_with (p ∷ ps) [] = false
starts_with (p ∷ ps) (c ∷ cs) = p == c && starts_with ps cs

-- `part in text`.
unfoldable pub contains : Text → Text → Bool
contains part [] = starts_with part []
contains part (c ∷ cs) = starts_with part (c ∷ cs) || contains part cs

abbrev pub is_empty : Text → Bool
is_empty [] = true
is_empty (c ∷ cs) = false

abbrev pub is_related : Text → LawArticle → Bool
is_related chunk_text a =
    not (is_empty a.article_number) && contains a.article_number chunk_text
    || contains (take 30 a.raw_text) chunk_text

unfoldable pub related : Text → List LawArticle → List LawArticle
related chunk_text [] = []
related chunk_text (a ∷ more) =
    let rest = related chunk_text more in if is_related chunk_text a then a ∷ rest else rest

unfoldable pub find_related_articles : List LawArticle → Text → List LawArticle
find_related_articles articles chunk_text = take 10 (related chunk_text articles)

-- `names or [Path(source_file).stem]`.
abbrev pub or_stem : External → Text → List Text → List Text
or_stem x source [] = x.stem source ∷ []
or_stem x source (n ∷ ns) = n ∷ ns

unfoldable pub fixed_chunk : External → ℕ → ℕ → Text → List LawArticle → ℕ → Text → Chunk
fixed_chunk x size overlap source about index part = record {
  chunk_id = x.stable_id (source ∷ (codes "fixed_chars" ∷ (x.str index ∷ (part ∷ []))));
  text = part;
  law_names = unique (or_stem x source (map (λ (a : LawArticle). a.law_name) about));
  article_numbers = unique (nonempty (map (λ (a : LawArticle). a.article_number) about));
  source_files = source ∷ [];
  line_nos = map (λ (a : LawArticle). a.line_no) about;
  strategy = "fixed_chars";
  metadata = of_characters index size overlap;
}

-- The loop's body: a part that is blank makes no chunk.
unfoldable pub fixed_chunks_of : External → ℕ → ℕ → Text → List LawArticle → ℕ × Text → List Chunk
fixed_chunks_of x size overlap source articles (index, piece) =
    let part = strip piece in
    if is_empty part
    then []
    else (fixed_chunk x size overlap source (find_related_articles articles part) index part ∷ [])

unfoldable pub fixed_char_chunks : External → ℕ → List LawArticle → ℕ → ℕ → Outcome (List Chunk)
fixed_char_chunks x fuel articles size overlap =
    require (ltb 0 size)
    >> (require (ltb overlap size)
        >> each
            (λ source.
              let sorted_items = items source articles in
              ended (slices fuel (size - overlap) size (texts sorted_items)) >>= λ parts.
              each (λ p. returned (fixed_chunks_of x size overlap source sorted_items p))
                (enumerate 1 1 parts))
            (sources articles))

-- The options of `build_chunks`.
pub record Options : Type 0 where
  pub neighbor_window : ℕ
  pub neighbor_stride : Option ℕ
  pub long_split_max_chars : ℕ
  pub long_split_overlap_chars : ℕ
  pub fixed_chars_size : ℕ
  pub fixed_chars_overlap : ℕ

unfoldable pub build_chunks :
    External → ℕ → List LawArticle → String → Options → Outcome (List Chunk)
build_chunks x fuel articles strategy o =
    if strategy =t= "article"
    then article_chunks x articles
    else if strategy =t= "neighbor"
    then neighbor_chunks x fuel articles o.neighbor_window o.neighbor_stride
    else if strategy =t= "long_split"
    then long_split_chunks x fuel articles o.long_split_max_chars o.long_split_overlap_chars
    else if strategy =t= "fixed_chars"
    then fixed_char_chunks x fuel articles o.fixed_chars_size o.fixed_chars_overlap
    else raised
