-- ===== src/Chunking/Endings.antt =====
-- How many steps the strategies of build_chunks take.
use legal_rag_agent.Prelude.{
  ℕ, zero, suc, ◌+◌, ◌-◌, ◌≤◌, ◌<◌, ◌≡◌, refl, Bool, true, false, Option, none, some, List, [], ◌∷◌,
  map, length, take, drop, length-append, length-drop, Each, ltb, leb, arith, String, ◌=t=◌,
  if◌then◌else◌,
}
use legal_rag_agent.Articles.{Text, strip}
use legal_rag_agent.Chunking.{split_long_text}
use legal_rag_agent.Chunking.Splits.{split_long_text-Covers}
use legal_rag_agent.Chunking.Chunks.{
  Outcome, returned, raised, running, ◌>>=◌, ◌>>◌, require, ended, each, LawArticle, Chunk,
  External, join, texts, chunk_from_articles, article_chunks,
}
use legal_rag_agent.Chunking.Strategies.{
  slices, enumerate, place, sorted, sources, group, items, or_window, neighbor_chunk,
  neighbor_chunks, part_chunk, long_article_chunks, long_split_chunks, fixed_char_chunks, Options,
  build_chunks,
}

-- A call that returns or raises.
abbrev pub Ends {ℓ} : {A : Type ℓ} → Outcome A → Type 0
Ends (returned a) = Unit
Ends raised = Unit
Ends running = ⊥

Ends-bind {κ ℓ} :
    {A : Type κ} {B : Type ℓ} (m : Outcome A) (f : A → Outcome B)
    → Ends m
    → ((a : A) → Ends (f a))
    → Ends (m >>= f)
Ends-bind (returned a) f h k = k a
Ends-bind raised f h k = tt
Ends-bind running f h k = h

module _ {κ ℓ} {A : Type κ} {B : Type ℓ} where
  Ends-each :
      (f : A → Outcome (List B)) (xs : List A) → Each (λ x. Ends (f x)) xs → Ends (each f xs)
  unfolding each
  Ends-each f [] h = tt
  Ends-each f (x ∷ xs) h =
      Ends-bind (f x) _ h.0 λ ys. Ends-bind (each f xs) _ (Ends-each f xs h.1) λ zs. tt

  Ends-each_of :
      (f : A → Outcome (List B)) (xs : List A) → ((x : A) → Ends (f x)) → Ends (each f xs)
  unfolding each
  Ends-each_of f [] h = tt
  Ends-each_of f (x ∷ xs) h =
      Ends-bind (f x) _ (h x) λ ys. Ends-bind (each f xs) _ (Ends-each_of f xs h) λ zs. tt

Ends-guard : {A : Type 0} (b : Bool) (m : Outcome A) → (b ≡ true → Ends m) → Ends (require b >> m)
Ends-guard true m h = h refl
Ends-guard false m h = tt

Ends-if : {A : Type 0} (b : Bool) (m n : Outcome A) → Ends m → Ends n → Ends (if b then m else n)
Ends-if true m n h k = h
Ends-if false m n h k = k

chunk_from_articles-Ends :
    (x : External) (articles : List LawArticle) (strategy : String) (window : Option (ℕ × ℕ × ℕ))
    → Ends (chunk_from_articles x articles strategy window)
unfolding chunk_from_articles
chunk_from_articles-Ends x [] strategy window = tt
chunk_from_articles-Ends x (a ∷ more) strategy none = tt
chunk_from_articles-Ends x (a ∷ more) strategy (some (window, stride, start)) = tt

-- The characters of the articles, and one more for each.
abbrev pub total : List LawArticle → ℕ
total [] = 0
total (a ∷ more) = suc (length a.raw_text + total more)

total-group :
    (source : Text) (articles : List LawArticle) → total (group source articles) ≤ total articles
unfolding group
total-group source [] = omega arith
total-group source (a ∷ more) = ground (arith, total-group source more)

total-place :
    (before : LawArticle → LawArticle → Bool) (a : LawArticle) (articles : List LawArticle)
    → total (place before a articles) ≡ suc (length a.raw_text + total articles)
unfolding place
total-place before a [] = refl
total-place before a (b ∷ more) = ground (arith, total-place before a more)

total-sorted :
    (before : LawArticle → LawArticle → Bool) (articles : List LawArticle)
    → total (sorted before articles) ≡ total articles
unfolding sorted
total-sorted before [] = refl
total-sorted before (a ∷ more) =
    omega (arith, total-place before a (sorted before more), total-sorted before more)

pub total-items :
    (source : Text) (articles : List LawArticle) → total (items source articles) ≤ total articles
unfolding items
total-items source articles =
    omega (arith, total-sorted _ (group source articles), total-group source articles)

pub length-total : (articles : List LawArticle) → length articles ≤ total articles
length-total [] = omega arith
length-total (a ∷ more) = omega (arith, length-total more)

texts-total : (articles : List LawArticle) → length (texts articles) ≤ total articles
unfolding join
texts-total [] = omega arith
texts-total (a ∷ []) = omega arith
texts-total (a ∷ (b ∷ more)) =
    omega (arith, texts-total (b ∷ more), length-append a.raw_text (10 ∷ texts (b ∷ more)))

-- Enough fuel for the slices of a list.
slices-Ends {ℓ} :
    {A : Type ℓ} (fuel step size : ℕ) (xs : List A)
    → 0 < step
    → length xs < fuel
    → Ends (ended (slices fuel step size xs))
unfolding slices
slices-Ends zero step size xs some_step enough = absurd (omega (arith, enough))
slices-Ends (suc fuel) step size [] some_step enough = tt
slices-Ends {A = A} (suc fuel) step size (x ∷ xs) some_step enough =
    go (slices fuel step size (drop step (x ∷ xs))) (
      slices-Ends fuel step size (drop step (x ∷ xs)) some_step
        (omega (arith, length-drop step (x ∷ xs), some_step, enough)))
  where
    go :
        (m : Option (List (List A)))
        → Ends (ended m)
        → Ends (ended (elim m [ none ↦ none | some parts ↦ some (take size (x ∷ xs) ∷ parts) ]))
    go none h = h
    go (some parts) h = tt

long_article-Ends :
    (x : External) (fuel m o : ℕ) (a : LawArticle)
    → o < m
    → length a.raw_text < fuel
    → Ends (long_article_chunks x fuel m o a)
unfolding long_article_chunks
long_article-Ends x fuel m o a less enough =
    let (pieces, same, covers, small) = split_long_text-Covers fuel m o a.raw_text less enough in
    go (leb (length a.raw_text) m) (split_long_text fuel m o a.raw_text) (map strip pieces) same
  where
    go :
        (b : Bool) (s : Option (List Text)) (parts : List Text)
        → s ≡ some parts
        → Ends (
            if b
            then (chunk_from_articles x (a ∷ []) "long_split" none >>= λ c. returned (c ∷ []))
            else (ended s >>= λ ps. returned (map (part_chunk x a (length ps)) (enumerate 1 1 ps))))
    go true s parts h =
        Ends-bind _ _ (chunk_from_articles-Ends x (a ∷ []) "long_split" none) λ c. tt
    go false none parts h = cc
    go false (some ps) parts h = tt

long_split-Ends :
    (x : External) (fuel m o : ℕ) (articles : List LawArticle)
    → o < m
    → total articles < fuel
    → Each (λ a. Ends (long_article_chunks x fuel m o a)) articles
long_split-Ends x fuel m o [] less enough = tt
long_split-Ends x fuel m o (a ∷ more) less enough = (
  long_article-Ends x fuel m o a less (omega (arith, enough)),
  long_split-Ends x fuel m o more less (omega (arith, enough)),
)

long_split_chunks-Ends :
    (x : External) (fuel : ℕ) (articles : List LawArticle) (m o : ℕ)
    → o < m
    → total articles < fuel
    → Ends (long_split_chunks x fuel articles m o)
unfolding long_split_chunks
long_split_chunks-Ends x fuel articles m o less enough =
    Ends-each _ articles (long_split-Ends x fuel m o articles less enough)

article_chunks-Ends : (x : External) (articles : List LawArticle) → Ends (article_chunks x articles)
unfolding article_chunks
article_chunks-Ends x articles =
    Ends-each_of _ articles
      λ a. Ends-bind _ _ (chunk_from_articles-Ends x (a ∷ []) "article" none) λ c. tt

neighbor_chunk-Ends :
    (x : External) (window stride : ℕ) (p : ℕ × List LawArticle)
    → Ends (neighbor_chunk x window stride p)
unfolding neighbor_chunk
neighbor_chunk-Ends x window stride (start, []) = tt
neighbor_chunk-Ends x window stride (start, a ∷ more) =
    Ends-bind _ _ (chunk_from_articles-Ends x (a ∷ more) "neighbor" (some (window, stride, start)))
      λ c. tt

neighbor_chunks-Ends :
    (x : External) (fuel : ℕ) (articles : List LawArticle) (window : ℕ) (stride : Option ℕ)
    → total articles < fuel
    → Ends (neighbor_chunks x fuel articles window stride)
unfolding neighbor_chunks
neighbor_chunks-Ends x fuel articles window stride enough =
    Ends-guard {A = List Chunk} (ltb 0 window) _ λ some_window.
      Ends-guard {A = List Chunk} (ltb 0 (or_window window stride)) _ λ some_step.
        Ends-each_of _ (sources articles) λ source.
          let few = length-total (items source articles) in
          Ends-bind _ _
            (slices-Ends fuel (or_window window stride) window (items source articles)
              (ground (arith, some_step)) (omega (arith, enough, few, total-items source articles)))
            λ parts.
              Ends-each_of _ (enumerate 0 (or_window window stride) parts)
                λ p. neighbor_chunk-Ends x window (or_window window stride) p

fixed_char_chunks-Ends :
    (x : External) (fuel : ℕ) (articles : List LawArticle) (size overlap : ℕ)
    → total articles < fuel
    → Ends (fixed_char_chunks x fuel articles size overlap)
unfolding fixed_char_chunks
fixed_char_chunks-Ends x fuel articles size overlap enough =
    Ends-guard {A = List Chunk} (ltb 0 size) _ λ some_size.
      Ends-guard {A = List Chunk} (ltb overlap size) _ λ less.
        Ends-each_of _ (sources articles) λ source.
          let few = texts-total (items source articles) in
          let lt : overlap < size = ground (arith, less) in
          Ends-bind _ _
            (slices-Ends fuel (size - overlap) size (texts (items source articles))
              (omega (arith, lt)) (omega (arith, enough, few, total-items source articles)))
            λ parts. Ends-each_of _ (enumerate 1 1 parts) λ p. tt

-- With long_split_overlap_chars below long_split_max_chars, `build_chunks` returns or raises
-- ValueError by every strategy: fuel above the articles' characters, with one more for each, is
-- enough.
pub build_chunks-Ends :
    (x : External) (fuel : ℕ) (articles : List LawArticle) (strategy : String) (o : Options)
    → o.long_split_overlap_chars < o.long_split_max_chars
    → total articles < fuel
    → Ends (build_chunks x fuel articles strategy o)
unfolding build_chunks
build_chunks-Ends x fuel articles strategy o less enough =
    Ends-if (strategy =t= "article") _ _ (article_chunks-Ends x articles) (
      Ends-if (strategy =t= "neighbor") _ _
        (neighbor_chunks-Ends x fuel articles o.neighbor_window o.neighbor_stride enough)
        (Ends-if (strategy =t= "long_split") _ _
          (long_split_chunks-Ends x fuel articles o.long_split_max_chars o.long_split_overlap_chars
            less enough)
          (Ends-if (strategy =t= "fixed_chars") _ _
            (fixed_char_chunks-Ends x fuel articles o.fixed_chars_size o.fixed_chars_overlap enough)
            tt)))
