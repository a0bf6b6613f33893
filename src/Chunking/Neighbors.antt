-- ===== src/Chunking/Neighbors.antt =====
-- neighbor_chunks: the articles that its chunks contain.
use mathlib.Core.Path.{subst}
use legal_rag_agent.Prelude.{
  ℕ, ◌-◌, ◌≤◌, ◌<◌, ◌≡◌, refl, sym, ap, ◌∙◌, Bool, true, false, Option, some, List, [], ◌∷◌, map,
  any, arith, inl, inr, Bool-cases, if◌then◌else◌, ltb,
}
use legal_rag_agent.Articles.{Text}
use legal_rag_agent.Chunking.Covers.{Covers}
use legal_rag_agent.Chunking.Windows.{slices-Covers}
use legal_rag_agent.Chunking.Endings.{total, total-items, length-total}
use legal_rag_agent.Chunking.Chunks.{
  Outcome, ◌>>=◌, ended, each, is_same, unseen, unique, LawArticle, Chunk, Metadata, of_articles,
  of_window, of_part, of_characters, External, made_chunk, chunk_from_articles, require, ◌>>◌,
}
use legal_rag_agent.Chunking.Strategies.{
  slices, enumerate, precedes, sources, group, items, neighbor_chunk, neighbor_chunks,
}
use legal_rag_agent.Chunking.Some.{
  Some, Gets, Gets-bind, Covers-Some, Some-sorted, Some-enumerate, Gets-each, each-Some,
}

is_same_refl : (t : Text) → is_same t t ≡ true
unfolding is_same
is_same_refl [] = refl
is_same_refl (c ∷ cs) = ground (arith, is_same_refl cs)

is_same-eq : (s t : Text) → is_same s t ≡ true → s ≡ t
unfolding is_same
is_same-eq [] [] h = refl
is_same-eq [] (d ∷ ds) h = absurd (cc h)
is_same-eq (c ∷ cs) [] h = absurd (cc h)
is_same-eq (c ∷ cs) (d ∷ ds) h =
    let e : c ≡ d = ground (arith, h) in
    let t : is_same cs ds ≡ true = ground (arith, h) in
    ap (λ n. n ∷ cs) e ∙ ap (λ ts. d ∷ ts) (is_same-eq cs ds t)

-- What becomes of a value that is seen, or not.
abbrev kept : Text → List Text → List Text → Bool → List Text
kept u seen vs true = unseen seen vs
kept u seen vs false = u ∷ unseen (u ∷ seen) vs

Some-unseen :
    (v : Text) (seen vs : List Text)
    → any (is_same v) seen ≡ false
    → Some (λ t. t ≡ v) vs
    → Some (λ t. t ≡ v) (unseen seen vs)
unfolding unseen
Some-unseen v seen [] new s = s
Some-unseen v seen (u ∷ vs) new (inl s) =
    let e : any (is_same u) seen ≡ false =
      subst (λ (t : Text). any (is_same t) seen ≡ false) (sym s) new in
    subst (λ (b : Bool). Some (λ t. t ≡ v) (kept u seen vs b)) (sym e) (inl s)
Some-unseen v seen (u ∷ vs) new (inr s) = elim (Bool-cases (any (is_same u) seen)) [
  | inl old ↦
      subst (λ (b : Bool). Some (λ t. t ≡ v) (kept u seen vs b)) (sym old)
        (Some-unseen v seen vs new s)
  | inr fresh ↦
      subst (λ (b : Bool). Some (λ t. t ≡ v) (kept u seen vs b)) (sym fresh)
        (elim (Bool-cases (is_same v u)) [
          | inl same ↦ inl (sym (is_same-eq v u same))
          | inr other ↦ inr (Some-unseen v (u ∷ seen) vs (ground (arith, other, new)) s)
        ])
]

Some-map :
    {A : Type 0} {B : Type 0} (P : B → Type 0) (f : A → B) (xs : List A)
    → Some (λ x. P (f x)) xs
    → Some P (map f xs)
Some-map P f [] s = s
Some-map P f (x ∷ xs) (inl s) = inl s
Some-map P f (x ∷ xs) (inr s) = inr (Some-map P f xs s)

Some-imp :
    {A : Type 0} (P Q : A → Type 0) → ((x : A) → P x → Q x) → (xs : List A) → Some P xs → Some Q xs
Some-imp P Q f [] s = s
Some-imp P Q f (x ∷ xs) (inl s) = inl (f x s)
Some-imp P Q f (x ∷ xs) (inr s) = inr (Some-imp P Q f xs s)

abbrev pub In : LawArticle → List LawArticle → Type 0
In a articles = Some (λ b. b ≡ a) articles

source_found :
    (a : LawArticle) (articles : List LawArticle)
    → In a articles
    → Some (λ t. t ≡ a.source_file) (sources articles)
unfolding sources unique
source_found a articles s = Some-sorted _ precedes _ (
    Some-unseen a.source_file [] _ refl (
      Some-map _ (λ (b : LawArticle). b.source_file) articles
        (Some-imp _ _ (λ b e. ap (λ (c : LawArticle). c.source_file) e) articles s)))

group_found :
    (a : LawArticle) (articles : List LawArticle)
    → In a articles
    → In a (group a.source_file articles)
unfolding group
group_found a [] s = s
group_found a (b ∷ more) (inl s) =
    let e : is_same b.source_file a.source_file ≡ true =
      subst (λ (c : LawArticle). is_same c.source_file a.source_file ≡ true) (sym s)
        (is_same_refl a.source_file) in
    rw e (inl s)
group_found a (b ∷ more) (inr s) = go (is_same b.source_file a.source_file) (group_found a more s)
  where
    go :
        (t : Bool)
        → In a (group a.source_file more)
        → In a (if t then b ∷ group a.source_file more else group a.source_file more)
    go true k = inr k
    go false k = k

items_found :
    (a : LawArticle) (articles : List LawArticle)
    → In a articles
    → In a (items a.source_file articles)
unfolding items
items_found a articles s = Some-sorted _ _ (group a.source_file articles) (group_found a articles s)

-- The articles that a chunk is made of.
abbrev pub article_ids : Metadata → List Text
article_ids (of_articles made_of n m) = made_of
article_ids (of_window made_of n m w s a b) = made_of
article_ids (of_part i n id) = id ∷ []
article_ids (of_characters i n m) = []

abbrev pub Holds : LawArticle → Chunk → Type 0
Holds a c = Some (λ i. i ≡ a.article_id) (article_ids c.metadata)

neighbor_chunk-Gets :
    (x : External) (window stride : ℕ) (p : ℕ × List LawArticle)
    → Gets (λ cs. Unit {0}) (neighbor_chunk x window stride p)
unfolding neighbor_chunk chunk_from_articles
neighbor_chunk-Gets x window stride (start, []) = tt
neighbor_chunk-Gets x window stride (start, b ∷ more) = tt

neighbor_chunk-Holds :
    (x : External) (window stride : ℕ) (a : LawArticle) (p : ℕ × List LawArticle)
    → In a p.1
    → Gets (λ cs. Some (Holds a) cs) (neighbor_chunk x window stride p)
unfolding neighbor_chunk chunk_from_articles made_chunk
neighbor_chunk-Holds x window stride a (start, []) s = absurd s
neighbor_chunk-Holds x window stride a (start, b ∷ more) s = inl (
    Some-map _ (λ (c : LawArticle). c.article_id) (b ∷ more)
      (Some-imp _ _ (λ c e. ap (λ (d : LawArticle). d.article_id) e) (b ∷ more) s))

module _ (x : External) (fuel window stride : ℕ) (articles : List LawArticle)
    (some_stride : 0 < stride) (touching : stride ≤ window) (enough : total articles < fuel) where
  slices_got :
      (source : Text)
      → Gets
          (λ ps. Covers (window - stride) ps (items source articles))
          (ended (slices fuel stride window (items source articles)))
  slices_got source =
      let few = length-total (items source articles) in
      let (pieces, same, covers, small) =
        slices-Covers fuel stride window (items source articles) some_stride touching
          (omega (arith, enough, few, total-items source articles)) in
      subst
        (λ (m : Option (List (List LawArticle))).
          Gets (λ ps. Covers (window - stride) ps (items source articles)) (ended m))
        (sym same) covers

  abbrev of_source : Text → Outcome (List Chunk)
  of_source source = ended (slices fuel stride window (items source articles)) >>= λ parts.
      each (neighbor_chunk x window stride) (enumerate 0 stride parts)

  of_source-Gets : (source : Text) → Gets (λ cs. Unit {0}) (of_source source)
  of_source-Gets source =
      Gets-bind _ _ (ended (slices fuel stride window (items source articles))) _
        (slices_got source)
        λ parts covers.
          Gets-each _ (enumerate 0 stride parts) λ p. neighbor_chunk-Gets x window stride p

  of_source-Holds :
      (a : LawArticle) → In a articles → Gets (λ cs. Some (Holds a) cs) (of_source a.source_file)
  of_source-Holds a s =
      Gets-bind _ _ (ended (slices fuel stride window (items a.source_file articles))) _
        (slices_got a.source_file)
        λ parts covers.
          each-Some (Holds a) _ (enumerate 0 stride parts)
            (λ p. neighbor_chunk-Gets x window stride p)
            (Some-imp _ _ (λ p k. neighbor_chunk-Holds x window stride a p k)
              (enumerate 0 stride parts)
              (Some-enumerate (In a) 0 stride parts (
                Covers-Some (λ b. b ≡ a) (window - stride) parts (items a.source_file articles)
                  covers (items_found a articles s))))

  -- With a positive stride up to the window, and fuel above the articles' characters with one more
  -- for each, `neighbor_chunks` returns chunks of which, for each given article, one is made of that
  -- article: its metadata names it.
  pub neighbor_chunks-Holds :
      (a : LawArticle)
      → In a articles
      → Gets (λ cs. Some (Holds a) cs) (neighbor_chunks x fuel articles window (some stride))
  unfolding neighbor_chunks
  neighbor_chunks-Holds a s =
      let e : ltb 0 window ≡ true = ground (arith, some_stride, touching) in
      let f : ltb 0 stride ≡ true = ground (arith, some_stride) in
      let made = each-Some (Holds a) of_source (sources articles) of_source-Gets (
        Some-imp _ _
          (λ t k.
            subst (λ (u : Text). Gets (λ cs. Some (Holds a) cs) (of_source u)) (sym k)
              (of_source-Holds a s))
          (sources articles) (source_found a articles s)) in
      subst
        (λ (b : Bool).
          Gets (λ cs. Some (Holds a) cs)
            (require b >> (require (ltb 0 stride) >> each of_source (sources articles))))
        (sym e)
        (subst
          (λ (b : Bool).
            Gets (λ cs. Some (Holds a) cs) (require b >> each of_source (sources articles)))
          (sym f) made)
