-- ===== src/Chunking/Splits.antt =====
-- split_long_text: its loops end, and its parts cover the text.
use mathlib.Core.Path.{subst}
use mathlib.Core.List.{append_assoc, append-nil, map-append}
use legal_rag_agent.Prelude.{
  ℕ, zero, suc, ◌+◌, ◌-◌, ◌≤◌, ◌<◌, ◌≡◌, refl, sym, ap, Bool, true, false, none, some, List, [],
  ◌∷◌, ◌++◌, map, any, length, take, drop, length-append, length-take, length-drop, Each,
  Each-append, ltb, leb, arith, Bool-cases, Option-cases, inl, inr,
}
use legal_rag_agent.Chunking.Covers.{
  Leads, Covers, concat, Leads-extend, Leads-append, Leads-piece, first_piece,
}
use legal_rag_agent.Articles.{Text, strip}
use legal_rag_agent.Chunking.{
  ends_sentence, onto, split_sentences, sentences, cut, flushed, pack, split_long_text,
}

-- What the loop `while len(current) > max_chars` does to a text.
record Cuts (fuel max_chars overlap_chars : ℕ) (text : Text) : Type 0 where
  pieces : List Text
  rest : Text
  result : cut fuel max_chars overlap_chars text ≡ some (map strip pieces, rest)
  leads : Leads overlap_chars pieces rest text
  small : Each (λ p. length p ≤ max_chars) pieces
  left : length rest ≤ max_chars

cut-Cuts : (fuel m o : ℕ) (text : Text) → o < m → length text < fuel → Cuts fuel m o text
unfolding cut
cut-Cuts zero m o text less enough = absurd (omega (arith, enough))
cut-Cuts (suc fuel) m o text less enough = elim (Bool-cases (ltb m (length text))) [
  | inl long ↦
      let (a, p, b, e, f, l, d) = first_piece m o text less in
      let lt : m < length text = ground arith in
      let c =
        cut-Cuts fuel m o (drop (m - o) text) less
          (omega (arith, length-drop (m - o) text, lt, less, enough)) in
      record {
        pieces = take m text ∷ c.pieces;
        rest = c.rest;
        result = ground (arith, long, c.result);
        leads = (a, p, b, e, f, l, subst (λ (t : Text). Leads o c.pieces c.rest t) d c.leads);
        small = (length-take m text, c.small);
        left = c.left;
      }
  | inr short ↦ record {
    pieces = [];
    rest = text;
    result = ground (arith, short);
    leads = refl;
    small = tt;
    left = ground arith;
  }
]

record Packs (fuel max_chars overlap_chars : ℕ) (ss : List Text) (current : Text) : Type 0 where
  pieces : List Text
  result : pack fuel max_chars overlap_chars ss current ≡ some (map strip pieces)
  covers : Covers overlap_chars pieces (current ++ concat ss)
  small : Each (λ p. length p ≤ max_chars) pieces

-- The piece that is the current text, if there is one.
abbrev piece_of : Text → List Text
piece_of [] = []
piece_of (c ∷ cs) = (c ∷ cs) ∷ []

flushed_lem : (current : Text) → flushed current ≡ map strip (piece_of current)
unfolding flushed
flushed_lem [] = refl
flushed_lem (c ∷ cs) = refl

Leads-piece_of : (n : ℕ) (current rest : Text) → Leads n (piece_of current) rest (current ++ rest)
Leads-piece_of n [] rest = refl
Leads-piece_of n (c ∷ cs) rest = Leads-piece n (c ∷ cs) rest

piece_of-small :
    (m : ℕ) (current : Text) → length current ≤ m → Each (λ p. length p ≤ m) (piece_of current)
piece_of-small m [] h = tt
piece_of-small m (c ∷ cs) h = (h, tt)

pack-Packs :
    (fuel m o : ℕ) (ss : List Text) (current : Text)
    → o < m
    → Each (λ s. length s < fuel) ss
    → length current ≤ m
    → Packs fuel m o ss current
unfolding pack
pack-Packs fuel m o [] current less enough fits = record {
  pieces = piece_of current;
  result = ap some (flushed_lem current);
  covers = Leads-piece_of o current [];
  small = piece_of-small m current fits;
}
pack-Packs fuel m o (s ∷ ss) current less (here, there) fits =
    elim (Bool-cases (leb (length current + length s) m)) [
      | inl joins ↦
          let le : length current + length s ≤ m = ground arith in
          let c =
            pack-Packs fuel m o ss (current ++ s) less there
              (omega (arith, length-append current s, le)) in
          record {
            pieces = c.pieces;
            result = ground (arith, joins, c.result);
            covers =
                subst (λ (t : Text). Covers o c.pieces t) (append_assoc current s (concat ss))
                  c.covers;
            small = c.small;
          }
      | inr parts ↦
          let c = cut-Cuts fuel m o s less here in
          let k = pack-Packs fuel m o ss c.rest less there c.left in
          record {
            pieces = piece_of current ++ (c.pieces ++ k.pieces);
            result = ground (
              arith,
              parts,
              c.result,
              k.result,
              flushed_lem current,
              map-append strip (piece_of current) (c.pieces ++ k.pieces),
              map-append strip c.pieces k.pieces,
            );
            covers =
                Leads-append o (piece_of current) (c.pieces ++ k.pieces) (s ++ concat ss) []
                  (current ++ (s ++ concat ss)) (Leads-piece_of o current (s ++ concat ss))
                  (Leads-append o c.pieces k.pieces (c.rest ++ concat ss) [] (s ++ concat ss)
                    (Leads-extend o c.pieces c.rest s (concat ss) c.leads) k.covers);
            small =
                Each-append (λ p. length p ≤ m) (piece_of current) (c.pieces ++ k.pieces)
                  (piece_of-small m current fits)
                  (Each-append (λ p. length p ≤ m) c.pieces k.pieces c.small k.small);
          }
    ]

onto-concat : (c : ℕ) (ss : List Text) → concat (onto c ss) ≡ c ∷ concat ss
unfolding onto
onto-concat c [] = refl
onto-concat c (s ∷ ss) = refl

split_sentences-concat : (text : Text) → concat (split_sentences text) ≡ text
unfolding split_sentences
split_sentences-concat [] = refl
split_sentences-concat (c ∷ cs) =
    let h = split_sentences-concat cs in
    elim (Bool-cases (ends_sentence c)) [
      | inl ends ↦ ground (arith, ends, h)
      | inr goes ↦ ground (arith, goes, h, onto-concat c (split_sentences cs))
    ]

Each-concat : (n : ℕ) (ss : List Text) → length (concat ss) < n → Each (λ s. length s < n) ss
Each-concat n [] h = tt
Each-concat n (s ∷ ss) h = (
  omega (arith, h, length-append s (concat ss)),
  Each-concat n ss (omega (arith, h, length-append s (concat ss))),
)

sentences-concat : (text : Text) → concat (sentences text) ≡ text
unfolding sentences
sentences-concat text = go (split_sentences text) (split_sentences-concat text)
  where
    go :
        (ss : List Text)
        → concat ss ≡ text
        → concat (elim ss [ [] ↦ text ∷ [] | s ∷ rest ↦ s ∷ rest ]) ≡ text
    go [] h = append-nil text
    go (s ∷ rest) h = h

-- With an overlap below max_chars, `split_long_text` ends (fuel above the text's length is enough),
-- and its parts are pieces of the text, stripped: at most max_chars long, in order, each next one
-- starting at most overlap_chars before the end of the one before it, together containing all of
-- the text.
pub split_long_text-Covers :
    (fuel max_chars overlap_chars : ℕ) (text : Text)
    → overlap_chars < max_chars
    → length text < fuel
    → (pieces : List Text) × (split_long_text fuel max_chars overlap_chars text
        ≡ some (map strip pieces))
      × Covers overlap_chars pieces text
      × Each (λ p. length p ≤ max_chars) pieces
unfolding split_long_text
split_long_text-Covers fuel max_chars overlap_chars text less enough =
    let whole = sentences-concat text in
    let fits =
      Each-concat fuel (sentences text)
        (subst (λ (t : Text). length t < fuel) (sym whole) enough) in
    let k = pack-Packs fuel max_chars overlap_chars (sentences text) [] less fits (omega arith) in
    (
      k.pieces,
      k.result,
      subst (λ (t : Text). Covers overlap_chars k.pieces t) whole k.covers,
      k.small,
    )

cut_loops : (fuel m o : ℕ) (text : Text) → m ≤ o → m < length text → cut fuel m o text ≡ none
unfolding cut
cut_loops zero m o text more long = refl
cut_loops (suc fuel) m o text more long =
    let h = cut_loops fuel m o text more long in
    let stays : drop (m - o) text ≡ text =
      let z : m - o ≡ 0 = omega (arith, more) in ap (λ n. drop n text) z in
    let e : ltb m (length text) ≡ true = ground arith in ground (arith, h, stays, e)

-- A sentence longer than `m`.
abbrev pub has_long : ℕ → List Text → Bool
has_long m ss = any (λ s. ltb m (length s)) ss

pack_loops :
    (fuel m o : ℕ) (ss : List Text) (current : Text)
    → m ≤ o
    → has_long m ss ≡ true
    → pack fuel m o ss current ≡ none
unfolding pack
pack_loops fuel m o [] current more long = absurd (cc long)
pack_loops fuel m o (s ∷ ss) current more long = elim (Bool-cases (ltb m (length s))) [
  | inl here ↦
      let lt : m < length s = ground arith in
      let h = cut_loops fuel m o s more lt in
      let e : leb (length current + length s) m ≡ false = ground arith in ground (arith, h, e)
  | inr there ↦
      let later : has_long m ss ≡ true = ground arith in
      let joins = pack_loops fuel m o ss (current ++ s) more later in
      elim (Option-cases (cut fuel m o s)) [
        | inl stuck ↦ ground (arith, joins, stuck)
        | inr (r, passes) ↦
            let parts = pack_loops fuel m o ss r.1 more later in
            ground (arith, joins, passes, parts)
      ]
]

-- With an overlap of max_chars or more, `split_long_text` never ends on a text with a sentence
-- longer than max_chars: no fuel is enough, since the loop goes on with the same text.
pub split_long_text_loops :
    (max_chars overlap_chars : ℕ) (text : Text)
    → max_chars ≤ overlap_chars
    → has_long max_chars (sentences text) ≡ true
    → (fuel : ℕ) → split_long_text fuel max_chars overlap_chars text ≡ none
unfolding split_long_text
split_long_text_loops max_chars overlap_chars text more long fuel =
    pack_loops fuel max_chars overlap_chars (sentences text) [] more long
