-- ===== src/Tests/Chunks.antt =====
-- Chunks of small texts and articles.
use legal_rag_agent.Prelude.{
  ◌≤◌, ◌≡◌, refl, true, none, some, List, [], ◌∷◌, map, length, codes, Each, arith, inl,
}
use legal_rag_agent.Articles.{Text, strip}
use legal_rag_agent.Jobs.Validate.{is_space}
use legal_rag_agent.Chunking.{onto, split_sentences, sentences, cut, flushed, pack, split_long_text}
use legal_rag_agent.Chunking.Covers.{Covers}
use legal_rag_agent.Chunking.Splits.{split_long_text-Covers, has_long, split_long_text_loops}
use legal_rag_agent.Chunking.Chunks.{LawArticle, External}
use legal_rag_agent.Chunking.Strategies.{neighbor_chunks, Options, build_chunks}
use legal_rag_agent.Chunking.Some.{Some, Gets}
use legal_rag_agent.Chunking.Neighbors.{Holds, neighbor_chunks-Holds}
use legal_rag_agent.Chunking.Endings.{Ends, build_chunks-Ends}

-- Two sentences, of which the second is longer than 4 characters.
abbrev two_sentences : Text
two_sentences = codes "ab;cdefgh"

split_two :
    split_long_text 10 4 1 two_sentences ≡ some (codes "ab;" ∷ (codes "cdef" ∷ (codes "fgh" ∷ [])))
unfolding split_long_text sentences split_sentences onto pack cut flushed strip is_space
split_two = refl

split_long_text-Covers_example :
    (pieces : List Text) × (split_long_text 10 4 1 two_sentences ≡ some (map strip pieces))
    × Covers 1 pieces two_sentences
    × Each (λ p. length p ≤ 4) pieces
split_long_text-Covers_example =
    split_long_text-Covers 10 4 1 two_sentences (omega arith) (omega arith)

two_sentences_long : has_long 4 (sentences two_sentences) ≡ true
unfolding sentences split_sentences onto
two_sentences_long = refl

split_long_text_loops_example : split_long_text 10 4 4 two_sentences ≡ none
split_long_text_loops_example =
    split_long_text_loops 4 4 two_sentences (omega arith) two_sentences_long 10

abbrev first_article : LawArticle
first_article = record {
  article_id = codes "a1";
  law_name = codes "law";
  article_number = codes "1";
  body = two_sentences;
  raw_text = two_sentences;
  source_file = codes "law.txt";
  line_no = 1;
  parse_status = codes "ok";
}

abbrev second_article : LawArticle
second_article = record first_article { article_id = codes "a2"; line_no = 2 }

abbrev plain : External
plain = record {
  stable_id = λ parts. elim parts [ [] ↦ [] | p ∷ ps ↦ p ];
  stem = λ path. path;
  str = λ n. n ∷ [];
}

abbrev small_options : Options
small_options = record {
  neighbor_window = 3;
  neighbor_stride = none;
  long_split_max_chars = 4;
  long_split_overlap_chars = 1;
  fixed_chars_size = 4;
  fixed_chars_overlap = 1;
}

build_chunks-Ends_example :
    Ends (build_chunks plain 20 (first_article ∷ []) "long_split" small_options)
build_chunks-Ends_example =
    build_chunks-Ends plain 20 (first_article ∷ []) "long_split" small_options (omega arith)
      (omega arith)

neighbor_chunks-Holds_example :
    Gets
      (λ cs. Some (Holds second_article) cs)
      (neighbor_chunks plain 40 (second_article ∷ (first_article ∷ [])) 2 (some 1))
neighbor_chunks-Holds_example =
    neighbor_chunks-Holds plain 40 2 1 (second_article ∷ (first_article ∷ [])) (omega arith)
      (omega arith) (omega arith) second_article (inl refl)
