-- ===== src/Articles.antt =====
-- legal_rag/article_numbers.py: article numbers of statutes, in Chinese and as integers. A text is a
-- list of code points. NFKC normalization, of `unicodedata`, is a parameter.
pub mod Numbers
use legal_rag_agent.Prelude.{
  ℕ, zero, suc, ◌+◌, ◌-◌, ◌*◌, ◌/◌, ◌%◌, Bool, true, false, ◌&&◌, ◌||◌, not, Option, none, some,
  List, [], ◌∷◌, ◌++◌, reverse, all, ltb, leb, ◌==◌, if◌then◌else◌,
}
use legal_rag_agent.Jobs.Result.{Result, ok, err, value_error, require, ◌>>=◌, ◌>>◌}
use legal_rag_agent.Jobs.Validate.{is_space}

abbrev pub Text : Type 0
Text = List ℕ

abbrev pub is_ascii_digit : ℕ → Bool
is_ascii_digit c = leb b'0' c && leb c b'9'

-- Indexing; the source never indexes out of range, where this is 0.
char_at : ℕ → Text → ℕ
char_at n [] = 0
char_at zero (c ∷ cs) = c
char_at (suc n) (c ∷ cs) = char_at n cs

-- `CHINESE_DIGITS`: the digit of a number below 10.
unfoldable pub digit_char : ℕ → ℕ
unfolding char_at
digit_char n =
    char_at n
      (0x96f6 ∷ 0x4e00 ∷ 0x4e8c ∷ 0x4e09 ∷ 0x56db ∷ 0x4e94 ∷ 0x516d ∷ 0x4e03 ∷ 0x516b ∷ 0x4e5d ∷ [])

lookup : ℕ → List (ℕ × ℕ) → Option ℕ
lookup c [] = none
lookup c ((d, n) ∷ ds) = if c == d then some n else lookup c ds

-- `_DIGIT_VALUES`, the update's entries after the digits.
unfoldable pub digit_value : ℕ → Option ℕ
unfolding lookup
digit_value c = lookup c (
    (0x96f6, 0)
    ∷ (0x4e00, 1)
    ∷ (0x4e8c, 2)
    ∷ (0x4e09, 3)
    ∷ (0x56db, 4)
    ∷ (0x4e94, 5)
    ∷ (0x516d, 6)
    ∷ (0x4e03, 7)
    ∷ (0x516b, 8)
    ∷ (0x4e5d, 9)
    ∷ (0x3007, 0)
    ∷ (0x4e24, 2)
    ∷ (0x58f9, 1)
    ∷ (0x8d30, 2)
    ∷ (0x53c1, 3)
    ∷ (0x8086, 4)
    ∷ (0x4f0d, 5)
    ∷ (0x9646, 6)
    ∷ (0x67d2, 7)
    ∷ (0x634c, 8)
    ∷ (0x7396, 9)
    ∷ [])

-- `_UNIT_VALUES`.
unfoldable pub unit_value : ℕ → Option ℕ
unfolding lookup
unit_value c = lookup c (
    (0x5341, 10)
    ∷ (0x62fe, 10)
    ∷ (0x767e, 100)
    ∷ (0x4f70, 100)
    ∷ (0x5343, 1000)
    ∷ (0x4edf, 1000)
    ∷ [])

unfoldable pub drop_space : Text → Text
drop_space [] = []
drop_space (c ∷ cs) = if is_space c then drop_space cs else c ∷ cs

-- `str.strip`.
unfoldable pub strip : Text → Text
unfolding drop_space
strip cs = reverse (drop_space (reverse (drop_space cs)))

-- `int` of ASCII digits.
unfoldable pub decimal : ℕ → Text → ℕ
decimal n [] = n
decimal n (c ∷ cs) = decimal (n * 10 + (c - b'0')) cs

-- The unit `n` under a pending digit: the new total.
abbrev pub apply_unit : ℕ → ℕ → Option ℕ → Result ℕ
apply_unit n total none =
    if not (n == 10) || not (total == 0) then err value_error else ok (total + n)
apply_unit n total (some zero) = err value_error
apply_unit n total (some (suc d)) = ok (total + suc d * n)

-- `if pending`.
abbrev pub is_pending : Option ℕ → Bool
is_pending none = false
is_pending (some zero) = false
is_pending (some (suc d)) = true

-- The loop of `chinese_number_to_int`.
unfoldable pub scan : Text → ℕ → Option ℕ → Result ℕ
scan [] total none = ok total
scan [] total (some d) = ok (total + d)
scan (c ∷ cs) total pending =
    let next = λ (n : ℕ). scan cs total (some n) in
    let rest = λ (n : ℕ). scan cs n none in
    elim (digit_value c) [
      | some n ↦ if is_pending pending then err value_error else next n
      | none ↦ elim (unit_value c) [
        | none ↦ err value_error
        | some unit ↦ apply_unit unit total pending >>= rest
      ]
    ]

-- `chinese_number_to_int` of a normalized, stripped text.
unfoldable pub value_to_int : Text → Result ℕ
value_to_int [] = err value_error
value_to_int (c ∷ cs) =
    if all is_ascii_digit (c ∷ cs) then ok (decimal 0 (c ∷ cs)) else scan (c ∷ cs) 0 none

unfoldable pub chinese_number_to_int : (Text → Text) → Text → Result ℕ
chinese_number_to_int nfkc text = value_to_int (strip (nfkc text))

abbrev pub is_empty : Text → Bool
is_empty [] = true
is_empty (_ ∷ _) = false

-- The loop of `int_to_chinese_number` over the digits with their units; `parts` is joined.
unfoldable pub join_parts : List (ℕ × Text) → Text → Bool → Text
join_parts [] parts zero_pending = parts
join_parts ((digit, unit) ∷ ps) parts zero_pending =
    if digit == 0
    then join_parts ps parts (zero_pending || not (is_empty parts))
    else join_parts ps
        (parts ++ ((if zero_pending then 0x96f6 ∷ [] else []) ++ (digit_char digit ∷ unit))) false

abbrev pub digits_of : ℕ → List (ℕ × Text)
digits_of v =
    (v / 1000 % 10, 0x5343 ∷ [])
    ∷ (v / 100 % 10, 0x767e ∷ [])
    ∷ (v / 10 % 10, 0x5341 ∷ [])
    ∷ (v / 1 % 10, [])
    ∷ []

-- The text, for a value in range.
unfoldable pub number_text : ℕ → Text
number_text v =
    if ltb v 10
    then digit_char v ∷ []
    else if ltb v 20
    then 0x5341 ∷ (if ltb 10 v then digit_char (v - 10) ∷ [] else [])
    else join_parts (digits_of v) [] false

abbrev pub in_range : ℕ → Bool
in_range v = leb 1 v && leb v 9999

unfoldable pub int_to_chinese_number : ℕ → Result Text
int_to_chinese_number v = if in_range v then ok (number_text v) else err value_error

-- `format_article_number`.
unfoldable pub format_article_number : ℕ → Result Text
format_article_number v = do
  number ← int_to_chinese_number v
  ok (0x7b2c ∷ (number ++ (0x6761 ∷ [])))

-- `format_article_label`; a suffix of 0 is none.
unfoldable pub format_article_label : ℕ → ℕ → Result Text
format_article_label number suffix = do
  label ← format_article_number number
  if suffix == 0
      then ok label
      else (do text ← int_to_chinese_number suffix; ok (label ++ (0x4e4b ∷ text)))

-- The longest prefix of characters that are neither blank nor `stop`, and the rest.
unfoldable pub span_group : ℕ → Text → Text × Text
span_group stop [] = ([], [])
span_group stop (c ∷ cs) =
    let rest = span_group stop cs in
    if is_space c || c == stop then ([], c ∷ cs) else (c ∷ rest.0, rest.1)

-- The end of ARTICLE_LABEL_TEXT_RE after 条: nothing, or 之 and a group to the end of the text.
unfoldable pub match_suffix : Text → Option (Option Text)
match_suffix rest = elim (drop_space rest) [
  | [] ↦ elim rest [ [] ↦ some none | _ ∷ _ ↦ none ]
  | c ∷ cs ↦
      if c == 0x4e4b
      then (let (group, after) = span_group 0x4e4b (drop_space cs) in
          if is_empty group || not (is_empty after) then none else some (some group))
      else none
]

-- ARTICLE_LABEL_TEXT_RE: the groups `number` and `suffix`. Its classes are disjoint, so a match has
-- no choice: a group ends where its class does.
unfoldable pub match_label : Text → Option (Text × Option Text)
match_label [] = none
match_label (c ∷ cs) =
    if c == 0x7b2c
    then (let (group, after) = span_group 0x6761 (drop_space cs) in
        if is_empty group then none else elim (drop_space after) [
          | [] ↦ none
          | d ∷ rest ↦
              if d == 0x6761
              then elim (match_suffix rest) [ none ↦ none | some suffix ↦ some (group, suffix) ]
              else none
        ])
    else none

-- `parse_article_label`: both numbers are read before either is tested.
unfoldable pub parse_article_label : (Text → Text) → Text → Result (ℕ × ℕ)
parse_article_label nfkc text = elim (match_label (strip text)) [
  | none ↦ err value_error
  | some (number, none) ↦ do
    n ← chinese_number_to_int nfkc number
    require (in_range n) value_error
    ok (n, 0)
  | some (number, some suffix) ↦ do
    n ← chinese_number_to_int nfkc number
    m ← chinese_number_to_int nfkc suffix
    require (in_range n && in_range m) value_error
    ok (n, m)
]

-- `canonical_article_number`.
unfoldable pub canonical_article_number : (Text → Text) → Text → Result Text
canonical_article_number nfkc text = do
  (number, suffix) ← parse_article_label nfkc text
  format_article_label number suffix

-- `canonical_article_label`: a label that is none stays, stripped.
unfoldable pub canonical_article_label : (Text → Text) → Text → Text
canonical_article_label nfkc text = elim (canonical_article_number nfkc text) [
  | ok label ↦ label
  | err _ ↦ strip text
]
