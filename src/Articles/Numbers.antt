-- ===== src/Articles/Numbers.antt =====
-- Article numbers of legal_rag/article_numbers.py, written and read.
use legal_rag_agent.Prelude.{
  ℕ, zero, suc, ◌+◌, ◌-◌, ◌*◌, ◌/◌, ◌%◌, ◌≤◌, ◌<◌, ◌≡◌, refl, sym, ap, ◌∙◌, Bool, true, false, ◌&&◌,
  ◌||◌, not, Option, none, some, List, [], ◌∷◌, ◌++◌, reverse, all, map, Each, ltb, ◌==◌,
  if◌then◌else◌, arith, Bool-cases, inl, inr,
}
use mathlib.Core.List.{append_assoc, append-nil, reverse-cons, reverse-reverse}
use legal_rag_agent.Jobs.Result.{ok}
use legal_rag_agent.Jobs.Validate.{is_space}
use legal_rag_agent.Articles.{
  Text, is_ascii_digit, digit_char, digit_value, unit_value, drop_space, strip, is_pending, scan,
  value_to_int, chinese_number_to_int, is_empty, join_parts, number_text, in_range,
  int_to_chinese_number,
}

-- A character that a written number has: no blank and no ASCII digit.
abbrev pub is_plain : ℕ → Bool
is_plain c = not (is_space c) && not (is_ascii_digit c)

-- Each digit's character is plain and is read as the digit.
digit_read :
    (n : ℕ) → n < 10 → (digit_value (digit_char n) ≡ some n) × (is_plain (digit_char n) ≡ true)
unfolding digit_char digit_value is_space
digit_read zero h = (refl, refl)
digit_read (suc zero) h = (refl, refl)
digit_read (suc (suc zero)) h = (refl, refl)
digit_read (suc (suc (suc zero))) h = (refl, refl)
digit_read (suc (suc (suc (suc zero)))) h = (refl, refl)
digit_read (suc (suc (suc (suc (suc zero))))) h = (refl, refl)
digit_read (suc (suc (suc (suc (suc (suc zero)))))) h = (refl, refl)
digit_read (suc (suc (suc (suc (suc (suc (suc zero))))))) h = (refl, refl)
digit_read (suc (suc (suc (suc (suc (suc (suc (suc zero)))))))) h = (refl, refl)
digit_read (suc (suc (suc (suc (suc (suc (suc (suc (suc zero))))))))) h = (refl, refl)
digit_read (suc (suc (suc (suc (suc (suc (suc (suc (suc (suc n)))))))))) h =
    absurd (omega (arith, h))

units_plain :
    (is_plain 0x96f6 ≡ true)
    × (is_plain 0x5343 ≡ true)
    × (is_plain 0x767e ≡ true)
    × (is_plain 0x5341 ≡ true)
unfolding is_space
units_plain = (refl, refl, refl, refl)

-- How the loop reads a digit where none is pending, or only a zero.
scan_digit :
    (n total : ℕ) (pending : Option ℕ) (cs : Text)
    → n < 10
    → is_pending pending ≡ false
    → scan (digit_char n ∷ cs) total pending ≡ scan cs total (some n)
unfolding scan
scan_digit n total pending cs h clear = rw ((digit_read n h).0, scan) (rw clear refl)

-- How it reads the character of a unit after a digit that is not zero.
scan_unit :
    (c unit n total : ℕ) (cs : Text)
    → digit_value c ≡ none
    → unit_value c ≡ some unit
    → (n == 0) ≡ false
    → scan (c ∷ cs) total (some n) ≡ scan cs (total + n * unit) none
unfolding scan
scan_unit c unit zero total cs e f h = cc
scan_unit c unit (suc n) total cs e f h = rw (e, scan) (rw f refl)

-- What is written so far is read as `t`, whatever follows.
Reads : Text → ℕ → Type 0
Reads parts t = (cs : Text) → scan (parts ++ cs) 0 none ≡ scan cs t none

abbrev gap : Bool → Text
gap zero_pending = if zero_pending then 0x96f6 ∷ [] else []

-- A gap and a digit are read as the digit.
gap_digit :
    (zero_pending : Bool) (n t : ℕ) (cs : Text)
    → n < 10
    → scan (gap zero_pending ++ (digit_char n ∷ cs)) t none ≡ scan cs t (some n)
unfolding digit_char
gap_digit true n t cs h =
    scan_digit 0 t none (digit_char n ∷ cs) (omega arith) refl ∙ scan_digit n t (some 0) cs h refl
gap_digit false n t cs h = scan_digit n t none cs h refl

-- A part of the text: a digit, with the character of its unit and the unit.
UnitOk : ℕ × (ℕ × ℕ) → Type 0
UnitOk (n, (c, unit)) =
    (n < 10) × (digit_value c ≡ none) × (unit_value c ≡ some unit) × (is_plain c ≡ true)

abbrev part : ℕ × (ℕ × ℕ) → ℕ × Text
part (n, (c, unit)) = (n, c ∷ [])

abbrev amount : List (ℕ × (ℕ × ℕ)) → ℕ
amount [] = 0
amount ((n, (c, unit)) ∷ ps) = n * unit + amount ps

Reads-part :
    (zero_pending : Bool) (n c unit t : ℕ) (parts : Text)
    → UnitOk (n, (c, unit))
    → (n == 0) ≡ false
    → Reads parts t
    → Reads (parts ++ (gap zero_pending ++ (digit_char n ∷ c ∷ []))) (t + n * unit)
unfolding Reads UnitOk
Reads-part zero_pending n c unit t parts (small, none_c, unit_c, plain) big r = λ cs.
    ap (λ x. scan x 0 none) (append_assoc parts (gap zero_pending ++ (digit_char n ∷ c ∷ [])) cs)
    ∙ r ((gap zero_pending ++ (digit_char n ∷ c ∷ [])) ++ cs)
    ∙ ap (λ x. scan x t none) (append_assoc (gap zero_pending) (digit_char n ∷ c ∷ []) cs)
    ∙ gap_digit zero_pending n t (c ∷ cs) small
    ∙ scan_unit c unit n t cs none_c unit_c big

read_end : (parts : Text) (t : ℕ) → Reads parts t → scan parts 0 none ≡ ok t
unfolding Reads scan
read_end parts t r = ap (λ x. scan x 0 none) (sym (append-nil parts)) ∙ r []

read_last :
    (zero_pending : Bool) (d t : ℕ) (parts : Text)
    → d < 10
    → Reads parts t
    → scan (parts ++ (gap zero_pending ++ (digit_char d ∷ []))) 0 none ≡ ok (t + d)
unfolding Reads scan
read_last zero_pending d t parts small r =
    r (gap zero_pending ++ (digit_char d ∷ [])) ∙ gap_digit zero_pending d t [] small

-- The whole text is read as the sum of its digits by their units.
join_parts-Reads :
    (ps : List (ℕ × (ℕ × ℕ))) (d t : ℕ) (parts : Text) (zero_pending : Bool)
    → Each UnitOk ps
    → d < 10
    → Reads parts t
    → scan (join_parts (map part ps ++ ((d, []) ∷ [])) parts zero_pending) 0 none
      ≡ ok (t + amount ps + d)
unfolding join_parts
join_parts-Reads [] d t parts zero_pending good small r = elim (Bool-cases (d == 0)) [
  | inl is_zero ↦ rw is_zero (read_end parts t r ∙ ap ok (ground arith))
  | inr big ↦ rw big (read_last zero_pending d t parts small r ∙ ap ok (omega arith))
]
join_parts-Reads ((n, (c, unit)) ∷ ps) d t parts zero_pending good small r =
    elim (Bool-cases (n == 0)) [
      | inl is_zero ↦ rw is_zero (
          join_parts-Reads ps d t parts (zero_pending || not (is_empty parts)) good.1 small r
          ∙ ap ok (ground arith))
      | inr big ↦ rw big (
          join_parts-Reads ps d (t + n * unit)
            (parts ++ (gap zero_pending ++ (digit_char n ∷ c ∷ []))) false good.1 small
            (Reads-part zero_pending n c unit t parts good.0 big r)
          ∙ ap ok (omega arith))
    ]

-- The written number's characters are plain.
all-append : (p : ℕ → Bool) (xs ys : Text) → all p (xs ++ ys) ≡ (all p xs && all p ys)
all-append p [] ys = refl
all-append p (x ∷ xs) ys = ground (arith, all-append p xs ys)

gap-plain : (zero_pending : Bool) → all is_plain (gap zero_pending) ≡ true
gap-plain true = ground (arith, units_plain)
gap-plain false = refl

join_parts-plain :
    (ps : List (ℕ × (ℕ × ℕ))) (d : ℕ) (parts : Text) (zero_pending : Bool)
    → Each UnitOk ps
    → d < 10
    → all is_plain parts ≡ true
    → all is_plain (join_parts (map part ps ++ ((d, []) ∷ [])) parts zero_pending) ≡ true
unfolding join_parts UnitOk
join_parts-plain [] d parts zero_pending good small h = elim (Bool-cases (d == 0)) [
  | inl is_zero ↦ rw is_zero h
  | inr big ↦ rw big (
      ground (
        arith,
        h,
        gap-plain zero_pending,
        (digit_read d small).1,
        all-append is_plain parts (gap zero_pending ++ (digit_char d ∷ [])),
        all-append is_plain (gap zero_pending) (digit_char d ∷ []),
      ))
]
join_parts-plain ((n, (c, unit)) ∷ ps) d parts zero_pending good small h =
    elim (Bool-cases (n == 0)) [
      | inl is_zero ↦ rw is_zero (join_parts-plain ps d parts _ good.1 small h)
      | inr big ↦ rw big (
          join_parts-plain ps d (parts ++ (gap zero_pending ++ (digit_char n ∷ c ∷ []))) false
            good.1 small
            (ground (
              arith,
              h,
              gap-plain zero_pending,
              (digit_read n good.0.0).1,
              good.0.2,
              all-append is_plain parts (gap zero_pending ++ (digit_char n ∷ c ∷ [])),
              all-append is_plain (gap zero_pending) (digit_char n ∷ c ∷ []),
            )))
    ]

-- Nothing is stripped from a plain text, and it is no ASCII number.
drop_space-plain : (cs : Text) → all is_plain cs ≡ true → drop_space cs ≡ cs
unfolding drop_space
drop_space-plain [] h = refl
drop_space-plain (c ∷ cs) h = ground (arith, h)

all-reverse : (p : ℕ → Bool) (xs : Text) → all p (reverse xs) ≡ all p xs
all-reverse p [] = refl
all-reverse p (x ∷ xs) =
    ap (all p) (reverse-cons x xs)
    ∙ ground (arith, all-append p (reverse xs) (x ∷ []), all-reverse p xs)

strip-plain : (cs : Text) → all is_plain cs ≡ true → strip cs ≡ cs
unfolding strip
strip-plain cs h =
    rw (drop_space-plain cs h) (
      ap reverse (drop_space-plain (reverse cs) (all-reverse is_plain cs ∙ h)) ∙ reverse-reverse cs)

parts_of : (v : ℕ) → List (ℕ × (ℕ × ℕ))
parts_of v =
    (v / 1000 % 10, (0x5343, 1000))
    ∷ (v / 100 % 10, (0x767e, 100))
    ∷ (v / 10 % 10, (0x5341, 10))
    ∷ []

parts_ok : (v : ℕ) → Each UnitOk (parts_of v)
unfolding parts_of UnitOk digit_value unit_value
parts_ok v = (
  (omega arith, refl, refl, units_plain.1),
  ((omega arith, refl, refl, units_plain.2), ((omega arith, refl, refl, units_plain.3), tt)),
)

one_digit : (n : ℕ) → scan [] 0 (some n) ≡ ok n
unfolding scan
one_digit n = ap ok (omega arith)

ten_read : (cs : Text) → scan (0x5341 ∷ cs) 0 none ≡ scan cs 10 none
unfolding scan digit_value unit_value
ten_read cs = refl

ten_and : (n : ℕ) → n < 10 → scan (digit_char n ∷ []) 10 none ≡ ok (10 + n)
unfolding scan
ten_and n small = scan_digit n 10 none [] small refl

ten_alone : scan [] 10 none ≡ ok 10
unfolding scan
ten_alone = refl

teen_read :
    (v : ℕ)
    → 10 ≤ v
    → v < 20
    → (scan (0x5341 ∷ (if ltb 10 v then digit_char (v - 10) ∷ [] else [])) 0 none ≡ ok v)
      × (all is_plain (0x5341 ∷ (if ltb 10 v then digit_char (v - 10) ∷ [] else [])) ≡ true)
teen_read v low high = elim (Bool-cases (ltb 10 v)) [
  | inl more ↦ rw more (
    ten_read (digit_char (v - 10) ∷ [])
        ∙ ten_and (v - 10) (omega (arith, high))
        ∙ ap ok (omega (arith, low)),
    ground (arith, units_plain, (digit_read (v - 10) (omega (arith, high))).1),
  )
  | inr ten ↦ rw ten (ten_read [] ∙ ten_alone ∙ ap ok (ground arith), ground (arith, units_plain))
]

-- The text of a number in range is plain and is read as the number.
number_text-read :
    (v : ℕ)
    → in_range v ≡ true
    → (scan (number_text v) 0 none ≡ ok v) × (all is_plain (number_text v) ≡ true)
unfolding number_text parts_of Reads
number_text-read v r = elim (Bool-cases (ltb v 10)) [
  | inl one ↦ rw one (
    scan_digit v 0 none [] (ground arith) refl ∙ one_digit v,
    ground (arith, (digit_read v (ground arith)).1),
  )
  | inr more ↦ elim (Bool-cases (ltb v 20)) [
    | inl teen ↦ rw (more, teen) (teen_read v (ground arith) (ground arith))
    | inr big ↦
        rw (more, big)
          (
            join_parts-Reads (parts_of v) (v / 1 % 10) 0 [] false (parts_ok v) (omega arith)
                  (λ cs. refl)
                ∙ ap ok (ground arith),
            join_parts-plain (parts_of v) (v / 1 % 10) [] false (parts_ok v) (omega arith) refl,
          )
  ]
]

-- A plain text is not taken for an ASCII number, and an empty one reads as 0.
plain_number :
    (nfkc : Text → Text) (text : Text) (v : ℕ)
    → nfkc text ≡ text
    → all is_plain text ≡ true
    → scan text 0 none ≡ ok v
    → 1 ≤ v
    → chinese_number_to_int nfkc text ≡ ok v
unfolding chinese_number_to_int value_to_int scan
plain_number nfkc [] v kept plain read h = absurd (ground arith)
plain_number nfkc (c ∷ cs) v kept plain read h =
    let other : all is_ascii_digit (c ∷ cs) ≡ false = ground arith in
    rw (kept, strip-plain (c ∷ cs) plain) (rw (other, value_to_int) read)

-- Every article number, 1 to 9999, is read back from its Chinese text as itself, if normalization
-- leaves that text alone, as NFKC does for these characters.
pub chinese_number_roundtrip :
    (nfkc : Text → Text) (v : ℕ) (text : Text)
    → int_to_chinese_number v ≡ ok text
    → nfkc text ≡ text
    → chinese_number_to_int nfkc text ≡ ok v
unfolding int_to_chinese_number
chinese_number_roundtrip nfkc v text h kept = elim (Bool-cases (in_range v)) [
  | inr out ↦ absurd (let z = rw out at h in cc)
  | inl fits ↦
      let same : text ≡ number_text v = ground arith in
      let (read, plain) = number_text-read v fits in
      plain_number nfkc text v kept (rw same plain) (rw same read) (ground arith)
]
