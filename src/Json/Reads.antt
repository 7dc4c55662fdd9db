-- ===== src/Json/Reads.antt =====
-- A reader of JSON strings, by RFC 8259, and what it gives for the strings of
-- `ngx_http_monitoring_json_string` (src/ngx_http_monitoring_json.c). A code point is one number, and
-- an escape by four hexadecimal digits is of one unit.
use ngx_http_monitoring_modu.Prelude.{
  ℕ, zero, suc, ◌+◌, ◌-◌, ◌*◌, ◌<◌, ◌≡◌, refl, sym, ap, ◌∙◌, arith, Bool, true, false, not, ◌&&◌,
  ◌||◌, List, [], ◌∷◌, ◌++◌, Option, none, some, ltb, ltb→lt, ==→eq, leb, ◌==◌, if◌then◌else◌,
  Bool-cases, ◌⊎◌, inl, inr,
}
use mathlib.Core.List.{append_assoc}
use ngx_http_monitoring_modu.Json.{JsonWriter, json_string}
use ngx_http_monitoring_modu.Json.Laws.{
  Writes, IsReady, escape, escape_all, quoted, json_string-Writes,
}

-- Behind a backslash, or behind `\u` with `n + 1` digits to come.
pub data Mode : Type 0 where
  plain escaped : Mode
  digits : ℕ → ℕ → Mode

pub data Step : Type 0 where
  ends bad : Step
  goes : Mode → List ℕ → Step

abbrev pub is_hex : ℕ → Bool
is_hex d = (leb 48 d && leb d 57) || (leb 97 d && leb d 102)

abbrev pub hex_value : ℕ → ℕ
hex_value d = if leb d 57 then d - 48 else d - 87

abbrev pub read_escape : ℕ → Step
read_escape c =
    if c == 34 || c == 92 || c == 47
    then goes plain (c ∷ [])
    else if c == 98
    then goes plain (8 ∷ [])
    else if c == 102
    then goes plain (12 ∷ [])
    else if c == 110
    then goes plain (10 ∷ [])
    else if c == 114
    then goes plain (13 ∷ [])
    else if c == 116
    then goes plain (9 ∷ [])
    else if c == 117
    then goes (digits 3 0) []
    else bad

abbrev pub read_step : Mode → ℕ → Step
read_step plain c =
    if c == 34
    then ends
    else if c == 92
    then goes escaped []
    else if ltb c 32
    then bad
    else goes plain (c ∷ [])
read_step escaped c = read_escape c
read_step (digits zero v) c = if is_hex c then goes plain ((v * 16 + hex_value c) ∷ []) else bad
read_step (digits (suc n) v) c = if is_hex c then goes (digits n (v * 16 + hex_value c)) [] else bad

abbrev pub prepend : List ℕ → Option (List ℕ × List ℕ) → Option (List ℕ × List ℕ)
prepend out none = none
prepend out (some (s, rest)) = some (out ++ s, rest)

abbrev pub continue : Step → List ℕ → (Mode → Option (List ℕ × List ℕ)) → Option (List ℕ × List ℕ)
continue ends text read = some ([], text)
continue bad text read = none
continue (goes mode out) text read = prepend out (read mode)

-- The string up to its closing quote, and what is behind the quote.
abbrev pub read_from : Mode → List ℕ → Option (List ℕ × List ℕ)
read_from mode [] = none
read_from mode (c ∷ text) = continue (read_step mode c) text (λ m. read_from m text)

-- What `ngx_vslprintf` documents of a format that ends in `%04x`: `x` stands before a type letter, and
-- the NUL of the format's end is taken for a letter without a meaning, which is copied.
abbrev pub CopiesEnd : (ℕ → List ℕ) → Type 0
CopiesEnd hex = (c : ℕ) → c < 32 → (more : List ℕ) × (hex c ≡ 0 ∷ more)

-- A byte that the writer puts out itself or escapes by one letter.
abbrev pub is_clean : ℕ → Bool
is_clean c = not (ltb c 32) || c == 9 || c == 10 || c == 13

abbrev pub all_clean : List ℕ → Bool
all_clean [] = true
all_clean (c ∷ bytes) = is_clean c && all_clean bytes

prepend_nil : (o : Option (List ℕ × List ℕ)) → prepend [] o ≡ o
prepend_nil none = refl
prepend_nil (some (s, rest)) = refl

read-goes :
    (mode mode' : Mode) (c : ℕ) (out text : List ℕ)
    → read_step mode c ≡ goes mode' out
    → read_from mode (c ∷ text) ≡ prepend out (read_from mode' text)
read-goes mode mode' c out text e = ap (λ s. continue s text (λ m. read_from m text)) e

prepend-if :
    (c : ℕ) (bytes rest : List ℕ) (b : Bool)
    → prepend (c ∷ []) (if b then some (bytes, rest) else none)
      ≡ (if b then some (c ∷ bytes, rest) else none)
prepend-if c bytes rest true = refl
prepend-if c bytes rest false = refl

module _ (hex : ℕ → List ℕ) where
  read-escape :
      (c : ℕ) (text : List ℕ)
      → is_clean c ≡ true
      → read_from plain (escape hex c ++ text) ≡ prepend (c ∷ []) (read_from plain text)
  read-escape c text clean = elim (Bool-cases (c == 34 || c == 92)) [
    | inl q ↦
        let e : read_escape c ≡ goes plain (c ∷ []) = ground arith in
        rw (q) (prepend_nil _ ∙ read-goes escaped plain c (c ∷ []) text e)
    | inr q ↦ elim (Bool-cases (c == 10)) [
      | inl n ↦
          rw (q, n)
            (prepend_nil _ ∙ ap (λ k. prepend (k ∷ []) (read_from plain text)) (sym (==→eq c 10 n)))
      | inr n ↦ elim (Bool-cases (c == 13)) [
        | inl r ↦
            rw (q, n, r)
              (prepend_nil _
                ∙ ap (λ k. prepend (k ∷ []) (read_from plain text)) (sym (==→eq c 13 r)))
        | inr r ↦ elim (Bool-cases (c == 9)) [
          | inl t ↦
              rw (q, n, r, t)
                (prepend_nil _
                  ∙ ap (λ k. prepend (k ∷ []) (read_from plain text)) (sym (==→eq c 9 t)))
          | inr t ↦
              let u : ltb c 32 ≡ false = ground arith in
              let e : read_step plain c ≡ goes plain (c ∷ []) = ground arith in
              rw (q, n, r, t, u) (read-goes plain plain c (c ∷ []) text e)
        ]
      ]
    ]
  ]

  module _ (ends_early : CopiesEnd hex) where
    -- The NUL is no hexadecimal digit.
    read-unclean :
        (c : ℕ) (text : List ℕ) → is_clean c ≡ false → read_from plain (escape hex c ++ text) ≡ none
    read-unclean c text unclean =
        let low : ltb c 32 ≡ true = ground arith in
        let q : (c == 34 || c == 92) ≡ false = ground arith in
        let n : (c == 10) ≡ false = ground arith in
        let r : (c == 13) ≡ false = ground arith in
        let t : (c == 9) ≡ false = ground arith in
        let (more, e) = ends_early c (ltb→lt c 32 low) in rw (q, n, r, t, low, e) refl

    read-escape_all :
        (bytes rest : List ℕ)
        → read_from plain (escape_all hex bytes ++ (34 ∷ rest))
          ≡ (if all_clean bytes then some (bytes, rest) else none)
    read-escape_all [] rest = refl
    read-escape_all (c ∷ bytes) rest =
        let behind = escape_all hex bytes ++ (34 ∷ rest) in
        let regroup =
          ap (read_from plain) (append_assoc (escape hex c) (escape_all hex bytes) (34 ∷ rest)) in
        elim (Bool-cases (is_clean c)) [
          | inr u ↦ regroup ∙ read-unclean c behind u ∙ rw (u) refl
          | inl k ↦
              regroup
              ∙ read-escape c behind k
              ∙ ap (prepend (c ∷ [])) (read-escape_all bytes rest)
              ∙ prepend-if c bytes rest (all_clean bytes)
              ∙ rw (k) refl
        ]

    -- A writer that has not failed, with no more in its buffer than that holds, writes exactly the
    -- quoted and escaped string, which fits; or it fails, which takes a string that would fill the
    -- buffer or more, and then too nothing stands past the end. Unless it fails, what it adds is a
    -- quote and a text from which a reader of JSON strings gets back exactly the bytes, up to the
    -- end, if none of them is below 32 but tab, newline and carriage return. If one is, the text is
    -- no JSON: the format `\\u%04x` lacks a type letter, and nginx copies the NUL of its end.
    pub read-json_string :
        (jw : JsonWriter) (bytes : List ℕ)
        → IsReady jw
        → Writes jw (json_string hex jw bytes) (quoted hex bytes)
          × (((json_string hex jw bytes).failed ≡ true)
              ⊎ ((text : List ℕ) × ((json_string hex jw bytes).written ≡ jw.written ++ (34 ∷ text))
                  × (read_from plain text ≡ (if all_clean bytes then some (bytes, []) else none))))
    read-json_string jw bytes r = elim (json_string-Writes hex jw bytes r) [
      | inl (e, fits) ↦ (
        inl (e, fits),
        inr (escape_all hex bytes ++ (34 ∷ []), ap (λ w. w.written) e, read-escape_all bytes []),
      )
      | inr (g, l, k) ↦ (inr (g, l, k), inl g)
    ]
