-- ===== src/Json/Laws.antt =====
-- What the writer of src/ngx_http_monitoring_json.c puts into its buffer, and when it fails.
use ngx_http_monitoring_modu.Prelude.{
  ℕ, ◌+◌, ◌≤◌, ◌≡◌, refl, sym, subst, ◌∙◌, ap, true, false, ◌||◌, List, [], ◌∷◌, ◌++◌, arith,
  length, length-append, codes, ltb, leb, ◌==◌, if◌then◌else◌, ◌⊎◌, inl, inr, Bool-cases,
}
use mathlib.Core.List.{append_assoc, append-nil}
use ngx_http_monitoring_modu.Json.{
  JsonWriter, room, wrote, json_append, json_printf, put_byte, put_bytes, json_string,
}

-- A writer that has not failed writes the text, and it fits; or it fails, the text would have left
-- no byte of the buffer free, and nothing is written past the end.
abbrev pub Writes : JsonWriter → JsonWriter → List ℕ → Type 0
Writes jw jw' text =
    ((jw' ≡ wrote jw text) × (length jw.written + length text ≤ jw.size))
    ⊎ ((jw'.failed ≡ true)
        × (jw.size ≤ length jw.written + length text)
        × (length jw'.written ≤ jw.size))

-- A writer that can go on.
abbrev pub IsReady : JsonWriter → Type 0
IsReady jw = (jw.failed ≡ false) × (length jw.written ≤ jw.size)

pub json_append-Writes :
    (jw : JsonWriter) (s : List ℕ) → IsReady jw → Writes jw (json_append jw s) s
unfolding json_append
json_append-Writes jw s (f, w) = elim (Bool-cases (ltb (room jw) (length s))) [
  | inl b ↦ rw (f, b) (inr (refl, ground arith, w))
  | inr b ↦ rw (f, b) (inl (refl, ground arith))
]

json_printf-Writes :
    (jw : JsonWriter) (s : List ℕ) → 1 ≤ length s → IsReady jw → Writes jw (json_printf jw s) s
unfolding json_printf
json_printf-Writes jw s p (f, w) = elim (Bool-cases (leb (room jw) 1)) [
  | inl b ↦ rw (f, b) (inr (refl, ground arith, w))
  | inr b ↦ elim (Bool-cases (leb (room jw) (length s))) [
    | inl d ↦ rw (f, b, d) (inr (refl, ground arith, w))
    | inr d ↦ rw (f, b, d) (inl (refl, ground arith))
  ]
]

json_append-failed : (jw : JsonWriter) (s : List ℕ) → jw.failed ≡ true → json_append jw s ≡ jw
unfolding json_append
json_append-failed jw s f = rw (f)

-- A write behind a write is a write of both texts.
Writes-after :
    (jw jw2 : JsonWriter) (s t : List ℕ) → Writes (wrote jw s) jw2 t → Writes jw jw2 (s ++ t)
Writes-after jw jw2 s t (inl (e, fits)) = inl (
  e ∙ ap (λ xs. record jw { written = xs }) (append_assoc jw.written s t),
  omega (arith, fits, length-append jw.written s, length-append s t),
)
Writes-after jw jw2 s t (inr (f, l, k)) =
    inr (f, omega (arith, l, length-append jw.written s, length-append s t), k)

-- The same for a writer in between; if it has failed, it stays as it is.
Writes-trans :
    (jw jw1 jw2 : JsonWriter) (s t : List ℕ)
    → IsReady jw
    → Writes jw jw1 s
    → (IsReady jw1 → Writes jw1 jw2 t)
    → (jw1.failed ≡ true → jw2 ≡ jw1)
    → Writes jw jw2 (s ++ t)
Writes-trans jw jw1 jw2 s t r (inl (e, fits)) b c =
    let ready : IsReady (wrote jw s) = (r.0, omega (arith, fits, length-append jw.written s)) in
    Writes-after jw jw2 s t (subst (λ x. Writes x jw2 t) e (b (subst IsReady (sym e) ready)))
Writes-trans jw jw1 jw2 s t r (inr (f, l, k)) b c = inr (
  ap (λ x. x.failed) (c f) ∙ f,
  omega (arith, l, length-append s t),
  subst (λ x. length x.written ≤ jw.size) (sym (c f)) k,
)

module _ (hex : ℕ → List ℕ) where
  -- The JSON text of a byte within a string.
  abbrev pub escape : ℕ → List ℕ
  escape c =
      if c == 34 || c == 92
      then 92 ∷ c ∷ []
      else if c == 10
      then codes "\\n"
      else if c == 13
      then codes "\\r"
      else if c == 9
      then codes "\\t"
      else if ltb c 32
      then codes "\\u" ++ hex c
      else c ∷ []

  abbrev pub escape_all : List ℕ → List ℕ
  escape_all [] = []
  escape_all (c ∷ bytes) = escape c ++ escape_all bytes

  put_byte-Writes :
      (jw : JsonWriter) (c : ℕ) → IsReady jw → Writes jw (put_byte hex jw c) (escape c)
  unfolding put_byte
  put_byte-Writes jw c (f, w) = elim (Bool-cases (c == 34 || c == 92)) [
    | inl q ↦ elim (Bool-cases (ltb (room jw) 2)) [
      | inl b ↦ rw (q, b) (inr (refl, ground arith, w))
      | inr b ↦ rw (q, b) (inl (refl, ground arith))
    ]
    | inr q ↦ elim (Bool-cases (c == 10)) [
      | inl n ↦ rw (q, n) (json_append-Writes jw (codes "\\n") (f, w))
      | inr n ↦ elim (Bool-cases (c == 13)) [
        | inl r ↦ rw (q, n, r) (json_append-Writes jw (codes "\\r") (f, w))
        | inr r ↦ elim (Bool-cases (c == 9)) [
          | inl t ↦ rw (q, n, r, t) (json_append-Writes jw (codes "\\t") (f, w))
          | inr t ↦ elim (Bool-cases (ltb c 32)) [
            | inl u ↦
                rw (q, n, r, t, u)
                  (json_printf-Writes jw (codes "\\u" ++ hex c) (omega arith) (f, w))
            | inr u ↦ elim (Bool-cases (ltb (room jw) 1)) [
              | inl b ↦ rw (q, n, r, t, u, b) (inr (refl, ground arith, w))
              | inr b ↦ rw (q, n, r, t, u, b) (inl (refl, ground arith))
            ]
          ]
        ]
      ]
    ]
  ]

  put_bytes-failed :
      (jw : JsonWriter) (bytes : List ℕ) → jw.failed ≡ true → put_bytes hex jw bytes ≡ jw
  unfolding put_bytes
  put_bytes-failed jw [] f = refl
  put_bytes-failed jw (c ∷ bytes) f = rw (f)

  put_bytes-cons :
      (jw : JsonWriter) (c : ℕ) (bytes : List ℕ)
      → jw.failed ≡ false
      → put_bytes hex (put_byte hex jw c) bytes ≡ put_bytes hex jw (c ∷ bytes)
  unfolding put_bytes
  put_bytes-cons jw c bytes f = sym (rw (f))

  put_bytes-nil : (jw : JsonWriter) → put_bytes hex jw [] ≡ wrote jw []
  unfolding put_bytes
  put_bytes-nil jw = ap (λ xs. record jw { written = xs }) (sym (append-nil jw.written))

  put_bytes-Writes :
      (jw : JsonWriter) (bytes : List ℕ)
      → IsReady jw
      → Writes jw (put_bytes hex jw bytes) (escape_all bytes)
  put_bytes-Writes jw [] r = inl (put_bytes-nil jw, omega (arith, r.1))
  put_bytes-Writes jw (c ∷ bytes) r =
      subst (λ x. Writes jw x (escape_all (c ∷ bytes))) (put_bytes-cons jw c bytes r.0)
        (Writes-trans jw (put_byte hex jw c) (put_bytes hex (put_byte hex jw c) bytes) (escape c)
          (escape_all bytes) r (put_byte-Writes jw c r)
          (λ r1. put_bytes-Writes (put_byte hex jw c) bytes r1)
          (put_bytes-failed (put_byte hex jw c) bytes))

  -- The JSON string of the bytes, in quotes.
  abbrev pub quoted : List ℕ → List ℕ
  quoted bytes = codes "\"" ++ (escape_all bytes ++ codes "\"")

  -- A writer that has not failed, with no more in its buffer than that holds, writes exactly the
  -- quoted and escaped string, which fits; or it fails, which takes a string that would fill the
  -- buffer or more, and then too nothing stands past the end.
  pub json_string-Writes :
      (jw : JsonWriter) (bytes : List ℕ)
      → IsReady jw
      → Writes jw (json_string hex jw bytes) (quoted bytes)
  unfolding json_string
  json_string-Writes jw bytes r =
      let opened = json_append jw (codes "\"") in
      let filled = put_bytes hex opened bytes in
      Writes-trans jw opened (json_append filled (codes "\"")) (codes "\"")
        (escape_all bytes ++ codes "\"") r (json_append-Writes jw (codes "\"") r)
        (λ r1.
          Writes-trans opened filled (json_append filled (codes "\"")) (escape_all bytes)
            (codes "\"") r1 (put_bytes-Writes opened bytes r1)
            (λ r2. json_append-Writes filled (codes "\"") r2)
            (json_append-failed filled (codes "\"")))
        (λ f.
          ap (λ x. json_append x (codes "\"")) (put_bytes-failed opened bytes f)
          ∙ json_append-failed opened (codes "\"") f)

  pub json_string-failed :
      (jw : JsonWriter) (bytes : List ℕ) → jw.failed ≡ true → json_string hex jw bytes ≡ jw
  unfolding json_string
  json_string-failed jw bytes f =
      let opened = json_append-failed jw (codes "\"") f in
      ap (λ x. json_append (put_bytes hex x bytes) (codes "\"")) opened
      ∙ ap (λ x. json_append x (codes "\"")) (put_bytes-failed jw bytes f)
      ∙ opened
