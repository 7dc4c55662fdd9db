-- ===== src/Json/Call/Completes.antt =====
-- What a sequence of calls of the writer leaves in its buffer (src/ngx_http_monitoring_json.c).
use ngx_http_monitoring_modu.Prelude.{
  ℕ, ◌+◌, ◌≤◌, ◌≡◌, refl, sym, ap, subst, ◌∙◌, arith, Bool, true, false, ◌||◌, List, [], ◌∷◌, ◌++◌,
  length, length-append, leb, leb→le, leb→gt, ◌⊎◌, inl, inr, Bool-cases,
}
use mathlib.Core.List.{append_assoc, append-nil}
use ngx_http_monitoring_modu.Format.{Digits, render}
use ngx_http_monitoring_modu.Json.{
  JsonWriter, room, fail, wrote, json_append, json_printf, json_string,
}
use ngx_http_monitoring_modu.Json.Laws.{
  Writes, IsReady, quoted, json_string-Writes, json_append-Writes, json_string-failed,
}
use ngx_http_monitoring_modu.Json.Call.{Call, append, printf, string, give_up, call, calls}

-- A writer that has not failed writes the text, and it fits; or it fails, and the text would have
-- left at most one byte of the buffer free.
abbrev pub Completes : JsonWriter → JsonWriter → List ℕ → Type 0
Completes jw jw' text =
    ((jw' ≡ wrote jw text) × (length jw.written + length text ≤ jw.size))
    ⊎ ((jw'.failed ≡ true) × (jw.size ≤ length jw.written + (length text + 1)))

Writes-Completes :
    (jw jw' : JsonWriter) (text : List ℕ) → Writes jw jw' text → Completes jw jw' text
Writes-Completes jw jw' text (inl w) = inl w
Writes-Completes jw jw' text (inr (f, l, k)) = inr (f, omega (arith, l))

json_printf-Completes :
    (jw : JsonWriter) (text : List ℕ) → IsReady jw → Completes jw (json_printf jw text) text
unfolding json_printf
json_printf-Completes jw text (f, w) = elim (Bool-cases (leb (room jw) 1)) [
  | inl b ↦ let l = leb→le (room jw) 1 b in rw (f, b) (inr (refl, omega (arith, l, w)))
  | inr b ↦ elim (Bool-cases (leb (room jw) (length text))) [
    | inl d ↦
        let l = leb→le (room jw) (length text) d in rw (f, b, d) (inr (refl, omega (arith, l, w)))
    | inr d ↦
        let l = leb→gt (room jw) (length text) d in rw (f, b, d) (inl (refl, omega (arith, l, w)))
  ]
]

-- A text behind a text.
Completes-after :
    (jw jw2 : JsonWriter) (s t : List ℕ) → Completes (wrote jw s) jw2 t → Completes jw jw2 (s ++ t)
Completes-after jw jw2 s t (inl (e, fits)) = inl (
  e ∙ ap (λ xs. record jw { written = xs }) (append_assoc jw.written s t),
  omega (arith, fits, length-append jw.written s, length-append s t),
)
Completes-after jw jw2 s t (inr (f, l)) =
    inr (f, omega (arith, l, length-append jw.written s, length-append s t))

calls-nil : (jw : JsonWriter) → jw ≡ wrote jw []
calls-nil jw = ap (λ xs. record jw { written = xs }) (sym (append-nil jw.written))

or-false_left : (a b : Bool) → (a || b) ≡ false → a ≡ false
or-false_left true b h = h
or-false_left false b h = refl

or-false_right : (a b : Bool) → (a || b) ≡ false → b ≡ false
or-false_right true b h = cc
or-false_right false b h = h

module _ {Double : Type 0} (digits : Digits Double) (hex : ℕ → List ℕ) where
  -- What a call writes, if it can.
  abbrev pub call_text : Call Double → List ℕ
  call_text (append s) = s
  call_text (printf pieces) = render digits pieces
  call_text (string bytes) = quoted hex bytes
  call_text give_up = []

  abbrev pub calls_text : List (Call Double) → List ℕ
  calls_text [] = []
  calls_text (c ∷ cs) = call_text c ++ calls_text cs

  abbrev pub gives_up_at : Call Double → Bool
  gives_up_at give_up = true
  gives_up_at (append s) = false
  gives_up_at (printf pieces) = false
  gives_up_at (string bytes) = false

  abbrev pub gives_up : List (Call Double) → Bool
  gives_up [] = false
  gives_up (c ∷ cs) = gives_up_at c || gives_up cs

  call-Completes :
      (jw : JsonWriter) (c : Call Double)
      → IsReady jw
      → gives_up_at c ≡ false
      → Completes jw (call digits hex jw c) (call_text c)
  unfolding call
  call-Completes jw (append s) r g =
      Writes-Completes jw (json_append jw s) s (json_append-Writes jw s r)
  call-Completes jw (printf pieces) r g = json_printf-Completes jw (render digits pieces) r
  call-Completes jw (string bytes) r g =
      Writes-Completes jw (json_string hex jw bytes) (quoted hex bytes)
        (json_string-Writes hex jw bytes r)
  call-Completes jw give_up r g = cc

  call-failed :
      (jw : JsonWriter) (c : Call Double) → jw.failed ≡ true → (call digits hex jw c).failed ≡ true
  unfolding call json_append json_printf
  call-failed jw (append s) f = rw (f) refl
  call-failed jw (printf pieces) f = rw (f) refl
  call-failed jw (string bytes) f = ap (λ x. x.failed) (json_string-failed hex jw bytes f) ∙ f
  call-failed jw give_up f = refl

  calls-failed :
      (jw : JsonWriter) (cs : List (Call Double))
      → jw.failed ≡ true
      → (calls digits hex jw cs).failed ≡ true
  calls-failed jw [] f = f
  calls-failed jw (c ∷ cs) f = calls-failed (call digits hex jw c) cs (call-failed jw c f)

  pub calls-gives_up :
      (jw : JsonWriter) (cs : List (Call Double))
      → gives_up cs ≡ true
      → (calls digits hex jw cs).failed ≡ true
  unfolding call
  calls-gives_up jw [] g = cc
  calls-gives_up jw (append s ∷ cs) g = calls-gives_up (json_append jw s) cs g
  calls-gives_up jw (printf pieces ∷ cs) g =
      calls-gives_up (json_printf jw (render digits pieces)) cs g
  calls-gives_up jw (string bytes ∷ cs) g = calls-gives_up (json_string hex jw bytes) cs g
  calls-gives_up jw (give_up ∷ cs) g = calls-failed (fail jw) cs refl

  pub calls-Completes :
      (jw : JsonWriter) (cs : List (Call Double))
      → IsReady jw
      → gives_up cs ≡ false
      → Completes jw (calls digits hex jw cs) (calls_text cs)
  calls-Completes jw [] r g = inl (calls-nil jw, omega (arith, r.1))
  calls-Completes jw (c ∷ cs) r g = elim (call-Completes jw c r (or-false_left _ _ g)) [
    | inl (e, fits) ↦
        let ready : IsReady (wrote jw (call_text c)) =
          (r.0, omega (arith, fits, length-append jw.written (call_text c))) in
        Completes-after jw (calls digits hex (call digits hex jw c) cs) (call_text c)
          (calls_text cs)
          (subst (λ x. Completes x (calls digits hex (call digits hex jw c) cs) (calls_text cs)) e
            (calls-Completes (call digits hex jw c) cs (subst IsReady (sym e) ready)
              (or-false_right _ _ g)))
    | inr (f, l) ↦ inr (
      calls-failed (call digits hex jw c) cs f,
      omega (arith, l, length-append (call_text c) (calls_text cs)),
    )
  ]
