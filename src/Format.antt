-- ===== src/Format.antt =====
-- The texts that `ngx_slprintf` and `ngx_vslprintf` format for the responses
-- (src/ngx_http_monitoring_sse.c, src/ngx_http_monitoring_json.c): a format string as the pieces
-- between which the arguments stand. The digits of numbers are parameters.
use ngx_http_monitoring_modu.Prelude.{ℕ, List, [], ◌∷◌, ◌++◌, String, codes}

-- Literal text, a number for `%ui`, `%uA`, `%T` or `%d`, a double with its
-- digits behind the point, as for `%.3f`, and a byte string for `%s`.
pub data Piece (Double : Type 0) : Type 0 where
  lit : String → Piece Double
  num : ℕ → Piece Double
  real : ℕ → Double → Piece Double
  str : List ℕ → Piece Double

-- What a number and a double are written as.
pub record Digits (Double : Type 0) : Type 0 where
  pub decimal : ℕ → List ℕ
  pub fixed : ℕ → Double → List ℕ

module _ {Double : Type 0} (digits : Digits Double) where
  abbrev pub piece_text : Piece Double → List ℕ
  piece_text (lit s) = codes s
  piece_text (num n) = digits.decimal n
  piece_text (real places d) = digits.fixed places d
  piece_text (str s) = s

  unfoldable pub render : List (Piece Double) → List ℕ
  render [] = []
  render (piece ∷ pieces) = piece_text piece ++ render pieces
