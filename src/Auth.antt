-- ===== src/Auth.antt =====
-- The credentials of a request: `ngx_http_monitoring_consttime_eq`,
-- `ngx_http_monitoring_find_header`, `ngx_http_monitoring_check_api_token` and
-- `ngx_http_monitoring_check_basic_auth` (src/ngx_http_monitoring_module.c). The functions of nginx
-- that they call are the record `Nginx`.
pub mod Compare
pub mod Credentials
use ngx_http_monitoring_modu.Prelude.{
  ℕ, zero, suc, ◌+◌, ◌-◌, Bool, true, false, ◌&&◌, ◌||◌, not, List, [], ◌∷◌, Option, none, some,
  length, get_or, drop, max, bit_or, bit_xor, codes, strncmp_eq, ltb, leb, ◌==◌, if◌then◌else◌,
}
use ngx_http_monitoring_modu.Http.{Request, Header, Nginx}
use ngx_http_monitoring_modu.Access.{Verdict, ok, declined}

-- `i < a->len ? a->data[i] : 0`.
abbrev pub byte_or_zero : List ℕ → ℕ → ℕ
byte_or_zero a i = if ltb i (length a) then get_or a i 0 else 0

-- The `for` with `n` rounds left.
pub diff_from : ℕ → ℕ → List ℕ → List ℕ → ℕ → ℕ
diff_from zero i a b diff = diff
diff_from (suc n) i a b diff =
    diff_from n (i + 1) a b (bit_or diff (bit_xor (byte_or_zero a i) (byte_or_zero b i)))

unfoldable pub consttime_eq : List ℕ → List ℕ → Verdict
unfolding diff_from
consttime_eq a b =
    let diff = diff_from (max (length a) (length b)) 0 a b (bit_xor (length a) (length b)) in
    if diff == 0 then ok else declined

abbrev pub is_ok : Verdict → Bool
is_ok ok = true
is_ok declined = false

-- A setting that is empty or `off`.
unfoldable pub is_off : List ℕ → Bool
is_off s = length s == 0 || (length s == 3 && strncmp_eq s (codes "off") 3)

module _ (ngx : Nginx) where
  open ngx use {strncasecmp_eq, decode_base64, arg}

  -- The loop over one part of the header list.
  pub find_in_part : List ℕ → List Header → Option Header
  find_in_part name [] = none
  find_in_part name (h ∷ part) =
      if length h.key == length name && strncasecmp_eq h.key name (length name)
      then some h
      else find_in_part name part

  -- The loop over the parts. nginx starts a further part only to put a header into it.
  unfoldable pub find_header : List ℕ → List (List Header) → Option Header
  unfolding find_in_part
  find_header name [] = none
  find_header name (part ∷ parts) = elim (find_in_part name part) [
    | some h ↦ some h
    | none ↦ find_header name parts
  ]

  -- `X-Monitor-Token` has the token.
  abbrev pub value_ok : List ℕ → Option Header → Bool
  value_ok token none = false
  value_ok token (some h) = is_ok (consttime_eq h.value token)

  unfoldable pub header_token_ok : List ℕ → Request → Bool
  unfolding find_header consttime_eq
  header_token_ok token r = value_ok token (find_header (codes "X-Monitor-Token") r.headers)

  -- `Authorization: Bearer` has the token.
  abbrev pub bearer_ok : List ℕ → Option (List ℕ) → Bool
  bearer_ok token none = false
  bearer_ok token (some v) =
      (ltb 7 (length v) && strncasecmp_eq v (codes "Bearer ") 7)
      && is_ok (consttime_eq (drop 7 v) token)

  unfoldable pub bearer_token_ok : List ℕ → Request → Bool
  unfolding consttime_eq
  bearer_token_ok token r = bearer_ok token r.authorization

  -- The query argument `token` has the token.
  abbrev pub argument_ok : List ℕ → Option (List ℕ) → Bool
  argument_ok token none = false
  argument_ok token (some q) = is_ok (consttime_eq q token)

  unfoldable pub query_token_ok : List ℕ → Request → Bool
  unfolding consttime_eq
  query_token_ok token r = argument_ok token (arg r (codes "token"))

  -- The three places in their order.
  unfoldable pub check_api_token : List ℕ → Request → Verdict
  unfolding header_token_ok bearer_token_ok query_token_ok
  check_api_token token r =
      if length token == 0
      then ok
      else if header_token_ok token r
      then ok
      else if bearer_token_ok token r
      then ok
      else if query_token_ok token r
      then ok
      else declined

  -- The comparison of the decoded credentials.
  abbrev pub decoded_ok : List ℕ → Option (List ℕ) → Verdict
  decoded_ok basic_auth none = declined
  decoded_ok basic_auth (some decoded) = consttime_eq decoded basic_auth

  -- The checks on the header `Authorization`.
  abbrev pub basic_ok : Bool → List ℕ → Option (List ℕ) → Verdict
  basic_ok allocated basic_auth none = declined
  basic_ok allocated basic_auth (some v) =
      if leb (length v) 6 || not (strncasecmp_eq v (codes "Basic ") 6)
      then declined
      else if not allocated
      then declined
      else decoded_ok basic_auth (decode_base64 (drop 6 v))

  -- `allocated` is whether `ngx_pnalloc` gives the buffer for the decoded text.
  unfoldable pub check_basic_auth : Bool → List ℕ → Request → Verdict
  unfolding consttime_eq is_off
  check_basic_auth allocated basic_auth r =
      if is_off basic_auth then ok else basic_ok allocated basic_auth r.authorization
