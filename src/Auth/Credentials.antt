-- ===== src/Auth/Credentials.antt =====
-- When a request's credentials are accepted.
use ngx_http_monitoring_modu.Prelude.{
  ℕ, ◌<◌, ◌≡◌, ◌↔◌, ◌⊎◌, inl, inr, refl, ◌∙◌, ap, Bool, true, false, ◌&&◌, List, Option, none, some,
  arith, length, drop, codes, ltb, ltb→lt, lt→ltb, Bool-cases,
}
use mathlib.Core.Option.{some-injective}
use ngx_http_monitoring_modu.Http.{Request, Header, Nginx}
use ngx_http_monitoring_modu.Access.{ok, declined}
use ngx_http_monitoring_modu.Auth.{
  value_ok, bearer_ok, argument_ok, decoded_ok, basic_ok, is_off, find_header, check_api_token,
  check_basic_auth,
}
use ngx_http_monitoring_modu.Auth.Compare.{consttime_eq_iff, is_ok-consttime_eq}

module _ (ngx : Nginx) (r : Request) where
  -- The three places where a token is looked for.
  abbrev pub InHeader : List ℕ → Type 0
  InHeader token =
      (h : Header) × (find_header ngx (codes "X-Monitor-Token") r.headers ≡ some h)
      × (h.value ≡ token)

  abbrev pub InBearer : List ℕ → Type 0
  InBearer token =
      (v : List ℕ) × (r.authorization ≡ some v)
      × (7 < length v)
      × (ngx.strncasecmp_eq v (codes "Bearer ") 7 ≡ true)
      × (drop 7 v ≡ token)

  abbrev pub InQuery : List ℕ → Type 0
  InQuery token = ngx.arg r (codes "token") ≡ some token

  value_ok_iff :
      (token : List ℕ) (o : Option Header)
      → (value_ok ngx token o ≡ true) ↔ ((h : Header) × (o ≡ some h) × (h.value ≡ token))
  value_ok_iff token none = (λ h. cc, λ (_, e, _). cc)
  value_ok_iff token (some x) =
      let i = is_ok-consttime_eq x.value token in
      (
        λ h. (x, refl, i.0 h),
        λ (y, e, t). i.1 (ap (λ (z : Header). z.value) (some-injective _ _ e) ∙ t),
      )

  bearer_ok_iff :
      (token : List ℕ) (o : Option (List ℕ))
      → (bearer_ok ngx token o ≡ true) ↔ (
          (v : List ℕ) × (o ≡ some v)
          × (7 < length v)
          × (ngx.strncasecmp_eq v (codes "Bearer ") 7 ≡ true)
          × (drop 7 v ≡ token))
  bearer_ok_iff token none = (λ h. cc, λ (_, e, _, _, _). cc)
  bearer_ok_iff token (some x) =
      let i = is_ok-consttime_eq (drop 7 x) token in
      (
        λ h.
            let (a, b, c) = split (ltb 7 (length x)) _ _ h in
            (x, refl, ltb→lt 7 (length x) a, b, i.0 c),
        λ (y, e, l, m, t).
            let x=y = some-injective _ _ e in
            rw
              (
                lt→ltb 7 (length x) (rw x=y l),
                ap (λ z. ngx.strncasecmp_eq z (codes "Bearer ") 7) x=y ∙ m,
              )
              (i.1 (ap (drop 7) x=y ∙ t)),
      )
    where
      split : (a b c : Bool) → ((a && b) && c) ≡ true → (a ≡ true) × (b ≡ true) × (c ≡ true)
      split a b c h = ground arith

  argument_ok_iff :
      (token : List ℕ) (o : Option (List ℕ)) → (argument_ok ngx token o ≡ true) ↔ (o ≡ some token)
  argument_ok_iff token none = (λ h. cc, λ e. cc)
  argument_ok_iff token (some x) =
      let i = is_ok-consttime_eq x token in (λ h. ap some (i.0 h), λ e. i.1 (some-injective _ _ e))

  check_api_token-cases :
      (token : List ℕ)
      → (check_api_token ngx token r ≡ ok) ↔ (
          (length token ≡ 0)
          ⊎ ((value_ok ngx token (find_header ngx (codes "X-Monitor-Token") r.headers) ≡ true)
              ⊎ ((bearer_ok ngx token r.authorization ≡ true)
                  ⊎ (argument_ok ngx token (ngx.arg r (codes "token")) ≡ true))))
  unfolding check_api_token
  check_api_token-cases token = ground arith

  -- A request passes the token check exactly when no token is configured, or it presents the token
  -- itself in the header `X-Monitor-Token`, as the bearer in `Authorization`, or in the query.
  pub check_api_token_iff :
      (token : List ℕ)
      → (check_api_token ngx token r ≡ ok)
        ↔ ((length token ≡ 0) ⊎ (InHeader token ⊎ (InBearer token ⊎ InQuery token)))
  check_api_token_iff token =
      let c = check_api_token-cases token in
      let h = value_ok_iff token (find_header ngx (codes "X-Monitor-Token") r.headers) in
      let b = bearer_ok_iff token r.authorization in
      let q = argument_ok_iff token (ngx.arg r (codes "token")) in
      (λ p. map3 h.0 b.0 q.0 (c.0 p), λ p. c.1 (map3 h.1 b.1 q.1 p))
    where
      map3 :
          {N A B C A' B' C' : Type 0}
          → (A → A')
          → (B → B')
          → (C → C')
          → N ⊎ (A ⊎ (B ⊎ C))
          → N ⊎ (A' ⊎ (B' ⊎ C'))
      map3 f g k (inl n) = inl n
      map3 f g k (inr (inl a)) = inr (inl (f a))
      map3 f g k (inr (inr (inl b))) = inr (inr (inl (g b)))
      map3 f g k (inr (inr (inr c))) = inr (inr (inr (k c)))

  -- The credentials in `Authorization`: `Basic`, and a text that decodes to the configured one.
  abbrev pub HasBasic : List ℕ → Type 0
  HasBasic basic_auth =
      (v : List ℕ) × (r.authorization ≡ some v)
      × (6 < length v)
      × (ngx.strncasecmp_eq v (codes "Basic ") 6 ≡ true)
      × (ngx.decode_base64 (drop 6 v) ≡ some basic_auth)

  decoded_ok_iff :
      (basic_auth : List ℕ) (o : Option (List ℕ))
      → (decoded_ok ngx basic_auth o ≡ ok) ↔ (o ≡ some basic_auth)
  decoded_ok_iff basic_auth none = (λ h. cc, λ e. cc)
  decoded_ok_iff basic_auth (some x) =
      let i = consttime_eq_iff x basic_auth in
      (λ h. ap some (i.0 h), λ e. i.1 (some-injective _ _ e))

  basic_ok-some :
      (basic_auth x : List ℕ)
      → (basic_ok ngx true basic_auth (some x) ≡ ok) ↔ (
          (6 < length x)
          × (ngx.strncasecmp_eq x (codes "Basic ") 6 ≡ true)
          × (decoded_ok ngx basic_auth (ngx.decode_base64 (drop 6 x)) ≡ ok))
  basic_ok-some basic_auth x = ground arith

  basic_ok_iff :
      (basic_auth : List ℕ) (o : Option (List ℕ))
      → (basic_ok ngx true basic_auth o ≡ ok) ↔ (
          (v : List ℕ) × (o ≡ some v)
          × (6 < length v)
          × (ngx.strncasecmp_eq v (codes "Basic ") 6 ≡ true)
          × (ngx.decode_base64 (drop 6 v) ≡ some basic_auth))
  basic_ok_iff basic_auth none = (λ h. cc, λ (_, e, _, _, _). cc)
  basic_ok_iff basic_auth (some x) =
      let i = decoded_ok_iff basic_auth (ngx.decode_base64 (drop 6 x)) in
      let s = basic_ok-some basic_auth x in
      (
        λ h. let (l, m, d) = s.0 h in (x, refl, l, m, i.0 d),
        λ (y, e, l, m, d).
            let x=y = some-injective _ _ e in
            s.1 (
              rw x=y l,
              ap (λ z. ngx.strncasecmp_eq z (codes "Basic ") 6) x=y ∙ m,
              i.1 (ap (λ z. ngx.decode_base64 (drop 6 z)) x=y ∙ d),
            ),
      )

  -- With memory for the decoded text, a request passes the basic-auth check exactly when the setting
  -- is empty or `off`, or its `Authorization` is `Basic` with a text that decodes to the setting.
  -- Without memory only the first passes.
  pub check_basic_auth_iff :
      (basic_auth : List ℕ)
      → ((check_basic_auth ngx true basic_auth r ≡ ok)
          ↔ ((is_off basic_auth ≡ true) ⊎ HasBasic basic_auth))
        × ((check_basic_auth ngx false basic_auth r ≡ ok) ↔ (is_off basic_auth ≡ true))
  unfolding check_basic_auth
  check_basic_auth_iff basic_auth = elim (Bool-cases (is_off basic_auth)) [
    | inl e ↦ rw e ((λ h. inl refl, λ _. refl), (λ _. refl, λ _. refl))
    | inr e ↦ rw e ((λ h. inr (b.0 h), only), (λ h. cc (unallocated r.authorization), λ h. cc))
  ]
    where
      b : (basic_ok ngx true basic_auth r.authorization ≡ ok) ↔ HasBasic basic_auth
      b = basic_ok_iff basic_auth r.authorization

      only :
          (false ≡ true) ⊎ HasBasic basic_auth → basic_ok ngx true basic_auth r.authorization ≡ ok
      only (inl h) = cc
      only (inr h) = b.1 h

      unallocated : (o : Option (List ℕ)) → basic_ok ngx false basic_auth o ≡ declined
      unallocated none = refl
      unallocated (some v) = ground arith
