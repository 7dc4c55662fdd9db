-- ===== src/Handler/Refusal.antt =====
-- What `ngx_http_monitoring_authorize` decides, and what the content handler makes of it
-- (src/ngx_http_monitoring_module.c).
use ngx_http_monitoring_modu.Prelude.{
  ◌+◌, ◌≡◌, refl, ap, Bool, true, false, not, ◌&&◌, Option, codes, Bool-cases, ◌⊎◌, inl, inr, sym,
  subst, ◌∙◌,
}
use ngx_http_monitoring_modu.State.{ShCtx}
use ngx_http_monitoring_modu.Http.{Request, Process, MainConf, Nginx, Rc, rc_ok}
use ngx_http_monitoring_modu.Endpoint.{Endpoint}
use ngx_http_monitoring_modu.Access.{Verdict, ok, declined, match_access}
use ngx_http_monitoring_modu.Auth.{is_ok, check_api_token, check_basic_auth}
use ngx_http_monitoring_modu.RateLimit.{check_rate_limit}
use ngx_http_monitoring_modu.Exchange.{Exchange, allocates, plain_response}
use ngx_http_monitoring_modu.Handler.{LocConf, is_dashboard, refuse_basic, limit_rate, authorize}

module _ {Double : Type 0} (ngx : Nginx) (p : Process) (conf : Option MainConf) where
  -- The checks in their order, each with the answer of `authorize` when it is the first to fail.
  module _ (loc : LocConf) (endpoint : Endpoint) (r : Request) (x : Exchange Double) where
    abbrev pub passed : Exchange Double
    passed = record x { allocations = x.allocations + 1 }

    abbrev pub rated : Verdict × Option (ShCtx Double)
    rated = check_rate_limit p.sec loc.rate_limit conf x.zone

    pub data Decision : Rc × Exchange Double → Type 0 where
      forbidden :
          match_access loc.access_rules r.sockaddr ≡ declined
          → Decision (plain_response ngx r 403 (codes "forbidden\n") x)
      no_credentials :
          match_access loc.access_rules r.sockaddr ≡ ok
          → check_basic_auth ngx (allocates ngx x) loc.basic_auth r ≡ declined
          → Decision (refuse_basic ngx p conf r passed)
      no_token :
          match_access loc.access_rules r.sockaddr ≡ ok
          → check_basic_auth ngx (allocates ngx x) loc.basic_auth r ≡ ok
          → is_dashboard endpoint ≡ false
          → check_api_token ngx loc.api_token r ≡ declined
          → Decision (plain_response ngx r 401 (codes "unauthorized\n") passed)
      limited :
          match_access loc.access_rules r.sockaddr ≡ ok
          → check_basic_auth ngx (allocates ngx x) loc.basic_auth r ≡ ok
          → is_dashboard endpoint ≡ true ⊎ check_api_token ngx loc.api_token r ≡ ok
          → rated.0 ≡ declined
          → Decision
              (plain_response ngx r 429 (codes "rate limited\n") (record passed { zone = rated.1 }))
      cleared :
          match_access loc.access_rules r.sockaddr ≡ ok
          → check_basic_auth ngx (allocates ngx x) loc.basic_auth r ≡ ok
          → is_dashboard endpoint ≡ true ⊎ check_api_token ngx loc.api_token r ≡ ok
          → rated.0 ≡ ok
          → Decision (rc_ok, record passed { zone = rated.1 })

verdict-cases : (v : Verdict) → v ≡ ok ⊎ v ≡ declined
verdict-cases ok = inl refl
verdict-cases declined = inr refl

-- The test before the token: it fails only for an endpoint that is not the dashboard.
token-cases :
    (ngx : Nginx) (loc : LocConf) (endpoint : Endpoint) (r : Request)
    → (is_dashboard endpoint ≡ true ⊎ check_api_token ngx loc.api_token r ≡ ok)
      ⊎ (is_dashboard endpoint ≡ false × check_api_token ngx loc.api_token r ≡ declined)
token-cases ngx loc endpoint r = elim (Bool-cases (is_dashboard endpoint)) [
  | inl d ↦ inl (inl d)
  | inr d ↦ elim (verdict-cases (check_api_token ngx loc.api_token r)) [
    | inl t ↦ inl (inr t)
    | inr t ↦ inr (d, t)
  ]
]

unguarded : (d : Bool) (v : Verdict) → d ≡ true ⊎ v ≡ ok → (not d && not (is_ok v)) ≡ false
unguarded true v h = refl
unguarded false ok h = refl
unguarded false declined (inl h) = sym h
unguarded false declined (inr h) = ap (λ v. not (is_ok v)) h

module _ {Double : Type 0} (ngx : Nginx) (p : Process) (conf : Option MainConf) where
  module _ (loc : LocConf) (endpoint : Endpoint) (r : Request) (x : Exchange Double) where
    abbrev answer : Rc × Exchange Double
    answer = authorize ngx p conf loc endpoint r x

    pub authorize-forbidden :
        match_access loc.access_rules r.sockaddr ≡ declined
        → authorize ngx p conf loc endpoint r x ≡ plain_response ngx r 403 (codes "forbidden\n") x
    unfolding authorize
    authorize-forbidden a = rw (a)

    module _ (a : match_access loc.access_rules r.sockaddr ≡ ok) where
      answer-no_credentials :
          check_basic_auth ngx (allocates ngx x) loc.basic_auth r ≡ declined
          → refuse_basic ngx p conf r (passed ngx p conf loc endpoint r x) ≡ answer
      unfolding authorize
      answer-no_credentials b = sym (rw (a, b))

      module _ (b : check_basic_auth ngx (allocates ngx x) loc.basic_auth r ≡ ok) where
        answer-no_token :
            is_dashboard endpoint ≡ false
            → check_api_token ngx loc.api_token r ≡ declined
            → plain_response ngx r 401 (codes "unauthorized\n") (passed ngx p conf loc endpoint r x)
              ≡ answer
        unfolding authorize
        answer-no_token d t = sym (rw (a, b, d, t))

        module _ (t : is_dashboard endpoint ≡ true ⊎ check_api_token ngx loc.api_token r ≡ ok) where
          answer-limit_rate :
              limit_rate ngx p conf loc r (passed ngx p conf loc endpoint r x) ≡ answer
          unfolding authorize
          answer-limit_rate =
              sym (
                rw
                  (a, b, unguarded (is_dashboard endpoint) (check_api_token ngx loc.api_token r) t))

          limit_rate-cleared :
              (rated ngx p conf loc endpoint r x).0 ≡ ok
              → limit_rate ngx p conf loc r (passed ngx p conf loc endpoint r x) ≡ (
                rc_ok,
                record (passed ngx p conf loc endpoint r x) {
                  zone = (rated ngx p conf loc endpoint r x).1;
                },
              )
          unfolding limit_rate
          limit_rate-cleared l = rw (l)

          authorize-cleared :
              (rated ngx p conf loc endpoint r x).0 ≡ ok
              → authorize ngx p conf loc endpoint r x ≡ (
                rc_ok,
                record (passed ngx p conf loc endpoint r x) {
                  zone = (rated ngx p conf loc endpoint r x).1;
                },
              )
          authorize-cleared l = sym answer-limit_rate ∙ limit_rate-cleared l

          answer-limited :
              (rated ngx p conf loc endpoint r x).0 ≡ declined
              → plain_response ngx r 429
                  (codes "rate limited\n")
                  (record (passed ngx p conf loc endpoint r x) {
                    zone = (rated ngx p conf loc endpoint r x).1;
                  })
                ≡ limit_rate ngx p conf loc r (passed ngx p conf loc endpoint r x)
          unfolding limit_rate
          answer-limited l = sym (rw (l))

          rated-Decision : Decision ngx p conf loc endpoint r x answer
          rated-Decision = elim (verdict-cases (rated ngx p conf loc endpoint r x).0) [
            | inl l ↦
                subst (Decision ngx p conf loc endpoint r x) (sym (authorize-cleared l))
                  (cleared a b t l)
            | inr l ↦
                subst (Decision ngx p conf loc endpoint r x) (answer-limited l ∙ answer-limit_rate)
                  (limited a b t l)
          ]

    -- What `authorize` returns is decided by the first check that fails, in the order of access
    -- rules, basic auth, token and rate limit: the answer of that check, or NGX_OK if all pass. The
    -- dashboard needs no token, and only a request that gets to the rate limit is counted against it.
    pub authorize-Decision :
        Decision ngx p conf loc endpoint r x (authorize ngx p conf loc endpoint r x)
    authorize-Decision = elim (verdict-cases (match_access loc.access_rules r.sockaddr)) [
      | inr a ↦
          subst (Decision ngx p conf loc endpoint r x) (sym (authorize-forbidden a)) (forbidden a)
      | inl a ↦ elim (verdict-cases (check_basic_auth ngx (allocates ngx x) loc.basic_auth r)) [
        | inr b ↦
            subst (Decision ngx p conf loc endpoint r x) (answer-no_credentials a b)
              (no_credentials a b)
        | inl b ↦ elim (token-cases ngx loc endpoint r) [
          | inl t ↦ rated-Decision a b t
          | inr (d, t) ↦
              subst (Decision ngx p conf loc endpoint r x) (answer-no_token a b d t)
                (no_token a b d t)
        ]
      ]
    ]
