-- ===== src/Config/Merge.antt =====
-- What a location inherits (`ngx_http_monitoring_merge_loc_conf`,
-- src/ngx_http_monitoring_module.c). nginx merges the settings of http into those of the server,
-- and the result into those of the location.
use ngx_http_monitoring_modu.Prelude.{◌≡◌, refl, true, false, List, [], ◌∷◌, Option, none, some}
use ngx_http_monitoring_modu.Handler.{LocConf}
use ngx_http_monitoring_modu.Config.{
  LocSettings, or_default, merge, or_inherit, merge_loc_conf, merged,
}

-- The first value that is set.
abbrev pub nearest : {A : Type 0} → List (Option A) → A → A
nearest [] d = d
nearest (some v ∷ rest) d = v
nearest (none ∷ rest) d = nearest rest d

merge-nearest :
    {A : Type 0} (http server loc : Option A) (d e : A)
    → or_default (merge loc (merge server http d) d) e ≡ nearest (loc ∷ server ∷ http ∷ []) d
merge-nearest http server (some v) d e = refl
merge-nearest http (some v) none d e = refl
merge-nearest (some v) none none d e = refl
merge-nearest none none none d e = refl

or_inherit-nearest :
    {A : Type 0} (http server loc : Option A) (d : A)
    → or_default (or_inherit loc (or_inherit server http)) d ≡ nearest (loc ∷ server ∷ http ∷ []) d
or_inherit-nearest http server (some v) d = refl
or_inherit-nearest http (some v) none d = refl
or_inherit-nearest (some v) none none d = refl
or_inherit-nearest none none none d = refl

-- The configuration of a location in a server.
abbrev pub effective : LocSettings → LocSettings → LocSettings → LocConf
effective http server loc = merged (merge_loc_conf (merge_loc_conf http server) loc)

-- Every value of `c` is the one of the innermost block that sets it, and else its default.
pub record AreNearest (http server loc : LocSettings) (c : LocConf) : Type 0 where
  pub enabled : c.enabled ≡ nearest (loc.enabled ∷ server.enabled ∷ http.enabled ∷ []) false
  pub dashboard :
      c.dashboard ≡ nearest (loc.dashboard ∷ server.dashboard ∷ http.dashboard ∷ []) true
  pub api : c.api ≡ nearest (loc.api ∷ server.api ∷ http.api ∷ []) true
  pub sse : c.sse ≡ nearest (loc.sse ∷ server.sse ∷ http.sse ∷ []) true
  pub api_token : c.api_token ≡ nearest (loc.api_token ∷ server.api_token ∷ http.api_token ∷ []) []
  pub basic_auth :
      c.basic_auth ≡ nearest (loc.basic_auth ∷ server.basic_auth ∷ http.basic_auth ∷ []) []
  pub cors : c.cors ≡ nearest (loc.cors ∷ server.cors ∷ http.cors ∷ []) []
  pub rate_limit :
      c.rate_limit ≡ nearest (loc.rate_limit ∷ server.rate_limit ∷ http.rate_limit ∷ []) 60
  pub access_rules :
      c.access_rules ≡ nearest (loc.access_rules ∷ server.access_rules ∷ http.access_rules ∷ []) []

-- Every value that a location uses is the one of the innermost block that sets it, of location,
-- server and http, and else its default: monitoring is off; the dashboard, the API and the event
-- stream are on; there is no token, no basic auth, no CORS header and no access rule; and the limit
-- is 60 requests a second.
pub effective-AreNearest :
    (http server loc : LocSettings) → AreNearest http server loc (effective http server loc)
unfolding merge_loc_conf merged
effective-AreNearest http server loc = record {
  enabled = merge-nearest http.enabled server.enabled loc.enabled false false;
  dashboard = merge-nearest http.dashboard server.dashboard loc.dashboard true false;
  api = merge-nearest http.api server.api loc.api true false;
  sse = merge-nearest http.sse server.sse loc.sse true false;
  api_token = merge-nearest http.api_token server.api_token loc.api_token [] [];
  basic_auth = merge-nearest http.basic_auth server.basic_auth loc.basic_auth [] [];
  cors = merge-nearest http.cors server.cors loc.cors [] [];
  rate_limit = merge-nearest http.rate_limit server.rate_limit loc.rate_limit 60 0;
  access_rules = or_inherit-nearest http.access_rules server.access_rules loc.access_rules [];
}
