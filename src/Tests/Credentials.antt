-- ===== src/Tests/Credentials.antt =====
-- The access rules and the credentials at concrete inputs.
use ngx_http_monitoring_modu.Prelude.{
  ◌≡◌, ◌↔◌, ◌⊎◌, refl, true, false, List, [], ◌∷◌, length, codes,
}
use ngx_http_monitoring_modu.Http.{inet, unspec}
use ngx_http_monitoring_modu.Access.{AccessRule, ok, match_access}
use ngx_http_monitoring_modu.Access.Laws.{FirstMatch, match_access-FirstMatch}
use ngx_http_monitoring_modu.Auth.{consttime_eq, is_off, check_api_token, check_basic_auth}
use ngx_http_monitoring_modu.Auth.Compare.{consttime_eq_iff}
use ngx_http_monitoring_modu.Auth.Credentials.{
  InHeader, InBearer, InQuery, HasBasic, check_api_token_iff, check_basic_auth_iff,
}
use ngx_http_monitoring_modu.Tests.{nginx, request, client}

-- `monitor_deny` of another network, `monitor_allow` of the client's and `monitor_deny all`.
abbrev rules : List AccessRule
rules =
    record {
      deny = true;
      cidr = record { family = inet; addr = 16; mask = 16; addr6 = []; mask6 = [] };
    }
    ∷ record {
      deny = false;
      cidr = record { family = inet; addr = 8; mask = 12; addr6 = []; mask6 = [] };
    }
    ∷ record {
      deny = true;
      cidr = record { family = unspec; addr = 0; mask = 0; addr6 = []; mask6 = [] };
    }
    ∷ []

match_access-FirstMatch_example : FirstMatch client rules (match_access rules client)
match_access-FirstMatch_example = match_access-FirstMatch rules client

match_access-rules : match_access rules client ≡ ok
unfolding match_access
match_access-rules = refl

consttime_eq_iff_example :
    (consttime_eq (codes "ab") (codes "abc") ≡ ok) ↔ (codes "ab" ≡ codes "abc")
consttime_eq_iff_example = consttime_eq_iff (codes "ab") (codes "abc")

check_api_token_iff_example : (check_api_token nginx (codes "t") request ≡ ok) ↔ (
    (length (codes "t") ≡ 0)
    ⊎ (InHeader nginx request (codes "t")
        ⊎ (InBearer nginx request (codes "t") ⊎ InQuery nginx request (codes "t"))))
check_api_token_iff_example = check_api_token_iff nginx request (codes "t")

check_basic_auth_iff_example :
    ((check_basic_auth nginx true (codes "u:p") request ≡ ok)
      ↔ ((is_off (codes "u:p") ≡ true) ⊎ HasBasic nginx request (codes "u:p")))
    × ((check_basic_auth nginx false (codes "u:p") request ≡ ok) ↔ (is_off (codes "u:p") ≡ true))
check_basic_auth_iff_example = check_basic_auth_iff nginx request (codes "u:p")

check_basic_auth-request : check_basic_auth nginx true (codes "u:p") request ≡ ok
unfolding check_basic_auth
check_basic_auth-request = refl
