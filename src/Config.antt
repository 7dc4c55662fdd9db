-- ===== src/Config.antt =====
-- The configuration: `ngx_http_monitoring_create_main_conf`, `ngx_http_monitoring_init_main_conf`,
-- `ngx_http_monitoring_create_loc_conf`, `ngx_http_monitoring_merge_loc_conf` and
-- `ngx_http_monitoring_access_rule` (src/ngx_http_monitoring_module.c). A value that is not set is
-- `none`.
pub mod Limits
pub mod Merge
use ngx_http_monitoring_modu.Prelude.{
  ℕ, ◌*◌, Bool, true, false, ◌&&◌, ◌||◌, List, [], ◌∷◌, ◌++◌, Option, none, some, length, codes,
  strncmp_eq, ltb, ◌==◌, if◌then◌else◌,
}
use ngx_http_monitoring_modu.State.{top_urls_max}
use ngx_http_monitoring_modu.Http.{MainConf, unspec}
use ngx_http_monitoring_modu.Access.{Cidr, AccessRule}
use ngx_http_monitoring_modu.Handler.{LocConf}

-- NGX_HTTP_MONITORING_MIN_INTERVAL.
abbrev pub min_interval : ℕ
min_interval = 100

-- NGX_HTTP_MONITORING_DEFAULT_SHM_SIZE.
abbrev pub default_shm_size : ℕ
default_shm_size = 8 * 1024 * 1024

-- The directives of the main configuration.
pub record MainSettings : Type 0 where
  pub refresh_interval : Option ℕ
  pub history : Option ℕ
  pub resolution : Option ℕ
  pub shm_size : Option ℕ
  pub max_top_urls : Option ℕ
  pub collect_system : Option Bool
  pub collect_nginx : Option Bool
  pub collect_network : Option Bool
  pub access_log : Option Bool

unfoldable pub create_main_conf : MainSettings
create_main_conf = record {
  refresh_interval = none;
  history = none;
  resolution = none;
  shm_size = none;
  max_top_urls = none;
  collect_system = none;
  collect_nginx = none;
  collect_network = none;
  access_log = none;
}

-- `ngx_conf_init_value` and its kin.
abbrev pub or_default : {A : Type 0} → Option A → A → A
or_default none d = d
or_default (some v) d = v

-- The values before they are checked; the zone is attached later.
unfoldable pub with_defaults : MainSettings → MainConf
with_defaults s = record {
  refresh_interval = or_default s.refresh_interval 1000;
  history = or_default s.history 300000;
  resolution = or_default s.resolution 1000;
  shm_size = or_default s.shm_size default_shm_size;
  max_top_urls = or_default s.max_top_urls 100;
  collect_system = or_default s.collect_system true;
  collect_nginx = or_default s.collect_nginx true;
  collect_network = or_default s.collect_network true;
  access_log = or_default s.access_log true;
  shpool = false;
}

-- The checks at the end of `init_main_conf`. No value is NGX_CONF_ERROR.
unfoldable pub check_limits : MainConf → Option MainConf
check_limits c =
    if ltb c.refresh_interval min_interval
    then none
    else if ltb c.resolution min_interval
    then none
    else if c.max_top_urls == 0 || ltb top_urls_max c.max_top_urls
    then none
    else some c

unfoldable pub init_main_conf : MainSettings → Option MainConf
unfolding with_defaults check_limits
init_main_conf s = check_limits (with_defaults s)

-- The directives of a location, server or http block.
pub record LocSettings : Type 0 where
  pub enabled : Option Bool
  pub dashboard : Option Bool
  pub api : Option Bool
  pub sse : Option Bool
  pub api_token : Option (List ℕ)
  pub basic_auth : Option (List ℕ)
  pub cors : Option (List ℕ)
  pub rate_limit : Option ℕ
  pub access_rules : Option (List AccessRule)

unfoldable pub create_loc_conf : LocSettings
create_loc_conf = record {
  enabled = none;
  dashboard = none;
  api = none;
  sse = none;
  api_token = none;
  basic_auth = none;
  cors = none;
  rate_limit = none;
  access_rules = none;
}

-- `ngx_conf_merge_value` and its kin: the child's value, else the parent's, else the default.
abbrev pub merge : {A : Type 0} → Option A → Option A → A → Option A
merge (some v) prev d = some v
merge none (some v) d = some v
merge none none d = some d

-- The rules of the parent apply where the child has no rule of its own.
abbrev pub or_inherit : {A : Type 0} → Option A → Option A → Option A
or_inherit (some v) prev = some v
or_inherit none prev = prev

unfoldable pub merge_loc_conf : LocSettings → LocSettings → LocSettings
merge_loc_conf prev conf = record {
  enabled = merge conf.enabled prev.enabled false;
  dashboard = merge conf.dashboard prev.dashboard true;
  api = merge conf.api prev.api true;
  sse = merge conf.sse prev.sse true;
  rate_limit = merge conf.rate_limit prev.rate_limit 60;
  api_token = merge conf.api_token prev.api_token [];
  basic_auth = merge conf.basic_auth prev.basic_auth [];
  cors = merge conf.cors prev.cors [];
  access_rules = or_inherit conf.access_rules prev.access_rules;
}

-- What the handlers read of merged settings.
unfoldable pub merged : LocSettings → LocConf
merged s = record {
  enabled = or_default s.enabled false;
  dashboard = or_default s.dashboard false;
  api = or_default s.api false;
  sse = or_default s.sse false;
  api_token = or_default s.api_token [];
  basic_auth = or_default s.basic_auth [];
  cors = or_default s.cors [];
  rate_limit = or_default s.rate_limit 0;
  access_rules = or_default s.access_rules [];
}

-- `ngx_ptocidr`: no value is NGX_ERROR; NGX_DONE, which is only logged, gives a value too.
module _ (ptocidr : List ℕ → Option Cidr) where
  -- The network of a directive's argument.
  abbrev pub network_of : List ℕ → Option Cidr
  network_of value =
      if length value == 3 && strncmp_eq value (codes "all") 3
      then some (record { family = unspec; addr = 0; mask = 0; addr6 = []; mask6 = [] })
      else ptocidr value

  -- `monitor_allow` and `monitor_deny`, told apart by the length of the name. No value is
  -- NGX_CONF_ERROR; that the array cannot be created or grown is not modelled.
  unfoldable pub access_rule : List ℕ → List ℕ → LocSettings → Option LocSettings
  access_rule name value s = elim (network_of value) [
    | none ↦ none
    | some c ↦ some (record s {
      access_rules = some (
          or_default s.access_rules []
          ++ record { deny = length name == length (codes "monitor_deny"); cidr = c } ∷ []);
    })
  ]
