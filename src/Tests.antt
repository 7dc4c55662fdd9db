-- ===== src/Tests.antt =====
-- The theorems at concrete inputs, with the data they share: a request, a process, a configuration,
-- a table and nginx's functions.
mod Counters
mod Methods
mod Tables
mod Credentials
mod Requests
mod Ring
mod Text
mod Collectors
mod Events
use ngx_http_monitoring_modu.Prelude.{
  ℕ, ◌^◌, ◌+◌, ◌%◌, pos, true, false, List, [], ◌∷◌, Option, none, some, codes, get_or, strncmp_eq,
}
use ngx_http_monitoring_modu.Metrics.Methods.{MethodBits}
use ngx_http_monitoring_modu.State.{ShCtx}
use ngx_http_monitoring_modu.State.Zero.{zero_shctx}
use ngx_http_monitoring_modu.Http.{Header, SockAddr, inet, Request, Process, MainConf, Nginx, rc_ok}
use ngx_http_monitoring_modu.Access.{AccessRule}
use ngx_http_monitoring_modu.Exchange.{Exchange}
use ngx_http_monitoring_modu.Format.{Digits}
use ngx_http_monitoring_modu.Handler.{LocConf, Senders}

-- The bits of nginx.
abbrev pub bits : MethodBits
bits = record { get = 2; head = 4; post = 8; put = 16; delete = 32; options = 512; patch = 16384 }

abbrev pub first_byte : List ℕ → ℕ
first_byte key = get_or key 0 0

-- Everything succeeds, base64 is the identity, and there are no arguments.
abbrev pub nginx : Nginx
nginx = record {
  crc32 = first_byte;
  bits = bits;
  strncasecmp_eq = λ a b n. strncmp_eq a b n;
  decode_base64 = λ text. some text;
  arg = λ r name. none;
  send_header = λ out. rc_ok;
  output_filter = λ out body. rc_ok;
  can_alloc = λ n. true;
}

abbrev pub client : SockAddr
client = record { family = inet; addr = 10; addr6 = [] }

-- A GET with a token and with basic credentials.
abbrev pub request : Request
request = record {
  method = 2;
  uri = codes "/monitor/api";
  headers = (record { key = codes "X-Monitor-Token"; value = codes "t" } ∷ []) ∷ [];
  authorization = some (codes "Basic u:p");
  user_agent = some (codes "curl");
  status = 200;
  content_length_n = pos 512;
  start_sec = 99;
  start_msec = 800;
  ssl = false;
  connection_requests = 1;
  sockaddr = client;
  upstream_states = [];
}

-- Another one, for no monitoring endpoint.
abbrev pub page_request : Request
page_request = record request { uri = codes "/index.html" }

abbrev pub process : Process
process = record { sec = 100; msec = 50; pid = 7; slot = pos 3 }

abbrev pub main_conf : MainConf
main_conf = record {
  refresh_interval = 1000;
  history = 300000;
  resolution = 1000;
  shm_size = 8388608;
  max_top_urls = 100;
  collect_system = true;
  collect_nginx = true;
  collect_network = true;
  access_log = true;
  shpool = true;
}

abbrev pub location : LocConf
location = record {
  enabled = true;
  dashboard = true;
  api = true;
  sse = true;
  api_token = codes "t";
  basic_auth = codes "u:p";
  cors = codes "*";
  rate_limit = 60;
  access_rules = [];
}

-- The zone after the start, over numbers in place of doubles.
abbrev pub zone : ShCtx ℕ
zone = zero_shctx 0

abbrev pub exchange : Exchange ℕ
exchange = record {
  out = record {
    status = 0;
    content_length_n = pos 0;
    content_type = [];
    headers = [];
    header_only = false;
  };
  allocations = 0;
  sent = [];
  zone = some zone;
}

-- A digit for the last one of a number, and none for a fraction.
abbrev pub digits : Digits ℕ
digits = record { decimal = λ n. (48 + n % 10) ∷ []; fixed = λ places d. (48 + d % 10) ∷ [] }
