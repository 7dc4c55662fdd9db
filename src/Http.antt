-- ===== src/Http.antt =====
-- What the module reads of nginx's request, connection, process and clock, and of its own main
-- configuration (`ngx_http_monitoring_main_conf_t`, src/ngx_http_monitoring.h).
use ngx_http_monitoring_modu.Prelude.{ℕ, ℤ, Bool, List, Option}
use ngx_http_monitoring_modu.Metrics.Methods.{MethodBits}
use ngx_http_monitoring_modu.Upstream.{UpstreamState}

-- `ngx_table_elt_t`: a header.
pub record Header : Type 0 where
  pub key : List ℕ
  pub value : List ℕ

-- An address family: AF_UNSPEC, AF_INET, AF_INET6, or another.
pub data Family : Type 0 where
  unspec inet inet6 : Family
  other_family : ℕ → Family

-- `struct sockaddr` with the two forms that are read: the 32-bit address of AF_INET and the sixteen
-- bytes of AF_INET6.
pub record SockAddr : Type 0 where
  pub family : Family
  pub addr : ℕ
  pub addr6 : List ℕ

-- `ngx_http_request_t`. `headers` are the parts of the header list; `status` and
-- `content_length_n` are those of `headers_out` when the log phase runs.
pub record Request : Type 0 where
  pub method : ℕ
  pub uri : List ℕ
  pub headers : List (List Header)
  pub authorization : Option (List ℕ)
  pub user_agent : Option (List ℕ)
  pub status : ℕ
  pub content_length_n : ℤ
  pub start_sec : ℕ
  pub start_msec : ℕ
  pub ssl : Bool
  pub connection_requests : ℕ
  pub sockaddr : SockAddr
  pub upstream_states : List UpstreamState

-- The cached time `ngx_timeofday()`, the process id and `ngx_process_slot`.
pub record Process : Type 0 where
  pub sec : ℕ
  pub msec : ℕ
  pub pid : ℕ
  pub slot : ℤ

-- The configured fields of `ngx_http_monitoring_main_conf_t`; `shpool` is false for a NULL pool.
pub record MainConf : Type 0 where
  pub refresh_interval : ℕ
  pub history : ℕ
  pub resolution : ℕ
  pub shm_size : ℕ
  pub max_top_urls : ℕ
  pub collect_system : Bool
  pub collect_nginx : Bool
  pub collect_network : Bool
  pub access_log : Bool
  pub shpool : Bool

-- A return code `ngx_int_t`: NGX_OK, NGX_ERROR, NGX_DECLINED, NGX_DONE, NGX_AGAIN or an HTTP status.
pub data Rc : Type 0 where
  rc_ok rc_error rc_declined rc_done rc_again : Rc
  http : ℕ → Rc

-- The fields of `r->headers_out` that the module sets, with the headers that it pushes, and
-- `r->header_only`.
pub record HeadersOut : Type 0 where
  pub status : ℕ
  pub content_length_n : ℤ
  pub content_type : List ℕ
  pub headers : List Header
  pub header_only : Bool

-- What the module calls of nginx: the checksum, the method bits, `ngx_strncasecmp` (as a test for
-- 0), `ngx_decode_base64`, `ngx_http_arg`, and what `ngx_http_send_header` and
-- `ngx_http_output_filter` return for these headers and this body. `can_alloc n` is whether the
-- `n`-th allocation that the module makes for a request succeeds.
pub record Nginx : Type 0 where
  pub crc32 : List ℕ → ℕ
  pub bits : MethodBits
  pub strncasecmp_eq : List ℕ → List ℕ → ℕ → Bool
  pub decode_base64 : List ℕ → Option (List ℕ)
  pub arg : Request → List ℕ → Option (List ℕ)
  pub send_header : HeadersOut → Rc
  pub output_filter : HeadersOut → List ℕ → Rc
  pub can_alloc : ℕ → Bool
