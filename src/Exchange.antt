-- ===== src/Exchange.antt =====
-- The response side of a request, and the functions of src/ngx_http_monitoring_module.c that write
-- it: `ngx_http_monitoring_plain_response`, `ngx_http_monitoring_add_cors` and
-- `ngx_http_monitoring_preflight`.
use ngx_http_monitoring_modu.Prelude.{
  ℕ, ◌+◌, pos, Bool, true, false, List, [], ◌∷◌, ◌++◌, Option, length, codes, ◌==◌, if◌then◌else◌,
}
use ngx_http_monitoring_modu.State.{ShCtx}
use ngx_http_monitoring_modu.Http.{Request, HeadersOut, Nginx, Rc, http}
use ngx_http_monitoring_modu.Auth.{is_off}

-- A call that hands something to nginx for the client.
pub data Sent : Type 0 where
  discard_body : Sent
  send_headers : HeadersOut → Sent
  send_body : List ℕ → Sent

-- The state of a handler: the headers to be sent, how many places that allocate were passed, what
-- was handed to nginx, oldest first, and the shared zone.
pub record Exchange (Double : Type 0) : Type 0 where
  pub out : HeadersOut
  pub allocations : ℕ
  pub sent : List Sent
  pub zone : Option (ShCtx Double)

abbrev pub method_not_allowed : Rc
method_not_allowed = http 405

abbrev pub not_found : Rc
not_found = http 404

abbrev pub internal_error : Rc
internal_error = http 500

module _ {Double : Type 0} (ngx : Nginx) where
  -- Whether the next allocation succeeds.
  abbrev pub allocates : Exchange Double → Bool
  allocates x = ngx.can_alloc x.allocations

  abbrev pub log_sent : Sent → Exchange Double → Exchange Double
  log_sent s x = record x { sent = x.sent ++ s ∷ [] }

  -- `ngx_list_push` of a header that is then filled in; the first component is whether it gave one.
  unfoldable pub push_header : List ℕ → List ℕ → Exchange Double → Bool × Exchange Double
  push_header key value x =
      let passed = record x { allocations = x.allocations + 1 } in
      if allocates x
      then (
        true,
        record passed {
          out = record x.out {
            headers = x.out.headers ++ record { key = key; value = value } ∷ [];
          };
        },
      )
      else (false, passed)

  -- `ngx_http_send_header(r)`.
  unfoldable pub send_header : Exchange Double → Rc × Exchange Double
  send_header x = (ngx.send_header x.out, log_sent (send_headers x.out) x)

  unfoldable pub plain_response : Request → ℕ → List ℕ → Exchange Double → Rc × Exchange Double
  unfolding send_header
  plain_response r status body x =
      let discarded = log_sent discard_body x in
      let filled = record discarded {
        out = record x.out {
          status = status;
          content_length_n = pos (length body);
          content_type = codes "text/plain";
        };
      } in
      let buffered = record filled { allocations = x.allocations + 1 } in
      let headed = (send_header buffered).1 in
      if r.method == ngx.bits.head
      then send_header (record filled { out = record filled.out { header_only = true } })
      else if allocates x
      then (ngx.output_filter headed.out body, log_sent (send_body body) headed)
      else (internal_error, buffered)

  -- Three headers, given up at the first that cannot be pushed.
  unfoldable pub add_cors : List ℕ → Exchange Double → Exchange Double
  unfolding push_header is_off
  add_cors cors x =
      if is_off cors
      then x
      else (let (first, x1) = push_header (codes "Access-Control-Allow-Origin") cors x in
          let (second, x2) =
            push_header (codes "Access-Control-Allow-Methods") (codes "GET, HEAD, OPTIONS") x1 in
          let (_, x3) =
            push_header (codes "Access-Control-Allow-Headers")
              (codes "Authorization, X-Monitor-Token, Content-Type") x2 in
          if first then (if second then x3 else x2) else x1)

  unfoldable pub preflight : List ℕ → Exchange Double → Rc × Exchange Double
  unfolding add_cors send_header
  preflight cors x =
      let x1 = add_cors cors x in
      send_header (record x1 {
        out = record x1.out { status = 204; content_length_n = pos 0; header_only = true };
      })
