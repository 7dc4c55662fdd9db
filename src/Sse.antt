-- ===== src/Sse.antt =====
-- Server-sent events: src/ngx_http_monitoring_sse.c.
pub mod Payload
pub mod Clients
pub mod Laws
use ngx_http_monitoring_modu.Prelude.{
  ℕ, ◌+◌, ◌-◌, ◌≤◌, negsuc, Bool, true, false, ◌||◌, List, [], ◌∷◌, ◌++◌, Option, none, some,
  String, codes, length, take, min, max, add_word, sub_word, ltb, leb, ◌==◌, if◌then◌else◌,
}
use ngx_http_monitoring_modu.State.{ShCtx, ifaces_max, disks_max}
use ngx_http_monitoring_modu.Http.{
  Request, Process, MainConf, Nginx, Rc, rc_ok, rc_error, rc_done, rc_declined, rc_again, http,
}
use ngx_http_monitoring_modu.Metrics.Percentile.{percentile}
use ngx_http_monitoring_modu.History.{DoubleOps, sum_by}
use ngx_http_monitoring_modu.Format.{Piece, lit, num, real, Digits, render}
use ngx_http_monitoring_modu.Exchange.{
  Exchange, discard_body, send_body, allocates, log_sent, push_header, send_header, internal_error,
}
use ngx_http_monitoring_modu.Sse.Payload.{sse_text}

-- `sizeof(client->data[0])`.
abbrev pub sse_buffer_len : ℕ
sse_buffer_len = 16384

-- `ngx_http_monitoring_sse_client_t`: the timer of `event` with its delay, and the texts in the two
-- halves of `data`. `finalized` is whether `ngx_http_finalize_request` was called.
pub record SseClient : Type 0 where
  pub interval : ℕ
  pub timer : Option ℕ
  pub closed : Bool
  pub finalized : Bool
  pub sequence : ℕ
  pub slot : Bool
  pub data0 : List ℕ
  pub data1 : List ℕ

abbrev pub service_unavailable : Rc
service_unavailable = http 503

-- `rc == NGX_ERROR || rc > NGX_OK`.
abbrev pub is_final : Rc → Bool
is_final rc_error = true
is_final (http n) = ltb 0 n
is_final rc_ok = false
is_final rc_declined = false
is_final rc_done = false
is_final rc_again = false

abbrev pub is_error : Rc → Bool
is_error rc_error = true
is_error rc_ok = false
is_error rc_declined = false
is_error rc_done = false
is_error rc_again = false
is_error (http n) = false

-- The text in the half of the buffer that the slot is.
abbrev pub put_data : List ℕ → SseClient → SseClient
put_data text c = record c {
  data0 = if c.slot then c.data0 else text;
  data1 = if c.slot then text else c.data1;
}

module _ {Double : Type 0} where
  -- Without a header the response goes on.
  unfoldable pub sse_add_header : Nginx → String → String → Exchange Double → Exchange Double
  unfolding push_header
  sse_add_header ngx key value x = (push_header ngx (codes key) (codes value) x).1

  unfoldable pub sse_cleanup : SseClient → Option (ShCtx Double) → SseClient × Option (ShCtx Double)
  sse_cleanup c zone =
      let after = record c { closed = true; timer = none } in
      if c.closed then (c, zone) else (
        after,
        elim zone [
          | none ↦ none
          | some sh ↦ some (record sh {
            connections = record sh.connections {
              sse_clients =
                  if ltb 0 sh.connections.sse_clients
                  then sub_word sh.connections.sse_clients 1
                  else sh.connections.sse_clients;
            };
          })
        ],
      )

module _ {Double : Type 0} (ops : DoubleOps Double) (scaled : ℕ → ℕ → ℕ) (digits : Digits Double)
    (p : Process) where
  module _ (ngx : Nginx) where
    -- The texts are cut off at the end of the buffer; a full buffer is an error.
    unfoldable pub sse_write : SseClient → Exchange Double → Rc × SseClient × Exchange Double
    unfolding sse_text
    sse_write c x = elim x.zone [
      | none ↦ (rc_error, c, x)
      | some sh ↦
          let text = sse_text ops scaled digits p c.sequence sh in
          let flipped = record c { slot = if c.slot then false else true } in
          let filled = put_data (take sse_buffer_len text) flipped in
          let handed = log_sent ngx (send_body text) x in
          if leb sse_buffer_len (length text)
          then (rc_error, filled, x)
          else if is_error (ngx.output_filter x.out text)
          then (rc_error, filled, handed)
          else (
            rc_ok,
            record filled { sequence = add_word c.sequence 1 },
            record handed {
              zone = some (record sh {
                connections = record sh.connections {
                  sse_events = add_word sh.connections.sse_events 1;
                };
              });
            },
          )
    ]

    -- The timer is set after a write, and a failed one finalizes the request.
    abbrev pub after_write : Rc × SseClient × Exchange Double → SseClient × Exchange Double
    after_write (rc, c, x) =
        if is_error rc
        then (record c { finalized = true }, x)
        else (record c { timer = some c.interval }, x)

    -- The timer has run out; `conn_error` and `buffered` are the connection's.
    unfoldable pub sse_timer :
        Bool → Bool → SseClient → Exchange Double → SseClient × Exchange Double
    unfolding sse_write
    sse_timer conn_error buffered c x =
        let expired = record c { timer = none } in
        if c.closed || conn_error
        then (record expired { finalized = true }, x)
        else if buffered
        then (record expired { timer = some c.interval }, x)
        else after_write (sse_write expired x)

    -- The client after `ngx_pcalloc`, with the interval.
    abbrev pub new_client : MainConf → SseClient
    new_client conf = record {
      interval = max conf.refresh_interval 1000;
      timer = none;
      closed = false;
      finalized = false;
      sequence = 0;
      slot = false;
      data0 = [];
      data1 = [];
    }

    -- `ngx_http_send_header` and the three headers before it.
    unfoldable pub sse_headers : Exchange Double → Rc × Exchange Double
    unfolding sse_add_header send_header
    sse_headers x =
        let discarded = log_sent ngx discard_body x in
        let started = record discarded {
          out = record x.out {
            status = 200;
            content_length_n = negsuc 0;
            content_type = codes "text/event-stream";
          };
        } in
        let h1 = sse_add_header ngx "Cache-Control" "no-store" started in
        let h2 = sse_add_header ngx "X-Accel-Buffering" "no" h1 in
        send_header ngx (sse_add_header ngx "Connection" "keep-alive" h2)

    -- What follows the increment of the number of clients.
    abbrev pub opened : SseClient × Exchange Double → Rc × Option SseClient × Exchange Double
    opened (c, x) = (rc_done, some c, x)

    -- Both allocations have succeeded.
    abbrev pub count_client : ShCtx Double → Exchange Double → Exchange Double
    count_client sh x = record x {
      allocations = x.allocations + 2;
      zone = some (record sh {
        connections = record sh.connections { sse_clients = add_word sh.connections.sse_clients 1 };
      });
    }

    unfoldable pub open_client :
        MainConf → ShCtx Double → Exchange Double → Rc × Option SseClient × Exchange Double
    unfolding sse_write
    open_client conf sh x =
        let passed = record x { allocations = x.allocations + 1 } in
        if allocates ngx x
        then if allocates ngx passed
          then opened (after_write (sse_write (new_client conf) (count_client sh x)))
          else (internal_error, none, record x { allocations = x.allocations + 2 })
        else (internal_error, none, passed)

    -- What follows the look-up of the zone.
    unfoldable pub start_client :
        (Rc → Bool)
        → MainConf
        → Option (ShCtx Double)
        → Exchange Double
        → Rc × Option SseClient × Exchange Double
    unfolding sse_headers open_client
    start_client header_only conf none x = (service_unavailable, none, x)
    start_client header_only conf (some sh) x =
        let (rc, x1) = sse_headers x in
        if is_final rc || header_only rc then (rc, none, x1) else open_client conf sh x1

    -- The client is there if its cleanup is registered. `header_only` is `r->header_only` after
    -- `ngx_http_send_header`.
    unfoldable pub send_sse :
        (Rc → Bool) → Option MainConf → Exchange Double → Rc × Option SseClient × Exchange Double
    unfolding start_client
    send_sse header_only none x = (service_unavailable, none, x)
    send_sse header_only (some conf) x = start_client header_only conf x.zone x
