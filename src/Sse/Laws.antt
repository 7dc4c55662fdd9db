-- ===== src/Sse/Laws.antt =====
-- What one write of an event does (src/ngx_http_monitoring_sse.c).
use ngx_http_monitoring_modu.Prelude.{
  ℕ, ◌≤◌, ◌<◌, ◌≡◌, refl, arith, Bool, true, false, Bool-cases, List, if◌then◌else◌, ◌∙◌, ◌⊎◌, inl,
  inr, some, length, take, take_all, add_word, leb, leb→gt, leb→le,
}
use ngx_http_monitoring_modu.State.{ShCtx}
use ngx_http_monitoring_modu.Http.{Nginx, Process, rc_ok, rc_error}
use ngx_http_monitoring_modu.History.{DoubleOps}
use ngx_http_monitoring_modu.Format.{Digits}
use ngx_http_monitoring_modu.Exchange.{Exchange, send_body, log_sent}
use ngx_http_monitoring_modu.Sse.Payload.{sse_text}
use ngx_http_monitoring_modu.Sse.{SseClient, sse_buffer_len, is_error, put_data, sse_write}

-- The other slot.
abbrev pub flip : Bool → Bool
flip slot = if slot then false else true

-- The text in the slot of the client.
abbrev pub slot_data : Bool → SseClient → List ℕ
slot_data slot c = if slot then c.data1 else c.data0

put_data-other :
    (text : List ℕ) (c : SseClient)
    → slot_data c.slot (put_data text (record c { slot = flip c.slot })) ≡ slot_data c.slot c
put_data-other text c = ground arith

put_data-own :
    (text : List ℕ) (c : SseClient)
    → slot_data (flip c.slot) (put_data text (record c { slot = flip c.slot })) ≡ text
put_data-own text c = ground arith

module _ {Double : Type 0} (ops : DoubleOps Double) (scaled : ℕ → ℕ → ℕ) (digits : Digits Double)
    (p : Process) (ngx : Nginx) (c : SseClient) (x : Exchange Double) (sh : ShCtx Double) where
  abbrev event : List ℕ
  event = sse_text ops scaled digits p c.sequence sh

  -- Over a zone, an event is handed to nginx whole, in the slot that was not used last, and counted
  -- by the zone and by the client's sequence number; or nginx refuses it, and it is not counted; or
  -- it would fill the buffer, and nothing is handed over. The other slot keeps its text.
  pub sse_write-cases :
      x.zone ≡ some sh
      → (c' : SseClient) × (x' : Exchange Double) × (slot_data c.slot c' ≡ slot_data c.slot c)
        × (c'.slot ≡ flip c.slot)
        × (((sse_write ops scaled digits p ngx c x ≡ (rc_ok, c', x'))
              × (length event < sse_buffer_len)
              × (slot_data c'.slot c' ≡ event)
              × (x' ≡ record (log_sent ngx (send_body event) x) {
                zone = some (record sh {
                  connections = record sh.connections {
                    sse_events = add_word sh.connections.sse_events 1;
                  };
                });
              })
              × (c'.sequence ≡ add_word c.sequence 1))
            ⊎ ((sse_write ops scaled digits p ngx c x ≡ (rc_error, c', x'))
                × (is_error (ngx.output_filter x.out event) ≡ true)
                × (x' ≡ log_sent ngx (send_body event) x)
                × (c'.sequence ≡ c.sequence))
            ⊎ ((sse_write ops scaled digits p ngx c x ≡ (rc_error, c', x'))
                × (sse_buffer_len ≤ length event)
                × (x' ≡ x)
                × (c'.sequence ≡ c.sequence)))
  unfolding sse_write
  sse_write-cases e =
      let filled = put_data (take sse_buffer_len event) (record c { slot = flip c.slot }) in
      let kept = put_data-other (take sse_buffer_len event) c in
      elim (Bool-cases (leb sse_buffer_len (length event))) [
        | inl long ↦ (
          filled,
          x,
          kept,
          refl,
          inr (inr (rw (e, long) refl, leb→le sse_buffer_len (length event) long, refl, refl)),
        )
        | inr short ↦
            let fits = leb→gt sse_buffer_len (length event) short in
            let whole = take_all sse_buffer_len event (omega (arith, fits)) in
            elim (Bool-cases (is_error (ngx.output_filter x.out event))) [
              | inl bad ↦ (
                filled,
                log_sent ngx (send_body event) x,
                kept,
                refl,
                inr (inl (rw (e, short, bad) refl, bad, refl, refl)),
              )
              | inr good ↦ (
                record filled { sequence = add_word c.sequence 1 },
                _,
                kept,
                refl,
                inl (
                  rw (e, short, good) refl,
                  fits,
                  put_data-own (take sse_buffer_len event) c ∙ whole,
                  refl,
                  refl,
                ),
              )
            ]
      ]
