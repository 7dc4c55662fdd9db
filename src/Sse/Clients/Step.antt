-- ===== src/Sse/Clients/Step.antt =====
-- One client: what its write, its timer and its start keep (src/ngx_http_monitoring_sse.c).
use ngx_http_monitoring_modu.Prelude.{
  ℕ, suc, ◌+◌, ◌^◌, ◌≤◌, ◌<◌, ◌≡◌, refl, sym, ap, subst, ◌∙◌, arith, Bool, true, false, Bool-cases,
  ◌⊎◌, inl, inr, Option, none, some, List, leb, ltb, length, add_word, ◌||◌,
}
use ngx_http_monitoring_modu.State.{ShCtx}
use ngx_http_monitoring_modu.Http.{MainConf, Process, Nginx, Rc}
use ngx_http_monitoring_modu.History.{DoubleOps}
use ngx_http_monitoring_modu.Format.{Digits}
use ngx_http_monitoring_modu.Exchange.{Exchange, allocates, send_header, push_header}
use ngx_http_monitoring_modu.Sse.Payload.{sse_text}
use ngx_http_monitoring_modu.Sse.{
  SseClient, sse_buffer_len, is_error, is_final, sse_write, after_write, sse_timer, new_client,
  count_client, sse_headers, sse_add_header, open_client, start_client, send_sse, sse_cleanup,
}

-- A client that is open, and either given up or waiting for its timer, of at least a second.
abbrev pub IsLive : SseClient → Type 0
IsLive c =
    (c.closed ≡ false) × (1000 ≤ c.interval) × ((c.finalized ≡ true) ⊎ (c.timer ≡ some c.interval))

-- The zone is there and has this number of clients.
abbrev pub Counts : {Double : Type 0} → ℕ → Option (ShCtx Double) → Type 0
Counts n none = ⊥
Counts n (some sh) = sh.connections.sse_clients ≡ n

-- The client and the zone after a write.
abbrev pub Kept : {Double : Type 0} → ℕ → SseClient × Exchange Double → Type 0
Kept n (c, x) = IsLive c × Counts n x.zone

-- What a start gives: no client and the same number, or a client and one more.
abbrev pub Started : {Double : Type 0} → ℕ → Rc × Option SseClient × Exchange Double → Type 0
Started n (rc, none, x) = Counts n x.zone
Started n (rc, some c, x) = IsLive c × Counts (add_word n 1) x.zone

module _ {Double : Type 0} (ops : DoubleOps Double) (scaled : ℕ → ℕ → ℕ) (digits : Digits Double)
    (p : Process) (ngx : Nginx) where
  -- A write keeps the interval and the number of clients.
  abbrev WriteKeeps : SseClient → Exchange Double → ℕ → Rc × SseClient × Exchange Double → Type 0
  WriteKeeps c x n (rc, c', x') =
      (c'.closed ≡ c.closed) × (c'.interval ≡ c.interval) × Counts n x'.zone

  sse_write-Counts :
      (c : SseClient) (x : Exchange Double) (sh : ShCtx Double)
      → x.zone ≡ some sh
      → WriteKeeps c x sh.connections.sse_clients (sse_write ops scaled digits p ngx c x)
  unfolding sse_write
  sse_write-Counts c x sh e =
      let text = sse_text ops scaled digits p c.sequence sh in
      elim (Bool-cases (leb sse_buffer_len (length text))) [
        | inl long ↦ rw (e, long) (refl, refl, refl)
        | inr short ↦ elim (Bool-cases (is_error (ngx.output_filter x.out text))) [
          | inl bad ↦ rw (e, short, bad) (refl, refl, refl)
          | inr good ↦ rw (e, short, good) (refl, refl, refl)
        ]
      ]

  after_write-Kept :
      (c : SseClient) (x : Exchange Double) (n : ℕ) (w : Rc × SseClient × Exchange Double)
      → c.closed ≡ false
      → 1000 ≤ c.interval
      → WriteKeeps c x n w
      → Kept n (after_write ops scaled digits p ngx w)
  after_write-Kept c x n (rc, c', x') o h (k, i, z) = elim (Bool-cases (is_error rc)) [
    | inl b ↦ rw (b) ((k ∙ o, omega (arith, i, h), inl refl), z)
    | inr b ↦ rw (b) ((k ∙ o, omega (arith, i, h), inr refl), z)
  ]

  written-Kept :
      (c : SseClient) (x : Exchange Double) (sh : ShCtx Double)
      → x.zone ≡ some sh
      → c.closed ≡ false
      → 1000 ≤ c.interval
      → Kept sh.connections.sse_clients
          (after_write ops scaled digits p ngx (sse_write ops scaled digits p ngx c x))
  written-Kept c x sh e o h =
      after_write-Kept c x sh.connections.sse_clients (sse_write ops scaled digits p ngx c x) o h
        (sse_write-Counts c x sh e)

  pub sse_timer-Kept :
      (conn_error buffered : Bool) (c : SseClient) (x : Exchange Double) (sh : ShCtx Double)
      → x.zone ≡ some sh
      → IsLive c
      → Kept sh.connections.sse_clients (sse_timer ops scaled digits p ngx conn_error buffered c x)
  unfolding sse_timer
  sse_timer-Kept true buffered c x sh e (o, h, t) = rw (o, e) ((refl, h, inl refl), refl)
  sse_timer-Kept false true c x sh e (o, h, t) = rw (o, e) ((refl, h, inr refl), refl)
  sse_timer-Kept false false c x sh e (o, h, t) =
      let b : (c.closed || false) ≡ false = ap (λ z. z || false) o in
      rw (b) (written-Kept (record c { timer = none }) x sh e o h)

  push_header-zone :
      (key value : List ℕ) (x : Exchange Double) → (push_header ngx key value x).1.zone ≡ x.zone
  unfolding push_header
  push_header-zone key value x = elim (Bool-cases (allocates ngx x)) [
    | inl b ↦ rw (b) refl
    | inr b ↦ rw (b) refl
  ]

  sse_headers-zone : (x : Exchange Double) → (sse_headers ops scaled digits p ngx x).1.zone ≡ x.zone
  unfolding sse_headers sse_add_header send_header
  sse_headers-zone x = push_header-zone _ _ _ ∙ push_header-zone _ _ _ ∙ push_header-zone _ _ _

  open_client-Started :
      (conf : MainConf) (sh : ShCtx Double) (x : Exchange Double)
      → x.zone ≡ some sh
      → Started sh.connections.sse_clients (open_client ops scaled digits p ngx conf sh x)
  unfolding open_client
  open_client-Started conf sh x e =
      let passed = record x { allocations = x.allocations + 1 } in
      elim (Bool-cases (allocates ngx x)) [
        | inr b ↦ rw (b, e) refl
        | inl b ↦ elim (Bool-cases (allocates ngx passed)) [
          | inr d ↦ rw (b, d, e) refl
          | inl d ↦
              let counted = count_client ops scaled digits p ngx sh x in
              rw (b, d)
                (written-Kept (new_client ops scaled digits p ngx conf) counted
                  (record sh {
                    connections = record sh.connections {
                      sse_clients = add_word sh.connections.sse_clients 1;
                    };
                  })
                  refl refl (omega arith))
        ]
      ]

  start_client-Started :
      (header_only : Rc → Bool) (conf : MainConf) (x : Exchange Double) (sh : ShCtx Double)
      → x.zone ≡ some sh
      → Started sh.connections.sse_clients
          (start_client ops scaled digits p ngx header_only conf (some sh) x)
  unfolding start_client
  start_client-Started header_only conf x sh e =
      let r = sse_headers ops scaled digits p ngx x in
      let z : r.1.zone ≡ some sh = sse_headers-zone x ∙ e in
      elim (Bool-cases (is_final r.0 || header_only r.0)) [
        | inl b ↦ rw (b) (subst (Counts sh.connections.sse_clients) (sym z) refl)
        | inr b ↦ rw (b) (open_client-Started conf sh r.1 z)
      ]

  pub send_sse-Started :
      (header_only : Rc → Bool) (conf : MainConf) (x : Exchange Double) (sh : ShCtx Double)
      → x.zone ≡ some sh
      → Started sh.connections.sse_clients
          (send_sse ops scaled digits p ngx header_only (some conf) x)
  unfolding send_sse
  send_sse-Started header_only conf x sh e =
      subst
        (λ z.
          Started sh.connections.sse_clients
            (start_client ops scaled digits p ngx header_only conf z x))
        (sym e) (start_client-Started header_only conf x sh e)

-- An open client that is cleaned up counts one less.
pub sse_cleanup-Counts :
    {Double : Type 0} (c : SseClient) (sh : ShCtx Double) (n : ℕ)
    → c.closed ≡ false
    → sh.connections.sse_clients ≡ suc n
    → suc n < 2 ^ 64
    → Counts n (sse_cleanup c (some sh)).1
unfolding sse_cleanup
sse_cleanup-Counts c sh n o e h =
    let pos : ltb 0 sh.connections.sse_clients ≡ true = ground arith in
    rw (o, pos) (omega (arith, e, h))
