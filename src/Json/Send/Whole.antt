-- ===== src/Json/Send/Whole.antt =====
-- The responses of src/ngx_http_monitoring_json.c are whole documents.
use ngx_http_monitoring_modu.Prelude.{
  ℕ, ◌+◌, ◌≤◌, ◌≡◌, refl, sym, subst, arith, if◌then◌else◌, Bool, true, false, List, [], length,
  codes, ◌⊎◌, inl, inr, Bool-cases, some,
}
use ngx_http_monitoring_modu.State.{ShCtx, HistorySample}
use ngx_http_monitoring_modu.Http.{Request, Process, Nginx, Rc}
use ngx_http_monitoring_modu.Endpoint.{Endpoint}
use ngx_http_monitoring_modu.History.{DoubleOps}
use ngx_http_monitoring_modu.Exchange.{Exchange, allocates, internal_error}
use ngx_http_monitoring_modu.Format.{Digits}
use ngx_http_monitoring_modu.Json.{JsonWriter}
use ngx_http_monitoring_modu.Json.Call.{Call}
use ngx_http_monitoring_modu.Json.Call.Completes.{
  calls_text, gives_up, calls-Completes, calls-gives_up,
}
use ngx_http_monitoring_modu.Json.Send.{
  json_document, prometheus_document, health_document, send_buffer, write_and_send, send_document,
  view_count, send_json, send_prometheus, send_health,
}
use ngx_http_monitoring_modu.Json.Send.Given.{
  has_views, json_document-IsSteady, prometheus_document-IsSteady, health_document-IsSteady,
}

-- The exchange after the allocation of the buffer and `more` others.
abbrev pub past : {Double : Type 0} → ℕ → Exchange Double → Exchange Double
past more x = record x { allocations = x.allocations + 1 + more }

module _ {Double : Type 0} (ngx : Nginx) (digits : Digits Double) (hex : ℕ → List ℕ) where
  -- The whole text of the document is sent, and it fits the buffer; or the memory for its views is not
  -- there (`views`), or its text would leave at most one byte of the buffer free, and the answer is an
  -- error, with nothing sent.
  abbrev pub IsWhole :
      Bool
      → ℕ
      → List ℕ
      → List (Call Double)
      → Request
      → Exchange Double
      → Rc × Exchange Double
      → Type 0
  IsWhole views size type document r x answer =
      ((gives_up digits hex document ≡ false)
        × (length (calls_text digits hex document) ≤ size)
        × (answer ≡ send_buffer ngx (calls_text digits hex document) type r x))
      ⊎ (((views ≡ false) ⊎ (size ≤ length (calls_text digits hex document) + 1))
          × (answer ≡ (internal_error, x)))

  unsteady : {b : Bool} (views : Bool) → (views ≡ true → b ≡ false) → b ≡ true → views ≡ false
  unsteady true h e = cc (h refl, e)
  unsteady false h e = refl

  write_and_send-IsWhole :
      (views : Bool) (size : ℕ) (type : List ℕ) (document : List (Call Double)) (r : Request)
      (x : Exchange Double)
      → (views ≡ true → gives_up digits hex document ≡ false)
      → IsWhole views size type document r x (write_and_send ngx digits hex size type document r x)
  unfolding write_and_send
  write_and_send-IsWhole views size type document r x steady =
      let jw : JsonWriter = record { size = size; written = []; failed = false } in
      elim (Bool-cases (gives_up digits hex document)) [
        | inl g ↦
            rw (calls-gives_up digits hex jw document g) (inr (inl (unsteady views steady g), refl))
        | inr g ↦ elim (calls-Completes digits hex jw document (refl, omega arith) g) [
          | inl (e, fits) ↦ inl (g, omega (arith, fits), rw (e) refl)
          | inr (f, l) ↦ rw (f) (inr (inr (omega (arith, l)), refl))
        ]
      ]

  send_document-IsWhole :
      (views : Bool) (size : ℕ) (type : List ℕ) (more : ℕ)
      (document : ShCtx Double → Bool → Bool → List (Call Double)) (r : Request)
      (x : Exchange Double) (sh : ShCtx Double)
      → x.zone ≡ some sh
      → allocates ngx x ≡ true
      → (views ≡ true
          → gives_up digits hex
              (document sh (ngx.can_alloc (x.allocations + 1)) (ngx.can_alloc (x.allocations + 2)))
            ≡ false)
      → IsWhole views size type
          (document sh (ngx.can_alloc (x.allocations + 1)) (ngx.can_alloc (x.allocations + 2)))
          r
          (past more x)
          (send_document ngx digits hex size type more document r x x.zone)
  send_document-IsWhole views size type more document r x sh e a steady =
      let calls =
        document sh (ngx.can_alloc (x.allocations + 1)) (ngx.can_alloc (x.allocations + 2)) in
      let body = write_and_send-IsWhole views size type calls r (past more x) steady in
      subst
        (λ o.
          IsWhole views size type calls r (past more x)
            (send_document ngx digits hex size type more document r x o))
        (sym e)
        (subst
          (λ b. IsWhole views size type calls r (past more x) (
            if b
            then write_and_send ngx digits hex size type calls r (past more x)
            else (internal_error, record x { allocations = x.allocations + 1 })))
          (sym a) body)

module _ {Double : Type 0} (ops : DoubleOps Double) (scaled : ℕ → ℕ → ℕ)
    (cpystrn : List ℕ → List ℕ → ℕ → List ℕ) (z : HistorySample Double) (ngx : Nginx)
    (digits : Digits Double) (hex : ℕ → List ℕ) (p : Process) where
  -- With a zone and a buffer, each of the three responses is the whole document, which fits the
  -- buffer, with status 200; or it is an error and nothing is sent, and then its text would leave at
  -- most one byte of the buffer free, or the document is one with top tables and the memory for one
  -- of the two views of them could not be allocated. No document is cut off.
  pub send_documents-IsWhole :
      (endpoint : Endpoint) (r : Request) (x : Exchange Double) (sh : ShCtx Double)
      → x.zone ≡ some sh
      → allocates ngx x ≡ true
      → IsWhole ngx digits hex
          (has_views endpoint
            (ngx.can_alloc (x.allocations + 1))
            (ngx.can_alloc (x.allocations + 2)))
          524288
          (codes "application/json")
          (json_document ops scaled cpystrn z sh
            (ngx.can_alloc (x.allocations + 1))
            (ngx.can_alloc (x.allocations + 2))
            p
            endpoint)
          r
          (past (view_count endpoint) x)
          (send_json ops scaled cpystrn z ngx digits hex p endpoint r x)
        × IsWhole ngx digits hex true 131072
            (codes "text/plain")
            (prometheus_document ops scaled sh)
            r
            (past 0 x)
            (send_prometheus ops scaled cpystrn z ngx digits hex p r x)
        × IsWhole ngx digits hex true 4096
            (codes "application/json")
            (health_document p sh)
            r
            (past 0 x)
            (send_health ops scaled cpystrn z ngx digits hex p r x)
  unfolding send_json send_prometheus send_health
  send_documents-IsWhole endpoint r x sh e a =
      let u = ngx.can_alloc (x.allocations + 1) in
      let v = ngx.can_alloc (x.allocations + 2) in
      (
        send_document-IsWhole ngx digits hex (has_views endpoint u v) 524288
            (codes "application/json") (view_count endpoint)
            (λ s urls agents. json_document ops scaled cpystrn z s urls agents p endpoint) r x sh e
            a (json_document-IsSteady digits hex ops scaled sh cpystrn z p endpoint u v),
        send_document-IsWhole ngx digits hex true 131072 (codes "text/plain") 0
            (λ s urls agents. prometheus_document ops scaled s) r x sh e a
            (λ h. prometheus_document-IsSteady digits hex ops scaled sh),
        send_document-IsWhole ngx digits hex true 4096 (codes "application/json") 0
            (λ s urls agents. health_document p s) r x sh e a
            (λ h. health_document-IsSteady digits hex ops scaled sh p),
      )
