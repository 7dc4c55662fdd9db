-- ===== src/Metrics/Methods/Laws.antt =====
-- The method counters: each known method has a counter of its own.
use ngx_http_monitoring_modu.Prelude.{ℕ, bit_and, ◌<◌, ◌≡◌, ◌≢◌, arith}
use ngx_http_monitoring_modu.Metrics.Methods.{
  MethodBits, Method, get, post, put, delete, head, options, patch, other, index, methods,
  method_index,
}

-- The value of `r->method` for a method; `other` stands for a method with a bit outside the table.
abbrev pub bit_of : MethodBits → ℕ → Method → ℕ
bit_of b o get = b.get
bit_of b o post = b.post
bit_of b o put = b.put
bit_of b o delete = b.delete
bit_of b o head = b.head
bit_of b o options = b.options
bit_of b o patch = b.patch
bit_of b o other = o

-- nginx gives each method one bit of its own.
pub record AreApart (b : MethodBits) (o : ℕ) : Type 0 where
  pub own : (m : Method) → m ≢ other → bit_and (bit_of b o m) (bit_of b o m) ≢ 0
  pub apart : (m n : Method) → m ≢ n → bit_and (bit_of b o m) (bit_of b o n) ≡ 0

pub method_index-lt : (b : MethodBits) (method : ℕ) → method_index b method < methods
unfolding method_index
method_index-lt b method = ground arith

-- If nginx's seven method bits are not 0 and no two of them, nor the method taken for `other`,
-- share a bit: each known method is counted under its own index, and the other one under the last.
pub method_index-bit_of :
    (b : MethodBits) (o : ℕ) (m : Method) → AreApart b o → method_index b (bit_of b o m) ≡ index m
unfolding method_index
method_index-bit_of b o get a = ground (arith, a.own get (λ e. cc))
method_index-bit_of b o post a = ground (arith, a.own post (λ e. cc), a.apart post get (λ e. cc))
method_index-bit_of b o put a =
    ground (arith, a.own put (λ e. cc), a.apart put get (λ e. cc), a.apart put post (λ e. cc))
method_index-bit_of b o delete a = ground (
  arith,
  a.own delete (λ e. cc),
  a.apart delete get (λ e. cc),
  a.apart delete post (λ e. cc),
  a.apart delete put (λ e. cc),
)
method_index-bit_of b o head a = ground (
  arith,
  a.own head (λ e. cc),
  a.apart head get (λ e. cc),
  a.apart head post (λ e. cc),
  a.apart head put (λ e. cc),
  a.apart head delete (λ e. cc),
)
method_index-bit_of b o options a = ground (
  arith,
  a.own options (λ e. cc),
  a.apart options get (λ e. cc),
  a.apart options post (λ e. cc),
  a.apart options put (λ e. cc),
  a.apart options delete (λ e. cc),
  a.apart options head (λ e. cc),
)
method_index-bit_of b o patch a = ground (
  arith,
  a.own patch (λ e. cc),
  a.apart patch get (λ e. cc),
  a.apart patch post (λ e. cc),
  a.apart patch put (λ e. cc),
  a.apart patch delete (λ e. cc),
  a.apart patch head (λ e. cc),
  a.apart patch options (λ e. cc),
)
method_index-bit_of b o other a = ground (
  arith,
  a.apart other get (λ e. cc),
  a.apart other post (λ e. cc),
  a.apart other put (λ e. cc),
  a.apart other delete (λ e. cc),
  a.apart other head (λ e. cc),
  a.apart other options (λ e. cc),
  a.apart other patch (λ e. cc),
)
