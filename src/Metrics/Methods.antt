-- ===== src/Metrics/Methods.antt =====
-- `ngx_http_monitoring_method_index`, in src/ngx_http_monitoring_shm.c. The method bits are macros
-- of nginx, so they are a parameter; a build without NGX_HTTP_PATCH has 0 there, which no method
-- meets.
pub mod Laws
use ngx_http_monitoring_modu.Prelude.{ℕ, bit_and, Bool, not, List, [], ◌∷◌, ◌==◌, if◌then◌else◌}

-- NGX_HTTP_GET and the others, as `r->method` holds them.
pub record MethodBits : Type 0 where
  pub get : ℕ
  pub post : ℕ
  pub put : ℕ
  pub delete : ℕ
  pub head : ℕ
  pub options : ℕ
  pub patch : ℕ

-- `ngx_http_monitoring_method_e`.
pub data Method : Type 0 where
  get post put delete head options patch other : Method

-- The position of a constructor in the enumeration, which indexes `requests.method`.
abbrev pub index : Method → ℕ
index get = 0
index post = 1
index put = 2
index delete = 3
index head = 4
index options = 5
index patch = 6
index other = 7

-- NGX_HTTP_MONITORING_METHODS.
abbrev pub methods : ℕ
methods = 8

-- `method & bit`, as a C condition.
abbrev pub meets : ℕ → ℕ → Bool
meets method bit = not (bit_and method bit == 0)

unfoldable pub method_index : MethodBits → ℕ → ℕ
method_index b method =
    if meets method b.get
    then index get
    else if meets method b.post
    then index post
    else if meets method b.put
    then index put
    else if meets method b.delete
    then index delete
    else if meets method b.head
    then index head
    else if meets method b.options
    then index options
    else if meets method b.patch
    then index patch
    else index other
