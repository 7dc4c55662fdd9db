-- ===== src/Tests/Methods.antt =====
-- The method counters at concrete inputs: nginx's bits are apart.
use ngx_http_monitoring_modu.Prelude.{◌≡◌, ◌≢◌, refl, bit_and}
use ngx_http_monitoring_modu.Metrics.Methods.{
  Method, get, post, put, delete, head, options, patch, other, method_index, index,
}
use ngx_http_monitoring_modu.Metrics.Methods.Laws.{bit_of, AreApart, method_index-bit_of}
use ngx_http_monitoring_modu.Tests.{bits}

own_bits : (m : Method) → m ≢ other → bit_and (bit_of bits 1 m) (bit_of bits 1 m) ≢ 0
own_bits get h = λ e. cc
own_bits post h = λ e. cc
own_bits put h = λ e. cc
own_bits delete h = λ e. cc
own_bits head h = λ e. cc
own_bits options h = λ e. cc
own_bits patch h = λ e. cc
own_bits other h = absurd (h refl)

apart_bits : (m n : Method) → m ≢ n → bit_and (bit_of bits 1 m) (bit_of bits 1 n) ≡ 0
apart_bits get get h = absurd (h refl)
apart_bits get post h = refl
apart_bits get put h = refl
apart_bits get delete h = refl
apart_bits get head h = refl
apart_bits get options h = refl
apart_bits get patch h = refl
apart_bits get other h = refl
apart_bits post get h = refl
apart_bits post post h = absurd (h refl)
apart_bits post put h = refl
apart_bits post delete h = refl
apart_bits post head h = refl
apart_bits post options h = refl
apart_bits post patch h = refl
apart_bits post other h = refl
apart_bits put get h = refl
apart_bits put post h = refl
apart_bits put put h = absurd (h refl)
apart_bits put delete h = refl
apart_bits put head h = refl
apart_bits put options h = refl
apart_bits put patch h = refl
apart_bits put other h = refl
apart_bits delete get h = refl
apart_bits delete post h = refl
apart_bits delete put h = refl
apart_bits delete delete h = absurd (h refl)
apart_bits delete head h = refl
apart_bits delete options h = refl
apart_bits delete patch h = refl
apart_bits delete other h = refl
apart_bits head get h = refl
apart_bits head post h = refl
apart_bits head put h = refl
apart_bits head delete h = refl
apart_bits head head h = absurd (h refl)
apart_bits head options h = refl
apart_bits head patch h = refl
apart_bits head other h = refl
apart_bits options get h = refl
apart_bits options post h = refl
apart_bits options put h = refl
apart_bits options delete h = refl
apart_bits options head h = refl
apart_bits options options h = absurd (h refl)
apart_bits options patch h = refl
apart_bits options other h = refl
apart_bits patch get h = refl
apart_bits patch post h = refl
apart_bits patch put h = refl
apart_bits patch delete h = refl
apart_bits patch head h = refl
apart_bits patch options h = refl
apart_bits patch patch h = absurd (h refl)
apart_bits patch other h = refl
apart_bits other get h = refl
apart_bits other post h = refl
apart_bits other put h = refl
apart_bits other delete h = refl
apart_bits other head h = refl
apart_bits other options h = refl
apart_bits other patch h = refl
apart_bits other other h = absurd (h refl)

bits-AreApart : AreApart bits 1
bits-AreApart = record { own = own_bits; apart = apart_bits }

method_index-bit_of_example : method_index bits 16 ≡ index put
method_index-bit_of_example = method_index-bit_of bits 1 put bits-AreApart
