-- ===== src/Access.antt =====
-- The access rules: `ngx_http_monitoring_access_rule_t` (src/ngx_http_monitoring.h) and
-- `ngx_http_monitoring_match_access` (src/ngx_http_monitoring_module.c), in a build with IPv6.
pub mod Laws
use ngx_http_monitoring_modu.Prelude.{
  ℕ, zero, suc, ◌+◌, Bool, true, false, not, List, [], ◌∷◌, get_or, bit_and, ◌==◌, if◌then◌else◌,
}
use ngx_http_monitoring_modu.Http.{SockAddr, Family, unspec, inet, inet6, other_family}

-- `ngx_cidr_t`, with the address and mask of each family.
pub record Cidr : Type 0 where
  pub family : Family
  pub addr : ℕ
  pub mask : ℕ
  pub addr6 : List ℕ
  pub mask6 : List ℕ

pub record AccessRule : Type 0 where
  pub deny : Bool
  pub cidr : Cidr

-- What the function returns: `NGX_OK` or `NGX_DECLINED`.
pub data Verdict : Type 0 where
  ok declined : Verdict

abbrev pub same_family : Family → Family → Bool
same_family unspec unspec = true
same_family inet inet = true
same_family inet6 inet6 = true
same_family (other_family a) (other_family b) = a == b
same_family _ _ = false

abbrev pub is_unspec : Family → Bool
is_unspec unspec = true
is_unspec _ = false

abbrev pub verdict : AccessRule → Verdict
verdict rule = if rule.deny then declined else ok

-- The inner `for` with `n` rounds left: whether it runs to its end.
pub in6_from : ℕ → ℕ → List ℕ → List ℕ → List ℕ → Bool
in6_from zero j addr mask cidr = true
in6_from (suc n) j addr mask cidr =
    let rest = in6_from n (j + 1) addr mask cidr in
    if bit_and (get_or addr j 0) (get_or mask j 0) == get_or cidr j 0 then rest else false

-- Whether the address is in the rule's network, once the families agree.
unfoldable pub in_network : SockAddr → Cidr → Family → Bool
unfolding in6_from
in_network sa c inet = bit_and sa.addr c.mask == c.addr
in_network sa c inet6 = in6_from 16 0 sa.addr6 c.mask6 c.addr6
in_network sa c _ = false

-- The outer `for`: the first rule that applies decides; if none does, access is granted. A NULL
-- array and an empty one are the empty list.
unfoldable pub match_access : List AccessRule → SockAddr → Verdict
unfolding in_network
match_access [] sa = ok
match_access (rule ∷ rules) sa =
    if is_unspec rule.cidr.family
    then verdict rule
    else if not (same_family sa.family rule.cidr.family)
    then match_access rules sa
    else if in_network sa rule.cidr sa.family
    then verdict rule
    else match_access rules sa
