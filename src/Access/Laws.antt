-- ===== src/Access/Laws.antt =====
-- The first access rule that applies decides, and where none applies access is granted.
use ngx_http_monitoring_modu.Prelude.{
  ℕ, zero, suc, ◌+◌, ◌≤◌, ◌<◌, ◌≡◌, ◌↔◌, ◌⊎◌, inl, inr, refl, sym, ap, subst, if◌then◌else◌, Bool,
  true, false, List, [], ◌∷◌, arith, get_or, bit_and, ==_iff, Bool-cases,
}
use native.Mathlib.Decide.{ℕ_discrete}
use ngx_http_monitoring_modu.Http.{SockAddr, Family, unspec, inet, inet6, other_family}
use ngx_http_monitoring_modu.Access.{
  Cidr, AccessRule, Verdict, ok, declined, same_family, is_unspec, verdict, in6_from, in_network,
  match_access,
}

-- What it means for a rule to apply to an address: it is for all addresses, or for this family and
-- the masked address is the rule's.
abbrev pub InFamily : SockAddr → Cidr → Family → Type 0
InFamily sa c inet = bit_and sa.addr c.mask ≡ c.addr
InFamily sa c inet6 =
    (j : ℕ) → j < 16 → bit_and (get_or sa.addr6 j 0) (get_or c.mask6 j 0) ≡ get_or c.addr6 j 0
InFamily sa c _ = ⊥

abbrev pub Applies : SockAddr → AccessRule → Type 0
Applies sa rule =
    (rule.cidr.family ≡ unspec) ⊎ ((sa.family ≡ rule.cidr.family) × InFamily sa rule.cidr sa.family)

in6_from-suc :
    (n j : ℕ) (addr mask cidr : List ℕ)
    → (in6_from (suc n) j addr mask cidr ≡ true) ↔ (
        (bit_and (get_or addr j 0) (get_or mask j 0) ≡ get_or cidr j 0)
        × (in6_from n (j + 1) addr mask cidr ≡ true))
unfolding in6_from
in6_from-suc n j addr mask cidr = ground arith

in6_from_iff :
    (n j : ℕ) (addr mask cidr : List ℕ)
    → (in6_from n j addr mask cidr ≡ true) ↔ (
        (k : ℕ) → j ≤ k → k < j + n → bit_and (get_or addr k 0) (get_or mask k 0) ≡ get_or cidr k 0)
unfolding in6_from
in6_from_iff zero j addr mask cidr = (λ _ k a b. absurd (omega arith), λ _. refl)
in6_from_iff (suc n) j addr mask cidr =
    let step = in6_from-suc n j addr mask cidr in
    let rest = in6_from_iff n (j + 1) addr mask cidr in
    (
      λ h k a b. elim (ℕ_discrete j k) [
        | yes e ↦
            subst (λ i. bit_and (get_or addr i 0) (get_or mask i 0) ≡ get_or cidr i 0) e
              ((step.0 h).0)
        | no ne ↦ rest.0 ((step.0 h).1) k (omega arith) (omega arith)
      ],
      λ h.
          step.1
            (h j (omega arith) (omega arith), rest.1 (λ k a b. h k (omega arith) (omega arith))),
    )

same_family_iff : (f g : Family) → (same_family f g ≡ true) ↔ (f ≡ g)
same_family_iff unspec unspec = (λ _. refl, λ _. refl)
same_family_iff inet inet = (λ _. refl, λ _. refl)
same_family_iff inet6 inet6 = (λ _. refl, λ _. refl)
same_family_iff (other_family a) (other_family b) = ground arith
same_family_iff unspec inet = ground arith
same_family_iff unspec inet6 = ground arith
same_family_iff unspec (other_family b) = ground arith
same_family_iff inet unspec = ground arith
same_family_iff inet inet6 = ground arith
same_family_iff inet (other_family b) = ground arith
same_family_iff inet6 unspec = ground arith
same_family_iff inet6 inet = ground arith
same_family_iff inet6 (other_family b) = ground arith
same_family_iff (other_family a) unspec = ground arith
same_family_iff (other_family a) inet = ground arith
same_family_iff (other_family a) inet6 = ground arith

in_network_iff :
    (sa : SockAddr) (c : Cidr) (f : Family) → (in_network sa c f ≡ true) ↔ InFamily sa c f
unfolding in_network
in_network_iff sa c inet = ==_iff (bit_and sa.addr c.mask) c.addr
in_network_iff sa c inet6 =
    let i = in6_from_iff 16 0 sa.addr6 c.mask6 c.addr6 in
    (λ h j l. i.0 h j (omega arith) (omega arith), λ h. i.1 (λ k _ l. h k (omega arith)))
in_network_iff sa c unspec = ground arith
in_network_iff sa c (other_family a) = ground arith

-- Access is granted with no rule that applies, or the first rule that applies decides.
pub data FirstMatch (sa : SockAddr) : List AccessRule → Verdict → Type 0 where
  default : FirstMatch sa [] ok
  denies :
      (rule : AccessRule) (rules : List AccessRule)
      → Applies sa rule
      → rule.deny ≡ true
      → FirstMatch sa (rule ∷ rules) declined
  grants :
      (rule : AccessRule) (rules : List AccessRule)
      → Applies sa rule
      → rule.deny ≡ false
      → FirstMatch sa (rule ∷ rules) ok
  passes :
      (rule : AccessRule) (rules : List AccessRule) {v : Verdict}
      → ¬ Applies sa rule
      → FirstMatch sa rules v
      → FirstMatch sa (rule ∷ rules) v

verdict-FirstMatch :
    (sa : SockAddr) (rule : AccessRule) (rules : List AccessRule)
    → Applies sa rule
    → FirstMatch sa (rule ∷ rules) (verdict rule)
verdict-FirstMatch sa rule rules a = elim (Bool-cases rule.deny) [
  | inl d ↦ subst (FirstMatch sa (rule ∷ rules)) (sym (ap sense d)) (denies rule rules a d)
  | inr g ↦ subst (FirstMatch sa (rule ∷ rules)) (sym (ap sense g)) (grants rule rules a g)
]
  where
    sense : Bool → Verdict
    sense deny = if deny then declined else ok

is_unspec_iff : (f : Family) → (is_unspec f ≡ true) ↔ (f ≡ unspec)
is_unspec_iff unspec = ground arith
is_unspec_iff inet = ground arith
is_unspec_iff inet6 = ground arith
is_unspec_iff (other_family a) = ground arith

-- `match_access` denies access if the first rule that applies to the address is one that denies, and
-- grants it if that rule allows, or if no rule applies.
pub match_access-FirstMatch :
    (rules : List AccessRule) (sa : SockAddr) → FirstMatch sa rules (match_access rules sa)
unfolding match_access
match_access-FirstMatch [] sa = default
match_access-FirstMatch (rule ∷ rules) sa = elim (Bool-cases (is_unspec rule.cidr.family)) [
  | inl u ↦ rw u (verdict-FirstMatch sa rule rules (inl ((is_unspec_iff rule.cidr.family).0 u)))
  | inr n ↦ rw n (elim (Bool-cases (same_family sa.family rule.cidr.family)) [
    | inr d ↦ rw d (passes rule rules (differs n d) (match_access-FirstMatch rules sa))
    | inl s ↦ rw s (elim (Bool-cases (in_network sa rule.cidr sa.family)) [
      | inl i ↦ rw i (
          verdict-FirstMatch sa rule rules
            (inr ((same_family_iff _ _).0 s, (in_network_iff sa rule.cidr sa.family).0 i)))
      | inr o ↦ rw o (passes rule rules (outside n o) (match_access-FirstMatch rules sa))
    ])
  ])
]
  where
    differs :
        is_unspec rule.cidr.family ≡ false
        → same_family sa.family rule.cidr.family ≡ false
        → ¬ Applies sa rule
    differs n d (inl e) = cc ((is_unspec_iff rule.cidr.family).1 e)
    differs n d (inr (e, _)) = cc ((same_family_iff sa.family rule.cidr.family).1 e)

    outside :
        is_unspec rule.cidr.family ≡ false
        → in_network sa rule.cidr sa.family ≡ false
        → ¬ Applies sa rule
    outside n o (inl e) = cc ((is_unspec_iff rule.cidr.family).1 e)
    outside n o (inr (_, i)) = cc ((in_network_iff sa rule.cidr sa.family).1 i)
