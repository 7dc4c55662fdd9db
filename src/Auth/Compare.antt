-- ===== src/Auth/Compare.antt =====
-- The comparison in constant time decides equality.
use native.Mathlib.Decide.{ℕ_discrete}
use ngx_http_monitoring_modu.Prelude.{
  ℕ, zero, suc, ◌+◌, ◌≤◌, ◌<◌, ◌≡◌, ◌↔◌, refl, ap, ap₂, subst, true, List, [], ◌∷◌, arith, length,
  get_or, max, lt→ltb, bit_or, bit_xor, bit_xor-zero_iff, bit_or-zero_iff,
}
use ngx_http_monitoring_modu.Access.{Verdict, ok, declined}
use ngx_http_monitoring_modu.Auth.{byte_or_zero, diff_from, consttime_eq, is_ok}

diff_from-suc :
    (n i : ℕ) (a b : List ℕ) (diff : ℕ)
    → (bit_or diff (bit_xor (byte_or_zero a i) (byte_or_zero b i)) ≡ 0)
      ↔ ((diff ≡ 0) × (byte_or_zero a i ≡ byte_or_zero b i))
diff_from-suc n i a b diff =
    let o = bit_or-zero_iff diff (bit_xor (byte_or_zero a i) (byte_or_zero b i)) in
    let x = bit_xor-zero_iff (byte_or_zero a i) (byte_or_zero b i) in
    (λ h. ((o.0 h).0, x.0 ((o.0 h).1)), λ h. o.1 (h.0, x.1 h.1))

-- The loop leaves 0 exactly when it began with 0 and found no difference in its rounds.
diff_from-zero_iff :
    (n i : ℕ) (a b : List ℕ) (diff : ℕ)
    → (diff_from n i a b diff ≡ 0)
      ↔ ((diff ≡ 0) × ((k : ℕ) → i ≤ k → k < i + n → byte_or_zero a k ≡ byte_or_zero b k))
unfolding diff_from
diff_from-zero_iff zero i a b diff = (λ h. (h, λ k p q. absurd (omega arith)), λ h. h.0)
diff_from-zero_iff (suc n) i a b diff =
    let rest =
      diff_from-zero_iff n (i + 1) a b
        (bit_or diff (bit_xor (byte_or_zero a i) (byte_or_zero b i))) in
    let step = diff_from-suc n i a b diff in
    (
      λ h. (
        (step.0 ((rest.0 h).0)).0,
        λ k p q. elim (ℕ_discrete i k) [
          | yes e ↦ subst (λ j. byte_or_zero a j ≡ byte_or_zero b j) e ((step.0 ((rest.0 h).0)).1)
          | no ne ↦ (rest.0 h).1 k (omega arith) (omega arith)
        ],
      ),
      λ h. rest.1 (
        step.1 (h.0, h.1 i (omega arith) (omega arith)),
        λ k p q. h.1 k (omega arith) (omega arith),
      ),
    )

byte_or_zero-eq : (a : List ℕ) (k : ℕ) → k < length a → byte_or_zero a k ≡ get_or a k 0
byte_or_zero-eq a k h = ground (arith, lt→ltb k (length a) h)

ext :
    (a b : List ℕ)
    → length a ≡ length b
    → ((k : ℕ) → k < length a → get_or a k 0 ≡ get_or b k 0)
    → a ≡ b
ext [] [] l h = refl
ext [] (y ∷ b) l h = absurd (omega arith)
ext (x ∷ a) [] l h = absurd (omega arith)
ext (x ∷ a) (y ∷ b) l h =
    ap₂ ◌∷◌ (h 0 (omega arith)) (ext a b (omega arith) (λ k p. h (suc k) (omega arith)))

consttime_eq-ok :
    (a b : List ℕ)
    → (consttime_eq a b ≡ ok)
      ↔ (diff_from (max (length a) (length b)) 0 a b (bit_xor (length a) (length b)) ≡ 0)
unfolding consttime_eq
consttime_eq-ok a b = ground arith

-- `consttime_eq` accepts exactly two equal strings: neither a prefix nor trailing zero bytes pass.
pub consttime_eq_iff : (a b : List ℕ) → (consttime_eq a b ≡ ok) ↔ (a ≡ b)
consttime_eq_iff a b =
    let loop =
      diff_from-zero_iff (max (length a) (length b)) 0 a b (bit_xor (length a) (length b)) in
    let lengths = bit_xor-zero_iff (length a) (length b) in
    let accepted = consttime_eq-ok a b in
    (
      λ h.
          let (x, same) = loop.0 (accepted.0 h) in
          let l = lengths.0 x in
          ext a b l (λ k p. omega (
            arith,
            same k (omega arith) (omega arith),
            byte_or_zero-eq a k p,
            byte_or_zero-eq b k (omega arith),
          )),
      λ e. accepted.1 (loop.1 (lengths.1 (ap length e), λ k _ _. ap (λ c. byte_or_zero c k) e)),
    )

pub is_ok-consttime_eq : (a b : List ℕ) → (is_ok (consttime_eq a b) ≡ true) ↔ (a ≡ b)
is_ok-consttime_eq a b =
    let i = consttime_eq_iff a b in (λ h. i.0 (ok_of (consttime_eq a b) h), λ e. rw (i.1 e) refl)
  where
    ok_of : (v : Verdict) → is_ok v ≡ true → v ≡ ok
    ok_of ok h = refl
    ok_of declined h = cc
