-- ===== src/Slots/Key/Laws.antt =====
-- A stored key is found again, and two keys that one slot answers to are told apart by no slot.
use ngx_http_monitoring_modu.Prelude.{
  ℕ, zero, suc, ◌-◌, ◌≤◌, ◌≡◌, ◌≢◌, refl, ap, ap₂, true, ◌&&◌, List, [], ◌∷◌, ◌++◌, arith, length,
  get_or, take, replicate, min, All, strncmp_eq, ◌==◌, ◌∙◌, sym, length-take, length-append,
  length-replicate,
}
use ngx_http_monitoring_modu.Slots.Key.{key_len, stored_len, store_key, same_key}

-- No byte is NUL.
abbrev pub IsText : List ℕ → Type 0
IsText = All (λ c. c ≢ 0)

-- The bytes of a key that a slot keeps.
abbrev pub kept : List ℕ → List ℕ
kept key = take (key_len - 1) key

strncmp_eq-take :
    (key rest : List ℕ) (n : ℕ) → n ≤ length key → strncmp_eq (take n key ++ rest) key n ≡ true
strncmp_eq-take key rest zero h = refl
strncmp_eq-take [] rest (suc n) h = absurd (omega arith)
strncmp_eq-take (c ∷ key) rest (suc n) h = ground (arith, strncmp_eq-take key rest n)

strncmp_eq-cons :
    (s x : ℕ) (ss xs : List ℕ) (n : ℕ)
    → x ≢ 0
    → strncmp_eq (s ∷ ss) (x ∷ xs) (suc n) ≡ true
    → (s ≡ x) × (strncmp_eq ss xs n ≡ true)
strncmp_eq-cons s x ss xs n t h = ground arith

-- A text of `n` bytes that a stored array begins with, NUL included, is determined.
strncmp_unique :
    (stored key other : List ℕ) (n m : ℕ)
    → IsText key
    → IsText other
    → n ≤ length key
    → m ≤ length other
    → strncmp_eq stored key n ≡ true
    → get_or stored n 0 ≡ 0
    → strncmp_eq stored other m ≡ true
    → get_or stored m 0 ≡ 0
    → (n ≡ m) × (take n key ≡ take m other)
strncmp_unique stored key other zero zero tk to ln lm a b c d = (refl, refl)
strncmp_unique stored key [] zero (suc m) tk to ln lm a b c d = absurd (omega arith)
strncmp_unique [] key (y ∷ ys) zero (suc m) tk to ln lm a b c d = cc
strncmp_unique (s ∷ ss) key (y ∷ ys) zero (suc m) tk to ln lm a b c d = absurd (ground arith)
strncmp_unique stored [] other (suc n) zero tk to ln lm a b c d = absurd (omega arith)
strncmp_unique [] (x ∷ xs) other (suc n) zero tk to ln lm a b c d = cc
strncmp_unique (s ∷ ss) (x ∷ xs) other (suc n) zero tk to ln lm a b c d = absurd (ground arith)
strncmp_unique stored [] other (suc n) (suc m) tk to ln lm a b c d = absurd (omega arith)
strncmp_unique stored (x ∷ xs) [] (suc n) (suc m) tk to ln lm a b c d = absurd (omega arith)
strncmp_unique [] (x ∷ xs) (y ∷ ys) (suc n) (suc m) tk to ln lm a b c d = cc
strncmp_unique (s ∷ ss) (x ∷ xs) (y ∷ ys) (suc n) (suc m) tk to ln lm a b c d =
    let (sx, a') = strncmp_eq-cons s x ss xs n tk.0 a in
    let (sy, c') = strncmp_eq-cons s y ss ys m to.0 c in
    let (e, t) = strncmp_unique ss xs ys n m tk.1 to.1 (omega arith) (omega arith) a' b c' d in
    (ap suc e, ap₂ ◌∷◌ (omega arith) t)

take-nil : (n : ℕ) → take {A = ℕ} n [] ≡ []
take-nil zero = refl
take-nil (suc n) = refl

take-min : (xs : List ℕ) (n : ℕ) → take (min (length xs) n) xs ≡ take n xs
take-min [] n = take-nil (min 0 n) ∙ sym (take-nil n)
take-min (x ∷ xs) zero = let e : min (suc (length xs)) 0 ≡ 0 = omega arith in rw e
take-min (x ∷ xs) (suc n) =
    let e : min (suc (length xs)) (suc n) ≡ suc (min (length xs) n) = omega arith in
    rw e (ap (◌∷◌ x) (take-min xs n))

strncmp_eq-kept :
    (stored key : List ℕ) (n : ℕ) → strncmp_eq stored key n ≡ strncmp_eq stored (take n key) n
strncmp_eq-kept stored key zero = refl
strncmp_eq-kept [] key (suc n) = refl
strncmp_eq-kept (s ∷ ss) [] (suc n) = refl
strncmp_eq-kept (s ∷ ss) (x ∷ xs) (suc n) = ground (arith, strncmp_eq-kept ss xs n)

stored_len-kept : (key : List ℕ) → stored_len key ≡ length (kept key)
stored_len-kept key = omega (arith, length-take (key_len - 1) key)

-- The comparison reads no more of a key than the slot keeps.
pub same_key-kept :
    (stored_hash : ℕ) (stored : List ℕ) (hash : ℕ) (key other : List ℕ)
    → kept key ≡ kept other
    → same_key stored_hash stored hash key ≡ same_key stored_hash stored hash other
unfolding same_key
same_key-kept stored_hash stored hash key other e =
    let n : stored_len key ≡ stored_len other =
      stored_len-kept key ∙ ap length e ∙ sym (stored_len-kept other) in
    ap₂ (λ a b. stored_hash == hash && (a && b))
      (strncmp_eq-kept stored key (stored_len key)
        ∙ ap₂ (strncmp_eq stored)
            (take-min key (key_len - 1) ∙ e ∙ sym (take-min other (key_len - 1))) n
        ∙ sym (strncmp_eq-kept stored other (stored_len other)))
      (ap (λ k. get_or stored k 0 == 0) n)

-- A slot that answers to two texts answers to the same hash and the same kept bytes.
pub same_key_unique :
    (stored_hash : ℕ) (stored : List ℕ) (hash hash' : ℕ) (key other : List ℕ)
    → IsText key
    → IsText other
    → same_key stored_hash stored hash key ≡ true
    → same_key stored_hash stored hash' other ≡ true
    → (hash ≡ hash') × (kept key ≡ kept other)
unfolding same_key
same_key_unique stored_hash stored hash hash' key other tk to a b = (
  ground arith,
  sym (take-min key (key_len - 1))
      ∙ (strncmp_unique stored key other (stored_len key) (stored_len other) tk to (omega arith)
          (omega arith) (ground arith) (ground arith) (ground arith) (ground arith)).1
      ∙ take-min other (key_len - 1),
)

get_or-zeros : (xs : List ℕ) (n k : ℕ) → length xs ≤ n → get_or (xs ++ replicate k 0) n 0 ≡ 0
get_or-zeros [] n zero h = refl
get_or-zeros [] zero (suc k) h = refl
get_or-zeros [] (suc n) (suc k) h = get_or-zeros [] n k (omega arith)
get_or-zeros (x ∷ xs) zero k h = absurd (omega arith)
get_or-zeros (x ∷ xs) (suc n) k h = get_or-zeros xs n k (omega arith)

-- A stored key is found again under its own hash.
pub same_key-store_key : (hash : ℕ) (key : List ℕ) → same_key hash (store_key key) hash key ≡ true
unfolding same_key store_key
same_key-store_key hash key = ground (
  arith,
  strncmp_eq-take key (replicate (key_len - stored_len key) 0) (stored_len key),
  get_or-zeros (take (stored_len key) key) (stored_len key) (key_len - stored_len key)
      (omega (arith, length-take (stored_len key) key)),
)

pub length-store_key : (key : List ℕ) → length (store_key key) ≡ key_len
unfolding store_key
length-store_key key = omega (
  arith,
  length-append (take (stored_len key) key) (replicate (key_len - stored_len key) 0),
  length-take (stored_len key) key,
  length-replicate {A = ℕ} (key_len - stored_len key) 0,
)
