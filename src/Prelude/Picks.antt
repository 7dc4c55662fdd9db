-- ===== src/Prelude/Picks.antt =====
-- One element of a list taken out or replaced, as relations.
use Prim.Native.Nat.{suc}
use mathlib.Core.Path.{◌≡◌, refl, ap}
use mathlib.Core.List.{List, ◌∷◌}
use ngx_http_monitoring_modu.Prelude.Lists.{All, length}

-- `ys` is `xs` without one `x`.
pub data Removes {A : Type 0} (x : A) : List A → List A → Type 0 where
  here : {xs : List A} → Removes x (x ∷ xs) xs
  next : {y : A} {xs ys : List A} → Removes x xs ys → Removes x (y ∷ xs) (y ∷ ys)

-- `ys` is `xs` with `x'` in place of one `x`.
pub data Replaces {A : Type 0} (x x' : A) : List A → List A → Type 0 where
  at_head : {xs : List A} → Replaces x x' (x ∷ xs) (x' ∷ xs)
  behind : {y : A} {xs ys : List A} → Replaces x x' xs ys → Replaces x x' (y ∷ xs) (y ∷ ys)

pub All-Removes {κ} :
    {A : Type 0} (P : A → Type κ) {x : A} {xs ys : List A}
    → Removes x xs ys
    → All P xs
    → P x × All P ys
All-Removes P here a = a
All-Removes P (next r) a = let b = All-Removes P r a.1 in (b.0, (a.0, b.1))

pub length-Removes :
    {A : Type 0} {x : A} {xs ys : List A} → Removes x xs ys → length xs ≡ suc (length ys)
length-Removes here = refl
length-Removes (next r) = ap suc (length-Removes r)

pub All-Replaces {κ} :
    {A : Type 0} (P : A → Type κ) {x x' : A} {xs ys : List A}
    → Replaces x x' xs ys
    → (P x → P x')
    → All P xs
    → All P ys
All-Replaces P at_head f a = (f a.0, a.1)
All-Replaces P (behind r) f a = (a.0, All-Replaces P r f a.1)

pub length-Replaces :
    {A : Type 0} {x x' : A} {xs ys : List A} → Replaces x x' xs ys → length ys ≡ length xs
length-Replaces at_head = refl
length-Replaces (behind r) = ap suc (length-Replaces r)

pub All-Replaces_old {κ} :
    {A : Type 0} (P : A → Type κ) {x x' : A} {xs ys : List A} → Replaces x x' xs ys → All P xs → P x
All-Replaces_old P at_head a = a.0
All-Replaces_old P (behind r) a = All-Replaces_old P r a.1
