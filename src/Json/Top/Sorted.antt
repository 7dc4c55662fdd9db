-- ===== src/Json/Top/Sorted.antt =====
-- The order of the top entries: `ngx_http_monitoring_sort_top` (src/ngx_http_monitoring_json.c).
use ngx_http_monitoring_modu.Prelude.{
  ◌≤◌, arith, List, [], ◌∷◌, ◌++◌, All, ltb, ltb→lt, Bool-cases, inl, inr,
}
use mathlib.Core.List.{Perm, perm_middle, append-nil}
use mathlib.Core.List.Perm
use ngx_http_monitoring_modu.Json.Top.{TopView, insert_top, sort_from, reverse_onto, sort_top}

abbrev AtLeast : TopView → TopView → Type 0
AtLeast a b = a.hits ≤ b.hits

-- The hits grow along the list.
abbrev Ascending : List TopView → Type 0
Ascending [] = Unit
Ascending (x ∷ xs) = All (AtLeast x) xs × Ascending xs

-- No entry has more hits than one before it.
abbrev pub Descending : List TopView → Type 0
Descending [] = Unit
Descending (x ∷ xs) = All (λ y. y.hits ≤ x.hits) xs × Descending xs

All-AtLeast_trans :
    (a b : TopView) (xs : List TopView) → a.hits ≤ b.hits → All (AtLeast b) xs → All (AtLeast a) xs
All-AtLeast_trans a b [] h l = tt
All-AtLeast_trans a b (x ∷ xs) h l = (omega (arith, h, l.0), All-AtLeast_trans a b xs h l.1)

All-insert_top :
    (a tmp : TopView) (prev : List TopView)
    → a.hits ≤ tmp.hits
    → All (AtLeast a) prev
    → All (AtLeast a) (insert_top tmp prev)
All-insert_top a tmp [] h l = (h, tt)
All-insert_top a tmp (x ∷ prev) h l = elim (Bool-cases (ltb x.hits tmp.hits)) [
  | inl b ↦ rw (b) (l.0, All-insert_top a tmp prev h l.1)
  | inr b ↦ rw (b) (h, l)
]

insert_top-Ascending :
    (tmp : TopView) (prev : List TopView) → Ascending prev → Ascending (insert_top tmp prev)
insert_top-Ascending tmp [] s = (tt, tt)
insert_top-Ascending tmp (x ∷ prev) (l, s) = elim (Bool-cases (ltb x.hits tmp.hits)) [
  | inl b ↦
      let h = ltb→lt x.hits tmp.hits b in
      rw (b) (All-insert_top x tmp prev (omega (arith, h)) l, insert_top-Ascending tmp prev s)
  | inr b ↦
      let h : tmp.hits ≤ x.hits = ground (arith, b) in
      rw (b) ((h, All-AtLeast_trans tmp x prev h l), (l, s))
]

insert_top-perm : (tmp : TopView) (prev : List TopView) → Perm (insert_top tmp prev) (tmp ∷ prev)
insert_top-perm tmp [] = Perm.rfl
insert_top-perm tmp (x ∷ prev) = elim (Bool-cases (ltb x.hits tmp.hits)) [
  | inl b ↦ rw (b) (Perm.trans (Perm.cons x (insert_top-perm tmp prev)) (Perm.swap tmp x prev))
  | inr b ↦ rw (b) Perm.rfl
]

sort_from-Ascending : (prev v : List TopView) → Ascending prev → Ascending (sort_from prev v)
sort_from-Ascending prev [] s = s
sort_from-Ascending prev (tmp ∷ v) s =
    sort_from-Ascending (insert_top tmp prev) v (insert_top-Ascending tmp prev s)

sort_from-perm : (prev v : List TopView) → Perm (sort_from prev v) (v ++ prev)
sort_from-perm prev [] = Perm.rfl
sort_from-perm prev (tmp ∷ v) =
    Perm.trans (sort_from-perm (insert_top tmp prev) v)
      (Perm.trans (Perm.append_left v (insert_top-perm tmp prev)) (perm_middle v prev))

reverse_onto-perm : (xs ys : List TopView) → Perm (reverse_onto xs ys) (xs ++ ys)
reverse_onto-perm [] ys = Perm.rfl
reverse_onto-perm (x ∷ xs) ys = Perm.trans (reverse_onto-perm xs (x ∷ ys)) (perm_middle xs ys)

-- Each of the second list has at most the hits of each of the first.
abbrev Under : List TopView → List TopView → Type 0
Under xs ys = All (λ x. All (λ y. y.hits ≤ x.hits) ys) xs

Under-cons :
    (x : TopView) (xs ys : List TopView) → All (AtLeast x) xs → Under xs ys → Under xs (x ∷ ys)
Under-cons x [] ys l u = tt
Under-cons x (z ∷ xs) ys l u = ((l.0, u.0), Under-cons x xs ys l.1 u.1)

Under-nil : (xs : List TopView) → Under xs []
Under-nil [] = tt
Under-nil (x ∷ xs) = (tt, Under-nil xs)

reverse_onto-Descending :
    (xs ys : List TopView)
    → Ascending xs
    → Descending ys
    → Under xs ys
    → Descending (reverse_onto xs ys)
reverse_onto-Descending [] ys a d u = d
reverse_onto-Descending (x ∷ xs) ys (l, a) d (b, u) =
    reverse_onto-Descending xs (x ∷ ys) a (b, d) (Under-cons x xs ys l u)

-- The sorted entries are the given ones in another order, each as often as before, and no entry has
-- more hits than one before it.
pub sort_top-Descending : (v : List TopView) → Perm (sort_top v) v × Descending (sort_top v)
unfolding sort_top
sort_top-Descending v =
    let ascending = sort_from-Ascending [] v tt in
    (
      Perm.trans (reverse_onto-perm (sort_from [] v) []) (
          rw (append-nil (sort_from [] v))
            (Perm.trans (sort_from-perm [] v) (rw (append-nil v) Perm.rfl))),
      reverse_onto-Descending (sort_from [] v) [] ascending tt (Under-nil (sort_from [] v)),
    )
