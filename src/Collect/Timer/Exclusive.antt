-- ===== src/Collect/Timer/Exclusive.antt =====
-- The lock of the collectors: at most one worker is inside, and a worker that dies inside leaves it
-- taken (src/ngx_http_monitoring_collectors.c).
use ngx_http_monitoring_modu.Prelude.{
  ℕ, ◌≤◌, ◌≡◌, ◌≢◌, refl, sym, ap, subst, ◌∙◌, arith, List, [], ◌∷◌, Bool, true, false, ◌⊎◌, inl,
  inr, Removes, here, next,
}
use ngx_http_monitoring_modu.State.{ShCtx}
use ngx_http_monitoring_modu.Http.{Process}
use ngx_http_monitoring_modu.Metrics.Methods.{MethodBits}
use ngx_http_monitoring_modu.History.{DoubleOps}
use ngx_http_monitoring_modu.Collect.Libc.{Libc}
use ngx_http_monitoring_modu.Collect.Timer.Kept.{
  Keeps, account-Keeps, limits-Keeps, resize-Keeps, gather-KeepsLock, enter-cases,
}
use ngx_http_monitoring_modu.Collect.Timer.Lock.{
  Workers, entered, Move, begins, gathers, ends, dies, starts, exits, logs, limits, streams,
  reloads, Reaches, stays, then_moves,
}

Removes-single :
    {p q : Process} {ps qs : List Process} → Removes q ps qs → ps ≡ p ∷ [] → (q ≡ p) × (qs ≡ [])
Removes-single here e = (cc, cc)
Removes-single (next here) e = cc
Removes-single (next (next r)) e = cc

Removes-nil : {q : Process} {ps qs : List Process} → Removes q ps qs → ps ≢ []
Removes-nil here e = cc
Removes-nil (next r) e = cc

-- No worker is inside, or one, whose process id is in the lock.
abbrev pub IsExclusive : {Double : Type 0} → Workers Double → Type 0
IsExclusive s =
    (s.inside ≡ [])
    ⊎ ((p : Process) × (s.inside ≡ p ∷ []) × (s.shared.collector_lock ≡ p.pid) × (1 ≤ p.pid))

module _ {Double : Type 0} where
  -- A step that keeps the lock and the workers inside.
  kept-IsExclusive :
      (sh sh' : ShCtx Double) (ps : List Process)
      → sh'.collector_lock ≡ sh.collector_lock
      → IsExclusive (record { shared = sh; inside = ps })
      → IsExclusive (record { shared = sh'; inside = ps })
  kept-IsExclusive sh sh' ps e (inl n) = inl n
  kept-IsExclusive sh sh' ps e (inr (p, i, l, h)) = inr (p, i, e ∙ l, h)

  removed-IsExclusive :
      (sh sh' : ShCtx Double) (p : Process) (ps qs : List Process)
      → Removes p ps qs
      → IsExclusive (record { shared = sh; inside = ps })
      → IsExclusive (record { shared = sh'; inside = qs })
  removed-IsExclusive sh sh' p ps qs r (inl n) = absurd (Removes-nil r n)
  removed-IsExclusive sh sh' p ps qs r (inr (q, i, l, h)) = inl (Removes-single r i).1

  entered-IsExclusive :
      (p : Process) (ps : List Process) (sh : ShCtx Double) (e : Bool × ShCtx Double)
      → 1 ≤ p.pid
      → ((sh.collector_lock ≡ 0) × (e.0 ≡ true) × (e.1.collector_lock ≡ p.pid))
        ⊎ ((sh.collector_lock ≢ 0) × (e.0 ≡ false) × Keeps sh e.1)
      → IsExclusive (record { shared = sh; inside = ps })
      → IsExclusive (entered p ps e)
  entered-IsExclusive p ps sh (true, sh') h (inl (z, t, l)) (inl n) =
      inr (p, ap (λ xs. p ∷ xs) n, l, h)
  entered-IsExclusive p ps sh (true, sh') h (inl (z, t, l)) (inr (q, i, k, g)) =
      absurd (omega (arith, z, k, g))
  entered-IsExclusive p ps sh (true, sh') h (inr (z, t, l)) x = cc
  entered-IsExclusive p ps sh (false, sh') h (inl (z, t, l)) x = cc
  entered-IsExclusive p ps sh (false, sh') h (inr (z, t, k)) x = kept-IsExclusive sh sh' ps k.0 x

module _ {Double : Type 0} (libc : Libc Double) (ops : DoubleOps Double) (scaled : ℕ → ℕ → ℕ)
    (crc32 : List ℕ → ℕ) (bits : MethodBits) where
  Move-IsExclusive :
      {s s' : Workers Double}
      → Move libc ops scaled crc32 bits s s'
      → IsExclusive s
      → IsExclusive s'
  Move-IsExclusive (begins {sh} {ps} conf p h e) x =
      subst IsExclusive (sym e)
        (entered-IsExclusive p ps sh _ h (enter-cases libc ops scaled conf p sh) x)
  Move-IsExclusive (gathers {sh} {sh'} {ps} conf p r e) x =
      kept-IsExclusive sh sh' ps
        (ap (λ z. z.collector_lock) e ∙ (gather-KeepsLock libc ops scaled conf p sh).0) x
  Move-IsExclusive (ends {sh} {sh'} {ps} {qs} conf p r e) x = removed-IsExclusive sh sh' p ps qs r x
  Move-IsExclusive (dies {sh} {ps} {qs} p r) x = removed-IsExclusive sh sh p ps qs r x
  Move-IsExclusive (starts {sh} {sh'} {ps} p e) x =
      kept-IsExclusive sh sh' ps (ap (λ z. z.collector_lock) e) x
  Move-IsExclusive (exits {sh} {sh'} {ps} p e) x =
      kept-IsExclusive sh sh' ps (ap (λ z. z.collector_lock) e) x
  Move-IsExclusive (logs {sh} {sh'} {ps} p conf r e) x =
      kept-IsExclusive sh sh' ps
        (ap (λ z. z.collector_lock) e ∙ (account-Keeps crc32 bits p conf r sh).0) x
  Move-IsExclusive (limits {sh} {sh'} {ps} now rate_limit e) x =
      kept-IsExclusive sh sh' ps (ap (λ z. z.collector_lock) e ∙ (limits-Keeps now rate_limit sh).0)
        x
  Move-IsExclusive (streams {sh} {sh'} {ps} clients events e) x =
      kept-IsExclusive sh sh' ps (ap (λ z. z.collector_lock) e) x
  Move-IsExclusive (reloads {sh} {sh'} {ps} conf e) x =
      kept-IsExclusive sh sh' ps (ap (λ z. z.collector_lock) e ∙ (resize-Keeps conf sh).0) x

  -- From a state with no worker inside, whatever the lock is, there is never more than one worker
  -- between the taking of the lock and its release, and the lock then has its process id, which is
  -- not 0: over any sequence of steps of timers, deaths, starts and exits of processes, accounted
  -- and limited requests, event streams and reloads, with process ids that are not 0.
  pub Reaches-IsExclusive :
      (sh : ShCtx Double) (s : Workers Double)
      → Reaches libc ops scaled crc32 bits (record { shared = sh; inside = [] }) s
      → IsExclusive s
  Reaches-IsExclusive sh s stays = inl refl
  Reaches-IsExclusive sh s (then_moves {t} r m) = Move-IsExclusive m (Reaches-IsExclusive sh t r)

  -- The lock is taken and no worker is inside.
  abbrev IsStuck : ShCtx Double → Workers Double → Type 0
  IsStuck sh s = (s.inside ≡ []) × Keeps sh s.shared

  kept-IsStuck :
      (sh0 sh sh' : ShCtx Double) (ps : List Process)
      → Keeps sh sh'
      → IsStuck sh0 (record { shared = sh; inside = ps })
      → IsStuck sh0 (record { shared = sh'; inside = ps })
  kept-IsStuck sh0 sh sh' ps (a, b, c) (i, (a', b', c')) = (i, (a ∙ a', b ∙ b', c ∙ c'))

  entered-IsStuck :
      (sh0 : ShCtx Double) (p : Process) (ps : List Process) (sh : ShCtx Double)
      (e : Bool × ShCtx Double)
      → sh0.collector_lock ≢ 0
      → ((sh.collector_lock ≡ 0) × (e.0 ≡ true) × (e.1.collector_lock ≡ p.pid))
        ⊎ ((sh.collector_lock ≢ 0) × (e.0 ≡ false) × Keeps sh e.1)
      → IsStuck sh0 (record { shared = sh; inside = ps })
      → IsStuck sh0 (entered p ps e)
  entered-IsStuck sh0 p ps sh e h (inl (z, t, l)) (i, k) = absurd (h (sym k.0 ∙ z))
  entered-IsStuck sh0 p ps sh (true, sh') h (inr (z, t, l)) x = cc
  entered-IsStuck sh0 p ps sh (false, sh') h (inr (z, t, k)) x = kept-IsStuck sh0 sh sh' ps k x

  Move-IsStuck :
      (sh0 : ShCtx Double) {s s' : Workers Double}
      → sh0.collector_lock ≢ 0
      → Move libc ops scaled crc32 bits s s'
      → IsStuck sh0 s
      → IsStuck sh0 s'
  Move-IsStuck sh0 h (begins {sh} {ps} conf p g e) x =
      subst (IsStuck sh0) (sym e)
        (entered-IsStuck sh0 p ps sh _ h (enter-cases libc ops scaled conf p sh) x)
  Move-IsStuck sh0 h (gathers conf p r e) x = absurd (Removes-nil r x.0)
  Move-IsStuck sh0 h (ends conf p r e) x = absurd (Removes-nil r x.0)
  Move-IsStuck sh0 h (dies p r) x = absurd (Removes-nil r x.0)
  Move-IsStuck sh0 h (starts {sh} {sh'} {ps} p e) x =
      kept-IsStuck sh0 sh sh' ps (subst (Keeps sh) (sym e) (refl, refl, refl)) x
  Move-IsStuck sh0 h (exits {sh} {sh'} {ps} p e) x =
      kept-IsStuck sh0 sh sh' ps (subst (Keeps sh) (sym e) (refl, refl, refl)) x
  Move-IsStuck sh0 h (logs {sh} {sh'} {ps} p conf r e) x =
      kept-IsStuck sh0 sh sh' ps (subst (Keeps sh) (sym e) (account-Keeps crc32 bits p conf r sh)) x
  Move-IsStuck sh0 h (limits {sh} {sh'} {ps} now rate_limit e) x =
      kept-IsStuck sh0 sh sh' ps (subst (Keeps sh) (sym e) (limits-Keeps now rate_limit sh)) x
  Move-IsStuck sh0 h (streams {sh} {sh'} {ps} clients events e) x =
      kept-IsStuck sh0 sh sh' ps (subst (Keeps sh) (sym e) (refl, refl, refl)) x
  Move-IsStuck sh0 h (reloads {sh} {sh'} {ps} conf e) x =
      kept-IsStuck sh0 sh sh' ps (subst (Keeps sh) (sym e) (resize-Keeps conf sh)) x

  Reaches-IsStuck :
      (sh : ShCtx Double) (qs : List Process) (s : Workers Double)
      → sh.collector_lock ≢ 0
      → qs ≡ []
      → Reaches libc ops scaled crc32 bits (record { shared = sh; inside = qs }) s
      → IsStuck sh s
  Reaches-IsStuck sh qs s h e stays = (e, (refl, refl, refl))
  Reaches-IsStuck sh qs s h e (then_moves {t} r m) =
      Move-IsStuck sh h m (Reaches-IsStuck sh qs t h e r)

  -- If a worker inside dies, the lock keeps its process id for ever: over any sequence of further
  -- steps, the start of other processes, event streams and reloads included, no worker gets the lock
  -- again, and the generation and what collections write stay as they were: the system metrics,
  -- nginx's connections, the three tables, the averages and totals, and the stored samples with
  -- their write position. The number of samples is not among them, as a reload sets it with the
  -- capacity. The state before is reached from one with no worker inside.
  pub dies-IsStuck :
      (start sh : ShCtx Double) (p : Process) (ps qs : List Process) (s : Workers Double)
      → Reaches libc ops scaled crc32 bits
          (record { shared = start; inside = [] })
          (record { shared = sh; inside = ps })
      → Removes p ps qs
      → Reaches libc ops scaled crc32 bits (record { shared = sh; inside = qs }) s
      → (s.inside ≡ []) × (sh.collector_lock ≡ p.pid) × Keeps sh s.shared
  dies-IsStuck start sh p ps qs s before r after =
      elim (Reaches-IsExclusive start (record { shared = sh; inside = ps }) before) [
        | inl n ↦ absurd (Removes-nil r n)
        | inr (q, i, l, h) ↦
            let single = Removes-single r i in
            let stuck = Reaches-IsStuck sh qs s (omega (arith, l, h)) single.1 after in
            (stuck.0, l ∙ ap (λ x. x.pid) (sym single.0), stuck.1)
      ]
