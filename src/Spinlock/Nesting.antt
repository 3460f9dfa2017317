-- ===== src/Spinlock/Nesting.antt =====
-- `push_off` and `pop_off` of kernel/spinlock.c are matched.
use cs202lab.Prelude.{
  Option-cases, ◌<◌, ◌≡◌, refl, sym, ◌∙◌, ap, inl, inr, true, Option, none, some, List, [], ◌∷◌,
  ◌++◌, arith,
}
use cs202lab.Spinlock.{Cpu, push_off, pop_off}

pub data Call : Type 0 where
  push : Call
  pop : Call

-- The calls in order; `none` is a panic.
pub calls : List Call → Cpu → Option Cpu
unfolding push_off pop_off
calls [] c = some c
calls (push ∷ cs) c = calls cs (push_off c)
calls (pop ∷ cs) c = elim (pop_off c) [ none ↦ none | some d ↦ calls cs d ]

-- Each `push_off` has its `pop_off`.
pub data Matched : List Call → Type 0 where
  nothing : Matched []
  pair :
      {xs ys zs : List Call} → Matched xs → Matched ys → zs ≡ push ∷ (xs ++ pop ∷ ys) → Matched zs

-- Interrupts are on only outside every `push_off`.
abbrev pub IsValid : Cpu → Type 0
IsValid c = c.sie ≡ true → c.noff ≡ 0

-- Depth and interrupts are those of before, and within a `push_off` what is restored at its end is.
pub record Restored (c d : Cpu) : Type 0 where
  pub noff : d.noff ≡ c.noff
  pub sie : d.sie ≡ c.sie
  pub intena : 0 < c.noff → d.intena ≡ c.intena

push_off-IsValid : (c : Cpu) → IsValid (push_off c)
unfolding push_off
push_off-IsValid c = ground arith

pub pop_off-Restored :
    (c d : Cpu)
    → IsValid c
    → Restored (push_off c) d
    → (e : Cpu) × (pop_off d ≡ some e) × Restored c e
unfolding push_off pop_off
pop_off-Restored c d v r = (
  record { noff = c.noff; intena = d.intena; sie = c.sie },
  ground (arith, r.noff, r.sie, r.intena, v),
  record { noff = refl; sie = refl; intena = λ h. ground (arith, r.intena, h) },
)

Restored-IsValid : {c d : Cpu} → IsValid c → Restored c d → IsValid d
Restored-IsValid v r = λ h. ground (arith, r.noff, r.sie, v)

Restored-trans : {b c d : Cpu} → Restored b c → Restored c d → Restored b d
Restored-trans r q = record {
  noff = q.noff ∙ r.noff;
  sie = q.sie ∙ r.sie;
  intena = λ h. ground (arith, r.noff, r.intena h, q.intena);
}

calls-pop : (c d : Cpu) (cs : List Call) → pop_off c ≡ some d → calls (pop ∷ cs) c ≡ calls cs d
unfolding calls
calls-pop c d cs e = rw (e, calls) refl

calls-append :
    (xs ys : List Call) (c d : Cpu) → calls xs c ≡ some d → calls (xs ++ ys) c ≡ calls ys d
unfolding calls
calls-append [] ys c d h = ground arith
calls-append (push ∷ xs) ys c d h = calls-append xs ys (push_off c) d h
calls-append (pop ∷ xs) ys c d h = elim (Option-cases (pop_off c)) [
  | inl panics ↦ absurd (ground (arith, panics, h))
  | inr (b, goes) ↦
      calls-pop c b (xs ++ ys) goes ∙ calls-append xs ys b d (sym (calls-pop c b xs goes) ∙ h)
]

-- Calls that are matched in pairs, nested and in sequence, do not panic, and leave interrupts and
-- depth as they found them: on only if they were on, and then outside every `push_off`.
pub calls-Restored :
    {cs : List Call} (c : Cpu)
    → Matched cs
    → IsValid c
    → (d : Cpu) × (calls cs c ≡ some d) × Restored c d
unfolding calls
calls-Restored c nothing v = (c, refl, record { noff = refl; sie = refl; intena = λ h. refl })
calls-Restored c (pair {xs} {ys} ms ns e) v =
    let (d, inner, r) = calls-Restored (push_off c) ms (push_off-IsValid c) in
    let (b, pops, r') = pop_off-Restored c d v r in
    let (a, later, r'') = calls-Restored b ns (Restored-IsValid v r') in
    let run : calls (push ∷ (xs ++ pop ∷ ys)) c ≡ some a =
      calls-append xs (pop ∷ ys) (push_off c) d inner ∙ (calls-pop d b ys pops ∙ later) in
    (a, ap (λ l. calls l c) e ∙ run, Restored-trans r' r'')
