-- ===== src/Proc/Kept.antt =====
-- What the processes of kernel/proc.c keep while some of them are in `fork`.
use cs202lab.Prelude.{
  ℕ, ◌≡◌, ◌≢◌, refl, sym, subst, ◌∙◌, ap, inl, inr, true, Option, none, some, arith, ◌==◌,
  Bool-cases, ==→eq, ==→ne,
}
use cs202lab.Proc.{is_used, Table}
use cs202lab.Proc.Tree.{alive, IsTree}
use cs202lab.Proc.System.{Stage, outside, made, adopted, System, in_stage, in_table}

-- The new process of p is as the steps of `fork` so far left it.
abbrev pub Embryo : Table → ℕ → Stage → Type 0
Embryo t p outside = Unit
Embryo t p (made np) = (alive t p ≡ true) × (is_used (t.proc np).state ≡ true)
Embryo t p (adopted np) =
    (alive t p ≡ true) × (is_used (t.proc np).state ≡ true) × ((t.proc np).parent ≡ some p)

abbrev pub child_of : Stage → Option ℕ
child_of outside = none
child_of (made np) = some np
child_of (adopted np) = some np

pub record Inv (s : System) : Type 0 where
  pub tree : IsTree s.table
  pub embryo : (p : ℕ) → Embryo s.table p (s.stage p)
  pub apart : (p q np : ℕ) → child_of (s.stage p) ≡ some np → child_of (s.stage q) ≡ some np → p ≡ q

Embryo-kept :
    (t u : Table) (p : ℕ) (st : Stage)
    → (st ≢ outside → alive t p ≡ true → alive u p ≡ true)
    → ((np : ℕ)
        → child_of st ≡ some np
        → is_used (t.proc np).state ≡ true
        → is_used (u.proc np).state ≡ true)
    → ((np : ℕ)
        → child_of st ≡ some np
        → is_used (t.proc np).state ≡ true
        → (t.proc np).parent ≡ some p
        → (u.proc np).parent ≡ some p)
    → Embryo t p st
    → Embryo u p st
Embryo-kept t u p outside a b c e = tt
Embryo-kept t u p (made np) a b c e = (a (λ z. absurd (cc)) e.0, b np refl e.1)
Embryo-kept t u p (adopted np) a b c e =
    (a (λ z. absurd (cc)) e.0, b np refl e.1, c np refl e.1 e.2)

module _ {s : System} (i : Inv s) (u : Table) (tree : IsTree u) where
  -- A step of processes that are not in `fork`.
  pub kept-Inv :
      ((q : ℕ) → s.stage q ≢ outside → alive s.table q ≡ true → alive u q ≡ true)
      → ((j : ℕ) → is_used (s.table.proc j).state ≡ true → is_used (u.proc j).state ≡ true)
      → ((q j : ℕ)
          → s.stage q ≢ outside
          → is_used (s.table.proc j).state ≡ true
          → (s.table.proc j).parent ≡ some q
          → (u.proc j).parent ≡ some q)
      → Inv (in_table s u)
  kept-Inv a b c = record {
    tree = tree;
    embryo = λ q.
        Embryo-kept s.table u q (s.stage q) (a q) (λ np e. b np)
          (λ np e. c q np (busy (s.stage q) np e)) (i.embryo q);
    apart = i.apart;
  }
    where
      busy : (st : Stage) (np : ℕ) → child_of st ≡ some np → st ≢ outside
      busy outside np e x = absurd (ground (arith, e))
      busy (made n) np e x = absurd (cc)
      busy (adopted n) np e x = absurd (cc)

  -- A step of `fork` of p.
  pub step-Inv :
      (p : ℕ) (st : Stage)
      → Embryo u p st
      → ((q : ℕ) → alive s.table q ≡ true → alive u q ≡ true)
      → ((q np : ℕ)
          → q ≢ p
          → child_of (s.stage q) ≡ some np
          → is_used (s.table.proc np).state ≡ true
          → u.proc np ≡ s.table.proc np)
      → ((q np : ℕ) → q ≢ p → child_of st ≡ some np → child_of (s.stage q) ≢ some np)
      → Inv (in_stage s p st u)
  step-Inv p st now a b c = record {
    tree = tree;
    embryo = λ q. elim (Bool-cases (q == p)) [
      | inl here ↦ rw here (subst (λ k. Embryo u k st) (sym (==→eq q p here)) now)
      | inr there ↦
          let ne = ==→ne q p there in
          rw there (
            Embryo-kept s.table u q (s.stage q) (λ x. a q)
              (λ np e used. ap (λ r. is_used r.state) (b q np ne e used) ∙ used)
              (λ np e used parent. ap (λ r. r.parent) (b q np ne e used) ∙ parent) (i.embryo q))
    ];
    apart = λ q r np. elim (Bool-cases (q == p)) [
      | inl q_here ↦ elim (Bool-cases (r == p)) [
        | inl r_here ↦ λ x y. ==→eq q p q_here ∙ sym (==→eq r p r_here)
        | inr r_there ↦ rw (q_here, r_there) (λ x y. absurd (c r np (==→ne r p r_there) x y))
      ]
      | inr q_there ↦ elim (Bool-cases (r == p)) [
        | inl r_here ↦ rw (q_there, r_here) (λ x y. absurd (c q np (==→ne q p q_there) y x))
        | inr r_there ↦ rw (q_there, r_there) (i.apart q r np)
      ]
    ];
  }
