-- ===== src/Console/Edit.antt =====
-- `consoleintr` of kernel/console.c against an editor of lists.
use cs202lab.Prelude.{
  add_uint, sub_uint, ne→==, ℕ, zero, suc, ◌+◌, ◌-◌, ◌%◌, ◌≤◌, ◌<◌, ◌≡◌, refl, sym, subst, ◌∙◌, ap,
  ◌≢◌, inl, inr, Bool, true, false, not, ◌&&◌, ◌||◌, List, [], ◌∷◌, ◌++◌, arith, ltb, ◌==◌,
  if◌then◌else◌, length, All, Bool-cases,
}
use cs202lab.Console.{input_buf_size, Cons, ctrl, consputc, rub_out, kill_line}
use cs202lab.Console.Ring.{window, edited, pending, line, IsValid, All-window}

abbrev pub drop_last : List ℕ → List ℕ
drop_last [] = []
drop_last (c ∷ []) = []
drop_last (c ∷ d ∷ cs) = c ∷ drop_last (d ∷ cs)

-- A typed character joins the line. A newline, a ^D or a full buffer ends the line, which makes it
-- `pending` and wakes the readers.
abbrev pub join : ℕ → List ℕ → List ℕ → List ℕ × List ℕ × Bool
join c pending line =
    if ((c == b'\n') || (c == ctrl b'D')) || (length pending + length line + 1 == input_buf_size)
    then (pending ++ (line ++ c ∷ []), [], true)
    else (pending, line ++ c ∷ [], false)

abbrev pub edit : ℕ → List ℕ → List ℕ → List ℕ × List ℕ × Bool
edit c pending line =
    if c == ctrl b'P'
    then (pending, line, false)
    else if c == ctrl b'U'
    then (pending, [], false)
    else if (c == ctrl b'H') || (c == 0x7f)
    then (pending, drop_last line, false)
    else if not (c == 0) && ltb (length pending + length line) input_buf_size
    then join (if c == b'\r' then b'\n' else c) pending line
    else (pending, line, false)

-- What the console shows after an edit, from w wakeups on.
pub record Shows (s : Cons) (w : ℕ) (after : List ℕ × List ℕ × Bool) : Type 0 where
  pub valid : IsValid s
  pub pending : pending s ≡ after.0
  pub line : line s ≡ after.1
  pub wakeups : s.wakeups ≡ w + (if after.2 then 1 else 0)

drop_last-window : (buf : ℕ → ℕ) (n r : ℕ) → window buf r n ≡ drop_last (window buf r (suc n))
drop_last-window buf zero r = refl
drop_last-window buf (suc n) r =
    ap (λ l. buf (r % input_buf_size) ∷ l) (drop_last-window buf n (add_uint r 1))

All-drop_last : (P : ℕ → Type 0) (cs : List ℕ) → All P cs → All P (drop_last cs)
All-drop_last P [] a = tt
All-drop_last P (c ∷ []) a = tt
All-drop_last P (c ∷ d ∷ cs) a = (a.0, All-drop_last P (d ∷ cs) a.1)

module _ {s : Cons} (v : IsValid s) where
  pub same_end : (s.e == s.w) ≡ (edited s == 0)
  same_end = ground (arith, v.e, v.w)

  pub Shows-same : Shows s s.wakeups (pending s, line s, false)
  Shows-same = record { valid = v; pending = refl; line = refl; wakeups = omega arith }

  rub_out-edited : 0 < edited s → edited (rub_out s) + 1 ≡ edited s
  unfolding rub_out consputc
  rub_out-edited h = omega (arith, v.e, v.w)

  line-rub_out : 0 < edited s → line (rub_out s) ≡ drop_last (line s)
  unfolding rub_out consputc
  line-rub_out h =
      let more : suc (edited (rub_out s)) ≡ edited s = omega (arith, rub_out-edited h) in
      drop_last-window s.buf (edited (rub_out s)) s.w
      ∙ ap (λ n. drop_last (window s.buf s.w n)) more

  pub rub_out-Shows :
      0 < edited s → Shows (rub_out s) s.wakeups (pending s, drop_last (line s), false)
  unfolding rub_out consputc
  rub_out-Shows h = record {
    valid = record {
      r = v.r;
      w = v.w;
      e = omega arith;
      small = omega (arith, v.small, rub_out-edited h);
      unbroken =
          subst (λ l. All (λ c. c ≢ b'\n') l) (sym (line-rub_out h))
            (All-drop_last _ (line s) v.unbroken);
    };
    pending = refl;
    line = line-rub_out h;
    wakeups = omega arith;
  }

  before_end-open : 0 < edited s → s.buf (sub_uint s.e 1 % input_buf_size) ≢ b'\n'
  before_end-open h =
      All-window (λ c. c ≢ b'\n') s.buf (edited s) s.w (edited s - 1) (sub_uint s.e 1) v.w
        (omega arith) (omega (arith, v.w, v.e)) v.unbroken

-- The rounds that ^U needs are the characters of the line.
pub kill_line-Shows :
    (fuel : ℕ) {s : Cons}
    → IsValid s
    → edited s ≤ fuel
    → Shows (kill_line fuel s) s.wakeups (pending s, [], false)
unfolding kill_line rub_out consputc
kill_line-Shows zero {s} v enough =
    let none_left : edited s ≡ 0 = omega arith in
    record {
      valid = v;
      pending = refl;
      line = ap (λ n. window s.buf s.w n) none_left;
      wakeups = omega arith;
    }
kill_line-Shows (suc fuel) {s} v enough = elim (Bool-cases (s.e == s.w)) [
  | inl stop ↦
      let none_left : edited s ≡ 0 = ground (arith, same_end v) in
      rw stop (record {
        valid = v;
        pending = refl;
        line = ap (λ n. window s.buf s.w n) none_left;
        wakeups = omega arith;
      })
  | inr more ↦
      let left : 0 < edited s = ground (arith, same_end v) in
      rw (more, ne→== _ _ (before_end-open v left))
        (kill_line-Shows fuel (rub_out-Shows v left).valid (omega (arith, rub_out-edited v left)))
]
