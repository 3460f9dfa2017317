-- ===== src/Console/Typed.antt =====
-- Characters that `consoleintr` of kernel/console.c stores, and the whole handler.
use cs202lab.Prelude.{
  add_uint, sub_uint, ℕ, ◌+◌, ◌%◌, ◌<◌, ◌≡◌, refl, sym, subst, ◌∙◌, ap, ◌≢◌, inl, inr, Bool, true,
  false, not, ◌&&◌, ◌||◌, [], ◌∷◌, ◌++◌, arith, ltb, ◌==◌, if◌then◌else◌, update, length, All,
  All-append, Bool-cases,
}
use cs202lab.Console.{input_buf_size, Cons, ctrl, consputc, rub_out, store, typed, consoleintr}
use cs202lab.Console.Ring.{
  window, ready, edited, pending, line, IsValid, length-window, window-update, window-add,
}
use cs202lab.Console.Edit.{
  join, edit, Shows, Shows-same, same_end, rub_out-Shows, kill_line-Shows, drop_last,
}

module _ {s : Cons} (v : IsValid s) (c : ℕ) (byte : c < 256)
    (room : ready s + edited s < input_buf_size) where
  stored : Cons
  stored = store c (consputc c s)

  edited-stored : edited stored ≡ edited s + 1
  unfolding stored store consputc
  edited-stored = omega (arith, v.e, v.w, room)

  used-stored : sub_uint stored.e stored.r ≡ ready s + edited s + 1
  unfolding stored store consputc
  used-stored = omega (arith, v.e, v.w, v.r, room)

  pending-stored : pending stored ≡ pending s
  unfolding stored store consputc
  pending-stored =
      window-update s.buf (c % 256) (ready s) s.r s.e (edited s) v.r room
        (omega (arith, v.e, v.w, v.r, room))

  line-stored : line stored ≡ line s ++ c ∷ []
  unfolding stored store consputc
  line-stored =
      let buf' = update s.buf (s.e % input_buf_size) (c % 256) in
      let end : s.e ≡ add_uint s.w (edited s) = omega (arith, v.e, v.w) in
      let before : window buf' s.w (edited s) ≡ window s.buf s.w (edited s) =
        window-update s.buf (c % 256) (edited s) s.w s.e 0 v.w (omega (arith, room))
          (omega (arith, v.e, v.w)) in
      let last : window buf' s.e 1 ≡ c ∷ [] = ground (arith, byte) in
      ap (λ n. window buf' s.w n) edited-stored
      ∙ window-add buf' (edited s) s.w 1 s.e v.w end
      ∙ ap (λ l. l ++ window buf' s.e 1) before
      ∙ ap (λ l. line s ++ l) last

  all-stored : window stored.buf s.r (ready s + (edited s + 1)) ≡ pending s ++ (line s ++ c ∷ [])
  unfolding stored store consputc
  all-stored =
      window-add stored.buf (ready s) s.r (edited s + 1) s.w v.r (omega (arith, v.r, v.w))
      ∙ ap (λ l. l ++ window stored.buf s.w (edited s + 1)) pending-stored
      ∙ ap (λ l. pending s ++ l)
          (ap (λ n. window stored.buf s.w n) (sym edited-stored) ∙ line-stored)

  -- The test that ends a line.
  ends : Bool
  ends = ((c == b'\n') || (c == ctrl b'D')) || (sub_uint stored.e stored.r == input_buf_size)

  kept-Shows : c ≢ b'\n' → Shows stored s.wakeups (pending s, line s ++ c ∷ [], false)
  unfolding stored store consputc
  kept-Shows other = record {
    valid = record {
      r = v.r;
      w = v.w;
      e = omega arith;
      small = omega (arith, edited-stored, room);
      unbroken =
          subst (λ l. All (λ d. d ≢ b'\n') l) (sym line-stored)
            ((All-append (λ d. d ≢ b'\n') (line s) (c ∷ [])).1 (v.unbroken, (other, tt)));
    };
    pending = pending-stored;
    line = line-stored;
    wakeups = omega arith;
  }

  ended-Shows :
      Shows
        (record stored { w = stored.e; wakeups = stored.wakeups + 1 })
        s.wakeups
        (pending s ++ (line s ++ c ∷ []), [], true)
  unfolding stored store consputc
  ended-Shows =
      let nothing : sub_uint stored.e stored.e ≡ 0 = omega arith in
      let no_line : window stored.buf stored.e (sub_uint stored.e stored.e) ≡ [] =
        ap (λ n. window stored.buf stored.e n) nothing in
      let whole : sub_uint stored.e s.r ≡ ready s + (edited s + 1) = omega (arith, used-stored) in
      record {
        valid = record {
          r = v.r;
          w = omega arith;
          e = omega arith;
          small = omega (arith, whole, room);
          unbroken = subst (λ l. All (λ d. d ≢ b'\n') l) (sym no_line) tt;
        };
        pending = ap (λ n. window stored.buf s.r n) whole ∙ all-stored;
        line = no_line;
        wakeups = refl;
      }

  full-stored :
      (sub_uint stored.e stored.r == input_buf_size)
      ≡ (length (pending s) + length (line s) + 1 == input_buf_size)
  full-stored =
      ground
        (arith, used-stored, length-window s.buf s.r (ready s), length-window s.buf s.w (edited s))

  join-Shows :
      Shows
        (if ends then record stored { w = stored.e; wakeups = stored.wakeups + 1 } else stored)
        s.wakeups
        (join c (pending s) (line s))
  unfolding ends
  join-Shows = elim (Bool-cases ends) [
    | inl ended ↦ rw (sym full-stored, ended) ended-Shows
    | inr open_still ↦ rw (sym full-stored, open_still) (kept-Shows (ground (arith, open_still)))
  ]

module _ {s : Cons} (v : IsValid s) (c : ℕ) (byte : c < 256) where
  abbrev newline_for : ℕ
  newline_for = if c == b'\r' then b'\n' else c

  typed-Shows : Shows (typed c s) s.wakeups (
      if not (c == 0) && ltb (length (pending s) + length (line s)) input_buf_size
      then join newline_for (pending s) (line s)
      else (pending s, line s, false))
  unfolding typed ends stored
  typed-Shows = elim (Bool-cases (not (c == 0) && ltb (sub_uint s.e s.r) input_buf_size)) [
    | inl taken ↦
        rw (sym same_room, taken)
          (join-Shows v newline_for (ground (arith, byte)) (ground (arith, used, taken)))
    | inr refused ↦ rw (sym same_room, refused) (Shows-same v)
  ]
    where
      used : sub_uint s.e s.r ≡ ready s + edited s
      used = omega (arith, v.e, v.w, v.r, v.small)

      same_room :
          (not (c == 0) && ltb (sub_uint s.e s.r) input_buf_size)
          ≡ (not (c == 0) && ltb (length (pending s) + length (line s)) input_buf_size)
      same_room =
          ground
            (arith, used, length-window s.buf s.r (ready s), length-window s.buf s.w (edited s))

  -- The handler edits the two lists as the editor does, ends a line exactly when it does, and wakes
  -- the readers then, for every character and every state of the ring.
  pub consoleintr-edit : Shows (consoleintr c s) s.wakeups (edit c (pending s) (line s))
  unfolding consoleintr
  consoleintr-edit = elim (Bool-cases (c == ctrl b'P')) [
    | inl dump ↦ rw dump (Shows-same v)
    | inr no_dump ↦ elim (Bool-cases (c == ctrl b'U')) [
      | inl kill ↦ rw (no_dump, kill) (kill_line-Shows input_buf_size v (omega (arith, v.small)))
      | inr no_kill ↦ elim (Bool-cases ((c == ctrl b'H') || (c == 0x7f))) [
        | inl erase ↦ rw (no_dump, no_kill, erase) erase-Shows
        | inr other ↦ rw (no_dump, no_kill, other) typed-Shows
      ]
    ]
  ]
    where
      erase-Shows :
          Shows
            (if not (s.e == s.w) then rub_out s else s)
            s.wakeups
            (pending s, drop_last (line s), false)
      erase-Shows = elim (Bool-cases (s.e == s.w)) [
        | inl empty ↦
            let nothing : edited s ≡ 0 = ground (arith, same_end v) in
            let no_line : line s ≡ [] = ap (λ n. window s.buf s.w n) nothing in
            rw empty (record {
              valid = v;
              pending = refl;
              line = no_line ∙ sym (ap drop_last no_line);
              wakeups = omega arith;
            })
        | inr more ↦ rw more (rub_out-Shows v (ground (arith, same_end v)))
      ]
