-- ===== src/Log/Recovery.antt =====
-- Recovery at boot (kernel/log.c, `initlog`), and what power failures can do to a transaction.
use cs202lab.Prelude.{
  ℕ, ◌+◌, ◌<◌, ◌≡◌, refl, ◌⊎◌, inl, inr, true, false, Option, none, some, arith, ltb, Bool-cases,
  ltb→ge, ltb→lt,
}
use cs202lab.Log.Machine.{Disk, State, done, crashed, view, bread, brelse}
use cs202lab.Log.{read_head, recover_from_log, initlog, commit}
use cs202lab.Log.Crash
use cs202lab.Log.Crash.{Ends, returns, fails, Ends-returns, Ends-crashed}
use cs202lab.Log.Phases.{Home, Listed, Clean, Committed, Fits, Filling, copy_lem}
use cs202lab.Log.Commit.{Lost, Later, Erased, Survives, install_trans-Ends, erase-Ends, commit-Ends}

-- The kernel's state when the machine starts on disk `d`.
abbrev pub boot : Disk → Option ℕ → State
boot d p = record {
  disk = d;
  cache = λ _. none;
  refcnt = λ _. 0;
  power = p;
  start = 0;
  size = 0;
  outstanding = 0;
  committing = false;
  n = 0;
  block = λ _. 0;
  wakeups = 0;
}

-- The machine starts on disk `d`, perhaps fails during recovery and starts again, any number of
-- times, and comes up with disk `e`.
pub data Boots (start size : ℕ) (e : Disk) : Disk → Type 0 where
  up :
      {d : Disk} (s : State)
      → initlog start size (boot d none) ≡ done tt s
      → s.disk ≡ e
      → Boots start size e d
  again :
      {d d' : Disk} (k : ℕ)
      → initlog start size (boot d (some k)) ≡ crashed d'
      → Boots start size e d'
      → Boots start size e d

module _ (start size n : ℕ) (block : ℕ → ℕ) (new : Disk) (f : Fits start size n block) where
  -- Recovery from a committed transaction leads to its home blocks, or to a disk from which it will.
  pub initlog-Ends :
      (p : Option ℕ) {d : Disk}
      → Committed start size n block new d
      → Ends
          (Lost start size n block new new p f (Later start size n block new new p f))
          (λ _ t. Erased start size n block new new p f t)
          (initlog start size (boot d p))
  unfolding initlog recover_from_log read_head bread brelse
  initlog-Ends p {d} h =
      Crash.bind
        (install_trans-Ends start size n block new new p f true (record {
          knows = record {
            start_at = refl;
            count = h.header;
            block_at = λ i lt. ground (
              arith,
              copy_lem (d start 0) 0 (λ i. d start (i + 1)) (λ _. 0) i,
              h.header,
              h.blocks i,
            );
            power = λ e. e;
          };
          committed = h;
          log_seen = λ j lt. ground (arith, h.logged j);
          seen = λ x o. inr (ground arith);
          installed = λ j lt. elim lt [ ];
        }))
        λ _ t g. erase-Ends start size n block new new p f g

-- An empty log is a transaction of no blocks.
Fits-zero : (start size : ℕ) → 0 < size → Fits start size 0 (λ _. 0)
Fits-zero start size pos = record { small = pos; listed = omega arith; homes = λ i lt. elim lt [ ] }

module _ (start size : ℕ) (pos : 0 < size) (target : Disk) where
  Clean-Committed :
      {d : Disk} → Clean start size target d → Committed start size 0 (λ _. 0) target d
  Clean-Committed c = record {
    header = c.header;
    blocks = λ i lt. elim lt [ ];
    logged = λ i lt. elim lt [ ];
    rest = λ x o. inr (c.home x o);
  }

  Later-Clean :
      {d : Disk}
      → Later start size 0 (λ _. 0) target target none (Fits-zero start size pos) d
      → Clean start size target d
  Later-Clean (inl c) = record {
    header = c.header;
    home = λ x o. elim (c.rest x o) [ inl (i, lt, e) ↦ elim lt [ ] | inr e ↦ e ];
  }
  Later-Clean (inr c) = c

  -- Starting the machine on a clean disk leaves the home blocks alone.
  pub Boots-Clean :
      {e d : Disk}
      → Boots start size e d
      → Clean start size target d
      → (x : ℕ) → Home start size x
      → e x ≡ target x
  Boots-Clean (up s run same) c x o =
      let (_, t, run', h) =
        Ends-returns (λ d l. l.1 refl)
          (initlog-Ends start size 0 (λ _. 0) target (Fits-zero start size pos) none
            (Clean-Committed c)) in
      ground (arith, run, run', same, h.disk.home x o)
  Boots-Clean (again k run b) c x o =
      Boots-Clean b
        (Later-Clean
          (Ends-crashed
            (initlog-Ends start size 0 (λ _. 0) target (Fits-zero start size pos) (some k)
              (Clean-Committed c))
            run).0)
        x o

module _ (start size n : ℕ) (block : ℕ → ℕ) (new : Disk) (f : Fits start size n block) where
  pub Boots-Committed :
      {e d : Disk}
      → Boots start size e d
      → Committed start size n block new d
      → (x : ℕ) → Home start size x
      → e x ≡ new x
  Boots-Committed (up s run same) c x o =
      let (_, t, run', h) =
        Ends-returns (λ d l. l.1 refl) (initlog-Ends start size n block new f none c) in
      ground (arith, run, run', same, h.disk.home x o)
  Boots-Committed (again k run b) c x o =
      elim (Ends-crashed (initlog-Ends start size n block new f (some k) c) run).0 [
        | inl c' ↦ Boots-Committed b c' x o
        | inr c' ↦ Boots-Clean start size (omega (arith, f.small)) new b c' x o
      ]

-- Under lasting power recovery returns, with an empty log.
initlog-Committed :
    (start size n : ℕ) (block : ℕ → ℕ) (new : Disk) {d : Disk}
    → Fits start size n block
    → Committed start size n block new d
    → (t : State) × (initlog start size (boot d none) ≡ done tt t) × Clean start size new t.disk
initlog-Committed start size n block new f c =
    let (_, t, run, h) =
      Ends-returns (λ d l. l.1 refl) (initlog-Ends start size n block new f none c) in
    (t, run, h.disk)

initlog-Clean :
    (start size : ℕ) (pos : 0 < size) (target : Disk) {d : Disk}
    → Clean start size target d
    → (t : State) × (initlog start size (boot d none) ≡ done tt t) × Clean start size target t.disk
initlog-Clean start size pos target c =
    initlog-Committed start size 0 (λ _. 0) target (Fits-zero start size pos)
      (Clean-Committed start size pos target c)

-- A state in which a transaction may commit: its blocks fit into the log and are home blocks, the log
-- on disk is empty, and only the listed blocks differ between cache and disk.
pub record Ready (s : State) : Type 0 where
  pub fits : Fits s.start s.size s.n s.block
  pub header : s.disk s.start 0 ≡ 0
  pub unlisted : (x : ℕ) → Home s.start s.size x → Listed s.n s.block x ⊎ (s.disk x ≡ view s x)

module _ {s : State} (r : Ready s) where
  pos_size : 0 < s.size
  pos_size = omega (arith, r.fits.small)

  Ready-Filling : Filling s.start s.size s.n s.block s.disk (view s) s.power 0 s
  Ready-Filling = record {
    knows = record { start_at = refl; count = refl; block_at = λ i lt. refl; power = λ e. e };
    header = r.header;
    home = λ x o. refl;
    seen = λ x o. refl;
    logged = λ j lt. elim lt [ ];
    log_seen = λ j lt. elim lt [ ];
  }

  Ready-commit :
      0 < s.n
      → Ends
          (Lost s.start s.size s.n s.block s.disk
            (view s)
            s.power
            r.fits
            (Survives s.start s.size s.n s.block s.disk (view s) s.power r.fits))
          (λ _ t. Erased s.start s.size s.n s.block s.disk (view s) s.power r.fits t)
          (commit s)
  Ready-commit pos =
      commit-Ends s.start s.size s.n s.block s.disk (view s) s.power r.fits pos Ready-Filling
        r.unlisted

  -- With no block to log, `commit` does nothing.
  commit_nothing : ltb 0 s.n ≡ false → commit s ≡ done tt s
  unfolding commit
  commit_nothing e = rw e

  -- Whatever write of a commit the power fails at, and however often it fails again while the
  -- machine recovers, the home blocks come up all as they were on disk before the commit or all as
  -- the cache held them.
  pub commit_atomic :
      {d e : Disk}
      → commit s ≡ crashed d
      → Boots s.start s.size e d
      → ((x : ℕ) → Home s.start s.size x → e x ≡ s.disk x)
        ⊎ ((x : ℕ) → Home s.start s.size x → e x ≡ view s x)
  commit_atomic run b = elim (Bool-cases (ltb 0 s.n)) [
    | inl pos ↦ elim (Ends-crashed (Ready-commit (ltb→lt _ _ pos)) run).0 [
      | inl c ↦ inl (Boots-Clean s.start s.size pos_size s.disk b c)
      | inr l ↦ inr (elim l [
        | inl c ↦ Boots-Committed s.start s.size s.n s.block (view s) r.fits b c
        | inr c ↦ Boots-Clean s.start s.size pos_size (view s) b c
      ])
    ]
    | inr none_logged ↦ ground (arith, commit_nothing none_logged)
  ]

  -- While the power holds, `commit` returns: the home blocks on disk are those that the cache held,
  -- the cache still holds them, and the log is empty on disk and in memory.
  pub commit_returns :
      s.power ≡ none
      → (t : State) × (commit s ≡ done tt t)
        × Clean s.start s.size (view s) t.disk
        × ((x : ℕ) → Home s.start s.size x → view t x ≡ view s x)
        × (t.n ≡ 0)
  commit_returns on = elim (Bool-cases (ltb 0 s.n)) [
    | inl pos ↦
        let (_, t, run, h) = Ends-returns (λ d l. l.1 on) (Ready-commit (ltb→lt _ _ pos)) in
        (t, run, h.disk, h.seen, h.count)
    | inr none_logged ↦ (
      s,
      commit_nothing none_logged,
      record {
        header = r.header;
        home = λ x o. elim (r.unlisted x o) [
          | inl (i, lt, e) ↦ absurd (omega (arith, ltb→ge _ _ none_logged))
          | inr e ↦ e
        ];
      },
      λ x o. refl,
      omega (arith, ltb→ge _ _ none_logged),
    )
  ]

  -- After a power failure in `commit`, a start of the machine whose power holds comes up, with an
  -- empty log and the home blocks all as on disk before the commit or all as the cache held them.
  pub commit_recovers :
      {d : Disk}
      → commit s ≡ crashed d
      → (t : State) × (initlog s.start s.size (boot d none) ≡ done tt t)
        × (Clean s.start s.size s.disk t.disk ⊎ Clean s.start s.size (view s) t.disk)
  commit_recovers {d} run = elim (Bool-cases (ltb 0 s.n)) [
    | inl pos ↦ elim (Ends-crashed (Ready-commit (ltb→lt _ _ pos)) run).0 [
      | inl c ↦ let (t, run, h) = initlog-Clean s.start s.size pos_size s.disk c in (t, run, inl h)
      | inr (inl c) ↦
          let (t, run, h) = initlog-Committed s.start s.size s.n s.block (view s) r.fits c in
          (t, run, inr h)
      | inr (inr c) ↦
          let (t, run, h) = initlog-Clean s.start s.size pos_size (view s) c in (t, run, inr h)
    ]
    | inr none_logged ↦ absurd (ground (arith, commit_nothing none_logged))
  ]
