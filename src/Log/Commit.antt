-- ===== src/Log/Commit.antt =====
-- `commit` and `recover_from_log` of kernel/log.c under power failures.
use cs202lab.Prelude.{
  ℕ, ◌-◌, ◌<◌, ◌≡◌, ◌∙◌, ◌≢◌, ◌⊎◌, inl, inr, Bool, false, Option, none, arith, update, lt→ltb,
}
use cs202lab.Log.Machine.{Disk, State, ◌>>◌, view}
use cs202lab.Log.{install_block, install_trans, write_head, set_n, log_block, write_log, commit}
use cs202lab.Log.Crash
use cs202lab.Log.Crash.{
  Ends, returns, fails, After, Cut, rounds-Ends, log_block-Writes, install_block-Writes,
  write_head-Writes,
}
use cs202lab.Log.Phases.{
  Home, Listed, Clean, Committed, Fits, Filling, Installing, copy_lem, Filling-suc, Installing-zero,
  Installing-suc,
}

module _ (start size n : ℕ) (block : ℕ → ℕ) (old new : Disk) (p : Option ℕ)
    (f : Fits start size n block) where
  -- A disk that a failure leaves: it is good, and there was a failure to come.
  abbrev pub Lost : (Disk → Type 0) → Disk → Type 0
  Lost Good d = Good d × (p ≢ none)

  -- The transaction stands on disk, in the log or at its homes.
  abbrev pub Later : Disk → Type 0
  Later d = Committed start size n block new d ⊎ Clean start size new d

  Cut-Lost :
      (Good : Disk → Type 0) {s : State}
      → Good s.disk
      → (p ≡ none → s.power ≡ none)
      → (d : Disk) → Cut s d
      → Lost Good d
  Cut-Lost Good g k d c = (rw (c.disk) g, λ e. ground (arith, c.power, k))

  pub write_log-Ends :
      {s : State}
      → Filling start size n block old new p 0 s
      → Ends
          (Lost (Clean start size old))
          (λ _ t. Filling start size n block old new p n t)
          (write_log s)
  unfolding write_log
  write_log-Ends {s} h =
      rounds-Ends (Filling start size n block old new p) log_block n
        (λ i s lt h.
          Crash.mono (log_block-Writes s i)
            (Cut-Lost (Clean start size old) (record { header = h.header; home = h.home })
              h.knows.power)
            λ _ t a. Filling-suc start size n block old new p f i lt h a)
        s.n 0 s (omega (arith, h.knows.count)) h

  pub install_trans-Ends :
      (recovering : Bool) {s : State}
      → Installing start size n block old new p 0 s
      → Ends
          (Lost Later)
          (λ _ t. Installing start size n block old new p n t)
          (install_trans recovering s)
  unfolding install_trans
  install_trans-Ends recovering {s} h =
      rounds-Ends (Installing start size n block old new p) (install_block recovering) n
        (λ i s lt h.
          Crash.mono (install_block-Writes s recovering i)
            (Cut-Lost Later (inl h.committed) h.knows.power)
            λ _ t a. Installing-suc start size n block old new p f i lt h a)
        s.n 0 s (omega (arith, h.knows.count)) h

  -- The log is erased, and disk and cache hold the home blocks of `new`.
  pub record Erased (s : State) : Type 0 where
    pub start_at : s.start ≡ start
    pub count : s.n ≡ 0
    pub disk : Clean start size new s.disk
    pub seen : (x : ℕ) → Home start size x → view s x ≡ new x
    pub power : p ≡ none → s.power ≡ none

  Installing-Home :
      {s : State}
      → Installing start size n block old new p n s
      → (x : ℕ) → Home start size x
      → s.disk x ≡ new x
  Installing-Home {s} h x o = elim (h.committed.rest x o) [
    | inl (i, lt, e) ↦ rw (← e) (h.installed i lt)
    | inr e ↦ e
  ]

  pub erase-Ends :
      {s : State}
      → Installing start size n block old new p n s
      → Ends (Lost Later) (λ _ t. Erased t) ((set_n 0 >> write_head) s)
  erase-Ends {s} h =
      Crash.mono (write_head-Writes (record s { n = 0 }))
        (Cut-Lost Later (inl h.committed) h.knows.power)
        λ _ t a. record {
          start_at = a.start ∙ h.knows.start_at;
          count = a.n;
          disk = record {
            header = ground (
              arith,
              a.disk_at start,
              h.knows.start_at,
              copy_lem 0 1 (λ j. s.block (j - 1)) (update (view s s.start) 0 0) 0,
            );
            home = λ x o. ground (arith, a.disk_at x, h.knows.start_at, Installing-Home h x o);
          };
          seen =
              λ x o. ground (arith, a.view_at x, h.knows.start_at, h.seen x, Installing-Home h x o);
          power = λ e. a.power (h.knows.power e);
        }

  -- What a power failure during `commit` leaves.
  abbrev pub Survives : Disk → Type 0
  Survives d = Clean start size old d ⊎ Later d

  pub commit-Ends :
      {s : State}
      → 0 < n
      → Filling start size n block old new p 0 s
      → ((x : ℕ) → Home start size x → Listed n block x ⊎ (old x ≡ new x))
      → Ends (Lost Survives) (λ _ t. Erased t) (commit s)
  unfolding commit
  commit-Ends {s} pos h clean = rw (lt→ltb 0 s.n (omega (arith, h.knows.count))) (
      Crash.bind (Crash.mono (write_log-Ends h) (λ d l. (inl l.0, l.1)) (λ _ t h. h)) λ _ t h.
        Crash.bind
          (Crash.mono (write_head-Writes t)
            (Cut-Lost Survives (inl (record { header = h.header; home = h.home })) h.knows.power)
            (λ _ u a. Installing-zero start size n block old new p f h clean a))
          λ _ u h.
            Crash.bind
              (Crash.mono (install_trans-Ends false h) (λ d l. (inr l.0, l.1)) (λ _ v h. h))
              λ _ v h. Crash.mono (erase-Ends h) (λ d l. (inr l.0, l.1)) (λ _ w h. h))
