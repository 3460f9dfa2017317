-- ===== src/Log/Durable.antt =====
-- `end_op` of kernel/log.c for the last system call of a transaction.
use cs202lab.Prelude.{◌+◌, ◌-◌, ◌≡◌, refl, true, false, none, arith}
use cs202lab.Log.Machine.{State, done, view}
use cs202lab.Log.{end_op_enter, end_op_leave, end_op}
use cs202lab.Log.Phases.{Clean}
use cs202lab.Log.Recovery.{Ready, commit_returns}

module _ {s : State} (r : Ready s) where
  still-Ready : Ready (record s { outstanding = s.outstanding - 1; committing = true })
  still-Ready = record { fits = r.fits; header = r.header; unlisted = r.unlisted }

  -- While the power holds, the `end_op` of the last call returns with the transaction on disk: every
  -- home block on disk is the one that the cache held, the log is empty, and new calls may begin.
  pub end_op-durable :
      s.outstanding ≡ 1
      → s.committing ≡ false
      → s.power ≡ none
      → (t : State) × (end_op s ≡ done tt t)
        × Clean s.start s.size (view s) t.disk
        × (t.n ≡ 0)
        × (t.committing ≡ false)
  unfolding end_op end_op_enter end_op_leave
  end_op-durable one quiet on =
      let (t, run, clean, seen, count) = commit_returns still-Ready on in
      (
        record t { committing = false; wakeups = t.wakeups + 1 },
        ground (arith, run),
        clean,
        count,
        refl,
      )
