-- ===== src/Proc.antt =====
-- kernel/proc.c: the process table. A process is its index in `proc`; what is modelled of it is what
-- fork, exit, wait, sleep, wakeup and kill decide on, and each of them is one step, up to a sleep, and
-- `fork` is three.
-- What memory allocation and copying return are arguments. Locks, open files, the working directory,
-- the saved registers and the contents of memory are not modelled.
pub mod Loops
pub mod Tree
pub mod Birth
mod Moves
mod Fork
pub mod System
mod Kept
mod Steps
pub mod Reach
pub mod Exit
mod Examples
use cs202lab.Prelude.{
  ℕ, zero, suc, ◌+◌, ◌%◌, ◌^◌, Bool, true, false, not, ◌&&◌, ◌||◌, Option, none, some, ltb, ◌==◌,
  if◌then◌else◌, update,
}

abbrev pub nproc : ℕ
nproc = 64

pub data ProcState : Type 0 where
  unused : ProcState
  used : ProcState
  sleeping : ProcState
  runnable : ProcState
  running : ProcState
  zombie : ProcState

-- The addresses that processes sleep on: those of processes, and others.
pub data Chan : Type 0 where
  nowhere : Chan
  at_proc : ℕ → Chan
  at_other : ℕ → Chan

abbrev pub is_chan : Chan → Chan → Bool
is_chan nowhere nowhere = true
is_chan (at_proc i) (at_proc j) = i == j
is_chan (at_other a) (at_other b) = a == b
is_chan _ _ = false

abbrev pub is_sleeping : ProcState → Bool
is_sleeping sleeping = true
is_sleeping _ = false

abbrev pub is_unused : ProcState → Bool
is_unused unused = true
is_unused _ = false

abbrev pub is_used : ProcState → Bool
is_used used = true
is_used _ = false

abbrev pub is_zombie : ProcState → Bool
is_zombie zombie = true
is_zombie _ = false

abbrev pub is_proc : Option ℕ → ℕ → Bool
is_proc none i = false
is_proc (some j) i = j == i

pub record Proc : Type 0 where
  pub state : ProcState
  pub chan : Chan
  pub killed : Bool
  pub xstate : ℕ
  pub pid : ℕ
  pub parent : Option ℕ
  pub sz : ℕ

pub record Table : Type 0 where
  pub proc : ℕ → Proc
  pub initproc : ℕ
  pub nextpid : ℕ

abbrev pub set : Table → ℕ → Proc → Table
set t i p = record t { proc = update t.proc i p }

-- for(p = &proc[i]; ...; p++), with k processes to go
pub each : ℕ → ℕ → (ℕ → Table → Table) → Table → Table
each zero i body t = t
each (suc k) i body t = each k (i + 1) body (body i t)

-- The first process from i on that passes a test.
unfoldable pub first : ℕ → ℕ → (ℕ → Bool) → Option ℕ
first zero i test = none
first (suc k) i test = let rest = first k (i + 1) test in if test i then some i else rest

pub procinit : Table → Table
unfolding each
procinit t = each nproc 0 (λ i t. set t i (record (t.proc i) { state = unused })) t

-- The bits of the `int` counter, which wraps around.
pub allocpid : Table → ℕ × Table
allocpid t = (t.nextpid, record t { nextpid = (t.nextpid + 1) % 2 ^ 32 })

pub freeproc : ℕ → Table → Table
freeproc i t = set t i (record {
  state = unused;
  chan = nowhere;
  killed = false;
  xstate = 0;
  pid = 0;
  parent = none;
  sz = 0;
})

-- `frame` and `pages`: whether a page for the trapframe, and a page table, could be allocated.
pub allocproc : Bool → Bool → Table → Option ℕ × Table
unfolding first allocpid freeproc
allocproc frame pages t = elim (first nproc 0 (λ i. is_unused (t.proc i).state)) [
  | none ↦ (none, t)
  | some i ↦
      let (pid, u) = allocpid t in
      let v = set u i (record (u.proc i) { pid = pid; state = used }) in
      if frame && pages then (some i, v) else (none, freeproc i v)
]

-- `fork` releases the lock of the new process in between, so it is three steps. The first is up to
-- `release(&np->lock)`; `copied`: whether `uvmcopy` found the memory; the result is the new process, or
-- `none` for -1.
pub copy_process : ℕ → Bool → Option ℕ × Table → Option ℕ × Table
unfolding freeproc
copy_process p copied (none, u) = (none, u)
copy_process p copied (some np, u) =
    if not copied
    then (none, freeproc np u)
    else (some np, set u np (record (u.proc np) { sz = (u.proc p).sz }))

pub fork_child : ℕ → Bool → Bool → Bool → Table → Option ℕ × Table
unfolding allocproc copy_process
fork_child p frame pages copied t = copy_process p copied (allocproc frame pages t)

-- The second, under `wait_lock`: np->parent = p;
pub fork_parent : (p np : ℕ) → Table → Table
fork_parent p np t = set t np (record (t.proc np) { parent = some p })

-- The third, under `np->lock`: np->state = RUNNABLE;
pub fork_start : (np : ℕ) → Table → Table
fork_start np t = set t np (record (t.proc np) { state = runnable })

-- All of `fork`, when nothing comes in between. The result is the pid, or `none` for -1.
pub fork : ℕ → Bool → Bool → Bool → Table → Option ℕ × Table
unfolding fork_child fork_parent fork_start
fork p frame pages copied t =
    let (o, u) = fork_child p frame pages copied t in
    elim o [
      | none ↦ (none, u)
      | some np ↦ (some (u.proc np).pid, fork_start np (fork_parent p np u))
    ]

-- One round of `wakeup`, which process `me` calls.
pub rouse : ℕ → Chan → ℕ → Table → Table
rouse me chan i t =
    if not (i == me) && (is_sleeping (t.proc i).state && is_chan (t.proc i).chan chan)
    then set t i (record (t.proc i) { state = runnable })
    else t

pub wakeup : ℕ → Chan → Table → Table
unfolding each rouse
wakeup me chan t = each nproc 0 (rouse me chan) t

-- One round of `reparent`.
pub adopt : ℕ → ℕ → Table → Table
unfolding wakeup
adopt p i t =
    if is_proc (t.proc i).parent p
    then wakeup p (at_proc t.initproc) (set t i (record (t.proc i) { parent = some t.initproc }))
    else t

pub reparent : ℕ → Table → Table
unfolding each adopt
reparent p t = each nproc 0 (adopt p) t

-- The address of a parent; there is no process at the null pointer.
abbrev pub parent_chan : Option ℕ → Chan
parent_chan none = nowhere
parent_chan (some i) = at_proc i

-- Up to `sched()`; `none` is the panic.
pub exit : ℕ → ℕ → Table → Option Table
unfolding reparent wakeup
exit p status t =
    if p == t.initproc
    then none
    else (let u = reparent p t in
        let v = wakeup p (parent_chan (u.proc p).parent) u in
        some (set v p (record (v.proc p) { xstate = status; state = zombie })))

-- Up to a sleep or the return.
pub sleep : ℕ → Chan → Table → Table
sleep p chan t = set t p (record (t.proc p) { chan = chan; state = sleeping })

pub woken : ℕ → Table → Table
woken p t = set t p (record (t.proc p) { chan = nowhere })

-- `waited pid xstate`: the call returns pid, and the status was copied out; `refused`: it returns -1.
pub data Waited : Type 0 where
  waited : ℕ → ℕ → Waited
  refused : Waited
  asleep : Waited

-- One scan of the table; `copied` says whether the status could be copied out.
pub wait : ℕ → Bool → Table → Waited × Table
unfolding first freeproc sleep
wait p copied t =
    elim (first nproc 0 (λ i. is_proc (t.proc i).parent p && is_zombie (t.proc i).state)) [
      | some i ↦
          if copied then (waited (t.proc i).pid (t.proc i).xstate, freeproc i t) else (refused, t)
      | none ↦ elim (first nproc 0 (λ i. is_proc (t.proc i).parent p)) [
        | none ↦ (refused, t)
        | some i ↦ if (t.proc p).killed then (refused, t) else (asleep, sleep p (at_proc p) t)
      ]
    ]

-- What the scheduler does with a runnable process, and `yield` with its caller.
pub run : ℕ → Table → Table
run i t = set t i (record (t.proc i) { state = running })

pub yield : ℕ → Table → Table
yield p t = set t p (record (t.proc p) { state = runnable })

-- The result says whether a process has the pid.
pub kill : ℕ → Table → Bool × Table
unfolding first
kill pid t = elim (first nproc 0 (λ i. (t.proc i).pid == pid)) [
  | none ↦ (false, t)
  | some i ↦
      let p = t.proc i in
      (
        true,
        set t i
            (record p { killed = true; state = if is_sleeping p.state then runnable else p.state }),
      )
]

pub setkilled : ℕ → Table → Table
setkilled i t = set t i (record (t.proc i) { killed = true })

pub killed : ℕ → Table → Bool
killed i t = (t.proc i).killed
