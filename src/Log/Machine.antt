-- ===== src/Log/Machine.antt =====
-- The state that kernel/log.c works on: the disk, the blocks that the buffer cache of kernel/bio.c
-- holds, the in-memory log, and how many more disk writes complete before the power fails.
use cs202lab.Prelude.{ℕ, zero, suc, ◌+◌, ◌-◌, Bool, Option, none, some, update}

-- A block is an array of BSIZE / 4 words, a disk an array of blocks.
abbrev pub Block : Type 0
Block = ℕ → ℕ

abbrev pub Disk : Type 0
Disk = ℕ → Block

-- `power ≡ none`: the power does not fail. `some k`: it fails at the write after the next k.
-- `wakeups` counts the calls of `wakeup(&log)`.
pub record State : Type 0 where
  pub disk : Disk
  pub cache : ℕ → Option Block
  pub refcnt : ℕ → ℕ
  pub power : Option ℕ
  pub start : ℕ
  pub size : ℕ
  pub outstanding : ℕ
  pub committing : Bool
  pub n : ℕ
  pub block : ℕ → ℕ
  pub wakeups : ℕ

-- A call returns, or the power fails and the disk is what is left, or the kernel panics.
pub data Run (A : Type 0) : Type 0 where
  done : A → State → Run A
  crashed : Disk → Run A
  panic : Run A

abbrev pub M : Type 0 → Type 0
M A = State → Run A

abbrev pub pure : {A : Type 0} → A → M A
pure a s = done a s

abbrev pub and_then : {A B : Type 0} → Run A → (A → M B) → Run B
and_then (done a s) f = f a s
and_then (crashed d) f = crashed d
and_then panic f = panic

abbrev pub ◌>>=◌ : {A B : Type 0} → M A → (A → M B) → M B
first >>= next = λ s. and_then (first s) next

abbrev pub ◌>>◌ : {B : Type 0} → M (Unit {0}) → M B → M B
first >> next = first >>= λ _. next

infixl 5 ◌>>=◌ ◌>>◌
abbrev pub get : M State
get s = done s s

-- What a reader of block `b` gets: the cached contents, or else those on disk.
abbrev pub cached_or : Option Block → Block → Block
cached_or none x = x
cached_or (some y) x = y

abbrev pub view : State → ℕ → Block
view s b = cached_or (s.cache b) (s.disk b)

-- A buffer is named by its block number: the cache holds a block once. Its data comes back.
unfoldable pub bread : ℕ → M Block
bread b s = done (view s b) (record s {
  cache = update s.cache b (some (view s b));
  refcnt = update s.refcnt b (s.refcnt b + 1);
})

-- A write to `b->data`.
unfoldable pub set_data : ℕ → Block → M (Unit {0})
set_data b x s = done tt (record s { cache = update s.cache b (some x) })

-- A disk write by the power that is left.
unfoldable pub powered_write : Option ℕ → ℕ → M (Unit {0})
powered_write none b s = done tt (record s { disk = update s.disk b (view s b) })
powered_write (some zero) b s = crashed s.disk
powered_write (some (suc k)) b s =
    done tt (record s { disk = update s.disk b (view s b); power = some k })

unfoldable pub bwrite : ℕ → M (Unit {0})
unfolding powered_write
bwrite b s = powered_write s.power b s

unfoldable pub brelse : ℕ → M (Unit {0})
brelse b s = done tt (record s { refcnt = update s.refcnt b (s.refcnt b - 1) })

unfoldable pub bpin : ℕ → M (Unit {0})
bpin b s = done tt (record s { refcnt = update s.refcnt b (s.refcnt b + 1) })

unfoldable pub bunpin : ℕ → M (Unit {0})
bunpin b s = done tt (record s { refcnt = update s.refcnt b (s.refcnt b - 1) })
