-- ===== src/Kalloc.antt =====
-- kernel/kalloc.c. Memory is a map from the address of a 64-bit word to the word; `last` is the
-- linker's symbol `end`, the first address behind the kernel. A function runs under `kmem.lock`.
pub mod Pages
pub mod Boot
pub mod Owners
mod Examples
use cs202lab.Prelude.{
  ℕ, zero, suc, ◌+◌, ◌-◌, ◌*◌, ◌/◌, ◌%◌, Bool, true, false, not, ◌&&◌, ◌||◌, Option, none, some,
  ltb, leb, ◌==◌, if◌then◌else◌, update,
}

abbrev pub page_size : ℕ
page_size = 4096

-- KERNBASE + 128 * 1024 * 1024
abbrev pub phystop : ℕ
phystop = 0x8800_0000

-- PGROUNDUP(sz); the mask clears the low 12 bits.
abbrev pub page_round_up : ℕ → ℕ
page_round_up sz = (sz + page_size - 1) / page_size * page_size

pub record Kmem : Type 0 where
  pub freelist : ℕ
  pub mem : ℕ → ℕ

-- memset(pa, c, PGSIZE), where `word` is eight bytes c
abbrev pub fill_page : (ℕ → ℕ) → ℕ → ℕ → ℕ → ℕ
fill_page mem pa word a = if leb pa a && ltb a (pa + page_size) then word else mem a

module _ (last : ℕ) where
  -- `none` is the panic.
  pub kfree : ℕ → Kmem → Option Kmem
  kfree pa s =
      if not (pa % page_size == 0) || (ltb pa last || leb phystop pa)
      then none
      else some (record {
        freelist = pa;
        mem = update (fill_page s.mem pa 0x0101_0101_0101_0101) pa s.freelist;
      })

  -- The loop of `freerange`, on fuel.
  pub free_loop : ℕ → ℕ → ℕ → Kmem → Option Kmem
  free_loop zero p pa_end s = some s
  free_loop (suc fuel) p pa_end s = elim (leb (p + page_size) pa_end) [
    | true ↦ elim (kfree p s) [ none ↦ none | some t ↦ free_loop fuel (p + page_size) pa_end t ]
    | false ↦ some s
  ]

  -- The fuel is a bound on the number of pages.
  pub freerange : ℕ → ℕ → Kmem → Option Kmem
  unfolding free_loop
  freerange pa_start pa_end s = free_loop (pa_end / page_size + 1) (page_round_up pa_start) pa_end s

  pub kinit : Kmem → Option Kmem
  unfolding freerange
  kinit s = freerange last phystop s

-- 0 if there is no page.
pub kalloc : Kmem → ℕ × Kmem
kalloc s =
    let r = s.freelist in
    if r == 0
    then (0, s)
    else (r, record { freelist = s.mem r; mem = fill_page s.mem r 0x0505_0505_0505_0505 })
