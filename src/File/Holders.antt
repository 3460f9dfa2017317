-- ===== src/File/Holders.antt =====
-- Who holds the open files of kernel/file.c.
use cs202lab.Prelude.{
  ℕ, ◌+◌, ◌-◌, ◌<◌, ◌≡◌, refl, sym, ◌∙◌, ap, ◌≢◌, ◌⊎◌, inl, inr, Bool, true, false, ltb→lt, ltb→ge,
  none, some, List, [], ◌∷◌, ◌++◌, arith, ltb, ◌==◌, update, Bool-cases, Option-cases,
}
use cs202lab.Proc.{first}
use cs202lab.Proc.Loops.{first-some}
use cs202lab.Kalloc.Owners.{count, count-append}
use cs202lab.File.{
  nfile, Ftable, filealloc, filedup, Closing, still_held, pipe_closes, inode_put, no_call,
  fileclose, closing, FileType, fd_none, fd_pipe, fd_inode, fd_device,
}

-- The holders of files, one entry for each: descriptors of processes, and calls that use a file.
pub data Step : Ftable → List ℕ → Ftable → List ℕ → Type 0 where
  opens : {t u : Ftable} {i : ℕ} {q : List ℕ} → filealloc t ≡ (some i, u) → Step t q u (i ∷ q)
  dups :
      {t u : Ftable} {q : List ℕ} (l r : List ℕ) (i : ℕ)
      → filedup i t ≡ some u
      → q ≡ l ++ i ∷ r
      → Step t q u (i ∷ q)
  closes :
      {t u : Ftable} {c : Closing} {q q' : List ℕ} (l r : List ℕ) (i : ℕ)
      → fileclose i t ≡ some (c, u)
      → q ≡ l ++ i ∷ r
      → q' ≡ l ++ r
      → Step t q u q'

pub data Reach : Ftable → List ℕ → Type 0 where
  boot : {t : Ftable} → ((i : ℕ) → (t i).ref ≡ 0) → Reach t []
  next : {t u : Ftable} {q q' : List ℕ} → Reach t q → Step t q u q' → Reach u q'

abbrev Counted : Ftable → List ℕ → Type 0
Counted t q = (i : ℕ) → (t i).ref ≡ count i q

alloc-Counted :
    (t u : Ftable) (i : ℕ) (q : List ℕ)
    → filealloc t ≡ (some i, u)
    → Counted t q
    → (j : ℕ) → (u j).ref ≡ count j (i ∷ q)
unfolding filealloc
alloc-Counted t u i q e h j = elim (Option-cases (first nfile 0 (λ i. (t i).ref == 0))) [
  | inl full ↦ absurd (ground (arith, full, e))
  | inr (k, found) ↦
      let free = (first-some nfile 0 (λ i. (t i).ref == 0) k found).2 in
      let run : filealloc t ≡ (some k, update t k (record (t k) { ref = 1 })) =
        rw (found, filealloc) refl in
      let same : k ≡ i = ground (arith, sym run ∙ e) in
      ground (arith, sym run ∙ e, same, h j, h k, free)
]

Step-Counted :
    {t u : Ftable} {q q' : List ℕ} → Step t q u q' → Counted t q → (j : ℕ) → (u j).ref ≡ count j q'
unfolding filedup fileclose
Step-Counted (opens e) h j = alloc-Counted _ _ _ _ e h j
Step-Counted (dups l r i e at) h j = ground (arith, h j, h i, e)
Step-Counted (closes l r i e at after) h j = ground (
  arith,
  h j,
  h i,
  e,
  ap (count j) at,
  ap (count j) after,
  count-append l (i ∷ r) j,
  count-append l r j,
)

Reach-Counted : {t : Ftable} {q : List ℕ} → Reach t q → (i : ℕ) → (t i).ref ≡ count i q
Reach-Counted (boot zero_refs) i = zero_refs i
Reach-Counted (next r st) i = Step-Counted st (Reach-Counted r) i

-- The call that gives up what a file stands for.
abbrev pub GivesUp : FileType → (writable : Bool) → Closing → Type 0
GivesUp fd_none writable c = c ≡ no_call
GivesUp fd_pipe writable c = c ≡ pipe_closes writable
GivesUp fd_inode writable c = c ≡ inode_put
GivesUp fd_device writable c = c ≡ inode_put

closing-GivesUp : (ty : FileType) (w : Bool) → GivesUp ty w (closing ty w)
closing-GivesUp fd_none w = refl
closing-GivesUp fd_pipe w = refl
closing-GivesUp fd_inode w = refl
closing-GivesUp fd_device w = refl

-- The table without one reference, and without the last.
abbrev down : ℕ → Ftable → Ftable
down i t = update t i (record (t i) { ref = (t i).ref - 1 })

abbrev gone : ℕ → Ftable → Ftable
gone i t = update t i (record (t i) { ref = 0; type = fd_none })

module _ (t : Ftable) (i n : ℕ) (refs : (t i).ref ≡ n + 1) where
  down_ref : (down i t i).ref ≡ n
  down_ref = ground (arith, refs)

  down_type : (down i t i).type ≡ (t i).type
  down_type = ground arith

  gone_ref : ltb 0 ((t i).ref - 1) ≡ false → (gone i t i).ref ≡ n
  gone_ref last = ground (arith, refs, last)

  gone_type : (gone i t i).type ≡ fd_none
  gone_type = ground arith

  held : ltb 0 ((t i).ref - 1) ≡ true → fileclose i t ≡ some (still_held, down i t)
  unfolding fileclose
  held more = ground (arith, refs, more)

  given :
      ltb 0 ((t i).ref - 1) ≡ false
      → fileclose i t ≡ some (closing (t i).type (t i).writable, gone i t)
  unfolding fileclose
  given last = ground (arith, refs, last)

-- In every state that holders reach by opening, duplicating and closing: a holder can duplicate and
-- close its file without a panic. If there are other holders, the close calls nothing and the file
-- keeps its type; if not, it closes the end of a pipe, puts the inode of an inode or a device, or calls
-- nothing where the file stands for nothing, and the file stands for nothing afterwards.
pub holders_close :
    {t : Ftable} {q : List ℕ} (l r : List ℕ) (i : ℕ)
    → Reach t q
    → q ≡ l ++ i ∷ r
    → (filedup i t ≢ none)
      × ((c : Closing) × (u : Ftable) × (fileclose i t ≡ some (c, u))
          × ((u i).ref ≡ count i (l ++ r))
          × (((0 < count i (l ++ r)) × (c ≡ still_held) × ((u i).type ≡ (t i).type))
              ⊎ ((count i (l ++ r) ≡ 0)
                  × GivesUp (t i).type (t i).writable c
                  × ((u i).type ≡ fd_none))))
unfolding filedup
holders_close {t} {q} l r i reach at =
    let refs : (t i).ref ≡ count i (l ++ r) + 1 = ground (
      arith,
      Reach-Counted reach i,
      ap (count i) at,
      count-append l (i ∷ r) i,
      count-append l r i,
    ) in
    (
      λ e. ground (arith, refs, e),
      elim (Bool-cases (ltb 0 ((t i).ref - 1))) [
        | inl more ↦ (
          still_held,
          down i t,
          held t i (count i (l ++ r)) refs more,
          down_ref t i (count i (l ++ r)) refs,
          inl (omega (arith, refs, ltb→lt 0 _ more), refl, down_type t i (count i (l ++ r)) refs),
        )
        | inr last ↦ (
          closing (t i).type (t i).writable,
          gone i t,
          given t i (count i (l ++ r)) refs last,
          gone_ref t i (count i (l ++ r)) refs last,
          inr (
            omega (arith, refs, ltb→ge 0 _ last),
            closing-GivesUp (t i).type (t i).writable,
            gone_type t i (count i (l ++ r)) refs,
          ),
        )
      ],
    )
