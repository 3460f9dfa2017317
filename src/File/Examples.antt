-- ===== src/File/Examples.antt =====
-- Runs of kernel/file.c, and the theorems at them.
use cs202lab.Prelude.{◌<◌, ◌≡◌, ◌≢◌, ◌⊎◌, refl, false, none, some, [], ◌∷◌}
use cs202lab.Kalloc.Owners.{count}
use cs202lab.Proc.{first}
use cs202lab.File.{Ftable, fd_none, filealloc, filedup, fileclose, Closing, still_held}
use cs202lab.File.Holders.{Reach, boot, next, opens, GivesUp, holders_close}

abbrev closed : Ftable
closed i = record { type = fd_none; ref = 0; writable = false }

abbrev one_open : Ftable
unfolding filealloc
one_open = (filealloc closed).1

opened : filealloc closed ≡ (some 0, one_open)
unfolding filealloc one_open first
opened = refl

one_open-Reach : Reach one_open (0 ∷ [])
one_open-Reach = next (boot {t = closed} (λ i. refl)) (opens opened)

holders_close_example :
    (filedup 0 one_open ≢ none)
    × ((c : Closing) × (u : Ftable) × (fileclose 0 one_open ≡ some (c, u))
        × ((u 0).ref ≡ count 0 [])
        × (((0 < count 0 []) × (c ≡ still_held) × ((u 0).type ≡ (one_open 0).type))
            ⊎ ((count 0 [] ≡ 0)
                × GivesUp (one_open 0).type (one_open 0).writable c
                × ((u 0).type ≡ fd_none))))
holders_close_example = holders_close [] [] 0 one_open-Reach refl
