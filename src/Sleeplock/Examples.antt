-- ===== src/Sleeplock/Examples.antt =====
-- kernel/sleeplock.c at concrete states.
use cs202lab.Prelude.{true, false, ◌≡◌, refl}
use cs202lab.Sleeplock.{initsleeplock, acquiresleep, holdingsleep}
use cs202lab.Sleeplock.Exclusion.{State, try, Reach, Reach-exclusion}

abbrev idle : State
idle = record { lock = initsleeplock; inside = λ p. false; asleep = λ p. false }

-- Process 3 takes the lock and process 4 finds it taken.
abbrev contended : State
contended = try 4 (try 3 idle)

contended-Reach : Reach contended
unfolding initsleeplock acquiresleep try
contended-Reach =
    Reach.tries 4 (Reach.tries 3 (Reach.start idle refl (λ p. refl) (λ p. refl)) refl refl) refl
      refl

Reach-exclusion_example :
    (contended.inside 3 ≡ holdingsleep 3 contended.lock)
    × (contended.asleep 3 ≡ true → contended.lock.locked ≡ true)
Reach-exclusion_example = Reach-exclusion contended-Reach 3
