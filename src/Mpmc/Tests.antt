-- ===== src/Mpmc/Tests.antt =====
-- lib/type/type_atom_queue.c: runs of the queue of many producers and many consumers.
use misc_c.Base.{ℕ, zero, suc, ◌≡◌, refl, true, List, [], ◌∷◌, ◌++◌}
use misc_c.Mpmc.{
  proceed, step, run, mpmc_init, link, unlink_head, Tag, Action, call_push, call_pop, access,
}

abbrev times : ℕ → (ℕ × Action) → List (ℕ × Action)
times zero a = []
times (suc n) a = a ∷ times n a

-- Two threads push. The second helps the tail on to the node of the first, links its own, and is
-- stopped before it moves the tail; then a third thread pops.
abbrev busy : List (ℕ × Action)
busy =
    (1, call_push 20 7) ∷ (2, call_push 30 8) ∷ times 4 (1, access true)
    ++ times 8 (2, access true)
    ++ ((1, access true) ∷ (3, call_pop) ∷ times 6 (3, access true))

busy-popped : (run busy (mpmc_init 10)).popped ≡ 7 ∷ []
unfolding step proceed link unlink_head
busy-popped = refl

busy-pushed : (run busy (mpmc_init 10)).pushed ≡ 7 ∷ 8 ∷ []
unfolding step proceed link unlink_head
busy-pushed = refl

-- The third thread helps the tail on, pops the other value, and finds the queue empty.
abbrev drained : List (ℕ × Action)
drained =
    busy
    ++ ((3, call_pop) ∷ times 10 (3, access true))
    ++ ((3, call_pop) ∷ times 3 (3, access true))

abbrev last_tag : Tag
last_tag = record { ptr = 30; version = 2 }

-- Without that condition the order is lost. The first thread is stopped before it links its node behind
-- the node 10; the second pushes and pops, which frees 10, and is given 10 for its next push. Now the
-- first links behind 10, and ends its push, before 10 itself is linked.
abbrev reused : List (ℕ × Action)
reused =
    (1, call_push 20 7) ∷ times 3 (1, access true)
    ++ ((2, call_push 30 8) ∷ times 5 (2, access true))
    ++ ((2, call_pop) ∷ times 5 (2, access true))
    ++ ((2, call_push 10 9) ∷ times 3 (2, access true))
    ++ times 2 (1, access true)
    ++ times 2 (2, access true)
    ++ ((2, call_pop) ∷ times 5 (2, access true))

reused-pushed : (run reused (mpmc_init 10)).pushed ≡ 8 ∷ 7 ∷ 9 ∷ []
unfolding step proceed link unlink_head
reused-pushed = refl

reused-popped : (run reused (mpmc_init 10)).popped ≡ 8 ∷ 9 ∷ []
unfolding step proceed link unlink_head
reused-popped = refl
