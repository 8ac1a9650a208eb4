-- ===== src/Mpmc/Order.antt =====
-- lib/type/type_atom_queue.c: what the queue is to its users, whatever the threads do.
use misc_c.Base.{ℕ, ◌≡◌, ◌≢◌, List, [], ◌∷◌}
use misc_c.Mpmc.Inv.{Inv}
use misc_c.Mpmc.{Mpmc}

-- The nodes behind `p` hold these values, in this order, and no more.
abbrev pub Queued : Mpmc → (p : ℕ) → List ℕ → Type 0
Queued s p [] = s.next p ≡ 0
Queued s p (x ∷ xs) = (s.next p ≢ 0) × (s.data_of (s.next p) ≡ x) × Queued s (s.next p) xs
