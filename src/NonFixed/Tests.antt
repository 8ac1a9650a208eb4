-- ===== src/NonFixed/Tests.antt =====
-- A pool of 400 bytes at 1000, from which two blocks of 8 bytes are taken.
use misc_c.Base.{ℕ, ◌+◌, ◌≤◌, ◌≡◌, ◌⊎◌, refl, arith, true, some, [], ◌∷◌}
use misc_c.NonFixed.{
  addr_before, node_header, NonFixed, block_end, sl_add, sl_del, sl_ceil, node_split, get_ceil,
  node_get, supply,
}
use misc_c.NonFixed.Ordered.{count}
use misc_c.NonFixed.Slow.{Gives, node_get-Gives}
use misc_c.NonFixed.Steps.{Steps, here, got, supply-IsKept, steps-apart}

abbrev pool0 : NonFixed
pool0 = supply 1000 400

abbrev pool1 : NonFixed
pool1 = (node_get true 8 pool0).1

abbrev pool2 : NonFixed
pool2 = (node_get true 8 pool1).1

got_1000 : node_get true 8 pool0 ≡ (some 1000, pool1)
unfolding node_get get_ceil sl_ceil node_split sl_del sl_add supply
got_1000 = refl

got_1152 : node_get true 8 pool1 ≡ (some 1152, pool2)
unfolding node_get get_ceil sl_ceil node_split sl_del sl_add supply addr_before
got_1152 = refl

two_held :
    Steps (record { pool = pool0; held = [] }) (record { pool = pool2; held = 1152 ∷ 1000 ∷ [] })
two_held = got true 8 (got true 8 here got_1000) got_1152

abbrev low_node : ℕ
low_node = 1000

steps-apart_example :
    (count 1000 (1152 ∷ 1000 ∷ []) ≡ 1)
    × (count 1000 pool2.free_sl ≡ 0)
    × (count 1000 pool2.addr_sl ≡ 0)
    × (1000 ≤ 1000)
    × (block_end pool2.size 1000 ≤ 1000 + node_header + 400)
    × ((low_node ≡ 1152)
        ⊎ ((block_end pool2.size 1000 ≤ 1152) ⊎ (block_end pool2.size 1152 ≤ 1000)))
steps-apart_example =
    steps-apart 1000 400 (omega arith) two_held 1000 1152 (omega arith) (omega arith)

node_get-Gives_example : Gives pool0 1000 500 (λ x. 0) (node_get true 500 pool0)
unfolding supply
node_get-Gives_example =
    node_get-Gives true 500 pool0 1000 (λ x. 0) (supply-IsKept 1000 400 (omega arith)).0
