-- ===== src/Zcap/Counts.antt =====
-- net/zcap/zcap.c: the counters of an analysis thread, which `_zcap_alz_routine` updates for each
-- packet, and the rates that `_zcap_rate_cal_wf` takes from them.
use Prim.Native.Nat.{bit_and}
use misc_c.Base.{
  ℕ, ◌+◌, ◌%◌, ◌≡◌, refl, List, [], ◌∷◌, length, get_or, take, leb, ◌==◌, if◌then◌else◌, arith,
}
use misc_c.Zcap.{Bytes}
use misc_c.Zcap.Fields.{mac_equal}

-- `zcap_alz_stats_t`
pub record Stats : Type 0 where
  pub counts : ℕ
  pub bytes : ℕ
  pub uc_count : ℕ
  pub mc_count : ℕ
  pub bc_count : ℕ
  pub size_lt_64 : ℕ
  pub size_64_128 : ℕ
  pub size_128_256 : ℕ
  pub size_256_512 : ℕ
  pub size_512_1024 : ℕ
  pub size_1024_1518 : ℕ
  pub size_gt_1518 : ℕ

abbrev pub u64 : ℕ → ℕ
u64 n = n % 18446744073709551616

-- The chain of tests on the length
unfoldable pub count_size : ℕ → Stats → Stats
count_size len s =
    if leb 1518 len
    then record s { size_gt_1518 = u64 (s.size_gt_1518 + 1) }
    else if leb 1024 len
    then record s { size_1024_1518 = u64 (s.size_1024_1518 + 1) }
    else if leb 512 len
    then record s { size_512_1024 = u64 (s.size_512_1024 + 1) }
    else if leb 256 len
    then record s { size_256_512 = u64 (s.size_256_512 + 1) }
    else if leb 128 len
    then record s { size_128_256 = u64 (s.size_128_256 + 1) }
    else if leb 64 len
    then record s { size_64_128 = u64 (s.size_64_128 + 1) }
    else record s { size_lt_64 = u64 (s.size_lt_64 + 1) }

abbrev pub bc_mac_addr : Bytes
bc_mac_addr = 255 ∷ 255 ∷ 255 ∷ 255 ∷ 255 ∷ 255 ∷ []

-- The tests on the address it goes to
unfoldable pub count_cast : Bytes → Stats → Stats
count_cast p s =
    if mac_equal (take 6 p) bc_mac_addr
    then record s { bc_count = u64 (s.bc_count + 1) }
    else if bit_and (get_or p 0 0) 1 == 1
    then record s { mc_count = u64 (s.mc_count + 1) }
    else record s { uc_count = u64 (s.uc_count + 1) }

-- The counters after one packet.
unfoldable pub count_packet : Bytes → Stats → Stats
unfolding count_size count_cast
count_packet p s =
    let t : Stats = record s { counts = u64 (s.counts + 1); bytes = u64 (s.bytes + length p) } in
    count_cast p (count_size (length p) t)

abbrev pub no_stats : Stats
no_stats = record {
  counts = 0;
  bytes = 0;
  uc_count = 0;
  mc_count = 0;
  bc_count = 0;
  size_lt_64 = 0;
  size_64_128 = 0;
  size_128_256 = 0;
  size_256_512 = 0;
  size_512_1024 = 0;
  size_1024_1518 = 0;
  size_gt_1518 = 0;
}

-- The drain of the queue
abbrev pub count_packets : List Bytes → Stats → Stats
count_packets [] s = s
count_packets (p ∷ ps) s = count_packets ps (count_packet p s)

abbrev sizes : Stats → ℕ
sizes s =
    s.size_lt_64 + s.size_64_128 + s.size_128_256 + s.size_256_512 + s.size_512_1024
    + s.size_1024_1518 + s.size_gt_1518

abbrev casts : Stats → ℕ
casts s = s.uc_count + s.mc_count + s.bc_count

-- The sizes and the kinds of address each add up to the packets, on 64 bits.
pub record IsBalanced (s : Stats) : Type 0 where
  pub sizes_add_up : u64 (sizes s) ≡ s.counts
  pub casts_add_up : u64 (casts s) ≡ s.counts

count_packet-IsBalanced : (p : Bytes) (s : Stats) → IsBalanced s → IsBalanced (count_packet p s)
unfolding count_packet count_size count_cast
count_packet-IsBalanced p s b = record {
  sizes_add_up = ground (arith, b.sizes_add_up);
  casts_add_up = ground (arith, b.casts_add_up);
}

abbrev pub total_length : List Bytes → ℕ
total_length [] = 0
total_length (p ∷ ps) = length p + total_length ps

-- The counters after some packets, from counters `s`.
record Counted (ps : List Bytes) (s t : Stats) : Type 0 where
  counts_are : t.counts ≡ u64 (s.counts + length ps)
  bytes_are : t.bytes ≡ u64 (s.bytes + total_length ps)

count_packet-counts : (p : Bytes) (s : Stats) → (count_packet p s).counts ≡ u64 (s.counts + 1)
unfolding count_packet count_size count_cast
count_packet-counts p s = ground arith

count_packet-bytes : (p : Bytes) (s : Stats) → (count_packet p s).bytes ≡ u64 (s.bytes + length p)
unfolding count_packet count_size count_cast
count_packet-bytes p s = ground arith

count_packets-Counted :
    (ps : List Bytes) (s : Stats)
    → s.counts ≡ u64 s.counts
    → s.bytes ≡ u64 s.bytes
    → Counted ps s (count_packets ps s)
count_packets-Counted [] s c b = record { counts_are = omega arith; bytes_are = omega arith }
count_packets-Counted (p ∷ ps) s c b =
    let ec = count_packet-counts p s in
    let eb = count_packet-bytes p s in
    let more = count_packets-Counted ps (count_packet p s) (omega arith) (omega arith) in
    record {
      counts_are = omega (arith, more.counts_are);
      bytes_are = omega (arith, more.bytes_are);
    }

count_packets-IsBalanced :
    (ps : List Bytes) (s : Stats) → IsBalanced s → IsBalanced (count_packets ps s)
count_packets-IsBalanced [] s b = b
count_packets-IsBalanced (p ∷ ps) s b =
    count_packets-IsBalanced ps (count_packet p s) (count_packet-IsBalanced p s b)

-- Whatever packets a thread takes, its counters are the number of the packets and of their bytes, and
-- the counts by size and by kind of address each add up to the number of the packets, on 64 bits.
pub count_packets_lem :
    (ps : List Bytes)
    → IsBalanced (count_packets ps no_stats)
      × ((count_packets ps no_stats).counts ≡ u64 (length ps))
      × ((count_packets ps no_stats).bytes ≡ u64 (total_length ps))
count_packets_lem ps =
    let counted = count_packets-Counted ps no_stats refl refl in
    (
      count_packets-IsBalanced ps no_stats (record { sizes_add_up = refl; casts_add_up = refl }),
      omega (arith, counted.counts_are),
      omega (arith, counted.bytes_are),
    )
