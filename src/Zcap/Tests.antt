-- ===== src/Zcap/Tests.antt =====
-- Runs of the capture on concrete packets.

use misc_c.Base.{ℕ, ◌≡◌, refl, arith, true, false, some, List, [], ◌∷◌, ◌++◌, map}
use misc_c.Zcap.{Bytes, FlowKey, flow_key_extract, no_key}
use misc_c.Zcap.Extract.{truncated, flow_key_extract_lem}
use misc_c.Zcap.Analyze.{Rule, has_type, to_port, analyze_a_packet, filter_of, analyze_a_packet_lem}

-- The header of Ethernet, with the type.
abbrev eth : ℕ → ℕ → Bytes
eth a b = 2 ∷ 0 ∷ 0 ∷ 0 ∷ 0 ∷ 1 ∷ 2 ∷ 0 ∷ 0 ∷ 0 ∷ 0 ∷ 9 ∷ a ∷ b ∷ []

abbrev arp_packet : Bytes
arp_packet = eth 8 6

abbrev arp_key : FlowKey
arp_key = record no_key { src_ip = 2; protocol = 6 }

-- UDP from port 300 to port 69.
abbrev udp_packet : Bytes
udp_packet =
    eth 8 0
    ++ 69 ∷ 0 ∷ 0 ∷ 24 ∷ 0 ∷ 0 ∷ 0 ∷ 0 ∷ 64 ∷ 17 ∷ 0 ∷ 0 ∷ 10 ∷ 0 ∷ 0 ∷ 1 ∷ 10 ∷ 0 ∷ 0 ∷ 2 ∷ 1 ∷ 44
      ∷ 0 ∷ 69 ∷ []

abbrev udp_key : FlowKey
udp_key = record {
  src_ip = 16777226;
  dst_ip = 33554442;
  src_port = 300;
  dst_port = 69;
  protocol = 17;
  err_pkt = false;
}

flow_key_extract_lem_example :
    (k : FlowKey) × (flow_key_extract udp_packet ≡ some k) × (k.err_pkt ≡ false)
flow_key_extract_lem_example = flow_key_extract_lem udp_packet

udp_read : flow_key_extract udp_packet ≡ some udp_key
unfolding flow_key_extract
udp_read = refl

arp_read : flow_key_extract arp_packet ≡ some arp_key
unfolding flow_key_extract
arp_read = refl

-- Cut in the middle of the ports.
udp_cut : truncated (eth 8 0 ++ 69 ∷ []) ≡ true
udp_cut = refl

-- A filter for packets to port 69, and one for those of ARP.
abbrev rules : List (List Rule × ℕ × ℕ)
rules = (to_port 69 65535 ∷ [], 7, 0) ∷ (has_type 2054 65535 ∷ [], 8, 0) ∷ []

abbrev rest : Bytes
rest = 1 ∷ 2 ∷ []

analyze_a_packet_lem_example :
    analyze_a_packet true (map (filter_of rest rest) rules) udp_packet udp_key
    ≡ some (
      map
          (filter_of rest rest)
          ((to_port 69 65535 ∷ [], 7, 1) ∷ (has_type 2054 65535 ∷ [], 8, 0) ∷ []),
      7 ∷ [],
    )
analyze_a_packet_lem_example =
    analyze_a_packet_lem rest rest true rules udp_packet udp_key
      (((omega arith, omega arith), tt), (((omega arith, omega arith), tt), tt)) udp_read
