-- ===== src/Zcap/Extract.antt =====
-- The reads of `_zcap_packet_flow_key_extract` and `_zcap_pkt_info_extract` of net/zcap/zcap.c stay
-- within the packet, and the mark of a broken packet says which packets are cut short.
use misc_c.Base.{
  ℕ, zero, suc, ◌+◌, ◌*◌, ◌%◌, ◌≤◌, ◌<◌, ◌≡◌, refl, ◌∙◌, ap, sym, inl, inr, Bool, false, ◌&&◌, ◌||◌,
  Bool-cases, Option, some, [], ◌∷◌, length, get_elem?, get_or, take, drop, ltb, ◌==◌,
  if◌then◌else◌, arith,
}
use misc_c.Zcap.{
  Bytes, ntohs_at, load_u32, FlowKey, no_key, err_key, has_ports, ihl_bytes, eth_hdr_len,
  ip_hdr_min, eth_p_ip, extract_ports, extract_addresses, extract_ip, extract_mac, flow_key_extract,
  PktInfo, no_pkt_info, info_of_ip, pkt_info_extract,
}

abbrev pub byte : Bytes → ℕ → ℕ
byte p i = get_or p i 0

abbrev pub number_at : Bytes → ℕ → ℕ
number_at p i = byte p i * 256 + byte p (i + 1)

-- The number of four bytes as it stands in memory.
abbrev pub word_at : Bytes → ℕ → ℕ
word_at p i = byte p i + byte p (i + 1) * 256 + byte p (i + 2) * 65536 + byte p (i + 3) * 16777216

-- The end of the header of IP.
abbrev pub ip_end : Bytes → ℕ
ip_end p = eth_hdr_len + ihl_bytes (byte p eth_hdr_len)

-- Shorter than its headers: that of Ethernet, and for IPv4 its own with the two ports.
abbrev pub ip_truncated : Bytes → Bool
ip_truncated p =
    ltb (length p) (eth_hdr_len + ip_hdr_min)
    || ltb (length p) (ip_end p)
    || (has_ports (byte p 23) && ltb (length p) (ip_end p + 4))

abbrev pub truncated : Bytes → Bool
truncated p = ltb (length p) eth_hdr_len || (number_at p 12 == eth_p_ip && ip_truncated p)

pub get_elem?-get_or : (p : Bytes) (i : ℕ) → i < length p → get_elem? p i ≡ some (byte p i)
get_elem?-get_or [] i h = absurd (omega arith)
get_elem?-get_or (b ∷ p) zero h = refl
get_elem?-get_or (b ∷ p) (suc i) h = get_elem?-get_or p i (omega arith)

pub ntohs_at-number_at :
    (p : Bytes) (i : ℕ) → i + 1 < length p → ntohs_at p i ≡ some (number_at p i)
ntohs_at-number_at p i h =
    rw (ntohs_at, get_elem?-get_or p i (omega arith), get_elem?-get_or p (i + 1) (omega arith)) refl

load_u32-word_at : (p : Bytes) (i : ℕ) → i + 3 < length p → load_u32 p i ≡ some (word_at p i)
load_u32-word_at p i h =
    rw
      (
        load_u32,
        get_elem?-get_or p i (omega arith),
        get_elem?-get_or p (i + 1) (omega arith),
        get_elem?-get_or p (i + 2) (omega arith),
        get_elem?-get_or p (i + 3) (omega arith),
      )
      refl

-- A key that is read, with the mark that it is to have.
abbrev Marked : Option FlowKey → Bool → Type 0
Marked o err = (k : FlowKey) × (o ≡ some k) × (k.err_pkt ≡ err)

extract_ports-Marked :
    (p : Bytes) (offset : ℕ) (k : FlowKey)
    → k.err_pkt ≡ false
    → Marked (extract_ports p offset k) (ltb (length p) (offset + 4))
unfolding extract_ports
extract_ports-Marked p offset k e = elim (Bool-cases (ltb (length p) (offset + 4))) [
  | inl short ↦ rw (extract_ports, short) (err_key k, refl, refl)
  | inr long ↦
      let room : offset + 4 ≤ length p = ground (arith, long) in
      rw
        (
          extract_ports,
          long,
          ntohs_at-number_at p offset (omega arith),
          ntohs_at-number_at p (offset + 2) (omega arith),
        )
        (_, refl, e)
]

extract_addresses-Marked :
    (p : Bytes)
    → eth_hdr_len + ip_hdr_min ≤ length p
    → Marked
        (extract_addresses p (ihl_bytes (byte p eth_hdr_len)))
        (has_ports (byte p 23) && ltb (length p) (ip_end p + 4))
unfolding extract_addresses
extract_addresses-Marked p h =
    let key : FlowKey = record no_key {
      src_ip = word_at p 26;
      dst_ip = word_at p 30;
      protocol = byte p 23;
    } in
    let src = load_u32-word_at p 26 (omega arith) in
    let dst = load_u32-word_at p 30 (omega arith) in
    let protocol = get_elem?-get_or p 23 (omega arith) in
    elim (Bool-cases (has_ports (byte p 23))) [
      | inl ports ↦
          rw (extract_addresses, src, dst, protocol, ports)
            (extract_ports-Marked p (ip_end p) key refl)
      | inr other ↦ rw (extract_addresses, src, dst, protocol, other) (key, refl, refl)
    ]

extract_ip-Marked : (p : Bytes) → Marked (extract_ip p) (ip_truncated p)
unfolding extract_ip
extract_ip-Marked p = elim (Bool-cases (ltb (length p) (eth_hdr_len + ip_hdr_min))) [
  | inl short ↦ rw (extract_ip, ip_truncated, short) (err_key no_key, refl, refl)
  | inr long ↦
      let room : eth_hdr_len + ip_hdr_min ≤ length p = ground (arith, long) in
      let first = get_elem?-get_or p eth_hdr_len (omega arith) in
      elim (Bool-cases (ltb (length p) (ip_end p))) [
        | inl cut ↦ rw (extract_ip, ip_truncated, long, first, cut) (err_key no_key, refl, refl)
        | inr whole ↦
            rw (extract_ip, ip_truncated, long, first, whole) (extract_addresses-Marked p room)
      ]
]

-- `_zcap_packet_flow_key_extract` reads no byte outside of the packet, whatever the packet holds, and
-- marks it as broken exactly when it is cut short: when it is shorter than the header of Ethernet, or
-- it is IPv4 and shorter than the header of IP, by its least or its given length, or than the two
-- ports of TCP or UDP.
pub flow_key_extract_lem :
    (p : Bytes) → (k : FlowKey) × (flow_key_extract p ≡ some k) × (k.err_pkt ≡ truncated p)
unfolding flow_key_extract extract_mac
flow_key_extract_lem p = elim (Bool-cases (ltb (length p) eth_hdr_len)) [
  | inl short ↦ rw (flow_key_extract, truncated, short) (err_key no_key, refl, refl)
  | inr long ↦
      let room : eth_hdr_len ≤ length p = ground (arith, long) in
      let type = ntohs_at-number_at p 12 (omega arith) in
      elim (Bool-cases (number_at p 12 == eth_p_ip)) [
        | inl ip ↦ rw (flow_key_extract, truncated, long, type, ip) (extract_ip-Marked p)
        | inr other ↦
            rw (flow_key_extract, truncated, long, type, other, load_u32-word_at p 6 (omega arith))
              (record no_key { src_ip = word_at p 6; protocol = number_at p 12 % 256 }, refl, refl)
      ]
]

-- What `_zcap_pkt_info_extract` is to find: nothing in a broken packet, and else the addresses and the
-- ether type, for IPv4 the protocol, and for TCP and UDP the ports of the key.
abbrev pub pkt_info : Bytes → FlowKey → PktInfo
pkt_info p k = if k.err_pkt then no_pkt_info else record no_pkt_info {
  mac_da = take 6 p;
  mac_sa = take 6 (drop 6 p);
  ether_type = number_at p 12;
  ip_pro = if number_at p 12 == eth_p_ip then byte p 23 else 0;
  l4_sport = if number_at p 12 == eth_p_ip && has_ports (byte p 23) then k.src_port % 65536 else 0;
  l4_dport = if number_at p 12 == eth_p_ip && has_ports (byte p 23) then k.dst_port % 65536 else 0;
}

-- With the key of the packet `_zcap_pkt_info_extract` reads no byte outside of it either, and finds
-- these fields.
pub pkt_info_extract_lem :
    (p : Bytes) (k : FlowKey)
    → flow_key_extract p ≡ some k
    → pkt_info_extract p k ≡ some (pkt_info p k)
unfolding pkt_info_extract info_of_ip
pkt_info_extract_lem p k e =
    let (k', read, mark) = flow_key_extract_lem p in
    let same : some k' ≡ some k = sym read ∙ e in
    let key : k' ≡ k = ground (arith, same) in
    let marked : k.err_pkt ≡ truncated p = ap (λ (j : FlowKey). j.err_pkt) (sym key) ∙ mark in
    elim (Bool-cases k.err_pkt) [
      | inl broken ↦ rw (pkt_info_extract, pkt_info, broken) refl
      | inr good ↦
          let whole : truncated p ≡ false = sym marked ∙ good in
          let room : eth_hdr_len ≤ length p = ground (arith, whole) in
          let type = ntohs_at-number_at p 12 (omega arith) in
          elim (Bool-cases (number_at p 12 == eth_p_ip)) [
            | inl ip ↦
                let ip_room : eth_hdr_len + ip_hdr_min ≤ length p = ground (arith, whole, ip) in
                rw (pkt_info_extract, pkt_info, good, type, ip, get_elem?-get_or p 23 (omega arith))
                  refl
            | inr other ↦ rw (pkt_info_extract, pkt_info, good, type, other) refl
          ]
    ]
