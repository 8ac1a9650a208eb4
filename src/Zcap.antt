-- ===== src/Zcap.antt =====
-- net/zcap/zcap.c and net/include/zcap/zcap.h: what the capture does with a packet. A packet is the
-- list of its bytes; a read outside of it has no result. A number read from it with ntohs is that of
-- its bytes, the highest first; one read as it stands in memory is that of its bytes, the lowest
-- first.
pub mod Extract
pub mod Fields
pub mod Analyze
pub mod Counts
mod Tests
use misc_c.Base.{
  ℕ, zero, suc, ◌+◌, ◌-◌, ◌*◌, ◌/◌, ◌%◌, ◌^◌, Bool, true, false, ◌&&◌, ◌||◌, Option, none, some,
  List, [], ◌∷◌, ◌++◌, get_elem?, get_or, length, take, drop, ltb, leb, ◌==◌, if◌then◌else◌,
}
use Prim.Native.Nat.{bit_and}
use misc_c.JHash.{jhash}

infixl 10 ◌>>=◌
abbrev pub ◌>>=◌ {ℓ κ} : {A : Type ℓ} {B : Type κ} → Option A → (A → Option B) → Option B
none >>= f = none
some a >>= f = f a

abbrev pub Bytes : Type 0
Bytes = List ℕ

-- `ntohs` of the two bytes from `i`
abbrev pub ntohs_at : Bytes → ℕ → Option ℕ
ntohs_at p i = do a ← get_elem? p i; b ← get_elem? p (i + 1); some (a * 256 + b)

-- The four bytes from `i`, as a `uint32_t` of a little-endian machine.
abbrev pub load_u32 : Bytes → ℕ → Option ℕ
load_u32 p i = do
  a ← get_elem? p i
  b ← get_elem? p (i + 1)
  c ← get_elem? p (i + 2)
  d ← get_elem? p (i + 3)
  some (a + b * 256 + c * 65536 + d * 16777216)

-- `zcap_pakcet_flow_key_t`
pub record FlowKey : Type 0 where
  pub src_ip : ℕ
  pub dst_ip : ℕ
  pub src_port : ℕ
  pub dst_port : ℕ
  pub protocol : ℕ
  pub err_pkt : Bool

-- The packet is cleared before it is filled.
abbrev pub no_key : FlowKey
no_key = record {
  src_ip = 0;
  dst_ip = 0;
  src_port = 0;
  dst_port = 0;
  protocol = 0;
  err_pkt = false;
}

abbrev pub err_key : FlowKey → FlowKey
err_key k = record k { err_pkt = true }

abbrev pub eth_hdr_len : ℕ
eth_hdr_len = 14

abbrev pub ip_hdr_min : ℕ
ip_hdr_min = 20

abbrev pub eth_p_ip : ℕ
eth_p_ip = 2048

-- `IPPROTO_TCP == protocol || IPPROTO_UDP == protocol`
abbrev pub has_ports : ℕ → Bool
has_ports protocol = protocol == 6 || protocol == 17

-- The ports of `_zcap_packet_flow_key_extract`
unfoldable pub extract_ports : Bytes → ℕ → FlowKey → Option FlowKey
extract_ports p offset k = if ltb (length p) (offset + 4) then some (err_key k) else do
  s ← ntohs_at p offset
  d ← ntohs_at p (offset + 2)
  some (record k { src_port = s; dst_port = d })

-- After the header of IP was found whole.
unfoldable pub extract_addresses : Bytes → ℕ → Option FlowKey
unfolding extract_ports
extract_addresses p ip_hdr_len = do
  src ← load_u32 p (eth_hdr_len + 12)
  dst ← load_u32 p (eth_hdr_len + 16)
  protocol ← get_elem? p (eth_hdr_len + 9)
  let k : FlowKey = record no_key { src_ip = src; dst_ip = dst; protocol = protocol }
  if has_ports protocol then extract_ports p (eth_hdr_len + ip_hdr_len) k else some k

-- `ip->ihl * 4`
abbrev pub ihl_bytes : ℕ → ℕ
ihl_bytes first = first % 16 * 4

unfoldable pub extract_ip : Bytes → Option FlowKey
unfolding extract_addresses
extract_ip p = if ltb (length p) (eth_hdr_len + ip_hdr_min) then some (err_key no_key) else do
  first ← get_elem? p eth_hdr_len
  if ltb (length p) (eth_hdr_len + ihl_bytes first)
      then some (err_key no_key)
      else extract_addresses p (ihl_bytes first)

-- The address it comes from and the ether type, for what is not IPv4.
unfoldable pub extract_mac : Bytes → ℕ → Option FlowKey
extract_mac p ether_type = do
  src ← load_u32 p 6
  some (record no_key { src_ip = src; protocol = ether_type % 256 })

-- `_zcap_packet_flow_key_extract`
unfoldable pub flow_key_extract : Bytes → Option FlowKey
unfolding extract_ip extract_mac
flow_key_extract p = if ltb (length p) eth_hdr_len then some (err_key no_key) else do
  ether_type ← ntohs_at p 12
  if ether_type == eth_p_ip then extract_ip p else extract_mac p ether_type

abbrev pub u32_bytes : ℕ → Bytes
u32_bytes x = x % 256 ∷ x / 256 % 256 ∷ x / 65536 % 256 ∷ x / 16777216 % 256 ∷ []

abbrev pub flag_byte : Bool → ℕ
flag_byte true = 1
flag_byte false = 0

-- The packed structure in memory.
abbrev pub key_bytes : FlowKey → Bytes
key_bytes k =
    u32_bytes k.src_ip
    ++ u32_bytes k.dst_ip
    ++ u32_bytes k.src_port
    ++ u32_bytes k.dst_port
    ++ k.protocol ∷ flag_byte k.err_pkt ∷ []

abbrev pub zcap_hash_q_size : ℕ
zcap_hash_q_size = 4

-- The analysis thread that the packet is given to.
unfoldable pub queue_of : FlowKey → ℕ
queue_of k = bit_and (jhash (key_bytes k) 18 0) (zcap_hash_q_size - 1)

-- `zcap_pkt_info_t`
pub record PktInfo : Type 0 where
  pub mac_da : Bytes
  pub mac_sa : Bytes
  pub ether_type : ℕ
  pub ip_da : ℕ
  pub ip_sa : ℕ
  pub ip_pro : ℕ
  pub l4_dport : ℕ
  pub l4_sport : ℕ

abbrev pub no_mac : Bytes
no_mac = 0 ∷ 0 ∷ 0 ∷ 0 ∷ 0 ∷ 0 ∷ []

abbrev pub no_pkt_info : PktInfo
no_pkt_info = record {
  mac_da = no_mac;
  mac_sa = no_mac;
  ether_type = 0;
  ip_da = 0;
  ip_sa = 0;
  ip_pro = 0;
  l4_dport = 0;
  l4_sport = 0;
}

-- The fields of IPv4 in `_zcap_pkt_info_extract`
unfoldable pub info_of_ip : Bytes → FlowKey → PktInfo → Option PktInfo
info_of_ip p k i = do
  protocol ← get_elem? p (eth_hdr_len + 9)
  some (record i {
    ip_pro = protocol;
    l4_sport = if has_ports protocol then k.src_port % 65536 else 0;
    l4_dport = if has_ports protocol then k.dst_port % 65536 else 0;
  })

-- `_zcap_pkt_info_extract`, on the cleared information; the two addresses lie within the header of
-- Ethernet, which is read with them.
unfoldable pub pkt_info_extract : Bytes → FlowKey → Option PktInfo
unfolding info_of_ip
pkt_info_extract p k = if k.err_pkt then some no_pkt_info else do
  ether_type ← ntohs_at p 12
  let i : PktInfo = record no_pkt_info {
    mac_da = take 6 p;
    mac_sa = take 6 (drop 6 p);
    ether_type = ether_type;
  }
  if ether_type == eth_p_ip then info_of_ip p k i else some i
