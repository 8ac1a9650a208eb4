-- ===== src/Tftp/Filter.antt =====
-- net/nt/tftp.c: `_tftp_packet_filter_cb`, which makes a message of a captured packet. There is no
-- result where it reads outside of the packet or writes outside of the message.
use misc_c.Base.{ℕ, ◌+◌, ◌-◌, ◌*◌, not, Option, none, some, length, drop, ltb, ◌==◌, if◌then◌else◌}
use misc_c.Zcap.{Bytes, ◌>>=◌, ntohs_at}
use misc_c.Tftp.{
  receive_data1, receive_data, receive_ack0, receive_ack, receive_error, TftpMsg, event_msg, Tftp,
  block_size,
}

-- `ntohl` of the four bytes from `i`
abbrev pub ntohl_at : Bytes → ℕ → Option ℕ
ntohl_at p i = do hi ← ntohs_at p i; lo ← ntohs_at p (i + 2); some (hi * 65536 + lo)

-- Where the source address, the source port, the operation, the block and the data stand.
abbrev pub src_addr_at : ℕ
src_addr_at = 26

abbrev pub sport_at : ℕ
sport_at = 34

abbrev pub op_code_at : ℕ
op_code_at = 42

abbrev pub block_id_at : ℕ
block_id_at = 44

abbrev pub data_at : ℕ
data_at = 46

-- `case TFTP_DATA`; `memcpy` writes `data_size` bytes to an array of 512.
unfoldable pub data_msg : ℕ → Bytes → Option (Option TftpMsg)
data_msg expect p = do
  block_id ← ntohs_at p block_id_at
  sport ← ntohs_at p sport_at
  let first : TftpMsg = record (event_msg receive_data1) {
    server_port = sport;
    data_bytes = drop data_at p;
  }
  let later : TftpMsg = record (event_msg receive_data) { data_bytes = drop data_at p }
  if not (expect == block_id)
      then some none
      else if ltb block_size (length p - data_at)
      then none
      else if block_id == 1
      then some (some first)
      else some (some later)

-- `case TFTP_ACK`
unfoldable pub ack_msg : ℕ → Bytes → Option (Option TftpMsg)
ack_msg expect p = do
  block_id ← ntohs_at p block_id_at
  sport ← ntohs_at p sport_at
  let first : TftpMsg = record (event_msg receive_ack0) { server_port = sport }
  if expect == block_id
      then (if block_id == 0 then some (some first) else some (some (event_msg receive_ack)))
      else some none

-- `_tftp_packet_filter_cb`: the message that is pushed, if one is.
unfoldable pub packet_filter_cb : Tftp → Bytes → Option (Option TftpMsg)
unfolding data_msg ack_msg
packet_filter_cb s p = if ltb (length p) block_id_at then some none else do
  src ← ntohl_at p src_addr_at
  op_code ← ntohs_at p op_code_at
  if src == s.server_ip
      then (if op_code == 3
          then data_msg s.expect_block_id p
          else if op_code == 4
          then ack_msg s.expect_block_id p
          else some (if op_code == 5 then some (event_msg receive_error) else none))
      else some none
