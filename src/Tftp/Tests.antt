-- ===== src/Tftp/Tests.antt =====
-- Runs of the client of TFTP on concrete messages.
use misc_c.Base.{
  ℕ, ◌≡◌, ◌≢◌, refl, sym, arith, true, false, Option, some, List, [], ◌∷◌, ◌++◌, replicate,
  get_elem?,
}
use misc_c.Zcap.{Bytes}
use misc_c.Tftp.{
  TftpState, wait_data1, wait_ack0, success, receive_ack0, receive_ack, receive_ack_timeout,
  re_idle, event_msg, File, closed, writing, reading, Sent, data_block, Tftp, TftpMsg, Answers,
  open_file, download_data, send_ack, send_data, session_update,
}
use misc_c.Tftp.Fsm.{fsm_round}
use misc_c.Tftp.Filter.{packet_filter_cb}
use misc_c.Tftp.Download.{Input, captured, inputs, HonestPacket, download-file}
use misc_c.Tftp.Upload.{rounds, AllRight, IsServed, upload-file}

abbrev good : Answers
good = record {
  can_create = true;
  stored = some (1 ∷ 2 ∷ []);
  can_write = true;
  can_read = true;
  has_node = true;
}

abbrev waiting : TftpState → ℕ → File → Tftp
waiting st expect fp = record {
  state = st;
  if_name = [];
  file_name = [];
  fp = fp;
  server_ip = 167772161;
  server_port = 0;
  expect_block_id = expect;
  send_data_size = 0;
  retry = 0;
  download_retry_timer = true;
  upload_retry_timer = true;
  done = 0;
  sent = [];
  queue = [];
}

-- The headers of a packet from 10.0.0.1, then an operation, a block and data.
abbrev from_server : ℕ → ℕ → Bytes → Bytes
from_server op block data_bytes =
    replicate 26 0 ++ 10 ∷ 0 ∷ 0 ∷ 1 ∷ replicate 12 0 ++ 0 ∷ op ∷ 0 ∷ block ∷ data_bytes

-- A file of one short block, which the server sends twice after a packet of an acknowledgement.
abbrev blocks : List Bytes
blocks = (7 ∷ 8 ∷ []) ∷ []

abbrev arrivals : List Input
arrivals =
    captured good (from_server 4 1 [])
    ∷ captured good (from_server 3 1 (7 ∷ 8 ∷ []))
    ∷ captured good (from_server 3 1 (7 ∷ 8 ∷ []))
    ∷ []

ack_honest : HonestPacket blocks (from_server 4 1 [])
ack_honest b op block = ground (arith, op)

data_honest : HonestPacket blocks (from_server 3 1 (7 ∷ 8 ∷ []))
data_honest b op block = let e : 1 ≡ b = ground (arith, block) in rw (sym e) refl

download-file_example : (inputs (waiting wait_data1 1 closed) arrivals).fp ≡ writing (7 ∷ 8 ∷ [])
unfolding fsm_round packet_filter_cb open_file download_data send_ack session_update
download-file_example =
    download-file blocks (omega arith) (omega arith) arrivals (waiting wait_data1 1 closed) refl
      refl (ack_honest, (data_honest, (data_honest, tt))) refl

good-IsServed : IsServed good
good-IsServed = record { node = refl; read = refl }

-- A file of two bytes: the request is answered, the block is sent twice and acknowledged.
abbrev messages : List (Answers × TftpMsg)
messages =
    (good, event_msg receive_ack0)
    ∷ (good, event_msg receive_ack_timeout)
    ∷ (good, event_msg receive_ack)
    ∷ []

acked_goes_on : receive_ack ≢ re_idle
acked_goes_on e = ground (arith, e)

started_goes_on : receive_ack0 ≢ re_idle
started_goes_on e = ground (arith, e)

late_goes_on : receive_ack_timeout ≢ re_idle
late_goes_on e = ground (arith, e)

upload-file_example :
    AllRight (1 ∷ 2 ∷ []) (rounds (waiting wait_ack0 0 (reading (1 ∷ 2 ∷ []) 0)) messages).sent
    × ((rounds (waiting wait_ack0 0 (reading (1 ∷ 2 ∷ []) 0)) messages).state ≡ success
        → (rounds (waiting wait_ack0 0 (reading (1 ∷ 2 ∷ []) 0)) messages).fp
          ≡ reading (1 ∷ 2 ∷ []) 2)
upload-file_example =
    upload-file (1 ∷ 2 ∷ []) (omega arith) messages (waiting wait_ack0 0 (reading (1 ∷ 2 ∷ []) 0))
      refl refl refl
      (
        good-IsServed,
        started_goes_on,
        (good-IsServed, late_goes_on, (good-IsServed, acked_goes_on, tt)),
      )

uploaded : (rounds (waiting wait_ack0 0 (reading (1 ∷ 2 ∷ []) 0)) messages).state ≡ success
unfolding fsm_round send_data session_update
uploaded = refl

-- Two blocks; the memory runs out when the second is to be sent, and comes back before the retry:
-- what is sent with the number 2 is the first block again.
abbrev full_block : Bytes
full_block = replicate 512 7

abbrev no_memory : Answers
no_memory = record good { has_node = false }

abbrev second_block : List Sent → Option Sent
second_block sent = get_elem? sent 1

wrong_block :
    second_block
      (rounds (waiting wait_ack0 0 (reading (full_block ++ 8 ∷ []) 0)) (
        (good, event_msg receive_ack0)
        ∷ (no_memory, event_msg receive_ack)
        ∷ (good, event_msg receive_ack_timeout)
        ∷ [])).sent
    ≡ some (data_block 2 full_block)
unfolding fsm_round send_data session_update
wrong_block = refl
