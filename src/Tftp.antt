-- ===== src/Tftp.antt =====
-- net/nt/tftp.c: the client of TFTP. Its thread takes messages, the capture and the timers make them.
-- What the files, the memory and the network answer is a parameter of each step; what is sent and
-- what is pushed into the client's own queue are lists in the state.
pub mod Filter
pub mod Fsm
pub mod Download
pub mod Upload
mod Tests
use misc_c.Base.{
  ℕ, zero, suc, ◌+◌, ◌-◌, ◌*◌, ◌%◌, Bool, true, false, not, ◌&&◌, ◌||◌, Option, none, some, List,
  [], ◌∷◌, ◌++◌, length, take, drop, ltb, leb, ◌==◌, if◌then◌else◌,
}
use misc_c.Zcap.{Bytes}

-- `tftp_state_e`
pub data TftpState : Type 0 where
  idle wait_data1 download wait_ack0 upload success error : TftpState

-- `tftp_event_e`
pub data TftpEvent : Type 0 where
  read_req receive_data1 receive_data receive_data_timeout : TftpEvent
  write_req receive_ack0 receive_ack receive_ack_timeout : TftpEvent
  receive_error re_idle fsm_exit : TftpEvent

-- `tftp_msg_t`; `data_bytes` has `data_size` bytes.
pub record TftpMsg : Type 0 where
  pub event : TftpEvent
  pub if_name : Bytes
  pub file_name : Bytes
  pub server_ip : ℕ
  pub server_port : ℕ
  pub data_bytes : Bytes

abbrev pub event_msg : TftpEvent → TftpMsg
event_msg e = record {
  event = e;
  if_name = [];
  file_name = [];
  server_ip = 0;
  server_port = 0;
  data_bytes = [];
}

-- A file that is written, or read at a position of its contents.
pub data File : Type 0 where
  closed : File
  writing : Bytes → File
  reading : (contents : Bytes) (position : ℕ) → File

-- What the client sends: requests, acknowledgements and blocks of data.
pub data Sent : Type 0 where
  rrq wrq : Bytes → Sent
  ack : ℕ → Sent
  data_block : ℕ → Bytes → Sent

-- `tftp_fsm_t`; a timer is running or not, `done` counts the posts of `sem_done`.
pub record Tftp : Type 0 where
  pub state : TftpState
  pub if_name : Bytes
  pub file_name : Bytes
  pub fp : File
  pub server_ip : ℕ
  pub server_port : ℕ
  pub expect_block_id : ℕ
  pub send_data_size : ℕ
  pub retry : ℕ
  pub download_retry_timer : Bool
  pub upload_retry_timer : Bool
  pub done : ℕ
  pub sent : List Sent
  pub queue : List TftpMsg

-- What the system answers in one step: to `fopen` for writing, the contents behind `fopen` for
-- reading, to `fwrite`, whether `fread` succeeds, and whether the pool has nodes.
pub record Answers : Type 0 where
  pub can_create : Bool
  pub stored : Option Bytes
  pub can_write : Bool
  pub can_read : Bool
  pub has_node : Bool

abbrev pub block_size : ℕ
block_size = 512

abbrev pub retry_count : ℕ
retry_count = 3

abbrev pub rrq_buffer_len : ℕ
rrq_buffer_len = 64

abbrev pub u16 : ℕ → ℕ
u16 n = n % 65536

abbrev pub u8 : ℕ → ℕ
u8 n = n % 256

abbrev pub send : Sent → Tftp → Tftp
send x s = record s { sent = s.sent ++ x ∷ [] }

abbrev pub push_msg : TftpMsg → Tftp → Tftp
push_msg m s = record s { queue = s.queue ++ m ∷ [] }

-- `_tftp_send_rrq_or_wrq`: nothing is sent when the name does not fit or there is no memory. The mode
-- is "octet".
unfoldable pub send_request : Answers → (Bytes → Sent) → Tftp → Tftp
send_request a op s =
    if ltb rrq_buffer_len (2 + (length s.file_name + 1) + 6) || not a.has_node
    then s
    else send (op s.file_name) s

-- `_tftp_send_ack`
unfoldable pub send_ack : Answers → ℕ → Tftp → Tftp
send_ack a block_id s = if a.has_node then send (ack (u16 block_id)) s else s

-- The read of `_tftp_send_data`, from where the file stands or, in a retry, from where the block began.
unfoldable pub read_block : Answers → Bytes → ℕ → Tftp → Tftp
read_block a contents from s =
    let block : Bytes = take block_size (drop from contents) in
    if a.can_read
    then send (data_block s.expect_block_id block) (record s {
      fp = reading contents (from + length block);
      send_data_size = u16 (length block);
    })
    else record s { fp = reading contents from }

abbrev pub send_file : Answers → Tftp → File → Tftp
send_file a s closed = s
send_file a s (writing w) = s
send_file a s (reading contents position) =
    read_block a contents (if ltb 0 s.retry then position - s.send_data_size else position) s

-- `_tftp_send_data`
unfoldable pub send_data : Answers → Tftp → Tftp
unfolding read_block
send_data a s = if a.has_node then send_file a s s.fp else s

-- `_tftp_download_data`: the file with the block, or an error. A write that fails writes nothing.
unfoldable pub download_data : Answers → TftpMsg → Tftp → Option Tftp
download_data a m s = elim s.fp [
  | closed ↦ none
  | writing w ↦ if a.can_write then some (record s { fp = writing (w ++ m.data_bytes) }) else none
  | reading contents position ↦ none
]

-- `_tftp_fsm_session_update`
unfoldable pub session_update : TftpMsg → Tftp → Tftp
session_update m s = elim m.event [
  | read_req ↦ record s { file_name = m.file_name; if_name = m.if_name; server_ip = m.server_ip }
  | write_req ↦ record s { file_name = m.file_name; if_name = m.if_name; server_ip = m.server_ip }
  | receive_data1 ↦ record s { server_port = m.server_port }
  | receive_ack0 ↦ record s { server_port = m.server_port }
  | _ ↦ s
]

-- `_tftp_open_file`; `fp` is NULL when it fails.
unfoldable pub open_file : Answers → Tftp → Tftp
open_file a s = record s { fp = if a.can_create then writing [] else closed }
