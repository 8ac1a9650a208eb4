-- ===== src/Tftp/Fsm.antt =====
-- net/nt/tftp.c: the hooks of the states, the table of `_tftp_fsm_init`, one round of `_tftp_fsm`
-- and the callbacks of the two timers.
use misc_c.Base.{◌+◌, Bool, true, false, none, some, [], length, ltb, ◌==◌, if◌then◌else◌}
use misc_c.Tftp.{
  TftpState, idle, wait_data1, download, wait_ack0, upload, success, error, read_req, receive_data1,
  receive_data, receive_data_timeout, write_req, receive_ack0, receive_ack, receive_ack_timeout,
  receive_error, re_idle, fsm_exit, TftpMsg, event_msg, File, closed, reading, rrq, wrq, Tftp,
  Answers, block_size, retry_count, u16, u8, push_msg, send_request, send_ack, send_data,
  download_data, session_update, open_file,
}

abbrev pub go_to : TftpState → Tftp → Tftp
go_to st s = record s { state = st }

abbrev pub start_download_timer : Tftp → Tftp
start_download_timer s = record s { download_retry_timer = true }

abbrev pub start_upload_timer : Tftp → Tftp
start_upload_timer s = record s { upload_retry_timer = true }

-- `++ g_tftp_fsm.retry`
abbrev pub more_retry : Tftp → Tftp
more_retry s = record s { retry = u8 (s.retry + 1) }

-- `_tftp_state_idle_enter`
unfoldable pub idle_enter : Tftp → Tftp
idle_enter s = record s {
  if_name = [];
  file_name = [];
  server_ip = 0;
  server_port = 0;
  expect_block_id = 0;
  retry = 0;
  send_data_size = 0;
  done = s.done + 1;
}

-- `_tftp_state_idle_poll`
unfoldable pub idle_poll : TftpMsg → Tftp → Tftp
idle_poll m s = elim m.event [
  | read_req ↦ go_to wait_data1 (session_update m s)
  | write_req ↦ go_to wait_ack0 (session_update m s)
  | _ ↦ s
]

-- `_tftp_state_wait_data1_enter`
unfoldable pub wait_data1_enter : Answers → Tftp → Tftp
wait_data1_enter a s = start_download_timer (send_request a rrq (record s { expect_block_id = 1 }))

-- The first block, once the file is open.
unfoldable pub first_block : Answers → TftpMsg → Tftp → Tftp
first_block a m s = elim (download_data a m s) [
  | none ↦ go_to error s
  | some t ↦
      let u : Tftp = session_update m t in
      let v : Tftp = send_ack a 1 (record u { expect_block_id = u16 (u.expect_block_id + 1) }) in
      go_to (if length m.data_bytes == block_size then download else success) v
]

abbrev pub if_open : File → Tftp → Tftp → Tftp
if_open closed s t = s
if_open _ s t = t

-- `_tftp_state_wait_data1_poll`
unfoldable pub wait_data1_poll : Answers → TftpMsg → Tftp → Tftp
unfolding first_block
wait_data1_poll a m s = elim m.event [
  | read_req ↦
      if ltb s.retry retry_count
      then more_retry (send_request a rrq s)
      else record s { retry = 0; state = error }
  | receive_data1 ↦ let t : Tftp = open_file a s in if_open t.fp (go_to error t) (first_block a m t)
  | receive_error ↦ go_to error s
  | _ ↦ s
]

-- `_tftp_state_wait_data1_exit`
unfoldable pub wait_data1_exit : Tftp → Tftp
wait_data1_exit s = record s { retry = 0; download_retry_timer = false }

-- `_tftp_state_download_enter`
abbrev pub download_enter : Tftp → Tftp
download_enter = start_download_timer

-- A block that came in the state of download.
unfoldable pub next_block : Answers → TftpMsg → Tftp → Tftp
next_block a m s = elim (download_data a m s) [
  | none ↦ go_to error s
  | some t ↦
      let u : Tftp =
        send_ack a t.expect_block_id (record t { expect_block_id = u16 (t.expect_block_id + 1) }) in
      if ltb (length m.data_bytes) block_size
      then go_to success u
      else start_download_timer (go_to download u)
]

-- `_tftp_state_download_poll`; adding 65535 on 16 bits takes 1 off.
unfoldable pub download_poll : Answers → TftpMsg → Tftp → Tftp
unfolding next_block
download_poll a m s = elim m.event [
  | receive_data ↦ next_block a m (record s { download_retry_timer = false; retry = 0 })
  | receive_data_timeout ↦
      if ltb s.retry retry_count
      then send_ack a (s.expect_block_id + 65535) (more_retry s)
      else go_to error s
  | receive_error ↦ record s { download_retry_timer = false; retry = 0; state = error }
  | _ ↦ s
]

-- `_tftp_state_wait_ack0_enter`
unfoldable pub wait_ack0_enter : Answers → Tftp → Tftp
wait_ack0_enter a s = elim a.stored [
  | none ↦ push_msg (event_msg receive_error) (record s { fp = closed })
  | some contents ↦
      let t : Tftp =
        send_request a wrq (record s { fp = reading contents 0; expect_block_id = 0 }) in
      record t { upload_retry_timer = true; retry = 0 }
]

-- `_tftp_state_wait_ack0_poll`
unfoldable pub wait_ack0_poll : Answers → TftpMsg → Tftp → Tftp
wait_ack0_poll a m s = elim m.event [
  | write_req ↦ if ltb s.retry retry_count then more_retry (send_request a wrq s) else go_to error s
  | receive_error ↦ go_to error s
  | receive_ack0 ↦ go_to upload (session_update m s)
  | _ ↦ s
]

-- `_tftp_state_wait_ack0_exit`
unfoldable pub wait_ack0_exit : Tftp → Tftp
wait_ack0_exit s = record s { upload_retry_timer = false; retry = 0 }

-- `_tftp_state_upload_enter`
unfoldable pub upload_enter : Answers → Tftp → Tftp
upload_enter a s = start_upload_timer (send_data a (record s { expect_block_id = 1 }))

-- The acknowledgement of a block, with the timer stopped.
unfoldable pub block_acked : Answers → Tftp → Tftp
block_acked a s =
    if ltb s.send_data_size block_size
    then go_to success s
    else start_upload_timer
        (send_data a (record s { expect_block_id = u16 (s.expect_block_id + 1) }))

-- `_tftp_state_upload_poll`
unfoldable pub upload_poll : Answers → TftpMsg → Tftp → Tftp
unfolding block_acked
upload_poll a m s = elim m.event [
  | receive_ack ↦ block_acked a (record s { upload_retry_timer = false; retry = 0 })
  | receive_ack_timeout ↦
      if ltb s.retry retry_count
      then start_upload_timer (send_data a (more_retry s))
      else record s { upload_retry_timer = false; retry = 0; state = error }
  | receive_error ↦ record s { upload_retry_timer = false; retry = 0; state = error }
  | _ ↦ s
]

-- `_tftp_state_success_enter`
abbrev pub success_enter : Tftp → Tftp
success_enter s = push_msg (event_msg re_idle) s

-- `_tftp_state_success_poll`
abbrev pub success_poll : TftpMsg → Tftp → Tftp
success_poll m s = elim m.event [ re_idle ↦ go_to idle s | _ ↦ s ]

-- `_tftp_state_error_enter`
abbrev pub error_enter : Tftp → Tftp
error_enter s = push_msg (event_msg re_idle) s

-- `_tftp_state_error_poll`
abbrev pub error_poll : TftpMsg → Tftp → Tftp
error_poll m s = elim m.event [ re_idle ↦ go_to idle s | _ ↦ s ]

-- `_tftp_state_success_exit`
abbrev pub success_exit : Tftp → Tftp
success_exit s = record s { fp = closed }

-- The table of `_tftp_fsm_init`: `hook[state].poll_hook`, `exit_hook` and `enter_hook`; no hook is set
-- for leaving idle, download, upload and error.
unfoldable pub poll_hook : TftpState → Answers → TftpMsg → Tftp → Tftp
unfolding idle_poll wait_data1_poll download_poll wait_ack0_poll upload_poll
poll_hook idle a m s = idle_poll m s
poll_hook wait_data1 a m s = wait_data1_poll a m s
poll_hook download a m s = download_poll a m s
poll_hook wait_ack0 a m s = wait_ack0_poll a m s
poll_hook upload a m s = upload_poll a m s
poll_hook success a m s = success_poll m s
poll_hook error a m s = error_poll m s

unfoldable pub exit_hook : TftpState → Tftp → Tftp
unfolding wait_data1_exit wait_ack0_exit
exit_hook wait_data1 s = wait_data1_exit s
exit_hook wait_ack0 s = wait_ack0_exit s
exit_hook success s = success_exit s
exit_hook _ s = s

unfoldable pub enter_hook : TftpState → Answers → Tftp → Tftp
unfolding idle_enter wait_data1_enter wait_ack0_enter upload_enter
enter_hook idle a s = idle_enter s
enter_hook wait_data1 a s = wait_data1_enter a s
enter_hook download a s = download_enter s
enter_hook wait_ack0 a s = wait_ack0_enter a s
enter_hook upload a s = upload_enter a s
enter_hook success a s = success_enter s
enter_hook error a s = error_enter s

unfoldable pub state_eq : TftpState → TftpState → Bool
state_eq idle idle = true
state_eq wait_data1 wait_data1 = true
state_eq download download = true
state_eq wait_ack0 wait_ack0 = true
state_eq upload upload = true
state_eq success success = true
state_eq error error = true
state_eq _ _ = false

-- The hooks of a change of the state
unfoldable pub change : Answers → TftpState → Tftp → Tftp
unfolding exit_hook enter_hook state_eq
change a state s = if state_eq s.state state then s else enter_hook s.state a (exit_hook state s)

-- One round of `_tftp_fsm` on a message.
unfoldable pub fsm_round : Answers → TftpMsg → Tftp → Tftp
unfolding poll_hook change
fsm_round a m s = elim m.event [ fsm_exit ↦ s | _ ↦ change a s.state (poll_hook s.state a m s) ]

-- `_tftp_download_retry_timer_cb` and `_tftp_upload_retry_timer_cb`: the message that they push.
abbrev pub download_timeout : Tftp → TftpMsg
download_timeout s = event_msg (if s.expect_block_id == 1 then read_req else receive_data_timeout)

abbrev pub upload_timeout : Tftp → TftpMsg
upload_timeout s = event_msg (if s.expect_block_id == 0 then write_req else receive_ack_timeout)
