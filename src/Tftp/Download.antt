-- ===== src/Tftp/Download.antt =====
-- What a download of net/nt/tftp.c writes to the file.
use misc_c.Base.{
  ℕ, zero, suc, ◌+◌, ◌-◌, ◌≤◌, ◌<◌, ◌≡◌, ◌≢◌, ◌⊎◌, refl, ◌∙◌, ap, sym, inl, inr, Bool, true, false,
  Option, none, some, List, [], ◌∷◌, ◌++◌, append-nil, append_assoc, length, take, drop, take-all,
  get_elem?, ltb, ◌==◌, if◌then◌else◌, arith,
}
use misc_c.Zcap.{Bytes, ntohs_at}
use misc_c.Tftp.{
  TftpState, idle, wait_data1, download, wait_ack0, upload, success, error, TftpEvent,
  receive_data1, receive_data, receive_ack0, receive_ack, receive_error, re_idle, TftpMsg, writing,
  Tftp, Answers, block_size, send_request, send_ack, u16, download_data, session_update, open_file,
}
use misc_c.Tftp.Fsm.{
  fsm_round, change, poll_hook, exit_hook, enter_hook, wait_data1_poll, wait_data1_exit,
  first_block, download_poll, next_block, state_eq, download_timeout,
}
use misc_c.Tftp.Filter.{packet_filter_cb, data_msg, ack_msg, block_id_at, op_code_at, data_at}

-- The contents of a file in blocks.
abbrev pub join : List Bytes → Bytes
join [] = []
join (b ∷ bs) = b ++ join bs

-- Full blocks, and a last one that is shorter.
abbrev pub IsSplit : List Bytes → Type 0
IsSplit [] = ⊥
IsSplit (b ∷ []) = length b < block_size
IsSplit (b ∷ c ∷ bs) = (length b ≡ block_size) × IsSplit (c ∷ bs)

join-take-suc :
    (bs : List Bytes) (i : ℕ) {b : Bytes}
    → get_elem? bs i ≡ some b
    → join (take (suc i) bs) ≡ join (take i bs) ++ b
join-take-suc [] i h = ground (arith, h)
join-take-suc (c ∷ bs) zero {b} h = let e : c ≡ b = ground (arith, h) in append-nil c ∙ e
join-take-suc (c ∷ bs) (suc i) {b} h =
    ap (λ t. c ++ t) (join-take-suc bs i h) ∙ sym (append_assoc c (join (take i bs)) b)

-- A block is full, or it is the last one.
block-cases :
    (bs : List Bytes) (i : ℕ) {b : Bytes}
    → IsSplit bs
    → get_elem? bs i ≡ some b
    → ((length b < block_size) × (suc i ≡ length bs))
      ⊎ ((length b ≡ block_size) × (suc i < length bs))
block-cases [] i s h = absurd s
block-cases (c ∷ []) zero s h = inl (ground (arith, h))
block-cases (c ∷ []) (suc i) s h = ground (arith, h)
block-cases (c ∷ d ∷ bs) zero s h = inr (ground (arith, h))
block-cases (c ∷ d ∷ bs) (suc i) s h = ground (arith, block-cases (d ∷ bs) i s.1 h)

-- What a round does to the state, the file and the expected block.
module _ (a : Answers) (m : TftpMsg) (s : Tftp) where
  data_taken :
      (w : Bytes)
      → s.state ≡ download
      → m.event ≡ receive_data
      → s.fp ≡ writing w
      → ((fsm_round a m s).state ≡ error)
        ⊎ (((fsm_round a m s).fp ≡ writing (w ++ m.data_bytes))
            × ((fsm_round a m s).expect_block_id ≡ u16 (s.expect_block_id + 1))
            × ((fsm_round a m s).state
                ≡ (if ltb (length m.data_bytes) block_size then success else download)))
  unfolding fsm_round change poll_hook exit_hook enter_hook download_poll next_block send_ack
      download_data state_eq
  data_taken w es em fw = ground arith

  no_data_taken :
      s.state ≡ download
      → m.event ≢ receive_data
      → ((fsm_round a m s).state ≡ error)
        ⊎ (((fsm_round a m s).fp ≡ s.fp)
            × ((fsm_round a m s).expect_block_id ≡ s.expect_block_id)
            × ((fsm_round a m s).state ≡ download))
  unfolding fsm_round change poll_hook exit_hook enter_hook download_poll next_block send_ack
      download_data state_eq
  no_data_taken es em = ground arith

  first_taken :
      s.state ≡ wait_data1
      → m.event ≡ receive_data1
      → s.expect_block_id ≡ 1
      → ((fsm_round a m s).state ≡ error)
        ⊎ (((fsm_round a m s).fp ≡ writing m.data_bytes)
            × ((fsm_round a m s).expect_block_id ≡ 2)
            × ((fsm_round a m s).state
                ≡ (if length m.data_bytes == block_size then download else success)))
  unfolding fsm_round change poll_hook exit_hook enter_hook wait_data1_poll wait_data1_exit
      first_block send_ack download_data state_eq open_file session_update
  first_taken es em e1 = ground arith

  no_first_taken :
      s.state ≡ wait_data1
      → m.event ≢ receive_data1
      → ((fsm_round a m s).state ≡ error)
        ⊎ (((fsm_round a m s).expect_block_id ≡ s.expect_block_id)
            × ((fsm_round a m s).state ≡ wait_data1))
  unfolding fsm_round change poll_hook exit_hook enter_hook wait_data1_poll wait_data1_exit
      send_request state_eq
  no_first_taken es em = ground arith

  success_kept :
      s.state ≡ success
      → m.event ≢ re_idle
      → ((fsm_round a m s).state ≡ success) × ((fsm_round a m s).fp ≡ s.fp)
  unfolding fsm_round change poll_hook state_eq
  success_kept es em = ground arith

  error_kept : s.state ≡ error → m.event ≢ re_idle → (fsm_round a m s).state ≡ error
  unfolding fsm_round change poll_hook state_eq
  error_kept es em = ground arith

-- The file holds the blocks before the one that is expected.
pub record Part (blocks : List Bytes) (s : Tftp) : Type 0 where
  pub file_is : s.fp ≡ writing (join (take (s.expect_block_id - 1) blocks))
  pub expect_ge : 2 ≤ s.expect_block_id
  pub expect_le : s.expect_block_id ≤ length blocks

abbrev pub DownloadInv : List Bytes → Tftp → TftpState → Type 0
DownloadInv blocks s wait_data1 = s.expect_block_id ≡ 1
DownloadInv blocks s download = Part blocks s
DownloadInv blocks s success = s.fp ≡ writing (join blocks)
DownloadInv blocks s error = Unit
DownloadInv blocks s _ = ⊥

TftpEvent-discrete : Discrete TftpEvent
TftpEvent-discrete = hlevel

-- A message with a block carries the one that is expected.
pub record Honest (blocks : List Bytes) (s : Tftp) (m : TftpMsg) : Type 0 where
  pub first : m.event ≡ receive_data1 → get_elem? blocks 0 ≡ some m.data_bytes
  pub later : m.event ≡ receive_data → get_elem? blocks (s.expect_block_id - 1) ≡ some m.data_bytes
  pub not_idle : m.event ≢ re_idle

module _ (blocks : List Bytes) (split : IsSplit blocks) (few : length blocks < 65535) where
  block_written :
      (t : Tftp) (i : ℕ) (b : Bytes)
      → get_elem? blocks i ≡ some b
      → t.fp ≡ writing (join (take (suc i) blocks))
      → t.expect_block_id ≡ suc (suc i)
      → t.state ≡ (if ltb (length b) block_size then success else download)
      → DownloadInv blocks t t.state
  block_written t i b got fw ex st = elim (block-cases blocks i split got) [
    | inl (short, last) ↦
        let e : t.state ≡ success = ground (arith, st) in
        rw e (fw ∙ ap (λ bs. writing (join bs)) (take-all blocks (suc i) (omega arith)))
    | inr (full, more) ↦
        let e : t.state ≡ download = ground (arith, st) in
        let before : t.expect_block_id - 1 ≡ suc i = omega arith in
        rw e (record {
          file_is = fw ∙ ap (λ k. writing (join (take k blocks))) (sym before);
          expect_ge = omega arith;
          expect_le = omega arith;
        })
  ]

  round-DownloadInv :
      (st : TftpState) (a : Answers) (m : TftpMsg) (s : Tftp)
      → s.state ≡ st
      → DownloadInv blocks s st
      → Honest blocks s m
      → DownloadInv blocks (fsm_round a m s) (fsm_round a m s).state
  round-DownloadInv wait_data1 a m s es inv honest =
      elim (TftpEvent-discrete m.event receive_data1) [
        | no n ↦ elim (no_first_taken a m s es n) [
          | inl e ↦ rw e tt
          | inr (ex, e) ↦ rw e (ex ∙ inv)
        ]
        | yes em ↦ elim (first_taken a m s es em inv) [
          | inl e ↦ rw e tt
          | inr (fw, ex, e) ↦
              let got = honest.first em in
              let cases = block-cases blocks 0 split got in
              block_written (fsm_round a m s) 0 m.data_bytes got
                (fw ∙ ap writing (sym (join-take-suc blocks 0 got))) ex (e ∙ ground (arith, cases))
        ]
      ]
  round-DownloadInv download a m s es inv honest = elim (TftpEvent-discrete m.event receive_data) [
    | no n ↦ elim (no_data_taken a m s es n) [
      | inl e ↦ rw e tt
      | inr (fw, ex, e) ↦ rw e (record {
        file_is = rw ex (fw ∙ inv.file_is);
        expect_ge = rw ex inv.expect_ge;
        expect_le = rw ex inv.expect_le;
      })
    ]
    | yes em ↦ elim (data_taken a m s _ es em inv.file_is) [
      | inl e ↦ rw e tt
      | inr (fw, ex, e) ↦
          let i : ℕ = s.expect_block_id - 1 in
          let got = honest.later em in
          block_written (fsm_round a m s) i m.data_bytes got
            (fw ∙ ap writing (sym (join-take-suc blocks i got)))
            (omega (arith, ex, inv.expect_ge, inv.expect_le)) e
    ]
  ]
  round-DownloadInv success a m s es inv honest =
      let (e, fw) = success_kept a m s es honest.not_idle in rw e (fw ∙ inv)
  round-DownloadInv error a m s es inv honest = rw (error_kept a m s es honest.not_idle) tt
  round-DownloadInv idle a m s es inv honest = absurd inv
  round-DownloadInv wait_ack0 a m s es inv honest = absurd inv
  round-DownloadInv upload a m s es inv honest = absurd inv

-- A packet from the server is what it says: the data of a block is that of the file's block.
abbrev pub HonestPacket : List Bytes → Bytes → Type 0
HonestPacket blocks p =
    (b : ℕ)
    → ntohs_at p op_code_at ≡ some 3
    → ntohs_at p block_id_at ≡ some b
    → get_elem? blocks (b - 1) ≡ some (drop data_at p)

data_msg-carries :
    (expect : ℕ) (p : Bytes) {m : TftpMsg}
    → data_msg expect p ≡ some (some m)
    → (ntohs_at p block_id_at ≡ some expect)
      × (m.data_bytes ≡ drop data_at p)
      × (m.event ≡ receive_data1 → expect ≡ 1)
      × (m.event ≢ re_idle)
unfolding data_msg
data_msg-carries expect p h = ground (arith, h)

ack_msg-carries :
    (expect : ℕ) (p : Bytes) {m : TftpMsg}
    → ack_msg expect p ≡ some (some m)
    → (m.event ≡ receive_ack0) ⊎ (m.event ≡ receive_ack)
unfolding ack_msg
ack_msg-carries expect p h = ground (arith, h)

packet_filter_cb-cases :
    (s : Tftp) (p : Bytes) {m : TftpMsg}
    → packet_filter_cb s p ≡ some (some m)
    → ((ntohs_at p op_code_at ≡ some 3) × (data_msg s.expect_block_id p ≡ some (some m)))
      ⊎ ((ack_msg s.expect_block_id p ≡ some (some m)) ⊎ (m.event ≡ receive_error))
unfolding packet_filter_cb
packet_filter_cb-cases s p h = ground (arith, h)

packet_filter_cb-Honest :
    (blocks : List Bytes) (s : Tftp) (p : Bytes) {m : TftpMsg}
    → HonestPacket blocks p
    → packet_filter_cb s p ≡ some (some m)
    → Honest blocks s m
packet_filter_cb-Honest blocks s p {m} honest h = elim (packet_filter_cb-cases s p h) [
  | inl (op, from) ↦
      let (block, data_is, first, other) = data_msg-carries s.expect_block_id p from in
      let got : get_elem? blocks (s.expect_block_id - 1) ≡ some m.data_bytes =
        honest s.expect_block_id op block ∙ ap some (sym data_is) in
      record {
        first = λ e.
            let one : 0 ≡ s.expect_block_id - 1 = omega (arith, first e) in
            ap (get_elem? blocks) one ∙ got;
        later = λ e. got;
        not_idle = other;
      }
  | inr (inl from) ↦
      let is_ack = ack_msg-carries s.expect_block_id p from in
      record {
        first = λ e. ground (arith, is_ack, e);
        later = λ e. ground (arith, is_ack, e);
        not_idle = λ e. ground (arith, is_ack, e);
      }
  | inr (inr is_error) ↦ record {
    first = λ e. ground (arith, is_error, e);
    later = λ e. ground (arith, is_error, e);
    not_idle = λ e. ground (arith, is_error, e);
  }
]

-- What happens to the client during a download: a packet is captured, or its timer runs out. The
-- client handles each message before the next one is made.
pub data Input : Type 0 where
  captured : Answers → Bytes → Input
  timed_out : Answers → Input

abbrev pub if_msg : Answers → Tftp → Option (Option TftpMsg) → Tftp
if_msg a s (some (some m)) = fsm_round a m s
if_msg a s _ = s

abbrev pub if_running : Answers → Tftp → Bool → Tftp
if_running a s true = fsm_round a (download_timeout s) s
if_running a s false = s

abbrev pub input : Tftp → Input → Tftp
input s (captured a p) = if_msg a s (packet_filter_cb s p)
input s (timed_out a) = if_running a s s.download_retry_timer

abbrev pub inputs : Tftp → List Input → Tftp
inputs s [] = s
inputs s (i ∷ is) = inputs (input s i) is

abbrev pub FromServer : List Bytes → List Input → Type 0
FromServer blocks [] = Unit
FromServer blocks (captured a p ∷ is) = HonestPacket blocks p × FromServer blocks is
FromServer blocks (timed_out a ∷ is) = FromServer blocks is

module _ (blocks : List Bytes) (split : IsSplit blocks) (few : length blocks < 65535) where
  timeout-Honest : (s : Tftp) → Honest blocks s (download_timeout s)
  timeout-Honest s = record {
    first = λ e. ground (arith, e);
    later = λ e. ground (arith, e);
    not_idle = λ e. ground (arith, e);
  }

  if_running-DownloadInv :
      (a : Answers) (s : Tftp)
      → DownloadInv blocks s s.state
      → (b : Bool) → DownloadInv blocks (if_running a s b) (if_running a s b).state
  if_running-DownloadInv a s inv false = inv
  if_running-DownloadInv a s inv true =
      round-DownloadInv blocks split few s.state a (download_timeout s) s refl inv
        (timeout-Honest s)

  if_msg-DownloadInv :
      (a : Answers) (s : Tftp) (p : Bytes)
      → HonestPacket blocks p
      → DownloadInv blocks s s.state
      → (o : Option (Option TftpMsg)) → packet_filter_cb s p ≡ o
      → DownloadInv blocks (if_msg a s o) (if_msg a s o).state
  if_msg-DownloadInv a s p honest inv none e = inv
  if_msg-DownloadInv a s p honest inv (some none) e = inv
  if_msg-DownloadInv a s p honest inv (some (some m)) e =
      round-DownloadInv blocks split few s.state a m s refl inv
        (packet_filter_cb-Honest blocks s p honest e)

  inputs-DownloadInv :
      (is : List Input) (s : Tftp)
      → FromServer blocks is
      → DownloadInv blocks s s.state
      → DownloadInv blocks (inputs s is) (inputs s is).state
  inputs-DownloadInv [] s honest inv = inv
  inputs-DownloadInv (captured a p ∷ is) s honest inv =
      inputs-DownloadInv is (input s (captured a p)) honest.1
        (if_msg-DownloadInv a s p honest.0 inv _ refl)
  inputs-DownloadInv (timed_out a ∷ is) s honest inv =
      inputs-DownloadInv is (input s (timed_out a)) honest
        (if_running-DownloadInv a s inv s.download_retry_timer)

  -- A download that has sent its request, and then gets what the server sends, packets of other
  -- hosts and other kinds among it, in any order and as often as the server repeats them, and any
  -- number of timeouts: if it comes to its end, the file holds the blocks of the server's file, all
  -- of them, once, in their order. It asks that each packet with the data of a block holds that
  -- block, for a file of fewer than 65535 blocks, and that each message is handled before the next.
  pub download-file :
      (is : List Input) (s : Tftp)
      → s.state ≡ wait_data1
      → s.expect_block_id ≡ 1
      → FromServer blocks is
      → (inputs s is).state ≡ success
      → (inputs s is).fp ≡ writing (join blocks)
  download-file is s es ex honest done =
      let start : DownloadInv blocks s s.state = rw es ex in
      let there = inputs-DownloadInv is s honest start in rw done at there
