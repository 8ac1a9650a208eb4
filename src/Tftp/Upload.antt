-- ===== src/Tftp/Upload.antt =====
-- What an upload of net/nt/tftp.c sends of the file.
use misc_c.Base.{
  ℕ, ◌+◌, ◌-◌, ◌*◌, ◌≤◌, ◌<◌, ◌≡◌, ◌≢◌, ◌⊎◌, refl, ◌∙◌, ap, ap₂, sym, inl, inr, true, false,
  Bool-cases, List, [], ◌∷◌, ◌++◌, length, length-take, length-drop, take, drop, min, ltb, ltb→lt,
  arith,
}
use misc_c.Zcap.{Bytes}
use misc_c.Tftp.{
  TftpState, idle, wait_data1, download, wait_ack0, upload, success, error, TftpEvent, receive_ack0,
  receive_ack, receive_ack_timeout, re_idle, TftpMsg, reading, Sent, wrq, data_block, Tftp, Answers,
  block_size, u16, send_request, send_data, read_block, session_update,
}
use misc_c.Tftp.Fsm.{
  fsm_round, change, poll_hook, exit_hook, enter_hook, wait_ack0_poll, wait_ack0_exit, upload_enter,
  upload_poll, block_acked, state_eq,
}

-- The block of a file that has this number; the first has the number 1.
abbrev pub block_of : Bytes → ℕ → Bytes
block_of c b = take block_size (drop (block_size * (b - 1)) c)

-- The memory and the file answer.
pub record IsServed (a : Answers) : Type 0 where
  pub node : a.has_node ≡ true
  pub read : a.can_read ≡ true

module _ (a : Answers) (served : IsServed a) (m : TftpMsg) (s : Tftp) (c : Bytes) (pos : ℕ) where
  acked :
      s.state ≡ upload
      → m.event ≡ receive_ack
      → s.fp ≡ reading c pos
      → (ltb s.send_data_size block_size ≡ false)
      → let t = fsm_round a m s in
        let block = take block_size (drop pos c) in
        (t.state ≡ upload)
        × (t.fp ≡ reading c (pos + length block))
        × (t.expect_block_id ≡ u16 (s.expect_block_id + 1))
        × (t.send_data_size ≡ u16 (length block))
        × (t.sent ≡ s.sent ++ data_block (u16 (s.expect_block_id + 1)) block ∷ [])
  unfolding fsm_round change poll_hook exit_hook enter_hook upload_poll block_acked send_data
      read_block state_eq
  acked es em fr full = ground (arith, served.node, served.read)

  last_acked :
      s.state ≡ upload
      → m.event ≡ receive_ack
      → (ltb s.send_data_size block_size ≡ true)
      → let t = fsm_round a m s in
        (t.state ≡ success)
        × (t.fp ≡ s.fp)
        × (t.expect_block_id ≡ s.expect_block_id)
        × (t.send_data_size ≡ s.send_data_size)
        × (t.sent ≡ s.sent)
  unfolding fsm_round change poll_hook exit_hook enter_hook upload_poll block_acked state_eq
  last_acked es em short = ground arith

  sent_again :
      s.state ≡ upload
      → m.event ≡ receive_ack_timeout
      → s.fp ≡ reading c pos
      → let t = fsm_round a m s in
        let block = take block_size (drop (pos - s.send_data_size) c) in
        ((t.state ≡ error) × (t.sent ≡ s.sent))
        ⊎ ((t.state ≡ upload)
            × (t.fp ≡ reading c (pos - s.send_data_size + length block))
            × (t.expect_block_id ≡ s.expect_block_id)
            × (t.send_data_size ≡ u16 (length block))
            × (t.sent ≡ s.sent ++ data_block s.expect_block_id block ∷ []))
  unfolding fsm_round change poll_hook exit_hook enter_hook upload_poll send_data read_block
      state_eq
  sent_again es em fr = ground (arith, served.node, served.read)

  upload_kept :
      s.state ≡ upload
      → m.event ≢ receive_ack
      → m.event ≢ receive_ack_timeout
      → let t = fsm_round a m s in
        (t.sent ≡ s.sent)
        × ((t.state ≡ error)
            ⊎ ((t.state ≡ upload)
                × (t.fp ≡ s.fp)
                × (t.expect_block_id ≡ s.expect_block_id)
                × (t.send_data_size ≡ s.send_data_size)))
  unfolding fsm_round change poll_hook exit_hook enter_hook upload_poll state_eq
  upload_kept es em et = ground arith

  started :
      s.state ≡ wait_ack0
      → m.event ≡ receive_ack0
      → s.fp ≡ reading c pos
      → let t = fsm_round a m s in
        let block = take block_size (drop pos c) in
        (t.state ≡ upload)
        × (t.fp ≡ reading c (pos + length block))
        × (t.expect_block_id ≡ 1)
        × (t.send_data_size ≡ u16 (length block))
        × (t.sent ≡ s.sent ++ data_block 1 block ∷ [])
  unfolding fsm_round change poll_hook exit_hook enter_hook wait_ack0_poll wait_ack0_exit
      upload_enter send_data read_block session_update state_eq
  started es em fr = ground (arith, served.node, served.read)

  not_started :
      s.state ≡ wait_ack0
      → m.event ≢ receive_ack0
      → let t = fsm_round a m s in
        ((t.state ≡ error) × (t.sent ≡ s.sent))
        ⊎ ((t.state ≡ wait_ack0)
            × (t.fp ≡ s.fp)
            × ((t.sent ≡ s.sent) ⊎ (t.sent ≡ s.sent ++ wrq s.file_name ∷ [])))
  unfolding fsm_round change poll_hook exit_hook enter_hook wait_ack0_poll wait_ack0_exit
      send_request state_eq
  not_started es em = ground arith

  ended :
      (s.state ≡ success) ⊎ (s.state ≡ error)
      → m.event ≢ re_idle
      → let t = fsm_round a m s in
        (t.state ≡ s.state)
        × (t.fp ≡ s.fp)
        × (t.expect_block_id ≡ s.expect_block_id)
        × (t.send_data_size ≡ s.send_data_size)
        × (t.sent ≡ s.sent)
  unfolding fsm_round change poll_hook state_eq
  ended es em = ground arith

-- What was sent: each block of data is that of the file with its number.
abbrev pub RightBlock : Bytes → Sent → Type 0
RightBlock c (data_block b x) = x ≡ block_of c b
RightBlock c _ = Unit

abbrev pub AllRight : Bytes → List Sent → Type 0
AllRight c [] = Unit
AllRight c (x ∷ xs) = RightBlock c x × AllRight c xs

AllRight-append :
    (c : Bytes) (xs : List Sent) (x : Sent)
    → AllRight c xs
    → RightBlock c x
    → AllRight c (xs ++ x ∷ [])
AllRight-append c [] x h r = (r, tt)
AllRight-append c (y ∷ xs) x h r = (h.0, AllRight-append c xs x h.1 r)

-- The last block that was sent is the one that is expected, and the file stands behind it.
pub record Sending (c : Bytes) (s : Tftp) : Type 0 where
  pub pos_is : s.fp ≡ reading c (block_size * (s.expect_block_id - 1) + s.send_data_size)
  pub size_is : s.send_data_size ≡ length (block_of c s.expect_block_id)
  pub expect_ge : 1 ≤ s.expect_block_id
  pub inside : block_size * (s.expect_block_id - 1) ≤ length c

abbrev pub UploadInv : Bytes → Tftp → TftpState → Type 0
UploadInv c s wait_ack0 = s.fp ≡ reading c 0
UploadInv c s upload = Sending c s
UploadInv c s success = Sending c s × (s.send_data_size < block_size)
UploadInv c s error = Unit
UploadInv c s _ = ⊥

length-block_of :
    (c : Bytes) (b : ℕ) → length (block_of c b) ≡ min block_size (length c - block_size * (b - 1))
length-block_of c b = omega (
  arith,
  length-take block_size (drop (block_size * (b - 1)) c),
  length-drop (block_size * (b - 1)) c,
)

not_ltb : (a b : ℕ) → ltb a b ≡ false → b ≤ a
not_ltb a b h = ground (arith, h)

TftpEvent-discrete : Discrete TftpEvent
TftpEvent-discrete = hlevel

UploadInv-at :
    (c : Bytes) (t : Tftp) {st st' : TftpState} → st' ≡ st → UploadInv c t st → UploadInv c t st'
UploadInv-at c t e inv = rw e inv

Sending-same :
    (c : Bytes) (s t : Tftp)
    → t.fp ≡ s.fp
    → t.expect_block_id ≡ s.expect_block_id
    → t.send_data_size ≡ s.send_data_size
    → Sending c s
    → Sending c t
Sending-same c s t fr ex sz k = record {
  pos_is = fr ∙ k.pos_is ∙ sym (ap₂ (λ e z. reading c (block_size * (e - 1) + z)) ex sz);
  size_is = sz ∙ k.size_is ∙ sym (ap (λ e. length (block_of c e)) ex);
  expect_ge = omega (arith, ex, k.expect_ge);
  inside = omega (arith, ex, k.inside);
}

AllRight-same : (c : Bytes) {xs ys : List Sent} → ys ≡ xs → AllRight c xs → AllRight c ys
AllRight-same c e right = rw e right

abbrev pub rounds : Tftp → List (Answers × TftpMsg) → Tftp
rounds s [] = s
rounds s ((a, m) ∷ ms) = rounds (fsm_round a m s) ms

-- Memory and file answer at each message, and none of them is the one that returns to idle.
abbrev pub AreServed : List (Answers × TftpMsg) → Type 0
AreServed [] = Unit
AreServed ((a, m) ∷ ms) = IsServed a × (m.event ≢ re_idle) × AreServed ms

abbrev Kept : Bytes → Tftp → Type 0
Kept c t = UploadInv c t t.state × AllRight c t.sent

module _ (c : Bytes) (few : length c < block_size * 65535) where
  -- A block was sent from where it starts.
  sent-Sending :
      (t : Tftp) (b : ℕ)
      → 1 ≤ b
      → block_size * (b - 1) ≤ length c
      → t.fp ≡ reading c (block_size * (b - 1) + length (block_of c b))
      → t.expect_block_id ≡ b
      → t.send_data_size ≡ u16 (length (block_of c b))
      → Sending c t
  sent-Sending t b ge within fr ex sz =
      let size : t.send_data_size ≡ length (block_of c b) =
        omega (arith, sz, length-block_of c b) in
      record {
        pos_is = fr ∙ sym (ap₂ (λ e z. reading c (block_size * (e - 1) + z)) ex size);
        size_is = size ∙ sym (ap (λ e. length (block_of c e)) ex);
        expect_ge = omega (arith, ex);
        inside = omega (arith, ex, within);
      }

  ack-Kept :
      (a : Answers) (m : TftpMsg) (s : Tftp)
      → IsServed a
      → s.state ≡ upload
      → m.event ≡ receive_ack
      → Sending c s
      → AllRight c s.sent
      → Kept c (fsm_round a m s)
  ack-Kept a m s served es em inv right =
      let t : Tftp = fsm_round a m s in
      let pos : ℕ = block_size * (s.expect_block_id - 1) + s.send_data_size in
      let size_le = length-block_of c s.expect_block_id in
      elim (Bool-cases (ltb s.send_data_size block_size)) [
        | inl short ↦
            let (e, fr, ex, sz, out) = last_acked a served m s c pos es em short in
            (
              UploadInv-at c t e (
                Sending-same c s t fr ex sz inv,
                omega (arith, ltb→lt s.send_data_size block_size short, sz),
              ),
              AllRight-same c out right,
            )
        | inr full ↦
            let (e, fr, ex, sz, out) = acked a served m s c pos es em inv.pos_is full in
            let whole : s.send_data_size ≡ block_size =
              omega (arith, not_ltb s.send_data_size block_size full, size_le, inv.size_is) in
            let b : ℕ = s.expect_block_id + 1 in
            let place : pos ≡ block_size * (b - 1) = omega (arith, whole, inv.expect_ge) in
            let small : u16 b ≡ b =
              omega (arith, whole, inv.size_is, size_le, inv.expect_ge, few) in
            let out' : t.sent ≡ s.sent ++ data_block b (block_of c b) ∷ [] =
              out
              ∙ ap₂ (λ n p. s.sent ++ data_block n (take block_size (drop p c)) ∷ []) small place in
            (
              UploadInv-at c t e (
                  sent-Sending t b (omega arith) (omega (arith, whole, inv.size_is, size_le))
                    (fr ∙ ap (λ p. reading c (p + length (take block_size (drop p c)))) place)
                    (ex ∙ small) (sz ∙ ap (λ p. u16 (length (take block_size (drop p c)))) place)),
              AllRight-same c out' (AllRight-append c s.sent _ right refl),
            )
      ]

  timeout-Kept :
      (a : Answers) (m : TftpMsg) (s : Tftp)
      → IsServed a
      → s.state ≡ upload
      → m.event ≡ receive_ack_timeout
      → Sending c s
      → AllRight c s.sent
      → Kept c (fsm_round a m s)
  timeout-Kept a m s served es em inv right =
      let t : Tftp = fsm_round a m s in
      let b : ℕ = s.expect_block_id in
      let pos : ℕ = block_size * (b - 1) + s.send_data_size in
      let place : pos - s.send_data_size ≡ block_size * (b - 1) = omega arith in
      elim (rw place at (sent_again a served m s c pos es em inv.pos_is)) [
        | inl (e, out) ↦ (UploadInv-at c t e tt, AllRight-same c out right)
        | inr (e, fr, ex, sz, out) ↦ (
          UploadInv-at c t e (sent-Sending t b inv.expect_ge inv.inside fr ex sz),
          AllRight-same c out (AllRight-append c s.sent _ right refl),
        )
      ]

  round-Kept :
      (st : TftpState) (a : Answers) (m : TftpMsg) (s : Tftp)
      → IsServed a
      → m.event ≢ re_idle
      → s.state ≡ st
      → UploadInv c s st
      → AllRight c s.sent
      → Kept c (fsm_round a m s)
  round-Kept wait_ack0 a m s served ne es inv right =
      elim (TftpEvent-discrete m.event receive_ack0) [
        | yes em ↦
            let t : Tftp = fsm_round a m s in
            let (e, fr, ex, sz, out) = started a served m s c 0 es em inv in
            (
              UploadInv-at c t e (sent-Sending t 1 (omega arith) (omega arith) fr ex sz),
              AllRight-same c out (AllRight-append c s.sent _ right refl),
            )
        | no n ↦
            let t : Tftp = fsm_round a m s in
            elim (not_started a served m s c 0 es n) [
              | inl (e, out) ↦ (UploadInv-at c t e tt, AllRight-same c out right)
              | inr (e, fr, inl out) ↦ (UploadInv-at c t e (fr ∙ inv), AllRight-same c out right)
              | inr (e, fr, inr out) ↦ (
                UploadInv-at c t e (fr ∙ inv),
                AllRight-same c out (AllRight-append c s.sent _ right tt),
              )
            ]
      ]
  round-Kept upload a m s served ne es inv right = elim (TftpEvent-discrete m.event receive_ack) [
    | yes em ↦ ack-Kept a m s served es em inv right
    | no n ↦ elim (TftpEvent-discrete m.event receive_ack_timeout) [
      | yes et ↦ timeout-Kept a m s served es et inv right
      | no nt ↦
          let t : Tftp = fsm_round a m s in
          let (out, kept) = upload_kept a served m s c 0 es n nt in
          elim kept [
            | inl e ↦ (UploadInv-at c t e tt, AllRight-same c out right)
            | inr (e, fr, ex, sz) ↦
                (UploadInv-at c t e (Sending-same c s t fr ex sz inv), AllRight-same c out right)
          ]
    ]
  ]
  round-Kept success a m s served ne es inv right =
      let t : Tftp = fsm_round a m s in
      let (e, fr, ex, sz, out) = ended a served m s c 0 (inl es) ne in
      (
        UploadInv-at c t (e ∙ es) (Sending-same c s t fr ex sz inv.0, omega (arith, sz, inv.1)),
        AllRight-same c out right,
      )
  round-Kept error a m s served ne es inv right =
      let t : Tftp = fsm_round a m s in
      let (e, fr, ex, sz, out) = ended a served m s c 0 (inr es) ne in
      (UploadInv-at c t (e ∙ es) tt, AllRight-same c out right)
  round-Kept idle a m s served ne es inv right = absurd inv
  round-Kept wait_data1 a m s served ne es inv right = absurd inv
  round-Kept download a m s served ne es inv right = absurd inv

  rounds-Kept :
      (ms : List (Answers × TftpMsg)) (s : Tftp) → AreServed ms → Kept c s → Kept c (rounds s ms)
  rounds-Kept [] s served k = k
  rounds-Kept ((a, m) ∷ ms) s served k =
      rounds-Kept ms (fsm_round a m s) served.2
        (round-Kept s.state a m s served.0 served.1 refl k.0 k.1)

  success_whole :
      (s : Tftp) → Sending c s → s.send_data_size < block_size → s.fp ≡ reading c (length c)
  success_whole s k short =
      let end : block_size * (s.expect_block_id - 1) + s.send_data_size ≡ length c =
        omega (arith, k.size_is, k.inside, length-block_of c s.expect_block_id) in
      k.pos_is ∙ ap (reading c) end

  -- An upload that has opened its file and sent its request, and then takes any messages: each block
  -- it ever sends, for the first time or again, is the block of the file with its number, and at its
  -- end it has read the file to the end, behind the last block that was acknowledged. It asks for a
  -- file of fewer than 512 * 65535 bytes, and that memory and file answer each time.
  pub upload-file :
      (ms : List (Answers × TftpMsg)) (s : Tftp)
      → s.state ≡ wait_ack0
      → s.fp ≡ reading c 0
      → s.sent ≡ []
      → AreServed ms
      → AllRight c (rounds s ms).sent
        × ((rounds s ms).state ≡ success → (rounds s ms).fp ≡ reading c (length c))
  upload-file ms s es fr out served =
      let start : Kept c s = (UploadInv-at c s es fr, AllRight-same c out tt) in
      let kept = rounds-Kept ms s served start in
      (
        kept.1,
        λ e.
            let there = UploadInv-at c (rounds s ms) (sym e) kept.0 in
            success_whole (rounds s ms) there.0 there.1,
      )
