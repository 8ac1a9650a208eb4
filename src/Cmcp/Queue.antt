-- ===== src/Cmcp/Queue.antt =====
-- The message queue of the state machine as a queue of events.
use misc_c.Base.{
  ◌≡◌, refl, sym, ◌∙◌, ap, ap₂, inl, inr, true, false, some, List, [], ◌∷◌, ◌++◌, map, arith, ltb,
  if◌then◌else◌, length, take, drop, take-all, length-map,
}
use misc_c.MsgQueue.{
  msg_q_create, MsgQueue, msg_q_push, msg_q_pop, message, nothing, wait_timeout, timed_out,
}
use misc_c.MsgQueue.Slots.{IsValid, slot, messages}
use misc_c.MsgQueue.Refine.{msg_q_push_lem, msg_q_pop_lem}
use misc_c.MsgQueue.Runs.{length-messages, whole_message, msg_q_create-IsValid}
use misc_c.Cmcp.{Event, event_start, event_abort, event_hello_rx, msg_size, msg_bytes, msg_event}

-- The queue holds the messages of the events `es`.
pub record Holds (q : MsgQueue) (es : List Event) : Type 0 where
  pub valid : IsValid q
  pub cap : q.capacity ≡ 32
  pub elem : q.elem_size ≡ msg_size
  pub msgs : messages q ≡ map msg_bytes es

pub msg_event-msg_bytes : (e : Event) → msg_event (msg_bytes e) ≡ some e
unfolding msg_event msg_bytes
msg_event-msg_bytes event_start = refl
msg_event-msg_bytes event_abort = refl
msg_event-msg_bytes event_hello_rx = refl

map-append-one :
    (es : List Event) (e : Event)
    → map msg_bytes (es ++ (e ∷ [])) ≡ map msg_bytes es ++ (msg_bytes e ∷ [])
map-append-one [] e = refl
map-append-one (x ∷ es) e = ap (λ ms. msg_bytes x ∷ ms) (map-append-one es e)

length-msg_bytes : (e : Event) → length (msg_bytes e) ≡ msg_size
unfolding msg_bytes
length-msg_bytes event_start = refl
length-msg_bytes event_abort = refl
length-msg_bytes event_hello_rx = refl

-- The message that a push of an event stores.
stored :
    (q : MsgQueue) (e : Event)
    → q.elem_size ≡ msg_size
    → take msg_size (msg_bytes e) ++ drop msg_size (slot q.ring_buffer q.elem_size q.tail)
      ≡ msg_bytes e
stored q e h =
    ap (λ k. take k (msg_bytes e) ++ drop k (slot q.ring_buffer q.elem_size q.tail)) (sym h)
    ∙ whole_message q (msg_bytes e) (length-msg_bytes e ∙ sym h)

pub push-Holds :
    (q : MsgQueue) (es : List Event) (e : Event)
    → Holds q es
    → Holds
        (msg_q_push q (msg_bytes e) msg_size).1
        (if ltb (length es) 32 then es ++ (e ∷ []) else es)
push-Holds q es e a =
    let held : length es ≡ q.size =
      sym (length-map es msg_bytes) ∙ ap length (sym a.msgs) ∙ length-messages q in
    let c = a.cap in
    let n = length-msg_bytes e in
    elim (msg_q_push_lem q (msg_bytes e) msg_size a.valid (let h = a.elem in omega arith)
      (omega arith)) [
        | inl (room, r, step, w) ↦
            let below : ltb (length es) 32 ≡ true = ground arith in
            rw (below, step)
              (record {
                valid = w.valid;
                cap = w.same_capacity ∙ c;
                elem = w.same_elem_size ∙ a.elem;
                msgs =
                    w.appended
                    ∙ ap₂ (λ ms m. ms ++ (m ∷ [])) a.msgs (stored q e a.elem)
                    ∙ sym (map-append-one es e);
              })
        | inr (no_room, step) ↦
            let above : ltb (length es) 32 ≡ false = ground arith in rw (above, step) a
      ]

-- What a pop of the next message gives.
pub pop-Holds :
    (q : MsgQueue) (e : Event) (es : List Event)
    → Holds q (e ∷ es)
    → (r : MsgQueue) × (msg_q_pop q msg_size wait_timeout (timed_out ∷ [])
        ≡ message (msg_bytes e) r)
      × Holds r es
pop-Holds q e es a =
    elim (msg_q_pop_lem q msg_size wait_timeout (timed_out ∷ []) a.valid
      (let h = a.elem in omega arith)) [
        | inl (empty, _, _, _) ↦ let c = a.msgs in absurd cc
        | inr (m, r, step, t) ↦
            let both : t.oldest ∷ messages r ≡ msg_bytes e ∷ map msg_bytes es =
              sym t.held ∙ a.msgs in
            let oldest : t.oldest ≡ msg_bytes e = cc in
            let n = length-msg_bytes e in
            let same =
              t.copied
              ∙ ap (take msg_size) oldest
              ∙ take-all (msg_bytes e) msg_size (omega arith) in
            (
              r,
              step ∙ ap (λ x. message x r) same,
              record {
                valid = t.valid;
                cap = t.same_capacity ∙ a.cap;
                elem = t.same_elem_size ∙ a.elem;
                msgs = cc;
              },
            )
      ]

pub pop_none :
    (q : MsgQueue) → Holds q [] → msg_q_pop q msg_size wait_timeout (timed_out ∷ []) ≡ nothing q
pop_none q a =
    elim (msg_q_pop_lem q msg_size wait_timeout [] a.valid (let h = a.elem in omega arith)) [
      | inl (_, _, step, _) ↦ step []
      | inr (m, r, step, t) ↦ let c = sym t.held ∙ a.msgs in absurd cc
    ]

pub start-Holds : Holds (msg_q_create 32 msg_size) []
unfolding msg_q_create
start-Holds = record {
  valid = msg_q_create-IsValid 32 msg_size (omega arith);
  cap = refl;
  elem = refl;
  msgs = refl;
}
