-- ===== src/Syslog.antt =====
-- lib/syslog/syslog.c: the ring of the last log lines, and the buffer in front of the log file. A
-- line is the list of its bytes. The prefix of time, module and facility is made by the C library
-- and given with the entry; a write to the file is taken to write all of its bytes.
pub mod Steps
pub mod Flush
pub mod Ring
pub mod Run
mod Tests
use Prim.Native.Nat.{bit_and}
use misc_c.Base.{
  ℕ, zero, suc, ◌+◌, ◌-◌, ◌*◌, ◌%◌, ◌^◌, Bool, true, false, not, ◌&&◌, List, [], ◌∷◌, ◌++◌, length,
  get_or, set, take, drop, replicate, ltb, leb, ◌==◌, if◌then◌else◌,
}

abbrev pub Line : Type 0
Line = List ℕ

abbrev pub ring_size : ℕ
ring_size = 64

abbrev pub str_size : ℕ
str_size = 160

-- `sizeof(g_syslog_ring.flush_ctx)`
abbrev pub flush_size : ℕ
flush_size = 10240

abbrev pub flush_offset_threshold : ℕ
flush_offset_threshold = 5120

-- `SYSLOG_FLUSH_FACILITY_THRESHOLD`, which is SYSLOG_FACILITY_WARN.
abbrev pub flush_facility_threshold : ℕ
flush_facility_threshold = 4

abbrev pub u32 : ℕ → ℕ
u32 n = n % 2 ^ 32

-- `syslog_entry_t`, with the prefix that is made for it.
pub record Entry : Type 0 where
  pub prefix : Line
  pub facility : ℕ
  pub ctx : Line

-- `syslog_ring_t`, the direction and the file; `flush_ctx` has `offset` bytes. `s_flush_ctx` is the
-- static buffer of a flush, and `flushing` the bytes that the thread that flushes has yet to write.
pub record Syslog : Type 0 where
  pub entries : List Line
  pub head : ℕ
  pub tail : ℕ
  pub is_open : Bool
  pub file : Line
  pub flush_ctx : Line
  pub direction : ℕ
  pub s_flush_ctx : Line
  pub flushing : ℕ

-- `syslog_ring_mask`
abbrev pub ring_mask : ℕ → ℕ
ring_mask n = bit_and n (ring_size - 1)

-- `_syslog_ring_size`
abbrev pub syslog_ring_size : Syslog → ℕ
syslog_ring_size s = u32 (s.head + 2 ^ 32 - s.tail)

-- `_syslog_ring_full`
abbrev pub ring_full : Syslog → Bool
ring_full s = syslog_ring_size s == ring_size

-- `snprintf` of "%-44s%s" into 160 bytes
abbrev pub format : Entry → Line
format e = take (str_size - 1) (e.prefix ++ replicate (44 - length e.prefix) b' ' ++ e.ctx)

-- The part of `_syslog_flush_file` under the lock: what is to be written, and `offset`.
unfoldable pub flush_copy : Syslog → Syslog × ℕ
flush_copy s =
    if s.is_open && ltb 0 (length s.flush_ctx)
    then (
      record s {
        s_flush_ctx = s.flush_ctx ++ drop (length s.flush_ctx) s.s_flush_ctx;
        flush_ctx = [];
      },
      length s.flush_ctx,
    )
    else (s, 0)

-- The part behind the lock
unfoldable pub flush_write : (offset : ℕ) → Syslog → Syslog
flush_write offset s =
    if ltb 0 offset then record s { file = s.file ++ take offset s.s_flush_ctx } else s

-- `_syslog_flush_file` where the caller holds the lock
unfoldable pub flush_file : Syslog → Syslog
unfolding flush_copy flush_write
flush_file s = let (t, offset) = flush_copy s in flush_write offset t

-- The two parts in the thread that flushes, which ends the one call before the next
unfoldable pub flush_thd_copy : Syslog → Syslog
unfolding flush_copy
flush_thd_copy s =
    if s.flushing == 0
    then (let (t, offset) = flush_copy s in record t { flushing = offset })
    else s

unfoldable pub flush_thd_write : Syslog → Syslog
unfolding flush_write
flush_thd_write s = record (flush_write s.flushing s) { flushing = 0 }

-- `snprintf` of the line and its end into what remains of the buffer
unfoldable pub append_line : Line → Syslog → Syslog
append_line str s =
    if ltb (length str + 1) (flush_size - length s.flush_ctx)
    then record s { flush_ctx = s.flush_ctx ++ (str ++ b'\n' ∷ []) }
    else s

-- The output to the file in `_syslog_analyze`
unfoldable pub to_flash : Line → Syslog → Syslog
unfolding flush_file append_line
to_flash str s =
    let t : Syslog = append_line str s in
    if leb flush_offset_threshold (length t.flush_ctx) then flush_file t else t

-- `(flag & SYSLOG_DIRECTION_FLASH) && facility <= threshold`
abbrev pub goes_to_flash : ℕ → ℕ → Bool
goes_to_flash direction facility =
    not (bit_and direction 2 == 0) && leb facility flush_facility_threshold

-- `_syslog_analyze`
unfoldable pub analyze : Entry → Syslog → Syslog
unfolding to_flash
analyze e s =
    let str : Line = format e in
    let t : Syslog = record s {
      tail = if ring_full s then u32 (s.tail + 1) else s.tail;
      entries = set s.entries (ring_mask s.head) str;
    } in
    let u : Syslog = if goes_to_flash s.direction e.facility then to_flash str t else t in
    record u { head = u32 (u.head + 1) }

-- The loop of `syslog_show_buffer_cli_hook`, which runs `n` times from `i`.
unfoldable pub show_from : ℕ → ℕ → List Line → List Line
show_from zero i entries = []
show_from (suc n) i entries = get_or entries (ring_mask i) [] ∷ show_from n (u32 (i + 1)) entries

-- `syslog_show_buffer_cli_hook`: at most `num` lines.
unfoldable pub show_buffer : ℕ → Syslog → List Line
unfolding show_from
show_buffer num s =
    let size = syslog_ring_size s in show_from (if ltb num size then num else size) s.tail s.entries

-- `syslog_module_init`, and whether the file could be opened.
abbrev pub syslog_init : Bool → ℕ → Syslog
syslog_init is_open direction = record {
  entries = replicate ring_size [];
  head = 0;
  tail = 0;
  is_open = is_open;
  file = [];
  flush_ctx = [];
  direction = direction;
  s_flush_ctx = replicate flush_size 0;
  flushing = 0;
}
