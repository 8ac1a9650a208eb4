-- ===== src/Zcap/Analyze.antt =====
-- net/zcap/zcap.c: `_zcap_analyze_a_packet`, over the filters in the order of the table's walk. A
-- callback is known by its address; the calls of a packet are a list.
use Prim.Native.Nat.{bit_and}
use misc_c.Base.{
  ℕ, ◌+◌, ◌%◌, ◌^◌, ◌<◌, ◌≡◌, refl, ◌∙◌, ap, inl, inr, Bool, true, false, ◌&&◌, Bool-cases, Option,
  none, some, length, take, ltb, List, [], ◌∷◌, ◌++◌, map, ◌==◌, if◌then◌else◌, arith,
}
use misc_c.Zcap.{eth_hdr_len, ◌>>=◌, Bytes, FlowKey, flow_key_extract, PktInfo, pkt_info_extract}
use misc_c.Zcap.Extract.{pkt_info, pkt_info_extract_lem}
use misc_c.Zcap.Fields.{
  len_type, dport, sport, Field, match_type, filed_match, key16-bit_and, low_byte,
  register_field_len_type, register_field_pro_type, register_field_l4_dport,
  register_field_l4_sport,
}

-- `zcap_pkt_filter_t`, without its place in the table.
pub record Filter : Type 0 where
  pub fields : List Field
  pub cb : ℕ
  pub match_cnt : ℕ

-- The loop over the fields; `match` is 1 before it.
unfoldable pub fields_match : List Field → PktInfo → Bool
fields_match [] i = true
fields_match (f ∷ fs) i = if filed_match f i then fields_match fs i else false

-- `ATOM_FETCH_ADD` on 64 bits
abbrev pub count_match : Filter → Filter
count_match f = record f { match_cnt = (f.match_cnt + 1) % 2 ^ 64 }

-- The loop over the filters: the filters after it, and the callbacks it calls.
unfoldable pub run_filters : List Filter → PktInfo → List Filter × List ℕ
unfolding fields_match
run_filters [] i = ([], [])
run_filters (f ∷ fs) i =
    let rest = run_filters fs i in
    if fields_match f.fields i
    then (count_match f ∷ rest.0, f.cb ∷ rest.1)
    else (f ∷ rest.0, rest.1)

-- The print of the packet, where it is on: it shows bytes of the header of Ethernet, without a test.
unfoldable pub print_info : (dump_pkt_info : Bool) → Bytes → Option Bytes
print_info dump_pkt_info p =
    if dump_pkt_info && ltb (length p) eth_hdr_len then none else some (take eth_hdr_len p)

-- `_zcap_analyze_a_packet`
unfoldable pub analyze_a_packet :
    (dump_pkt_info : Bool) → List Filter → Bytes → FlowKey → Option (List Filter × List ℕ)
unfolding run_filters print_info
analyze_a_packet dump_pkt_info filters p k = do
  _ ← print_info dump_pkt_info p
  i ← pkt_info_extract p k
  some (run_filters filters i)

-- What a user of the module registers: a number and its mask, for one of the fields with a macro.
pub data Rule : Type 0 where
  has_type has_protocol to_port from_port : (data_val mask_val : ℕ) → Rule

abbrev pub IsRule : Rule → Type 0
IsRule (has_type d m) = (d < 65536) × (m < 65536)
IsRule (has_protocol d m) = (d < 256) × (m < 256)
IsRule (to_port d m) = (d < 65536) × (m < 65536)
IsRule (from_port d m) = (d < 65536) × (m < 65536)

abbrev pub accepts : Rule → PktInfo → Bool
accepts (has_type d m) i = bit_and d m == i.ether_type
accepts (has_protocol d m) i = bit_and d m == i.ip_pro
accepts (to_port d m) i = bit_and d m == i.l4_dport
accepts (from_port d m) i = bit_and d m == i.l4_sport

module _ (rest_data rest_mask : Bytes) where
  abbrev pub register_rule : Rule → List Field → List Field
  register_rule (has_type d m) = register_field_len_type rest_data rest_mask d m
  register_rule (has_protocol d m) = register_field_pro_type rest_data rest_mask d m
  register_rule (to_port d m) = register_field_l4_dport rest_data rest_mask d m
  register_rule (from_port d m) = register_field_l4_sport rest_data rest_mask d m

  fields_match-append :
      (fs gs : List Field) (i : PktInfo)
      → fields_match (fs ++ gs) i ≡ (fields_match fs i && fields_match gs i)
  unfolding fields_match
  fields_match-append [] gs i = refl
  fields_match-append (f ∷ fs) gs i = ground (arith, fields_match-append fs gs i)

  last_field :
      (r : Rule) (i : PktInfo) → IsRule r → fields_match (register_rule r []) i ≡ accepts r i
  unfolding fields_match match_type
  last_field (has_type d m) i h =
      ground (arith, key16-bit_and d m rest_data rest_mask len_type h.0 h.1)
  last_field (has_protocol d m) i h =
      let ed : bit_and d 255 ≡ d = low_byte d ∙ omega arith in
      let em : bit_and m 255 ≡ m = low_byte m ∙ omega arith in rw (ed, em) (ground arith)
  last_field (to_port d m) i h = ground (arith, key16-bit_and d m rest_data rest_mask dport h.0 h.1)
  last_field (from_port d m) i h =
      ground (arith, key16-bit_and d m rest_data rest_mask sport h.0 h.1)

  register_rule-append :
      (r : Rule) (fs : List Field) → register_rule r fs ≡ fs ++ register_rule r []
  register_rule-append (has_type d m) fs = refl
  register_rule-append (has_protocol d m) fs = refl
  register_rule-append (to_port d m) fs = refl
  register_rule-append (from_port d m) fs = refl

  -- One after the other.
  abbrev pub register_rules : List Rule → List Field → List Field
  register_rules [] fs = fs
  register_rules (r ∷ rs) fs = register_rules rs (register_rule r fs)

  abbrev pub AreRules : List Rule → Type 0
  AreRules [] = Unit
  AreRules (r ∷ rs) = IsRule r × AreRules rs

  abbrev pub accept_all : List Rule → PktInfo → Bool
  accept_all [] i = true
  accept_all (r ∷ rs) i = accepts r i && accept_all rs i

  register_rules-accept_all :
      (rs : List Rule) (fs : List Field) (i : PktInfo)
      → AreRules rs
      → fields_match (register_rules rs fs) i ≡ (fields_match fs i && accept_all rs i)
  register_rules-accept_all [] fs i h = ground arith
  register_rules-accept_all (r ∷ rs) fs i h =
      register_rules-accept_all rs (register_rule r fs) i h.1
      ∙ ap (λ b. b && accept_all rs i)
          (ap (λ gs. fields_match gs i) (register_rule-append r fs)
            ∙ fields_match-append fs (register_rule r []) i)
      ∙ rw (last_field r i h.0) (ground arith)

  -- The filters that are registered: their rules and their callback, with their count.
  abbrev pub filter_of : List Rule × ℕ × ℕ → Filter
  filter_of (rs, cb, n) = record { fields = register_rules rs []; cb = cb; match_cnt = n }

  abbrev pub AreFilters : List (List Rule × ℕ × ℕ) → Type 0
  AreFilters [] = Unit
  AreFilters ((rs, cb, n) ∷ gs) = AreRules rs × AreFilters gs

  -- What a packet is to call, and to count.
  abbrev pub calls : List (List Rule × ℕ × ℕ) → PktInfo → List ℕ
  calls [] i = []
  calls ((rs, cb, n) ∷ gs) i = if accept_all rs i then cb ∷ calls gs i else calls gs i

  abbrev pub counted : List (List Rule × ℕ × ℕ) → PktInfo → List (List Rule × ℕ × ℕ)
  counted [] i = []
  counted ((rs, cb, n) ∷ gs) i =
      (rs, cb, if accept_all rs i then (n + 1) % 2 ^ 64 else n) ∷ counted gs i

  run_filters_lem :
      (gs : List (List Rule × ℕ × ℕ)) (i : PktInfo)
      → AreFilters gs
      → run_filters (map filter_of gs) i ≡ (map filter_of (counted gs i), calls gs i)
  unfolding run_filters fields_match
  run_filters_lem [] i h = refl
  run_filters_lem ((rs, cb, n) ∷ gs) i h =
      let more = run_filters_lem gs i h.1 in
      let first = register_rules-accept_all rs [] i h.0 in
      elim (Bool-cases (accept_all rs i)) [
        | inl e ↦ rw (run_filters, first, e, more) refl
        | inr e ↦ rw (run_filters, first, e, more) refl
      ]

  -- The analysis of a packet with its key reads past its end if the print of packets is on and it has
  -- fewer than 14 bytes. Else it reads no byte outside of it and calls, in the order of the filters,
  -- the callbacks of those whose rules accept what the packet holds, and counts them; a rule of a
  -- number and a mask accepts the packets whose field is the number with the mask on it, whatever the
  -- rest of the arrays that the macros fill holds.
  pub analyze_a_packet_lem :
      (dump_pkt_info : Bool) (gs : List (List Rule × ℕ × ℕ)) (p : Bytes) (k : FlowKey)
      → AreFilters gs
      → flow_key_extract p ≡ some k
      → analyze_a_packet dump_pkt_info (map filter_of gs) p k ≡ (
          if dump_pkt_info && ltb (length p) eth_hdr_len
          then none
          else some (map filter_of (counted gs (pkt_info p k)), calls gs (pkt_info p k)))
  unfolding analyze_a_packet print_info
  analyze_a_packet_lem dump_pkt_info gs p k h e =
      elim (Bool-cases (dump_pkt_info && ltb (length p) eth_hdr_len)) [
        | inl past ↦ rw (analyze_a_packet, print_info, past) refl
        | inr inside ↦
            rw (analyze_a_packet, print_info, inside, pkt_info_extract_lem p k e)
              (ap some (run_filters_lem gs (pkt_info p k) h))
      ]
