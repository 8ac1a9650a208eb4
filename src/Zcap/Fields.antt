-- ===== src/Zcap/Fields.antt =====
-- net/zcap/zcap.c and net/include/zcap/zcap.h: the fields of a filter, the macros that register them,
-- and `_zcap_pkt_filed_match`.
use Prim.Native.Nat.{bit_and, bit_or}
use misc_c.Base.{
  ℕ, ◌+◌, ◌*◌, ◌/◌, ◌%◌, ◌<◌, ◌≡◌, refl, ◌∙◌, sym, Bool, true, false, ◌&&◌, List, [], ◌∷◌, ◌++◌,
  get_or, ◌==◌, arith,
}
use misc_c.Base.Bits.{mask-mod}
use misc_c.Base.Bytes.{or-shift, and-join, and-le}
use misc_c.Zcap.{Bytes, PktInfo}

-- `zcap_pkt_field_e`
pub data FieldType : Type 0 where
  mac_da mac_sa len_type ip_da ip_sa pro_type dport sport : FieldType

-- `zcap_pkt_field_t`
pub record Field : Type 0 where
  pub field : FieldType
  pub data_bytes : Bytes
  pub mask_bytes : Bytes

-- `field->data[i] & field->mask[i]`
abbrev pub masked : Field → ℕ → ℕ
masked f i = bit_and (get_or f.data_bytes i 0) (get_or f.mask_bytes i 0)

-- `memcmp` of two addresses
unfoldable pub mac_equal : Bytes → Bytes → Bool
mac_equal [] [] = true
mac_equal (a ∷ xs) (b ∷ ys) = a == b && mac_equal xs ys
mac_equal _ _ = false

abbrev pub mac_key : Field → Bytes
mac_key f = masked f 0 ∷ masked f 1 ∷ masked f 2 ∷ masked f 3 ∷ masked f 4 ∷ masked f 5 ∷ []

abbrev pub key16 : Field → ℕ
key16 f = bit_or (256 * masked f 0) (masked f 1)

abbrev pub key32 : Field → ℕ
key32 f =
    bit_or (bit_or (bit_or (16777216 * masked f 0) (65536 * masked f 1)) (256 * masked f 2))
      (masked f 3)

unfoldable pub match_type : FieldType → Field → PktInfo → Bool
unfolding mac_equal
match_type mac_da f i = mac_equal (mac_key f) i.mac_da
match_type mac_sa f i = mac_equal (mac_key f) i.mac_sa
match_type len_type f i = key16 f == i.ether_type
match_type ip_da f i = key32 f == i.ip_da
match_type ip_sa f i = key32 f == i.ip_sa
match_type pro_type f i = masked f 0 == i.ip_pro
match_type dport f i = key16 f == i.l4_dport
match_type sport f i = key16 f == i.l4_sport

-- `_zcap_pkt_filed_match`
abbrev pub filed_match : Field → PktInfo → Bool
filed_match f i = match_type f.field f i

-- `_zcap_register_field`, on the fields of the filter that it finds.
abbrev pub register_field : FieldType → Bytes → Bytes → List Field → List Field
register_field type data_bytes mask_bytes fields =
    fields ++ record { field = type; data_bytes = data_bytes; mask_bytes = mask_bytes } ∷ []

-- Two bytes of a local array that is not initialised: what it holds otherwise is `rest`.
abbrev pub two_bytes : ℕ → Bytes → Bytes
two_bytes x rest = bit_and (x / 256) 255 ∷ bit_and x 255 ∷ rest

module _ (rest_data rest_mask : Bytes) where
  abbrev pub register_field_len_type : ℕ → ℕ → List Field → List Field
  register_field_len_type d m =
      register_field len_type (two_bytes d rest_data) (two_bytes m rest_mask)

  abbrev pub register_field_pro_type : ℕ → ℕ → List Field → List Field
  register_field_pro_type d m =
      register_field pro_type (bit_and d 255 ∷ rest_data) (bit_and m 255 ∷ rest_mask)

  abbrev pub register_field_l4_dport : ℕ → ℕ → List Field → List Field
  register_field_l4_dport d m = register_field dport (two_bytes d rest_data) (two_bytes m rest_mask)

  abbrev pub register_field_l4_sport : ℕ → ℕ → List Field → List Field
  register_field_l4_sport d m = register_field sport (two_bytes d rest_data) (two_bytes m rest_mask)

pub low_byte : (x : ℕ) → bit_and x 255 ≡ x % 256
low_byte x = mask-mod 8 x

-- The two masked bytes are those of the masked number.
pub key16-bit_and :
    (d m : ℕ) (rest_data rest_mask : Bytes) (type : FieldType)
    → d < 65536
    → m < 65536
    → key16 (record {
      field = type;
      data_bytes = two_bytes d rest_data;
      mask_bytes = two_bytes m rest_mask;
    })
      ≡ bit_and d m
key16-bit_and d m rest_data rest_mask type hd hm =
    let d1 : d / 256 % 256 ≡ d / 256 = omega arith in
    let m1 : m / 256 % 256 ≡ m / 256 = omega arith in
    let small : bit_and (d % 256) (m % 256) < 256 = omega (arith, and-le (d % 256) (m % 256)) in
    let ed : 256 * (d / 256) + d % 256 ≡ d = omega arith in
    let em : 256 * (m / 256) + m % 256 ≡ m = omega arith in
    rw (low_byte (d / 256), low_byte d, low_byte (m / 256), low_byte m, d1, m1)
      (or-shift 8 (bit_and (d / 256) (m / 256)) (bit_and (d % 256) (m % 256)) small
        ∙ sym (and-join 8 (d / 256) (m / 256) (d % 256) (m % 256) (omega arith) (omega arith))
        ∙ rw (ed, em) refl)
