-- ===== src/Apdu/Apci.antt =====
-- bacpypes3/apdu.py, class APCI: the header of an APDU by its type, `encode` and `decode`; and
-- class APDU, a header with its data.
--
-- `apduSeg` with `apduSeq` and `apduWin`, which are written and read together, is one optional
-- segment. The fields of PCI that the codec only copies are left out.
pub mod Octets
pub mod RoundTrip
pub mod Sound
use bacpypes.Prelude.{
  ℕ, ◌+◌, ◌*◌, ◌/◌, ◌%◌, Bool, true, false, Option, none, some, List, ◌==◌, has_bits, is_some,
  if◌then◌else◌,
}
use bacpypes.Pdu.{Bytes, Action, pure, raise, ◌>>=◌, ◌>>◌, get, put, put_data, decoding_error}

-- `apduSeq` and `apduWin`
pub record Segment : Type 0 where
  pub seq : ℕ
  pub win : ℕ

pub data Apci : Type 0 where
  -- apduSeg, apduMor, apduSA, apduMaxSegs, apduMaxResp, apduInvokeID, apduService
  confirmed_request : Option Segment → Bool → Bool → ℕ → ℕ → ℕ → ℕ → Apci
  -- apduService
  unconfirmed_request : ℕ → Apci
  -- apduInvokeID, apduService
  simple_ack : ℕ → ℕ → Apci
  -- apduSeg, apduMor, apduInvokeID, apduService
  complex_ack : Option Segment → Bool → ℕ → ℕ → Apci
  -- apduNak, apduSrv, apduInvokeID, apduSeq, apduWin
  segment_ack : Bool → Bool → ℕ → ℕ → ℕ → Apci
  -- apduInvokeID, apduService
  error : ℕ → ℕ → Apci
  -- apduInvokeID, apduAbortRejectReason
  reject : ℕ → ℕ → Apci
  -- apduSrv, apduInvokeID, apduAbortRejectReason
  abort : Bool → ℕ → ℕ → Apci

-- `if self.apduX: buff += weight`
abbrev pub weight : Bool → ℕ → ℕ
weight true n = n
weight false n = 0

-- `buff = self.apduType << 4` with the flags of the low four bits added.
unfoldable pub first_octet : ℕ → Bool → Bool → Bool → Bool → ℕ
first_octet apdu_type b3 b2 b1 b0 =
    apdu_type * 16 + weight b3 0x08 + weight b2 0x04 + weight b1 0x02 + weight b0 0x01

unfoldable pub put_segment : Option Segment → Action (Unit {0})
put_segment none = pure tt
put_segment (some s) = do put s.seq; put s.win

unfoldable pub encode : Apci → Action (Unit {0})
encode (confirmed_request seg mor sa max_segs max_resp invoke_id service) = do
  put (first_octet 0 (is_some seg) mor sa false)
  put (max_segs * 16 + max_resp)
  put invoke_id
  put_segment seg
  put service
encode (unconfirmed_request service) = do put (first_octet 1 false false false false); put service
encode (simple_ack invoke_id service) = do
  put (first_octet 2 false false false false)
  put invoke_id
  put service
encode (complex_ack seg mor invoke_id service) = do
  put (first_octet 3 (is_some seg) mor false false)
  put invoke_id
  put_segment seg
  put service
encode (segment_ack nak srv invoke_id seq win) = do
  put (first_octet 4 false false nak srv)
  put invoke_id
  put seq
  put win
encode (error invoke_id service) = do
  put (first_octet 5 false false false false)
  put invoke_id
  put service
encode (reject invoke_id reason) = do
  put (first_octet 6 false false false false)
  put invoke_id
  put reason
encode (abort srv invoke_id reason) = do
  put (first_octet 7 false false false srv)
  put invoke_id
  put reason

unfoldable pub get_segment : Bool → Action (Option Segment)
get_segment false = pure none
get_segment true = do seq ← get; win ← get; pure (some (record { seq = seq; win = win }))

unfoldable pub decode_confirmed_request : ℕ → Action Apci
decode_confirmed_request buff = do
  limits ← get
  invoke_id ← get
  seg ← get_segment (has_bits buff 0x08)
  service ← get
  pure (
      confirmed_request seg (has_bits buff 0x04) (has_bits buff 0x02) (limits / 16 % 8)
        (limits % 16) invoke_id service)

unfoldable pub decode_complex_ack : ℕ → Action Apci
decode_complex_ack buff = do
  invoke_id ← get
  seg ← get_segment (has_bits buff 0x08)
  service ← get
  pure (complex_ack seg (has_bits buff 0x04) invoke_id service)

unfoldable pub decode_segment_ack : ℕ → Action Apci
decode_segment_ack buff = do
  invoke_id ← get
  seq ← get
  win ← get
  pure (segment_ack (has_bits buff 0x02) (has_bits buff 0x01) invoke_id seq win)

-- The types whose header is two octets more.
unfoldable pub get_two : (ℕ → ℕ → Apci) → Action Apci
get_two f = do a ← get; b ← get; pure (f a b)

-- `(buff >> 4) & 0x0F`, and the branch on it.
unfoldable pub decode_type : ℕ → ℕ → Action Apci
decode_type apdu_type buff =
    if apdu_type == 0
    then decode_confirmed_request buff
    else if apdu_type == 1
    then (do service ← get; pure (unconfirmed_request service))
    else if apdu_type == 2
    then get_two simple_ack
    else if apdu_type == 3
    then decode_complex_ack buff
    else if apdu_type == 4
    then decode_segment_ack buff
    else if apdu_type == 5
    then get_two error
    else if apdu_type == 6
    then get_two reject
    else if apdu_type == 7
    then get_two (abort (has_bits buff 0x01))
    else raise decoding_error

unfoldable pub decode : Action Apci
unfolding decode_type
decode = do buff ← get; decode_type (buff / 16 % 16) buff

-- class APDU
pub record Apdu : Type 0 where
  pub apci : Apci
  pub pdu_data : Bytes

unfoldable pub encode_apdu : Apdu → Action (Unit {0})
encode_apdu a = do encode a.apci; put_data a.pdu_data

-- The data is what is left of the PDU, which stays there.
unfoldable pub decode_apdu : Action Apdu
decode_apdu = do
  apci ← decode
  octets ← (λ b. pure b b)
  pure (record { apci = apci; pdu_data = octets })
