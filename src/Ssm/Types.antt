-- ===== src/Ssm/Types.antt =====
-- bacpypes3/appservice.py: the transaction states, the attributes of class SSM, and what a state
-- machine sends.
--
-- The attributes that the code asserts before it reads them are Options. Those that start as None
-- and are set by the method that enters the first state in which they are read (`invokeID`, the
-- counters, the sequence numbers, `sentAllSegments`, `segmented_response_accepted`) are plain
-- values. A timer is the time that it was started with, or none where none runs; asyncio's handles are
-- left out.
use bacpypes.Prelude.{ℕ, Bool, true, false, Option, List}
use bacpypes.Apdu.Apci.{Apdu}

pub data State : Type 0 where
  idle segmented_request await_confirmation await_response : State
  segmented_response segmented_confirmation completed aborted : State

-- `Segmentation` of bacpypes3/basetypes.py
pub data Segmentation : Type 0 where
  segmented_both segmented_transmit segmented_receive no_segmentation : Segmentation

-- `in (Segmentation.segmentedReceive, Segmentation.segmentedBoth)`
abbrev pub can_receive : Segmentation → Bool
can_receive Segmentation.segmented_both = true
can_receive Segmentation.segmented_transmit = false
can_receive Segmentation.segmented_receive = true
can_receive Segmentation.no_segmentation = false

-- `in (Segmentation.segmentedTransmit, Segmentation.segmentedBoth)`
abbrev pub can_transmit : Segmentation → Bool
can_transmit Segmentation.segmented_both = true
can_transmit Segmentation.segmented_transmit = true
can_transmit Segmentation.segmented_receive = false
can_transmit Segmentation.no_segmentation = false

-- What the device information cache knows of the peer.
pub record DeviceInfo : Type 0 where
  pub max_apdu_length_accepted : Option ℕ
  pub max_npdu_length : Option ℕ
  pub segmentation_supported : Segmentation
  pub max_segments_accepted : Option ℕ

-- What the service access point and the local device object provide.
pub record Settings : Type 0 where
  pub number_of_apdu_retries : ℕ
  pub apdu_timeout : ℕ
  pub segment_timeout : ℕ
  pub application_timeout : ℕ
  pub segmentation_supported : Segmentation
  pub proposed_window_size : ℕ

pub record Ssm : Type 0 where
  pub settings : Settings
  pub state : State
  pub invoke_id : ℕ
  pub device_info : Option DeviceInfo
  pub segment_apdu : Option Apdu
  pub segment_size : Option ℕ
  pub segment_count : Option ℕ
  pub retry_count : ℕ
  pub segment_retry_count : ℕ
  pub sent_all_segments : Bool
  pub last_sequence_number : ℕ
  pub initial_sequence_number : ℕ
  pub actual_window_size : Option ℕ
  pub max_segments_accepted : Option ℕ
  pub max_apdu_length_accepted : ℕ
  pub segmented_response_accepted : Bool
  pub timer : Option ℕ
  -- whether the transaction is in the access point's list
  pub tracked : Bool

-- What a state machine sends: to the network (`ssmSAP.request`), up to the application
-- (`sap_response` of a client, `sap_request` of a server), or to the device information cache.
-- `communication_error` is the Error, with an invoke ID and a service, that a client makes up where
-- the network layer raises a CommunicationError, and `undecodable` the Abort, without an invoke ID
-- and for reason other, that a server hands up where a request cannot be decoded.
pub data Output : Type 0 where
  to_device : Apdu → Output
  to_application : Apdu → Output
  to_cache : DeviceInfo → Output
  communication_error : ℕ → ℕ → Output
  undecodable : Output

pub record World : Type 0 where
  pub ssm : Ssm
  pub sent : List Output
