-- ===== src/Sap.antt =====
-- bacpypes3/appservice.py, class ApplicationServiceAccessPoint: `confirmation`, `sap_indication`,
-- `sap_confirmation` and the expiry of a transaction's timer. A transaction is an address and the
-- attributes of its state machine; one in the lists has run once, so its invoke ID is set.
--
-- The answer of the device information cache, whether the network layer takes the first segment, and
-- whether APCISequence.decode takes an APDU are arguments.
pub mod Lists
pub mod Calls
pub mod Live
pub mod Others
pub mod Answers
mod Tests
use bacpypes.Prelude.{
  ℕ, Bool, true, false, ◌&&◌, ◌||◌, Option, none, some, List, [], ◌∷◌, ◌++◌, ◌==◌, if◌then◌else◌,
}
use bacpypes.Pdu.{Result, ok, err, attribute_error, runtime_error}
use bacpypes.Address.{Address}
use bacpypes.Apdu.Apci.{
  Apci, Apdu, confirmed_request, unconfirmed_request, simple_ack, complex_ack, segment_ack, error,
  reject, abort,
}
use bacpypes.Ssm.Types.{
  State, Ssm, Settings, DeviceInfo, Output, to_device, to_application, World, idle,
}
use bacpypes.Ssm.Monad.{Method, Done}
use bacpypes.Ssm.Client
use bacpypes.Ssm.Server
use bacpypes.Router.Keys.{Key, address_key, same_address}

-- `dccEnableDisable`
pub data Dcc : Type 0 where
  enable disable disable_initiation : Dcc

pub record Transaction : Type 0 where
  pub pdu_address : Address
  pub ssm : Ssm

pub record Sap : Type 0 where
  pub client_transactions : List Transaction
  pub server_transactions : List Transaction
  pub dcc_enable_disable : Dcc
  pub settings : Settings
  pub max_segments_accepted : Option ℕ
  pub max_apdu_length_accepted : ℕ

-- `ClientSSM(self, pdu_address)` and `ServerSSM(self, pdu_address)`
abbrev pub new_transaction : Sap → Address → Transaction
new_transaction sap pdu_address = record {
  pdu_address = pdu_address;
  ssm = record {
    settings = sap.settings;
    state = idle;
    invoke_id = 0;
    device_info = none;
    segment_apdu = none;
    segment_size = none;
    segment_count = none;
    retry_count = 0;
    segment_retry_count = 0;
    sent_all_segments = false;
    last_sequence_number = 0;
    initial_sequence_number = 0;
    actual_window_size = none;
    max_segments_accepted = sap.max_segments_accepted;
    max_apdu_length_accepted = sap.max_apdu_length_accepted;
    segmented_response_accepted = true;
    timer = none;
    tracked = true;
  };
}

-- What a call comes to: the result, a list of transactions, and what was sent.
abbrev pub Ran : Type 0
Ran = Result Done × List Transaction × List Output

-- `(apdu.apduInvokeID == tr.invokeID) and (address == tr.pdu_address)`
abbrev pub is_for : ℕ → Address → Transaction → Bool
is_for invoke_id address tr = invoke_id == tr.ssm.invoke_id && same_address address tr.pdu_address

-- A transaction that has ended has taken itself off the list.
abbrev pub still_tracked : Address → Ssm → List Transaction
still_tracked pdu_address s =
    if s.tracked then record { pdu_address = pdu_address; ssm = s } ∷ [] else []

abbrev pub ran_one : Transaction → Result Done × World → List Transaction → Ran
ran_one tr (r, w) rest = (r, still_tracked tr.pdu_address w.ssm ++ rest, w.sent)

unfoldable pub run_one : Method Done → Transaction → List Transaction → Ran
run_one m tr rest = ran_one tr (m (record { ssm = tr.ssm; sent = [] })) rest

abbrev pub behind : Transaction → Option Ran → Option Ran
behind tr none = none
behind tr (some (r, trs, sent)) = some (r, tr ∷ trs, sent)

-- `for tr in transactions: if ...: break`, and the method of the transaction that was found.
unfoldable pub run_first : (Transaction → Bool) → Method Done → List Transaction → Option Ran
unfolding run_one
run_first test m [] = none
run_first test m (tr ∷ trs) =
    let rest = run_first test m trs in if test tr then some (run_one m tr trs) else behind tr rest

-- A new transaction is put at the end of the list and runs.
abbrev pub ran_new : Transaction → Result Done × World → List Transaction → Ran
ran_new tr (r, w) trs = (r, trs ++ still_tracked tr.pdu_address w.ssm, w.sent)

unfoldable pub run_new : Method Done → Transaction → List Transaction → Ran
run_new m tr trs = ran_new tr (m (record { ssm = tr.ssm; sent = [] })) trs

abbrev pub or_new : Option Ran → Ran → Ran
or_new none new = new
or_new (some ran) new = ran

-- What a call of the access point comes to.
abbrev pub Outcome : Type 0
Outcome = Result Done × Sap × List Output

abbrev pub with_clients : Sap → Ran → Outcome
with_clients sap (r, trs, sent) = (r, record sap { client_transactions = trs }, sent)

abbrev pub with_servers : Sap → Ran → Outcome
with_servers sap (r, trs, sent) = (r, record sap { server_transactions = trs }, sent)

-- `for ... else: return`
abbrev pub or_return : List Transaction → Option Ran → Ran
or_return trs none = (ok tt, trs, [])
or_return trs (some ran) = ran

abbrev pub to_client : Sap → ℕ → Address → Apdu → Outcome
to_client sap invoke_id source apdu = with_clients sap (
    or_return sap.client_transactions
      (run_first (is_for invoke_id source) (Client.confirmation apdu) sap.client_transactions))

abbrev pub to_server : Sap → (Apdu → Bool) → Option DeviceInfo → ℕ → Address → Apdu → Outcome
to_server sap decodes info invoke_id source apdu = with_servers sap (
    or_return sap.server_transactions (
      run_first (is_for invoke_id source) (Server.indication decodes info apdu)
        sap.server_transactions))

abbrev pub to_new_server : Sap → (Apdu → Bool) → Option DeviceInfo → ℕ → Address → Apdu → Outcome
to_new_server sap decodes info invoke_id source apdu = with_servers sap (
    or_new
      (run_first (is_for invoke_id source) (Server.indication decodes info apdu)
        sap.server_transactions)
      (run_new (Server.indication decodes info apdu) (new_transaction sap source)
        sap.server_transactions))

unfoldable pub receive : Sap → (Apdu → Bool) → Option DeviceInfo → Address → Apdu → Apci → Outcome
unfolding run_first run_new Client.confirmation Server.indication
receive sap decodes info source apdu
      (confirmed_request seg mor sa max_segs max_resp invoke_id service) =
    to_new_server sap decodes info invoke_id source apdu
receive sap decodes info source apdu (unconfirmed_request service) =
    if decodes apdu then (ok tt, sap, to_application apdu ∷ []) else (ok tt, sap, [])
receive sap decodes info source apdu (simple_ack invoke_id service) =
    to_client sap invoke_id source apdu
receive sap decodes info source apdu (complex_ack seg mor invoke_id service) =
    to_client sap invoke_id source apdu
receive sap decodes info source apdu (error invoke_id service) = to_client sap invoke_id source apdu
receive sap decodes info source apdu (reject invoke_id reason) = to_client sap invoke_id source apdu
receive sap decodes info source apdu (abort srv invoke_id reason) =
    if srv
    then to_client sap invoke_id source apdu
    else to_server sap decodes info invoke_id source apdu
receive sap decodes info source apdu (segment_ack nak srv invoke_id seq win) =
    if srv
    then to_client sap invoke_id source apdu
    else to_server sap decodes info invoke_id source apdu

-- Device communication control. While communication is disabled, `pdu.apduType` is read, which a PDU
-- has not.
unfoldable pub receive_controlled :
    Dcc → Sap → (Apdu → Bool) → Option DeviceInfo → Address → Apdu → Outcome
unfolding receive
receive_controlled enable sap decodes info source apdu =
    receive sap decodes info source apdu apdu.apci
receive_controlled disable sap decodes info source apdu = (err attribute_error, sap, [])
receive_controlled disable_initiation sap decodes info source apdu =
    receive sap decodes info source apdu apdu.apci

-- `confirmation`, of a PDU that was decoded as an APDU
unfoldable pub confirmation : Sap → (Apdu → Bool) → Option DeviceInfo → Address → Apdu → Outcome
unfolding receive_controlled
confirmation sap decodes info source apdu =
    receive_controlled sap.dcc_enable_disable sap decodes info source apdu

unfoldable pub begin_request : Sap → Option DeviceInfo → Bool → Address → Apdu → Apci → Outcome
unfolding run_new Client.indication
begin_request sap info delivered destination apdu (unconfirmed_request service) =
    (ok tt, sap, to_device apdu ∷ [])
begin_request sap info delivered destination apdu
      (confirmed_request seg mor sa max_segs max_resp invoke_id service) =
    with_clients sap (
      run_new (Client.indication info delivered apdu) (new_transaction sap destination)
        sap.client_transactions)
begin_request sap info delivered destination apdu (simple_ack invoke_id service) =
    (err runtime_error, sap, [])
begin_request sap info delivered destination apdu (complex_ack seg mor invoke_id service) =
    (err runtime_error, sap, [])
begin_request sap info delivered destination apdu (segment_ack nak srv invoke_id seq win) =
    (err runtime_error, sap, [])
begin_request sap info delivered destination apdu (error invoke_id service) =
    (err runtime_error, sap, [])
begin_request sap info delivered destination apdu (reject invoke_id reason) =
    (err runtime_error, sap, [])
begin_request sap info delivered destination apdu (abort srv invoke_id reason) =
    (err runtime_error, sap, [])

-- `(apdu.apduType == 1) and (apdu.apduService == 0)`: an I-Am.
abbrev pub is_i_am : Apci → Bool
is_i_am (unconfirmed_request service) = service == 0
is_i_am _ = false

unfoldable pub request_controlled : Dcc → Sap → Option DeviceInfo → Bool → Address → Apdu → Outcome
unfolding begin_request
request_controlled enable sap info delivered destination apdu =
    begin_request sap info delivered destination apdu apdu.apci
request_controlled disable sap info delivered destination apdu = (ok tt, sap, [])
request_controlled disable_initiation sap info delivered destination apdu =
    if is_i_am apdu.apci
    then begin_request sap info delivered destination apdu apdu.apci
    else (ok tt, sap, [])

-- `sap_indication`
unfoldable pub sap_indication : Sap → Option DeviceInfo → Bool → Address → Apdu → Outcome
unfolding request_controlled
sap_indication sap info delivered destination apdu =
    request_controlled sap.dcc_enable_disable sap info delivered destination apdu

abbrev pub answer : Sap → ℕ → Address → Apdu → Outcome
answer sap invoke_id destination apdu = with_servers sap (
    or_return sap.server_transactions
      (run_first (is_for invoke_id destination) (Server.confirmation apdu) sap.server_transactions))

unfoldable pub answer_apci : Sap → Address → Apdu → Apci → Outcome
unfolding run_first Server.confirmation
answer_apci sap destination apdu (simple_ack invoke_id service) =
    answer sap invoke_id destination apdu
answer_apci sap destination apdu (complex_ack seg mor invoke_id service) =
    answer sap invoke_id destination apdu
answer_apci sap destination apdu (error invoke_id service) = answer sap invoke_id destination apdu
answer_apci sap destination apdu (reject invoke_id reason) = answer sap invoke_id destination apdu
answer_apci sap destination apdu (abort srv invoke_id reason) =
    answer sap invoke_id destination apdu
answer_apci sap destination apdu
      (confirmed_request seg mor sa max_segs max_resp invoke_id service) =
    (err runtime_error, sap, [])
answer_apci sap destination apdu (unconfirmed_request service) = (err runtime_error, sap, [])
answer_apci sap destination apdu (segment_ack nak srv invoke_id seq win) =
    (err runtime_error, sap, [])

-- `sap_confirmation`
unfoldable pub sap_confirmation : Sap → Address → Apdu → Outcome
unfolding answer_apci
sap_confirmation sap destination apdu = answer_apci sap destination apdu apdu.apci

-- The timer of a client or server transaction expires.
unfoldable pub client_timer_expired :
    Sap → Option DeviceInfo → Bool → (Transaction → Bool) → Outcome
unfolding run_first Client.timer_expired
client_timer_expired sap info delivered test = with_clients sap (
    or_return sap.client_transactions
      (run_first test (Client.timer_expired info delivered) sap.client_transactions))

unfoldable pub server_timer_expired : Sap → (Transaction → Bool) → Outcome
unfolding run_first Server.timer_expired
server_timer_expired sap test = with_servers sap (
    or_return sap.server_transactions (run_first test Server.timer_expired sap.server_transactions))
