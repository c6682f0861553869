-- ===== src/Sap/Calls.antt =====
-- bacpypes3/appservice.py, class ApplicationServiceAccessPoint: the transactions in its lists after a
-- call.
use bacpypes.Prelude.{Bool, true, false, Option, List, [], Bool-cases, inl, inr}
use bacpypes.Address.{Address}
use bacpypes.Apdu.Apci.{
  Apci, Apdu, confirmed_request, unconfirmed_request, simple_ack, complex_ack, segment_ack, error,
  reject, abort,
}
use bacpypes.Ssm.Types.{DeviceInfo}
use bacpypes.Ssm.Monad.{Method, Done}
use bacpypes.Ssm.Keeps.{Keeps}
use bacpypes.Ssm.Client
use bacpypes.Ssm.Client.Live.{confirmation-IsLive}
use bacpypes.Ssm.Client.Live.Request.{indication-IsLive}
use bacpypes.Ssm.Server
use bacpypes.Ssm.Server.Live.{server_indication-IsLive, response-IsLive}
use bacpypes.Sap.{
  Dcc, enable, disable, disable_initiation, Transaction, Sap, new_transaction, Ran, is_for,
  run_first, run_new, or_new, with_clients, with_servers, or_return, receive, receive_controlled,
  request_controlled, begin_request, is_i_am, answer_apci,
}
use bacpypes.Sap.Lists.{
  AllLive, KeepsAll, everywhere, IsSound, new_transaction-IsLive, run_first-LeftLive,
  or_return-AllLive, or_new-AllLive, with_clients-IsSound, with_servers-IsSound, ran_new-AllLive,
}

module _ (sap : Sap) (h : IsSound sap) where
  -- The method of a client or server transaction that is found, if there is one.
  pub found_client-IsSound :
      (test : Transaction → Bool) (m : Method Done)
      → KeepsAll test m sap.client_transactions
      → IsSound
          (with_clients sap
            (or_return sap.client_transactions (run_first test m sap.client_transactions))).1
  found_client-IsSound test m keeps =
      with_clients-IsSound sap
        (or_return sap.client_transactions (run_first test m sap.client_transactions)) h
        (or_return-AllLive sap.client_transactions (run_first test m sap.client_transactions)
          h.clients_live (run_first-LeftLive test m sap.client_transactions keeps h.clients_live))

  first_client-IsSound :
      (test : Transaction → Bool) (m : Method Done)
      → Keeps m
      → IsSound
          (with_clients sap
            (or_return sap.client_transactions (run_first test m sap.client_transactions))).1
  first_client-IsSound test m keeps =
      found_client-IsSound test m (everywhere test m sap.client_transactions keeps)

  pub found_server-IsSound :
      (test : Transaction → Bool) (m : Method Done)
      → KeepsAll test m sap.server_transactions
      → IsSound
          (with_servers sap
            (or_return sap.server_transactions (run_first test m sap.server_transactions))).1
  found_server-IsSound test m keeps =
      with_servers-IsSound sap
        (or_return sap.server_transactions (run_first test m sap.server_transactions)) h
        (or_return-AllLive sap.server_transactions (run_first test m sap.server_transactions)
          h.servers_live (run_first-LeftLive test m sap.server_transactions keeps h.servers_live))

  first_server-IsSound :
      (test : Transaction → Bool) (m : Method Done)
      → Keeps m
      → IsSound
          (with_servers sap
            (or_return sap.server_transactions (run_first test m sap.server_transactions))).1
  first_server-IsSound test m keeps =
      found_server-IsSound test m (everywhere test m sap.server_transactions keeps)

  run_new-AllLive :
      (m : Method Done) (address : Address) (trs : List Transaction)
      → Keeps m
      → AllLive trs
      → AllLive (run_new m (new_transaction sap address) trs).1
  unfolding run_new
  run_new-AllLive m address trs keeps k =
      let tr : Transaction = new_transaction sap address in
      ran_new-AllLive tr (m (record { ssm = tr.ssm; sent = [] })) trs
        (keeps (record { ssm = tr.ssm; sent = [] })
          (new_transaction-IsLive sap address h.timeouts_set))
        k

  receive-IsSound :
      (decodes : Apdu → Bool) (info : Option DeviceInfo) (source : Address) (apdu : Apdu) (a : Apci)
      → IsSound (receive sap decodes info source apdu a).1
  unfolding receive
  receive-IsSound decodes info source apdu
        (confirmed_request seg mor sa max_segs max_resp invoke_id service) =
      let m : Method Done = Server.indication decodes info apdu in
      let found : Option Ran = run_first (is_for invoke_id source) m sap.server_transactions in
      let new : Ran = run_new m (new_transaction sap source) sap.server_transactions in
      with_servers-IsSound sap (or_new found new) h (
        or_new-AllLive found new
          (run_first-LeftLive (is_for invoke_id source) m sap.server_transactions
            (everywhere (is_for invoke_id source) m sap.server_transactions
              (server_indication-IsLive decodes info apdu))
            h.servers_live)
          (run_new-AllLive m source sap.server_transactions
            (server_indication-IsLive decodes info apdu) h.servers_live))
  receive-IsSound decodes info source apdu (unconfirmed_request service) =
      elim (Bool-cases (decodes apdu)) [ inl e ↦ rw e h | inr e ↦ rw e h ]
  receive-IsSound decodes info source apdu (simple_ack invoke_id service) =
      first_client-IsSound (is_for invoke_id source) (Client.confirmation apdu)
        (confirmation-IsLive apdu)
  receive-IsSound decodes info source apdu (complex_ack seg mor invoke_id service) =
      first_client-IsSound (is_for invoke_id source) (Client.confirmation apdu)
        (confirmation-IsLive apdu)
  receive-IsSound decodes info source apdu (error invoke_id service) =
      first_client-IsSound (is_for invoke_id source) (Client.confirmation apdu)
        (confirmation-IsLive apdu)
  receive-IsSound decodes info source apdu (reject invoke_id reason) =
      first_client-IsSound (is_for invoke_id source) (Client.confirmation apdu)
        (confirmation-IsLive apdu)
  receive-IsSound decodes info source apdu (abort true invoke_id reason) =
      first_client-IsSound (is_for invoke_id source) (Client.confirmation apdu)
        (confirmation-IsLive apdu)
  receive-IsSound decodes info source apdu (abort false invoke_id reason) =
      first_server-IsSound (is_for invoke_id source) (Server.indication decodes info apdu)
        (server_indication-IsLive decodes info apdu)
  receive-IsSound decodes info source apdu (segment_ack nak true invoke_id seq win) =
      first_client-IsSound (is_for invoke_id source) (Client.confirmation apdu)
        (confirmation-IsLive apdu)
  receive-IsSound decodes info source apdu (segment_ack nak false invoke_id seq win) =
      first_server-IsSound (is_for invoke_id source) (Server.indication decodes info apdu)
        (server_indication-IsLive decodes info apdu)

  begin_request-IsSound :
      (info : Option DeviceInfo) (delivered : Bool) (destination : Address) (apdu : Apdu) (a : Apci)
      → IsSound (begin_request sap info delivered destination apdu a).1
  unfolding begin_request
  begin_request-IsSound info delivered destination apdu
        (confirmed_request seg mor sa max_segs max_resp invoke_id service) =
      let m : Method Done = Client.indication info delivered apdu in
      with_clients-IsSound sap (run_new m (new_transaction sap destination) sap.client_transactions)
        h
        (run_new-AllLive m destination sap.client_transactions
          (indication-IsLive info delivered apdu) h.clients_live)
  begin_request-IsSound info delivered destination apdu (unconfirmed_request service) = h
  begin_request-IsSound info delivered destination apdu (simple_ack invoke_id service) = h
  begin_request-IsSound info delivered destination apdu (complex_ack seg mor invoke_id service) = h
  begin_request-IsSound info delivered destination apdu (segment_ack nak srv invoke_id seq win) = h
  begin_request-IsSound info delivered destination apdu (error invoke_id service) = h
  begin_request-IsSound info delivered destination apdu (reject invoke_id reason) = h
  begin_request-IsSound info delivered destination apdu (abort srv invoke_id reason) = h

  pub answer_apci-IsSound :
      (destination : Address) (apdu : Apdu) (a : Apci)
      → IsSound (answer_apci sap destination apdu a).1
  unfolding answer_apci
  answer_apci-IsSound destination apdu (simple_ack invoke_id service) =
      first_server-IsSound (is_for invoke_id destination) (Server.confirmation apdu)
        (response-IsLive apdu)
  answer_apci-IsSound destination apdu (complex_ack seg mor invoke_id service) =
      first_server-IsSound (is_for invoke_id destination) (Server.confirmation apdu)
        (response-IsLive apdu)
  answer_apci-IsSound destination apdu (error invoke_id service) =
      first_server-IsSound (is_for invoke_id destination) (Server.confirmation apdu)
        (response-IsLive apdu)
  answer_apci-IsSound destination apdu (reject invoke_id reason) =
      first_server-IsSound (is_for invoke_id destination) (Server.confirmation apdu)
        (response-IsLive apdu)
  answer_apci-IsSound destination apdu (abort srv invoke_id reason) =
      first_server-IsSound (is_for invoke_id destination) (Server.confirmation apdu)
        (response-IsLive apdu)
  answer_apci-IsSound destination apdu
        (confirmed_request seg mor sa max_segs max_resp invoke_id service) =
      h
  answer_apci-IsSound destination apdu (unconfirmed_request service) = h
  answer_apci-IsSound destination apdu (segment_ack nak srv invoke_id seq win) = h

  pub receive_controlled-IsSound :
      (d : Dcc) (decodes : Apdu → Bool) (info : Option DeviceInfo) (source : Address) (apdu : Apdu)
      → IsSound (receive_controlled d sap decodes info source apdu).1
  unfolding receive_controlled
  receive_controlled-IsSound enable decodes info source apdu =
      receive-IsSound decodes info source apdu apdu.apci
  receive_controlled-IsSound disable decodes info source apdu = h
  receive_controlled-IsSound disable_initiation decodes info source apdu =
      receive-IsSound decodes info source apdu apdu.apci

  pub request_controlled-IsSound :
      (d : Dcc) (info : Option DeviceInfo) (delivered : Bool) (destination : Address) (apdu : Apdu)
      → IsSound (request_controlled d sap info delivered destination apdu).1
  unfolding request_controlled
  request_controlled-IsSound enable info delivered destination apdu =
      begin_request-IsSound info delivered destination apdu apdu.apci
  request_controlled-IsSound disable info delivered destination apdu = h
  request_controlled-IsSound disable_initiation info delivered destination apdu =
      elim (Bool-cases (is_i_am apdu.apci)) [
        | inl i ↦ rw i (begin_request-IsSound info delivered destination apdu apdu.apci)
        | inr i ↦ rw i h
      ]
