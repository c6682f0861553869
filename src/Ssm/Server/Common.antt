-- ===== src/Ssm/Server/Common.antt =====
-- bacpypes3/appservice.py, class ServerSSM: the ends of a transaction, what goes up to the
-- application, and the segment acks.
--
-- `decodes` says whether APCISequence.decode (bacpypes3/apdu.py) takes the parameters of a service.
use bacpypes.Prelude.{ℕ, Bool, true, [], if◌then◌else◌}
use bacpypes.Pdu.{type_error}
use bacpypes.Apdu.Apci.{
  Apci, Apdu, confirmed_request, unconfirmed_request, simple_ack, complex_ack, segment_ack, error,
  reject, abort,
}
use bacpypes.Ssm.Types.{State, to_device, to_application, undecodable, aborted}
use bacpypes.Ssm.Monad.{Method, Done, pure, gets, send, need, ◌>>=◌, ◌>>◌}
use bacpypes.Ssm.Steps.{set_state}

-- `ServerSSM.request`: an abort goes up as it is, and anything else once it is decoded.
unfoldable pub hand_up : (Apdu → Bool) → Apdu → Apci → Method Done
hand_up decodes apdu (abort srv invoke_id reason) = send (to_application apdu)
hand_up decodes apdu (confirmed_request seg mor sa max_segs max_resp invoke_id service) =
    send (if decodes apdu then to_application apdu else undecodable)
hand_up decodes apdu (unconfirmed_request service) =
    send (if decodes apdu then to_application apdu else undecodable)
hand_up decodes apdu (simple_ack invoke_id service) =
    send (if decodes apdu then to_application apdu else undecodable)
hand_up decodes apdu (complex_ack seg mor invoke_id service) =
    send (if decodes apdu then to_application apdu else undecodable)
hand_up decodes apdu (segment_ack nak srv invoke_id seq win) =
    send (if decodes apdu then to_application apdu else undecodable)
hand_up decodes apdu (error invoke_id service) =
    send (if decodes apdu then to_application apdu else undecodable)
hand_up decodes apdu (reject invoke_id reason) =
    send (if decodes apdu then to_application apdu else undecodable)

-- `ServerSSM.abort`
unfoldable pub server_abort : ℕ → Method Apdu
server_abort reason = do
  set_state aborted 0
  s ← gets (λ s. s)
  pure (record { apci = abort true s.invoke_id reason; pdu_data = [] })

-- The abort is told to the device alone, or first to the application.
unfoldable pub refuse : ℕ → Method Done
unfolding server_abort
refuse reason = do a ← server_abort reason; send (to_device a)

unfoldable pub refuse_both : ℕ → Method Done
unfolding server_abort
refuse_both reason = do a ← server_abort reason; send (to_application a); send (to_device a)

-- The transaction ends with an answer for the device.
unfoldable pub answer_device : State → Apdu → Method Done
answer_device new apdu = do set_state new 0; send (to_device apdu)

-- `SegmentAckPDU(nak, 1, self.invokeID, seq, self.actualWindowSize)`
unfoldable pub server_segment_ack : Bool → ℕ → Method Done
server_segment_ack nak seq = do
  s ← gets (λ s. s)
  win ← need s.actual_window_size type_error
  send (to_device (record { apci = segment_ack nak true s.invoke_id seq win; pdu_data = [] }))
