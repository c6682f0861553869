-- ===== src/Ssm/Client/Common.antt =====
-- bacpypes3/appservice.py, class ClientSSM: the ends of a transaction, and the segment acks.
use bacpypes.Prelude.{ℕ, Bool, false, []}
use bacpypes.Pdu.{type_error}
use bacpypes.Apdu.Apci.{Apdu, segment_ack, abort}
use bacpypes.Ssm.Types.{State, to_device, to_application, aborted}
use bacpypes.Ssm.Monad.{Method, Done, pure, gets, send, need, ◌>>=◌, ◌>>◌}
use bacpypes.Ssm.Steps.{set_state}

-- `ClientSSM.abort`
unfoldable pub abort_apdu : ℕ → Method Apdu
abort_apdu reason = do
  set_state aborted 0
  s ← gets (λ s. s)
  pure (record { apci = abort false s.invoke_id reason; pdu_data = [] })

-- The abort is told to the application alone, or first to the device.
unfoldable pub give_up : ℕ → Method Done
unfolding abort_apdu
give_up reason = do a ← abort_apdu reason; send (to_application a)

unfoldable pub give_up_both : ℕ → Method Done
unfolding abort_apdu
give_up_both reason = do a ← abort_apdu reason; send (to_device a); send (to_application a)

-- The transaction ends with an answer for the application.
unfoldable pub finish : State → Apdu → Method Done
finish new apdu = do set_state new 0; send (to_application apdu)

-- `SegmentAckPDU(nak, 0, self.invokeID, seq, self.actualWindowSize)`; a window of None cannot be
-- encoded.
unfoldable pub send_segment_ack : Bool → ℕ → Method Done
send_segment_ack nak seq = do
  s ← gets (λ s. s)
  win ← need s.actual_window_size type_error
  send (to_device (record { apci = segment_ack nak false s.invoke_id seq win; pdu_data = [] }))
