-- ===== src/Ssm/Client.antt =====
-- bacpypes3/appservice.py, class ClientSSM: a confirmed request and its answer, from the
-- requester's side. The parts are in the child modules; here they are put together by state.
mod Common
mod Request
mod Answer
pub mod Live
pub mod Reassembly
unfoldable pub use Common.*
unfoldable pub use Request.*
unfoldable pub use Answer.*
use bacpypes.Prelude.{
  ℕ, zero, suc, ◌+◌, ◌-◌, ◌%◌, Bool, true, false, not, ◌&&◌, ◌||◌, Option, none, some, List, [],
  ◌∷◌, length, ltb, leb, ◌==◌, if◌then◌else◌, min, is_some,
}
use bacpypes.Pdu.{Error, Result, ok, err, runtime_error, type_error}
use bacpypes.Apdu.Apci.{
  Apci, Apdu, Segment, confirmed_request, unconfirmed_request, simple_ack, complex_ack, segment_ack,
  error, reject, abort,
}
use bacpypes.Ssm.Reason
use bacpypes.Ssm.Types.{
  State, Segmentation, Ssm, Settings, DeviceInfo, Output, to_device, to_application,
  communication_error, can_receive, can_transmit, completed, aborted, idle, segmented_request,
  await_confirmation, await_response, segmented_response, segmented_confirmation,
}
use bacpypes.Ssm.Monad.{
  Method, Done, pure, raise, gets, modify, send, lift, need, raise_if, ◌>>=◌, ◌>>◌, continue,
}
use bacpypes.Ssm.Steps.{
  set_state, start_timer, get_segment, append_segment, in_window, fill_window, count_segments,
}

unfoldable pub dispatch : State → Apdu → Method Done
unfolding on_segmented_request on_await_confirmation on_segmented_confirmation
dispatch segmented_request apdu = on_segmented_request apdu apdu.apci
dispatch await_confirmation apdu = on_await_confirmation apdu apdu.apci
dispatch segmented_confirmation apdu = on_segmented_confirmation apdu apdu.apci
dispatch idle apdu = raise runtime_error
dispatch await_response apdu = raise runtime_error
dispatch segmented_response apdu = raise runtime_error
dispatch completed apdu = raise runtime_error
dispatch aborted apdu = raise runtime_error

-- `ClientSSM.confirmation`
unfoldable pub confirmation : Apdu → Method Done
unfolding dispatch
confirmation apdu = do s ← gets (λ s. s); dispatch s.state apdu

unfoldable pub dispatch_timeout : State → Option DeviceInfo → Bool → Method Done
unfolding segmented_request_timeout await_confirmation_timeout segmented_confirmation_timeout
dispatch_timeout segmented_request info delivered = segmented_request_timeout
dispatch_timeout await_confirmation info delivered = await_confirmation_timeout info delivered
dispatch_timeout segmented_confirmation info delivered = segmented_confirmation_timeout
dispatch_timeout completed info delivered = pure tt
dispatch_timeout aborted info delivered = pure tt
dispatch_timeout idle info delivered = raise runtime_error
dispatch_timeout await_response info delivered = raise runtime_error
dispatch_timeout segmented_response info delivered = raise runtime_error

-- `ClientSSM.timer_expired`: the handle has fired, and no timer runs until one is started. The answer
-- of the cache and the delivery are those of a retry.
unfoldable pub timer_expired : Option DeviceInfo → Bool → Method Done
unfolding dispatch_timeout
timer_expired info delivered = do
  modify (λ s. record s { timer = none })
  s ← gets (λ s. s)
  dispatch_timeout s.state info delivered
