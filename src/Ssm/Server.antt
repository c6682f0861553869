-- ===== src/Ssm/Server.antt =====
-- bacpypes3/appservice.py, class ServerSSM: a confirmed request and its answer, from the
-- responder's side. The parts are in the child modules; here they are put together by state.
mod Common
mod Request
mod Response
pub mod Live
pub mod Reassembly
unfoldable pub use Common.*
unfoldable pub use Request.*
unfoldable pub use Response.*
use bacpypes.Prelude.{
  ℕ, zero, suc, ◌+◌, ◌-◌, ◌%◌, Bool, true, false, not, ◌&&◌, ◌||◌, Option, none, some, List, [],
  ◌∷◌, length, ltb, leb, ◌==◌, if◌then◌else◌, min, is_some,
}
use bacpypes.Pdu.{Error, Result, ok, err, runtime_error, type_error}
use bacpypes.Apdu.Apci.{
  Apci, Apdu, Segment, confirmed_request, unconfirmed_request, simple_ack, complex_ack, segment_ack,
  error, reject, abort,
}
use bacpypes.Apdu.Limits.{decode_max_segments_accepted, decode_max_apdu_length_accepted}
use bacpypes.Ssm.Reason
use bacpypes.Ssm.Types.{
  State, Segmentation, Ssm, Settings, DeviceInfo, Output, to_device, to_application, to_cache,
  undecodable, can_receive, can_transmit, completed, aborted, idle, segmented_request,
  await_confirmation, await_response, segmented_response, segmented_confirmation, segmented_both,
  segmented_transmit, segmented_receive, no_segmentation,
}
use bacpypes.Ssm.Monad.{
  Method, Done, pure, raise, gets, modify, send, lift, need, raise_if, ◌>>=◌, ◌>>◌, continue,
}
use bacpypes.Ssm.Steps.{
  set_state, start_timer, get_segment, append_segment, in_window, fill_window, count_segments,
}

unfoldable pub dispatch_indication : State → (Apdu → Bool) → Option DeviceInfo → Apdu → Method Done
unfolding on_idle on_request_segments on_await_response on_segmented_response
dispatch_indication idle decodes info apdu = on_idle decodes info apdu apdu.apci
dispatch_indication segmented_request decodes info apdu = on_request_segments decodes apdu apdu.apci
dispatch_indication await_response decodes info apdu = on_await_response apdu apdu.apci
dispatch_indication segmented_response decodes info apdu = on_segmented_response apdu apdu.apci
dispatch_indication await_confirmation decodes info apdu = pure tt
dispatch_indication segmented_confirmation decodes info apdu = pure tt
dispatch_indication completed decodes info apdu = pure tt
dispatch_indication aborted decodes info apdu = pure tt

-- `ServerSSM.indication`
unfoldable pub indication : (Apdu → Bool) → Option DeviceInfo → Apdu → Method Done
unfolding dispatch_indication
indication decodes info apdu = do s ← gets (λ s. s); dispatch_indication s.state decodes info apdu

unfoldable pub dispatch_expiry : State → Method Done
unfolding request_segments_timeout await_response_timeout segmented_response_timeout
dispatch_expiry segmented_request = request_segments_timeout
dispatch_expiry await_response = await_response_timeout
dispatch_expiry segmented_response = segmented_response_timeout
dispatch_expiry completed = pure tt
dispatch_expiry aborted = pure tt
dispatch_expiry idle = raise runtime_error
dispatch_expiry await_confirmation = raise runtime_error
dispatch_expiry segmented_confirmation = raise runtime_error

-- `ServerSSM.timer_expired`: the handle has fired, and no timer runs until one is started.
unfoldable pub timer_expired : Method Done
unfolding dispatch_expiry
timer_expired = do
  modify (λ s. record s { timer = none })
  s ← gets (λ s. s)
  dispatch_expiry s.state
