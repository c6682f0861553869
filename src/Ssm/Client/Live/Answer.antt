-- ===== src/Ssm/Client/Live/Answer.antt =====
-- bacpypes3/appservice.py, class ClientSSM: the answer's side.
use bacpypes.Prelude.{◌+◌, ◌%◌, refl, Bool, true, false, not, Option, none, some, ◌==◌, arith}
use bacpypes.Pdu.{Bytes, runtime_error, type_error}
use bacpypes.Apdu.Apci.{
  Apci, Apdu, Segment, confirmed_request, unconfirmed_request, simple_ack, complex_ack, segment_ack,
  error, reject, abort,
}
use bacpypes.Ssm.Types.{can_receive, completed, segmented_confirmation}
use bacpypes.Ssm.Steps.{append_segment}
use bacpypes.Ssm.Keeps.{
  Keeps, Keeps-continue, kept, Keeps-need, Keeps-if, Keeps-start_timer, Keeps-set_state,
}
use bacpypes.Ssm.Client.{
  answer_begins, answered, on_await_confirmation, segment_in_order, segment_arrives,
  on_segmented_confirmation,
}
use bacpypes.Ssm.Client.Live.Steps.{
  Keeps-give_up, Keeps-give_up_both, Keeps-finish-completed, Keeps-finish-aborted,
  Keeps-send_segment_ack, TimeoutSet, modified, timed,
}

pub Keeps-answer_begins : (apdu : Apdu) (seg : Segment) → Keeps (answer_begins apdu seg)
unfolding answer_begins
Keeps-answer_begins apdu seg w g =
    Keeps-continue _ _
      (Keeps-set_state segmented_confirmation _ (λ _. (TimeoutSet w g).1) _
        (modified w.ssm _ refl refl refl refl g))
      λ _. Keeps-send_segment_ack false _

pub Keeps-answered : (apdu : Apdu) (seg : Option Segment) → Keeps (answered apdu seg)
unfolding answered
Keeps-answered apdu none w g = Keeps-finish-completed apdu w g
Keeps-answered apdu (some seg) w g =
    Keeps-if (not (can_receive w.ssm.settings.segmentation_supported)) _ _ (Keeps-give_up _)
      (Keeps-if (seg.seq == 0) _ _ (Keeps-answer_begins apdu seg) (Keeps-give_up_both _)) w g

pub Keeps-on_await_confirmation : (apdu : Apdu) (a : Apci) → Keeps (on_await_confirmation apdu a)
unfolding on_await_confirmation
Keeps-on_await_confirmation apdu (abort srv invoke_id reason) w g = Keeps-finish-aborted apdu w g
Keeps-on_await_confirmation apdu (simple_ack invoke_id service) w g =
    Keeps-finish-completed apdu w g
Keeps-on_await_confirmation apdu (error invoke_id service) w g = Keeps-finish-completed apdu w g
Keeps-on_await_confirmation apdu (reject invoke_id reason) w g = Keeps-finish-completed apdu w g
Keeps-on_await_confirmation apdu (complex_ack seg mor invoke_id service) w g =
    Keeps-answered apdu seg w g
Keeps-on_await_confirmation apdu (segment_ack nak srv invoke_id seq win) w g =
    Keeps-start_timer _ w g
Keeps-on_await_confirmation apdu (unconfirmed_request service) w g = kept _ _ g
Keeps-on_await_confirmation apdu (confirmed_request seg mor sa max_segs max_resp invoke_id service)
      w g =
    kept _ _ g

pub Keeps-append_segment : (octets : Bytes) → Keeps (append_segment octets)
unfolding append_segment
Keeps-append_segment octets w g =
    Keeps-continue _ _ (Keeps-need w.ssm.segment_apdu runtime_error w g)
      λ whole v h. kept _ _ (modified v.ssm _ refl refl refl refl h)

pub Keeps-segment_in_order : (seg : Segment) (mor : Bool) → Keeps (segment_in_order seg mor)
unfolding segment_in_order
Keeps-segment_in_order seg false w g =
    Keeps-continue _ _ (Keeps-send_segment_ack false w.ssm.last_sequence_number w g) λ _ v h.
      Keeps-continue _ _ (Keeps-set_state completed 0 (λ e. ground arith) v h) λ _ v' h'.
        Keeps-continue _ _ (Keeps-need v'.ssm.segment_apdu runtime_error v' h')
          λ whole u k. kept _ _ k
Keeps-segment_in_order seg true w g =
    Keeps-continue _ _ (Keeps-need w.ssm.actual_window_size type_error w g) λ win.
      Keeps-if (seg.seq == (w.ssm.initial_sequence_number + win) % 256) _ _
        (λ v h.
          Keeps-send_segment_ack false w.ssm.last_sequence_number _
            (timed v.ssm _ refl refl refl refl h))
        (Keeps-start_timer _)

pub Keeps-segment_arrives :
    (apdu : Apdu) (seg : Option Segment) (mor : Bool) → Keeps (segment_arrives apdu seg mor)
unfolding segment_arrives
Keeps-segment_arrives apdu none mor w g = Keeps-give_up_both _ w g
Keeps-segment_arrives apdu (some seg) mor w g =
    Keeps-if (not (seg.seq == (w.ssm.last_sequence_number + 1) % 256)) _ _
      (λ v h.
        Keeps-send_segment_ack true w.ssm.last_sequence_number _
          (timed v.ssm _ refl refl refl refl h))
      (λ v h.
        Keeps-continue _ _ (Keeps-append_segment apdu.pdu_data v h)
          λ _ u k. Keeps-segment_in_order seg mor _ (modified u.ssm _ refl refl refl refl k))
      w g

pub Keeps-on_segmented_confirmation :
    (apdu : Apdu) (a : Apci) → Keeps (on_segmented_confirmation apdu a)
unfolding on_segmented_confirmation
Keeps-on_segmented_confirmation apdu (complex_ack seg mor invoke_id service) w g =
    Keeps-segment_arrives apdu seg mor w g
Keeps-on_segmented_confirmation apdu (abort srv invoke_id reason) w g = Keeps-give_up_both _ w g
Keeps-on_segmented_confirmation apdu (simple_ack invoke_id service) w g = Keeps-give_up_both _ w g
Keeps-on_segmented_confirmation apdu (error invoke_id service) w g = Keeps-give_up_both _ w g
Keeps-on_segmented_confirmation apdu (reject invoke_id reason) w g = Keeps-give_up_both _ w g
Keeps-on_segmented_confirmation apdu (segment_ack nak srv invoke_id seq win) w g =
    Keeps-give_up_both _ w g
Keeps-on_segmented_confirmation apdu (unconfirmed_request service) w g = Keeps-give_up_both _ w g
Keeps-on_segmented_confirmation apdu
      (confirmed_request seg mor sa max_segs max_resp invoke_id service) w g =
    Keeps-give_up_both _ w g
