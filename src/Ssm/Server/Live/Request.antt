-- ===== src/Ssm/Server/Live/Request.antt =====
-- bacpypes3/appservice.py, class ServerSSM: the request side and the invariant.
use bacpypes.Prelude.{ℕ, ◌+◌, ◌%◌, Bool, true, false, not, refl, arith, Option, none, some, ◌==◌}
use bacpypes.Pdu.{runtime_error, type_error}
use bacpypes.Apdu.Apci.{
  Apci, Apdu, Segment, confirmed_request, unconfirmed_request, simple_ack, complex_ack, segment_ack,
  error, reject, abort,
}
use bacpypes.Apdu.Limits.{decode_max_segments_accepted, decode_max_apdu_length_accepted}
use bacpypes.Ssm.Types.{
  Segmentation, DeviceInfo, can_receive, completed, aborted, segmented_request, await_response,
}
use bacpypes.Ssm.Steps.{set_state}
use bacpypes.Ssm.Keeps.{
  listed, Revives, Revives-set_state, Keeps, Keeps-continue, kept, Keeps-need, Keeps-lift, Keeps-if,
  Keeps-start_timer, Keeps-set_state,
}
use bacpypes.Ssm.Client.Live.Steps.{TimeoutSet, modified, timed}
use bacpypes.Ssm.Client.Live.Answer.{Keeps-append_segment}
use bacpypes.Ssm.Server.{
  hand_up, server_abort, refuse, refuse_both, answer_device, server_segment_ack, learned,
  update_info, learn, first_segment, request_begins, on_idle, request_in_order, request_segment,
  on_request_segments,
}

pub Keeps-hand_up :
    (decodes : Apdu → Bool) (apdu : Apdu) (a : Apci) → Keeps (hand_up decodes apdu a)
unfolding hand_up
Keeps-hand_up decodes apdu (confirmed_request seg mor sa max_segs max_resp invoke_id service) w g =
    kept _ _ g
Keeps-hand_up decodes apdu (unconfirmed_request service) w g = kept _ _ g
Keeps-hand_up decodes apdu (simple_ack invoke_id service) w g = kept _ _ g
Keeps-hand_up decodes apdu (complex_ack seg mor invoke_id service) w g = kept _ _ g
Keeps-hand_up decodes apdu (segment_ack nak srv invoke_id seq win) w g = kept _ _ g
Keeps-hand_up decodes apdu (error invoke_id service) w g = kept _ _ g
Keeps-hand_up decodes apdu (reject invoke_id reason) w g = kept _ _ g
Keeps-hand_up decodes apdu (abort srv invoke_id reason) w g = kept _ _ g

pub Revives-server_abort : (reason : ℕ) → Revives (server_abort reason)
unfolding server_abort
Revives-server_abort reason w g =
    Keeps-continue (set_state aborted 0 w) _ (Revives-set_state aborted 0 (λ e. ground arith) w g)
      λ _ v h. kept _ _ h

pub Keeps-server_abort : (reason : ℕ) → Keeps (server_abort reason)
Keeps-server_abort reason w g = Revives-server_abort reason w (listed w.ssm g)

pub Keeps-refuse : (reason : ℕ) → Keeps (refuse reason)
unfolding refuse
Keeps-refuse reason w g = Keeps-continue _ _ (Keeps-server_abort reason w g) λ _ v h. kept _ _ h

pub Keeps-refuse_both : (reason : ℕ) → Keeps (refuse_both reason)
unfolding refuse_both
Keeps-refuse_both reason w g =
    Keeps-continue _ _ (Keeps-server_abort reason w g) λ _ v h. kept _ _ h

pub Keeps-answer_completed : (apdu : Apdu) → Keeps (answer_device completed apdu)
unfolding answer_device
Keeps-answer_completed apdu w g =
    Keeps-continue _ _ (Keeps-set_state completed 0 (λ e. ground arith) w g) λ _ v h. kept _ _ h

pub Keeps-answer_aborted : (apdu : Apdu) → Keeps (answer_device aborted apdu)
unfolding answer_device
Keeps-answer_aborted apdu w g =
    Keeps-continue _ _ (Keeps-set_state aborted 0 (λ e. ground arith) w g) λ _ v h. kept _ _ h

pub Keeps-server_segment_ack : (nak : Bool) (seq : ℕ) → Keeps (server_segment_ack nak seq)
unfolding server_segment_ack
Keeps-server_segment_ack nak seq w g =
    Keeps-continue _ _ (Keeps-need w.ssm.actual_window_size type_error w g) λ _ v h. kept _ _ h

Keeps-update_info : (info : DeviceInfo) (o : Option Segmentation) → Keeps (update_info info o)
unfolding update_info
Keeps-update_info info none w g = kept _ _ g
Keeps-update_info info (some supported) w g = kept _ _ (modified w.ssm _ refl refl refl refl g)

Keeps-learn : (sa : Bool) (info : Option DeviceInfo) → Keeps (learn sa info)
unfolding learn
Keeps-learn false info w g = kept _ _ g
Keeps-learn true none w g = kept _ _ g
Keeps-learn true (some info) w g = Keeps-update_info info (learned info.segmentation_supported) w g

Keeps-first_segment : (apdu : Apdu) (seg : Segment) → Keeps (first_segment apdu seg)
unfolding first_segment
Keeps-first_segment apdu seg w g =
    Keeps-continue _ _
      (Keeps-set_state segmented_request _ (λ _. (TimeoutSet w g).1) _
        (modified w.ssm _ refl refl refl refl g))
      λ _. Keeps-server_segment_ack false _

Keeps-request_begins :
    (decodes : Apdu → Bool) (apdu : Apdu) (seg : Option Segment)
    → Keeps (request_begins decodes apdu seg)
unfolding request_begins
Keeps-request_begins decodes apdu none w g =
    Keeps-continue _ _ (Keeps-set_state await_response _ (λ _. (TimeoutSet w g).2) w g)
      λ _. Keeps-hand_up decodes apdu apdu.apci
Keeps-request_begins decodes apdu (some seg) w g =
    Keeps-if (not (can_receive w.ssm.settings.segmentation_supported)) _ _ (Keeps-refuse _)
      (Keeps-first_segment apdu seg) w g

pub Keeps-on_idle :
    (decodes : Apdu → Bool) (info : Option DeviceInfo) (apdu : Apdu) (a : Apci)
    → Keeps (on_idle decodes info apdu a)
unfolding on_idle
Keeps-on_idle decodes info apdu (confirmed_request seg mor sa max_segs max_resp invoke_id service) w
      g =
    Keeps-continue _ _ (Keeps-learn sa info _ (modified w.ssm _ refl refl refl refl g)) λ _ w1 g1.
      Keeps-continue _ _ (Keeps-lift (decode_max_apdu_length_accepted max_resp) w1 g1) λ len w2 g2.
        Keeps-continue _ _
          (Keeps-lift (decode_max_segments_accepted max_segs) _
            (modified w2.ssm _ refl refl refl refl g2))
          λ segs w3 g3.
            Keeps-request_begins decodes apdu seg _ (modified w3.ssm _ refl refl refl refl g3)
Keeps-on_idle decodes info apdu (unconfirmed_request service) w g = kept _ _ g
Keeps-on_idle decodes info apdu (simple_ack invoke_id service) w g = kept _ _ g
Keeps-on_idle decodes info apdu (complex_ack seg mor invoke_id service) w g = kept _ _ g
Keeps-on_idle decodes info apdu (segment_ack nak srv invoke_id seq win) w g = kept _ _ g
Keeps-on_idle decodes info apdu (error invoke_id service) w g = kept _ _ g
Keeps-on_idle decodes info apdu (reject invoke_id reason) w g = kept _ _ g
Keeps-on_idle decodes info apdu (abort srv invoke_id reason) w g = kept _ _ g

Keeps-request_in_order :
    (decodes : Apdu → Bool) (seg : Segment) (mor : Bool) → Keeps (request_in_order decodes seg mor)
unfolding request_in_order
Keeps-request_in_order decodes seg false w g =
    Keeps-continue _ _ (Keeps-server_segment_ack false w.ssm.last_sequence_number w g) λ _ v h.
      Keeps-continue _ _ (Keeps-set_state await_response _ (λ _. (TimeoutSet w g).2) v h) λ _ u k.
        Keeps-continue _ _ (Keeps-need w.ssm.segment_apdu runtime_error u k)
          λ whole. Keeps-hand_up decodes whole _
Keeps-request_in_order decodes seg true w g =
    Keeps-continue _ _ (Keeps-need w.ssm.actual_window_size type_error w g) λ win.
      Keeps-if (seg.seq == (w.ssm.initial_sequence_number + win) % 256) _ _
        (λ v h.
          Keeps-server_segment_ack false w.ssm.last_sequence_number _
            (timed v.ssm _ refl refl refl refl h))
        (Keeps-start_timer _)

Keeps-request_segment :
    (decodes : Apdu → Bool) (apdu : Apdu) (seg : Option Segment) (mor : Bool)
    → Keeps (request_segment decodes apdu seg mor)
unfolding request_segment
Keeps-request_segment decodes apdu none mor w g = Keeps-refuse_both _ w g
Keeps-request_segment decodes apdu (some seg) mor w g =
    Keeps-if (not (seg.seq == (w.ssm.last_sequence_number + 1) % 256)) _ _
      (λ v h.
        Keeps-server_segment_ack true w.ssm.initial_sequence_number _
          (timed v.ssm _ refl refl refl refl h))
      (λ v h.
        Keeps-continue _ _ (Keeps-append_segment apdu.pdu_data v h) λ _ u k.
          Keeps-request_in_order decodes seg mor _ (modified u.ssm _ refl refl refl refl k))
      w g

pub Keeps-on_request_segments :
    (decodes : Apdu → Bool) (apdu : Apdu) (a : Apci) → Keeps (on_request_segments decodes apdu a)
unfolding on_request_segments
Keeps-on_request_segments decodes apdu (abort srv invoke_id reason) w g =
    Keeps-answer_completed apdu w g
Keeps-on_request_segments decodes apdu
      (confirmed_request seg mor sa max_segs max_resp invoke_id service) w g =
    Keeps-request_segment decodes apdu seg mor w g
Keeps-on_request_segments decodes apdu (unconfirmed_request service) w g = Keeps-refuse_both _ w g
Keeps-on_request_segments decodes apdu (simple_ack invoke_id service) w g = Keeps-refuse_both _ w g
Keeps-on_request_segments decodes apdu (complex_ack seg mor invoke_id service) w g =
    Keeps-refuse_both _ w g
Keeps-on_request_segments decodes apdu (segment_ack nak srv invoke_id seq win) w g =
    Keeps-refuse_both _ w g
Keeps-on_request_segments decodes apdu (error invoke_id service) w g = Keeps-refuse_both _ w g
Keeps-on_request_segments decodes apdu (reject invoke_id reason) w g = Keeps-refuse_both _ w g
