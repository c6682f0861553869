-- ===== src/Ssm/Client/Live/Request.antt =====
-- bacpypes3/appservice.py, class ClientSSM: the request's side.
use bacpypes.Prelude.{
  ℕ, ◌+◌, ◌/◌, ◌%◌, ◌<◌, ◌≡◌, refl, true, false, Bool-cases, inl, inr, if◌then◌else◌, Bool, not,
  Option, none, some, length, ◌==◌, arith,
}
use bacpypes.Apdu.Apci.{
  Apci, Apdu, Segment, confirmed_request, unconfirmed_request, simple_ack, complex_ack, segment_ack,
  error, reject, abort,
}
use bacpypes.Pdu.{ok}
use bacpypes.Ssm.Reason
use bacpypes.Ssm.Types.{
  DeviceInfo, World, completed, segmented_request, await_confirmation, segmented_confirmation,
}
use bacpypes.Ssm.Monad.{Method, Done}
use bacpypes.Ssm.Steps.{in_window, count_segments}
use bacpypes.Ssm.Keeps.{
  IsLive, IsListed, listed, Revives, Revives-if, Revives-set_state, Kept, Keeps, Keeps-continue,
  kept, Keeps-lift, Keeps-if, Keeps-start_timer, Keeps-set_state,
}
use bacpypes.Ssm.Client.{
  segment_size_for, deliver, begin, start_or_refuse, start_request, indication_apci, indication,
  request_acked, response_begins, request_answered, when_all_sent, on_segmented_request,
}
use bacpypes.Ssm.Client.Live.Steps.{
  Revives-give_up, relisted, ListedTimeoutSet, Keeps-give_up_both, Keeps-finish-completed,
  Keeps-get_segment, Keeps-window_size, Keeps-fill_window, TimeoutSet, modified,
}

pub Keeps-deliver :
    (delivered : Bool) (invoke_id service : ℕ) → Keeps (deliver delivered invoke_id service)
unfolding deliver
Keeps-deliver delivered invoke_id service w g = Keeps-continue _ _ (Keeps-get_segment 0 w g) λ apdu.
    Keeps-if delivered _ _ (λ v h. kept _ _ h)
      λ v h.
        Keeps-continue _ _ (Keeps-set_state completed 0 (λ e. ground arith) v h)
          λ _ v' h'. kept _ _ h'

pub Revives-begin : (count : ℕ) → Revives (begin count)
unfolding begin
Revives-begin count w g =
    let t = ListedTimeoutSet w.ssm g in
    Revives-if (count == 1) _ _
      (λ v h.
        Revives-set_state await_confirmation _ (λ _. t.0) _ (relisted v.ssm _ refl refl refl h))
      (λ v h.
        Revives-set_state segmented_request _ (λ _. t.1) _ (relisted v.ssm _ refl refl refl h))
      w g

pub Revives-start_or_refuse :
    (r : Option ℕ) (delivered : Bool) (count invoke_id service : ℕ)
    → Revives (start_or_refuse r delivered count invoke_id service)
unfolding start_or_refuse
Revives-start_or_refuse (some reason) delivered count invoke_id service w g =
    Revives-give_up reason w g
Revives-start_or_refuse none delivered count invoke_id service w g =
    Keeps-continue _ _ (Revives-begin count w g) λ _. Keeps-deliver delivered invoke_id service

Keeps-start_or_refuse :
    (r : Option ℕ) (delivered : Bool) (count invoke_id service : ℕ)
    → Keeps (start_or_refuse r delivered count invoke_id service)
Keeps-start_or_refuse r delivered count invoke_id service w g =
    Revives-start_or_refuse r delivered count invoke_id service w (listed w.ssm g)

pub Keeps-start_request :
    (info : Option DeviceInfo) (delivered : Bool) (apdu : Apdu) (invoke_id service : ℕ)
    → Keeps (start_request info delivered apdu invoke_id service)
unfolding start_request
Keeps-start_request info delivered apdu invoke_id service w g =
    Keeps-continue _ _
      (Keeps-lift
        (count_segments (length apdu.pdu_data)
          (segment_size_for w.ssm.max_apdu_length_accepted info))
        _ (modified w.ssm _ refl refl refl refl g))
      λ count v h.
        Keeps-start_or_refuse _ delivered count invoke_id service _
          (modified v.ssm _ refl refl refl refl h)

pub Keeps-indication_apci :
    (info : Option DeviceInfo) (delivered : Bool) (apdu : Apdu) (a : Apci)
    → Keeps (indication_apci info delivered apdu a)
unfolding indication_apci
Keeps-indication_apci info delivered apdu
      (confirmed_request seg mor sa max_segs max_resp invoke_id service) w g =
    Keeps-start_request info delivered apdu invoke_id service w g
Keeps-indication_apci info delivered apdu (unconfirmed_request service) w g = kept _ _ g
Keeps-indication_apci info delivered apdu (simple_ack invoke_id service) w g = kept _ _ g
Keeps-indication_apci info delivered apdu (complex_ack seg mor invoke_id service) w g = kept _ _ g
Keeps-indication_apci info delivered apdu (segment_ack nak srv invoke_id seq win) w g = kept _ _ g
Keeps-indication_apci info delivered apdu (error invoke_id service) w g = kept _ _ g
Keeps-indication_apci info delivered apdu (reject invoke_id reason) w g = kept _ _ g
Keeps-indication_apci info delivered apdu (abort srv invoke_id reason) w g = kept _ _ g

-- A request started on a live transaction leaves it live, whatever the answer of the device
-- information cache, the length of the request and the fate of its first segment, and also when it
-- is refused or an error is raised.
pub indication-IsLive :
    (info : Option DeviceInfo) (delivered : Bool) (apdu : Apdu) (w : World)
    → IsLive w.ssm
    → Kept (indication info delivered apdu w)
unfolding indication
indication-IsLive info delivered apdu = Keeps-indication_apci info delivered apdu apdu.apci

count_segments_returns :
    (len size : ℕ) → 0 < size → (count : ℕ) × (count_segments len size ≡ ok count)
unfolding count_segments
count_segments_returns len size h = elim (Bool-cases (len == 0)) [
  | inl e ↦ rw e (1, refl)
  | inr e ↦
      (let set : (size == 0) ≡ false = ground arith in
        rw (e, set) (len / size + (if len % size == 0 then 0 else 1), refl))
]

Revives-start_request :
    (info : Option DeviceInfo) (delivered : Bool) (apdu : Apdu) (invoke_id service : ℕ) (w : World)
    → 0 < segment_size_for w.ssm.max_apdu_length_accepted info
    → IsListed w.ssm
    → Kept (start_request info delivered apdu invoke_id service w)
unfolding start_request
Revives-start_request info delivered apdu invoke_id service w size g =
    let size_known = segment_size_for w.ssm.max_apdu_length_accepted info in
    let counted = count_segments_returns (length apdu.pdu_data) size_known size in
    rw counted.1 (
      Revives-start_or_refuse _ delivered counted.0 invoke_id service _
        (relisted w.ssm _ refl refl refl g))

abbrev pub is_request : Apci → Bool
is_request (confirmed_request seg mor sa max_segs max_resp invoke_id service) = true
is_request _ = false

-- A confirmed request whose segment size is known starts a timer or ends the transaction.
pub Revives-indication :
    (info : Option DeviceInfo) (delivered : Bool) (apdu : Apdu) (a : Apci) (w : World)
    → is_request a ≡ true
    → 0 < segment_size_for w.ssm.max_apdu_length_accepted info
    → IsListed w.ssm
    → Kept (indication_apci info delivered apdu a w)
unfolding indication_apci
Revives-indication info delivered apdu
      (confirmed_request seg mor sa max_segs max_resp invoke_id service) w e size g =
    Revives-start_request info delivered apdu invoke_id service w size g
Revives-indication info delivered apdu (unconfirmed_request service) w e size g =
    absurd (ground arith)
Revives-indication info delivered apdu (simple_ack invoke_id service) w e size g =
    absurd (ground arith)
Revives-indication info delivered apdu (complex_ack seg mor invoke_id service) w e size g =
    absurd (ground arith)
Revives-indication info delivered apdu (segment_ack nak srv invoke_id seq win) w e size g =
    absurd (ground arith)
Revives-indication info delivered apdu (error invoke_id service) w e size g = absurd (ground arith)
Revives-indication info delivered apdu (reject invoke_id reason) w e size g = absurd (ground arith)
Revives-indication info delivered apdu (abort srv invoke_id reason) w e size g =
    absurd (ground arith)

pub Keeps-in_window : (seq_a seq_b : ℕ) → Keeps (in_window seq_a seq_b)
unfolding in_window
Keeps-in_window seq_a seq_b w g = Keeps-continue _ _ (Keeps-window_size w g) λ size v h. kept _ _ h

pub Keeps-request_acked : (seq win : ℕ) → Keeps (request_acked seq win)
unfolding request_acked
Keeps-request_acked seq win w g =
    let t = TimeoutSet w g in
    Keeps-continue _ _
      (Keeps-in_window seq w.ssm.initial_sequence_number _ (modified w.ssm _ refl refl refl refl g))
      λ inside. Keeps-if (not inside) _ _ (Keeps-start_timer _) (
        Keeps-if w.ssm.sent_all_segments _ _ (Keeps-set_state await_confirmation _ λ _. t.0) λ v h.
          Keeps-continue _ _
            (Keeps-fill_window ((seq + 1) % 256) _ (modified v.ssm _ refl refl refl refl h))
            λ _. Keeps-start_timer _)

pub Keeps-response_begins : (apdu : Apdu) (seg : Segment) → Keeps (response_begins apdu seg)
unfolding response_begins
Keeps-response_begins apdu seg w g =
    Keeps-set_state segmented_confirmation _ (λ _. (TimeoutSet w g).1) _
      (modified w.ssm _ refl refl refl refl g)

pub Keeps-request_answered :
    (apdu : Apdu) (seg : Option Segment) → Keeps (request_answered apdu seg)
unfolding request_answered
Keeps-request_answered apdu none w g = Keeps-finish-completed apdu w g
Keeps-request_answered apdu (some seg) w g = Keeps-response_begins apdu seg w g

pub Keeps-when_all_sent : (m : Method Done) → Keeps m → Keeps (when_all_sent m)
unfolding when_all_sent
Keeps-when_all_sent m h w g =
    Keeps-if w.ssm.sent_all_segments _ _ h (Keeps-give_up_both Reason.invalid_apdu_in_this_state) w
      g

pub Keeps-on_segmented_request : (apdu : Apdu) (a : Apci) → Keeps (on_segmented_request apdu a)
unfolding on_segmented_request
Keeps-on_segmented_request apdu (segment_ack nak srv invoke_id seq win) w g =
    Keeps-request_acked seq win w g
Keeps-on_segmented_request apdu (simple_ack invoke_id service) w g =
    Keeps-when_all_sent _ (Keeps-finish-completed apdu) w g
Keeps-on_segmented_request apdu (complex_ack seg mor invoke_id service) w g =
    Keeps-when_all_sent _ (Keeps-request_answered apdu seg) w g
Keeps-on_segmented_request apdu (error invoke_id service) w g = Keeps-finish-completed apdu w g
Keeps-on_segmented_request apdu (reject invoke_id reason) w g = Keeps-finish-completed apdu w g
Keeps-on_segmented_request apdu (abort srv invoke_id reason) w g = Keeps-finish-completed apdu w g
Keeps-on_segmented_request apdu (unconfirmed_request service) w g = kept _ _ g
Keeps-on_segmented_request apdu (confirmed_request seg mor sa max_segs max_resp invoke_id service) w
      g =
    kept _ _ g
