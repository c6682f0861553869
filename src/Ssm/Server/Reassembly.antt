-- ===== src/Ssm/Server/Reassembly.antt =====
-- bacpypes3/appservice.py, ServerSSM.segmented_request: the segments of a request, in order.
use bacpypes.Prelude.{
  ℕ, ◌+◌, ◌%◌, ◌≡◌, refl, ◌∙◌, sym, ap, Bool, true, false, Option, some, List, [], ◌∷◌, ◌++◌,
  append-nil, append_assoc, All-append, ◌==◌, if◌then◌else◌, All, Bool-cases, inl, inr, arith,
}
use bacpypes.Pdu.{Bytes, Result, ok, err}
use bacpypes.Apdu.Apci.{Apdu, Segment, confirmed_request, segment_ack}
use bacpypes.Ssm.Types.{
  Ssm, World, DeviceInfo, Output, to_device, to_application, to_cache, communication_error,
  undecodable, segmented_request, await_response,
}
use bacpypes.Ssm.Monad.{Method, Done, ◌>>◌}
use bacpypes.Ssm.Segments.{data_of}
use bacpypes.Ssm.Steps.{set_state, append_segment, timer_of}
use bacpypes.Ssm.Server.{
  indication, dispatch_indication, on_request_segments, request_segment, request_in_order,
  server_segment_ack, hand_up,
}

-- A transaction that receives the segments of `whole`, the last of which had the number `last`.
abbrev pub request_receiving : Ssm → Apdu → ℕ → ℕ → Ssm
request_receiving s whole last win = record s {
  state = segmented_request;
  tracked = true;
  segment_apdu = some whole;
  last_sequence_number = last;
  actual_window_size = some win;
}

-- A server's SegmentAck without a NAK, to the device.
abbrev pub IsServerAck : Output → Type 0
IsServerAck (to_device apdu) =
    (seq win invoke_id : ℕ) × (apdu
      ≡ record { apci = segment_ack false true invoke_id seq win; pdu_data = [] })
IsServerAck (to_application apdu) = ⊥
IsServerAck (to_cache info) = ⊥
IsServerAck (communication_error invoke_id service) = ⊥
IsServerAck undecodable = ⊥

-- The transaction waits for the application, and after some acks to the device `last` was sent.
abbrev pub HandsUp : Output → List Output → Result Done × World → Type 0
HandsUp last sent (err e, w) = ⊥
HandsUp last sent (ok a, w) =
    (w.ssm.state ≡ await_response)
    × (w.ssm.tracked ≡ true)
    × (w.ssm.timer ≡ timer_of w.ssm.settings.application_timeout)
    × ((acks : List Output) × (w.sent ≡ sent ++ (acks ++ (last ∷ []))) × All IsServerAck acks)

HandsUp-after :
    (last last' : Output) (sent acks : List Output) (r : Result Done × World)
    → last ≡ last'
    → All IsServerAck acks
    → HandsUp last (sent ++ acks) r
    → HandsUp last' sent r
HandsUp-after last last' sent acks (err e, w) same a h = h
HandsUp-after last last' sent acks (ok u, w) same a (state, tracked, timer, (later, e, b)) = (
  state,
  tracked,
  timer,
  (acks ++ later, e ∙ rw same (simp append_assoc), All-append IsServerAck acks later a b),
)

module _ (decodes : Apdu → Bool) (info : Option DeviceInfo)
    (max_segs max_resp invoke_id service proposed win : ℕ) (sa : Bool) where
  abbrev pub request_of : Option Segment → Bool → Bytes → Apdu
  request_of seg mor octets = record {
    apci = confirmed_request seg mor sa max_segs max_resp invoke_id service;
    pdu_data = octets;
  }

  abbrev pub request_part : ℕ → Bool → Bytes → Apdu
  request_part seq mor octets = request_of (some (record { seq = seq; win = proposed })) mor octets

  -- The first segment, with the data received so far.
  abbrev pub so_far : Bytes → Apdu
  so_far octets = request_part 0 true octets

  -- One segment after the other: `octets`, and those behind it.
  abbrev pub receive_all : ℕ → Bytes → List Bytes → Method Done
  receive_all last octets [] =
      indication decodes info (request_part ((last + 1) % 256) false octets)
  receive_all last octets (next ∷ others) =
      indication decodes info (request_part ((last + 1) % 256) true octets)
      >> receive_all ((last + 1) % 256) next others

  -- What goes up for a whole request.
  abbrev pub handed : Apdu → Output
  handed whole = if decodes whole then to_application whole else undecodable

  abbrev Takes : Ssm → Bytes → ℕ → List Output → Bytes → Type 0
  Takes s got last sent octets =
      (s' : Ssm) × (acks : List Output) × (indication decodes info
          (request_part ((last + 1) % 256) true octets)
          (record { ssm = request_receiving s (so_far got) last win; sent = sent })
        ≡ (
          ok tt,
          record {
            ssm = request_receiving s' (so_far (got ++ octets)) ((last + 1) % 256) win;
            sent = sent ++ acks;
          },
        ))
      × All IsServerAck acks

  indication-Takes :
      (s : Ssm) (got : Bytes) (last : ℕ) (sent : List Output) (octets : Bytes)
      → Takes s got last sent octets
  unfolding indication dispatch_indication on_request_segments request_segment append_segment
      request_in_order server_segment_ack
  indication-Takes s got last sent octets =
      let next : ℕ = (last + 1) % 256 in
      let in_order : next == next ≡ true = ground arith in
      elim (Bool-cases (next == (s.initial_sequence_number + win) % 256)) [
        | inl full ↦ (
          record s { initial_sequence_number = next; timer = some s.settings.segment_timeout },
          to_device (record { apci = segment_ack false true s.invoke_id next win; pdu_data = [] })
              ∷ [],
          rw (in_order, full) refl,
          ((next, win, s.invoke_id, refl), tt),
        )
        | inr part ↦ (
          record s { timer = some s.settings.segment_timeout },
          [],
          rw (in_order, part)
              (ap (λ l. (ok tt, record { ssm = _; sent = l })) (sym (append-nil sent))),
          tt,
        )
      ]

  indication-HandsUp :
      (s : Ssm) (got : Bytes) (last : ℕ) (sent : List Output) (octets : Bytes)
      → HandsUp (handed (so_far (got ++ octets))) sent (
          indication decodes info
            (request_part ((last + 1) % 256) false octets)
            (record { ssm = request_receiving s (so_far got) last win; sent = sent }))
  unfolding indication dispatch_indication on_request_segments request_segment append_segment
      request_in_order server_segment_ack set_state hand_up
  indication-HandsUp s got last sent octets =
      let next : ℕ = (last + 1) % 256 in
      let in_order : next == next ≡ true = ground arith in
      rw in_order (
        refl,
        refl,
        refl,
        (
          to_device (record { apci = segment_ack false true s.invoke_id next win; pdu_data = [] })
              ∷ [],
          rw append_assoc,
          ((next, win, s.invoke_id, refl), tt),
        ),
      )

  -- A server transaction that is given the rest of the segments of a segmented request in order
  -- returns from each, sends only acks without a NAK to the device, hands the request with all data
  -- in order up (or an Abort where it cannot be decoded), and waits for the application with its
  -- timer set, however many segments there are.
  pub receive_all-HandsUp :
      (s : Ssm) (got : Bytes) (last : ℕ) (sent : List Output) (octets : Bytes) (others : List Bytes)
      → HandsUp (handed (so_far (got ++ data_of octets others))) sent (
          receive_all last octets others
            (record { ssm = request_receiving s (so_far got) last win; sent = sent }))
  receive_all-HandsUp s got last sent octets [] = indication-HandsUp s got last sent octets
  receive_all-HandsUp s got last sent octets (next ∷ others) =
      let (s', acks, e, a) = indication-Takes s got last sent octets in
      rw e (
        HandsUp-after _ _ sent acks _
          (ap (λ d. handed (so_far d)) (append_assoc got octets (data_of next others))) a
          (receive_all-HandsUp s' (got ++ octets) ((last + 1) % 256) (sent ++ acks) next others))
