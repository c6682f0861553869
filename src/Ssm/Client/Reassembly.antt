-- ===== src/Ssm/Client/Reassembly.antt =====
-- bacpypes3/appservice.py, ClientSSM.segmented_confirmation: the segments of an answer, in order.
use bacpypes.Prelude.{
  ℕ, ◌+◌, ◌%◌, ◌≡◌, refl, ◌∙◌, sym, ap, Bool, true, false, some, List, [], ◌∷◌, ◌++◌, append-nil,
  append_assoc, All-append, ◌==◌, All, Bool-cases, inl, inr, arith,
}
use bacpypes.Pdu.{Bytes, Result, ok, err}
use bacpypes.Apdu.Apci.{Apdu, complex_ack, segment_ack}
use bacpypes.Ssm.Types.{
  Ssm, World, Output, to_device, to_application, to_cache, communication_error, undecodable,
  segmented_confirmation, completed,
}
use bacpypes.Ssm.Monad.{Method, Done, ◌>>◌}
use bacpypes.Ssm.Segments.{extended, data_of}
use bacpypes.Ssm.Steps.{set_state, append_segment}
use bacpypes.Ssm.Client.{
  confirmation, dispatch, on_segmented_confirmation, segment_arrives, segment_in_order,
  send_segment_ack,
}

-- A transaction that receives the segments of `whole`, the last of which had the number `last`.
abbrev pub receiving : Ssm → Apdu → ℕ → ℕ → Ssm
receiving s whole last win = record s {
  state = segmented_confirmation;
  tracked = true;
  segment_apdu = some whole;
  last_sequence_number = last;
  actual_window_size = some win;
}

-- A SegmentAck without a NAK, to the device.
abbrev pub IsAck : Output → Type 0
IsAck (to_device apdu) =
    (seq win invoke_id : ℕ) × (apdu
      ≡ record { apci = segment_ack false false invoke_id seq win; pdu_data = [] })
IsAck (to_application apdu) = ⊥
IsAck (to_cache info) = ⊥
IsAck (communication_error invoke_id service) = ⊥
IsAck undecodable = ⊥

-- The transaction has ended, and after some acks to the device the whole APDU went up.
abbrev pub Completes : Apdu → List Output → Result Done × World → Type 0
Completes whole sent (err e, w) = ⊥
Completes whole sent (ok a, w) =
    (w.ssm.state ≡ completed)
    × (w.ssm.tracked ≡ false)
    × ((acks : List Output) × (w.sent ≡ sent ++ (acks ++ (to_application whole ∷ [])))
        × All IsAck acks)

-- What was sent before is sent before all that follows.
Completes-after :
    (whole whole' : Apdu) (sent acks : List Output) (r : Result Done × World)
    → whole ≡ whole'
    → All IsAck acks
    → Completes whole (sent ++ acks) r
    → Completes whole' sent r
Completes-after whole whole' sent acks (err e, w) same a h = h
Completes-after whole whole' sent acks (ok u, w) same a (state, tracked, (later, e, b)) = (
  state,
  tracked,
  (acks ++ later, e ∙ rw same (simp append_assoc), All-append IsAck acks later a b),
)

module _ (invoke_id service proposed win : ℕ) where
  abbrev pub segment : ℕ → Bool → Bytes → Apdu
  segment seq mor octets = record {
    apci = complex_ack (some (record { seq = seq; win = proposed })) mor invoke_id service;
    pdu_data = octets;
  }

  -- One segment after the other: `octets`, and those behind it.
  abbrev pub deliver_all : ℕ → Bytes → List Bytes → Method Done
  deliver_all last octets [] = confirmation (segment ((last + 1) % 256) false octets)
  deliver_all last octets (next ∷ others) =
      confirmation (segment ((last + 1) % 256) true octets)
      >> deliver_all ((last + 1) % 256) next others

  abbrev Goes : Ssm → Apdu → ℕ → List Output → Bytes → Type 0
  Goes s whole last sent octets =
      (s' : Ssm) × (acks : List Output) × (confirmation (segment ((last + 1) % 256) true octets)
          (record { ssm = receiving s whole last win; sent = sent })
        ≡ (
          ok tt,
          record {
            ssm = receiving s' (extended whole octets) ((last + 1) % 256) win;
            sent = sent ++ acks;
          },
        ))
      × All IsAck acks

  confirmation-Goes :
      (s : Ssm) (whole : Apdu) (last : ℕ) (sent : List Output) (octets : Bytes)
      → Goes s whole last sent octets
  unfolding confirmation dispatch on_segmented_confirmation segment_arrives append_segment
      segment_in_order send_segment_ack
  confirmation-Goes s whole last sent octets =
      let next : ℕ = (last + 1) % 256 in
      let in_order : next == next ≡ true = ground arith in
      elim (Bool-cases (next == (s.initial_sequence_number + win) % 256)) [
        | inl full ↦ (
          record s { initial_sequence_number = next; timer = some s.settings.segment_timeout },
          to_device (record { apci = segment_ack false false s.invoke_id next win; pdu_data = [] })
              ∷ [],
          rw (in_order, full) refl,
          ((next, win, s.invoke_id, refl), tt),
        )
        | inr part ↦ (
          record s { timer = some s.settings.segment_timeout },
          [],
          rw (in_order, part)
              (ap (λ l. (ok tt, record { ssm = _; sent = l })) (sym (append-nil sent))),
          tt,
        )
      ]

  confirmation-Completes :
      (s : Ssm) (whole : Apdu) (last : ℕ) (sent : List Output) (octets : Bytes)
      → Completes (extended whole octets) sent (
          confirmation
            (segment ((last + 1) % 256) false octets)
            (record { ssm = receiving s whole last win; sent = sent }))
  unfolding confirmation dispatch on_segmented_confirmation segment_arrives append_segment
      segment_in_order send_segment_ack set_state
  confirmation-Completes s whole last sent octets =
      let next : ℕ = (last + 1) % 256 in
      let in_order : next == next ≡ true = ground arith in
      rw in_order (
        refl,
        refl,
        (
          to_device (record { apci = segment_ack false false s.invoke_id next win; pdu_data = [] })
              ∷ [],
          rw append_assoc,
          ((next, win, s.invoke_id, refl), tt),
        ),
      )

  -- A client transaction that receives a segmented answer, and is given the rest of its segments in
  -- order, returns from each and completes: it leaves the access point's list, sends only acks
  -- without a NAK to the device, and hands the application the APDU with all data in order, however
  -- many segments there are.
  pub deliver_all-Completes :
      (s : Ssm) (whole : Apdu) (last : ℕ) (sent : List Output) (octets : Bytes)
      (others : List Bytes)
      → Completes (extended whole (data_of octets others)) sent (
          deliver_all last octets others (record { ssm = receiving s whole last win; sent = sent }))
  deliver_all-Completes s whole last sent octets [] =
      confirmation-Completes s whole last sent octets
  deliver_all-Completes s whole last sent octets (next ∷ others) =
      let (s', acks, e, a) = confirmation-Goes s whole last sent octets in
      rw e (
        Completes-after _ _ sent acks _
          (ap (λ d. record whole { pdu_data = d })
            (append_assoc whole.pdu_data octets (data_of next others)))
          a
          (deliver_all-Completes s' (extended whole octets) ((last + 1) % 256) (sent ++ acks) next
            others))
