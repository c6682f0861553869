-- ===== src/Sap/Answers.antt =====
-- bacpypes3/appservice.py, class ApplicationServiceAccessPoint: the transaction that takes an answer.
use bacpypes.Prelude.{
  ◌≡◌, refl, ap, Bool, true, false, Option, none, some, List, [], ◌∷◌, ◌++◌, All, inl, inr, ◌⊎◌, ℕ,
  ◌==◌, ==_iff, arith,
}
use bacpypes.Pdu.{ok}
use bacpypes.Address.{Address}
use bacpypes.Router.Keys.{address_key}
use bacpypes.Apdu.Apci.{
  Apci, Apdu, confirmed_request, unconfirmed_request, simple_ack, complex_ack, segment_ack, error,
  reject, abort,
}
use bacpypes.Ssm.Types.{DeviceInfo}
use bacpypes.Ssm.Client
use bacpypes.Sap.{
  Transaction, Ran, Sap, Outcome, is_for, run_first, or_return, with_clients, to_client, receive,
}
use bacpypes.Sap.Others.{Stays, IsDispatch, run_first-IsDispatch}

-- The transaction that a PDU is for.
abbrev pub Matches : ℕ → Address → Transaction → Type 0
Matches invoke_id source tr = (invoke_id ≡ tr.ssm.invoke_id) × (source ≡ tr.pdu_address)

Matches-is_for :
    (invoke_id : ℕ) (source : Address) (tr : Transaction)
    → is_for invoke_id source tr ≡ true
    → Matches invoke_id source tr
Matches-is_for invoke_id source tr h =
    let same_id : (invoke_id == tr.ssm.invoke_id) ≡ true = ground arith in
    let same_peer : address_key.same_key source tr.pdu_address ≡ true = ground arith in
    (
      (==_iff invoke_id tr.ssm.invoke_id).0 same_id,
      address_key.sound_law source tr.pdu_address same_peer,
    )

is_for-refused :
    (invoke_id : ℕ) (source : Address) (tr : Transaction)
    → is_for invoke_id source tr ≡ false
    → ¬ Matches invoke_id source tr
is_for-refused invoke_id source tr h (same_id, same_peer) =
    let found_id = (==_iff invoke_id tr.ssm.invoke_id).1 same_id in
    let found_peer : address_key.same_key source tr.pdu_address ≡ true =
      rw same_peer (address_key.refl_law tr.pdu_address) in
    ground (arith, h, found_id, found_peer)

All-refused :
    (invoke_id : ℕ) (source : Address) (trs : List Transaction)
    → All (λ tr. is_for invoke_id source tr ≡ false) trs
    → All (λ tr. ¬ Matches invoke_id source tr) trs
All-refused invoke_id source [] h = tt
All-refused invoke_id source (tr ∷ trs) (first, h) =
    (is_for-refused invoke_id source tr first, All-refused invoke_id source trs h)

-- The client transaction of an answer has taken it, and no other has changed.
pub record Taken (sap : Sap) (invoke_id : ℕ) (source : Address) (apdu : Apdu) (out : Outcome)
    : Type 0 where
  pub front : List Transaction
  pub tr : Transaction
  pub back : List Transaction
  pub kept : List Transaction
  pub stands : sap.client_transactions ≡ front ++ (tr ∷ back)
  pub passed : All (λ other. ¬ Matches invoke_id source other) front
  pub meant : Matches invoke_id source tr
  pub same_result : out.0 ≡ (Client.confirmation apdu (record { ssm = tr.ssm; sent = [] })).0
  pub same_sent : out.2 ≡ (Client.confirmation apdu (record { ssm = tr.ssm; sent = [] })).1.sent
  pub ended : Stays tr (Client.confirmation apdu (record { ssm = tr.ssm; sent = [] })).1.ssm kept
  pub left : out.1 ≡ record sap { client_transactions = front ++ (kept ++ back) }

abbrev pub IsAnswered : Sap → ℕ → Address → Apdu → Outcome → Type 0
IsAnswered sap invoke_id source apdu out =
    Taken sap invoke_id source apdu out
    ⊎ (All (λ tr. ¬ Matches invoke_id source tr) sap.client_transactions × (out ≡ (ok tt, sap, [])))

module _ (sap : Sap) (invoke_id : ℕ) (source : Address) (apdu : Apdu) where
  found-IsAnswered :
      (o : Option Ran)
      → IsDispatch (is_for invoke_id source) (Client.confirmation apdu) sap.client_transactions o
      → IsAnswered sap invoke_id source apdu
          (with_clients sap (or_return sap.client_transactions o))
  unfolding IsDispatch
  found-IsAnswered none h = inr (All-refused invoke_id source sap.client_transactions h, refl)
  found-IsAnswered (some (r, trs, sent)) h = inl (record {
    front = h.front;
    tr = h.tr;
    back = h.back;
    kept = h.kept;
    stands = h.stands;
    passed = All-refused invoke_id source h.front h.passed;
    meant = Matches-is_for invoke_id source h.tr h.meant;
    same_result = h.same_result;
    same_sent = h.same_sent;
    ended = h.ended;
    left = ap (λ l. record sap { client_transactions = l }) h.left;
  })

  to_client-IsAnswered : IsAnswered sap invoke_id source apdu (to_client sap invoke_id source apdu)
  to_client-IsAnswered =
      found-IsAnswered
        (run_first (is_for invoke_id source) (Client.confirmation apdu) sap.client_transactions)
        (run_first-IsDispatch (is_for invoke_id source) (Client.confirmation apdu)
          sap.client_transactions)

-- The invoke ID of a PDU for a client: an ack, an error or a reject, or of a segment ack or an abort one that a
-- server sent.
abbrev pub answers_to : Apci → Option ℕ
answers_to (simple_ack invoke_id service) = some invoke_id
answers_to (complex_ack seg mor invoke_id service) = some invoke_id
answers_to (error invoke_id service) = some invoke_id
answers_to (reject invoke_id reason) = some invoke_id
answers_to (segment_ack nak true invoke_id seq win) = some invoke_id
answers_to (abort true invoke_id reason) = some invoke_id
answers_to _ = none

abbrev number_of : Option ℕ → ℕ
number_of none = 0
number_of (some n) = n

-- A PDU for a client is taken by the first client transaction with its invoke ID and its source, if
-- there is one: the call has the result of that transaction's `confirmation`, sends what it sends,
-- leaves every other client transaction as it is and in its place, takes this one off the list if it has ended, and
-- does not touch the server transactions. If there is none, nothing changes and nothing is sent.
pub receive-IsAnswered :
    (sap : Sap) (decodes : Apdu → Bool) (info : Option DeviceInfo) (source : Address) (apdu : Apdu)
    (apci : Apci) (invoke_id : ℕ)
    → answers_to apci ≡ some invoke_id
    → IsAnswered sap invoke_id source apdu (receive sap decodes info source apdu apci)
unfolding receive
receive-IsAnswered sap decodes info source apdu (simple_ack id service) invoke_id e =
    let same : id ≡ invoke_id = ap number_of e in
    rw same (to_client-IsAnswered sap invoke_id source apdu)
receive-IsAnswered sap decodes info source apdu (complex_ack seg mor id service) invoke_id e =
    let same : id ≡ invoke_id = ap number_of e in
    rw same (to_client-IsAnswered sap invoke_id source apdu)
receive-IsAnswered sap decodes info source apdu (error id service) invoke_id e =
    let same : id ≡ invoke_id = ap number_of e in
    rw same (to_client-IsAnswered sap invoke_id source apdu)
receive-IsAnswered sap decodes info source apdu (reject id reason) invoke_id e =
    let same : id ≡ invoke_id = ap number_of e in
    rw same (to_client-IsAnswered sap invoke_id source apdu)
receive-IsAnswered sap decodes info source apdu (segment_ack nak true id seq win) invoke_id e =
    let same : id ≡ invoke_id = ap number_of e in
    rw same (to_client-IsAnswered sap invoke_id source apdu)
receive-IsAnswered sap decodes info source apdu (abort true id reason) invoke_id e =
    let same : id ≡ invoke_id = ap number_of e in
    rw same (to_client-IsAnswered sap invoke_id source apdu)
receive-IsAnswered sap decodes info source apdu (segment_ack nak false id seq win) invoke_id e =
    absurd (ground arith)
receive-IsAnswered sap decodes info source apdu (abort false id reason) invoke_id e =
    absurd (ground arith)
receive-IsAnswered sap decodes info source apdu (unconfirmed_request service) invoke_id e =
    absurd (ground arith)
receive-IsAnswered sap decodes info source apdu
      (confirmed_request seg mor sa max_segs max_resp id service) invoke_id e =
    absurd (ground arith)
