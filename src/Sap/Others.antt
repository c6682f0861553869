-- ===== src/Sap/Others.antt =====
-- bacpypes3/appservice.py, class ApplicationServiceAccessPoint: the search for a transaction, and those
-- that it passes by.
use bacpypes.Prelude.{
  ◌≡◌, refl, ap, Bool, true, false, Option, none, some, List, [], ◌∷◌, ◌++◌, All, Bool-cases, inl,
  inr, ◌⊎◌,
}
use bacpypes.Ssm.Types.{Ssm}
use bacpypes.Ssm.Monad.{Method, Done}
use bacpypes.Sap.{Transaction, Ran, still_tracked, run_one, behind, run_first}

-- What is left of a transaction that has run: itself with its new attributes, or nothing.
abbrev pub Stays : Transaction → Ssm → List Transaction → Type 0
Stays tr s kept =
    ((s.tracked ≡ true) × (kept ≡ record { pdu_address = tr.pdu_address; ssm = s } ∷ []))
    ⊎ ((s.tracked ≡ false) × (kept ≡ []))

still_tracked-Stays : (tr : Transaction) (s : Ssm) → Stays tr s (still_tracked tr.pdu_address s)
still_tracked-Stays tr s = elim (Bool-cases s.tracked) [
  | inl e ↦ simp (e) (inl (refl, refl))
  | inr e ↦ simp (e) (inr (refl, refl))
]

-- A transaction with what stands in front of it and behind it.
pub record Found (test : Transaction → Bool) (m : Method Done) (trs : List Transaction) (ran : Ran)
    : Type 0 where
  pub front : List Transaction
  pub tr : Transaction
  pub back : List Transaction
  pub stands : trs ≡ front ++ (tr ∷ back)
  pub passed : All (λ other. test other ≡ false) front
  pub meant : test tr ≡ true
  pub same_result : ran.0 ≡ (m (record { ssm = tr.ssm; sent = [] })).0
  pub same_sent : ran.2 ≡ (m (record { ssm = tr.ssm; sent = [] })).1.sent
  pub kept : List Transaction
  pub left : ran.1 ≡ front ++ (kept ++ back)
  pub ended : Stays tr (m (record { ssm = tr.ssm; sent = [] })).1.ssm kept

unfoldable pub IsDispatch :
    (Transaction → Bool) → Method Done → List Transaction → Option Ran → Type 0
IsDispatch test m trs none = All (λ tr. test tr ≡ false) trs
IsDispatch test m trs (some ran) = Found test m trs ran

run_one-Found :
    (test : Transaction → Bool) (m : Method Done) (tr : Transaction) (trs : List Transaction)
    → test tr ≡ true
    → Found test m (tr ∷ trs) (run_one m tr trs)
unfolding run_one
run_one-Found test m tr trs e = record {
  front = [];
  tr = tr;
  back = trs;
  stands = refl;
  passed = tt;
  meant = e;
  same_result = refl;
  same_sent = refl;
  kept = still_tracked tr.pdu_address (m (record { ssm = tr.ssm; sent = [] })).1.ssm;
  left = refl;
  ended = still_tracked-Stays tr (m (record { ssm = tr.ssm; sent = [] })).1.ssm;
}

behind-IsDispatch :
    (test : Transaction → Bool) (m : Method Done) (tr : Transaction) (trs : List Transaction)
    (o : Option Ran)
    → test tr ≡ false
    → IsDispatch test m trs o
    → IsDispatch test m (tr ∷ trs) (behind tr o)
unfolding IsDispatch
behind-IsDispatch test m tr trs none e h = (e, h)
behind-IsDispatch test m tr trs (some (r, left_trs, sent)) e h = record {
  front = tr ∷ h.front;
  tr = h.tr;
  back = h.back;
  stands = ap (λ l. tr ∷ l) h.stands;
  passed = (e, h.passed);
  meant = h.meant;
  same_result = h.same_result;
  same_sent = h.same_sent;
  kept = h.kept;
  left = ap (λ l. tr ∷ l) h.left;
  ended = h.ended;
}

-- The search runs the method on the first transaction of the list that the test is true of, with its
-- result and what it sends, and leaves all others as they are and in their places; or, if there is
-- none, finds nothing.
pub run_first-IsDispatch :
    (test : Transaction → Bool) (m : Method Done) (trs : List Transaction)
    → IsDispatch test m trs (run_first test m trs)
unfolding run_first IsDispatch
run_first-IsDispatch test m [] = tt
run_first-IsDispatch test m (tr ∷ trs) = elim (Bool-cases (test tr)) [
  | inl e ↦ rw e (run_one-Found test m tr trs e)
  | inr e ↦
      rw e
        (behind-IsDispatch test m tr trs (run_first test m trs) e (run_first-IsDispatch test m trs))
]
