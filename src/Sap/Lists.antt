-- ===== src/Sap/Lists.antt =====
-- bacpypes3/appservice.py, class ApplicationServiceAccessPoint: its lists, before and after a
-- transaction has run.
use bacpypes.Prelude.{
  ◌≡◌, refl, Bool, true, Option, none, some, List, [], ◌∷◌, All, All-append, Bool-cases, inl, inr,
  arith,
}
use bacpypes.Pdu.{Result}
use bacpypes.Address.{Address}
use bacpypes.Ssm.Types.{Ssm, World}
use bacpypes.Ssm.Monad.{Method, Done}
use bacpypes.Ssm.Keeps.{IsLive, Kept, Keeps, TimeoutsSet}
use bacpypes.Sap.{
  Transaction, Sap, new_transaction, Ran, still_tracked, ran_one, run_one, behind, run_first,
  ran_new, or_new, with_clients, with_servers, or_return,
}

-- A transaction in a list is live, and has not ended.
pub record InList (tr : Transaction) : Type 0 where
  pub live : IsLive tr.ssm
  pub listed : tr.ssm.tracked ≡ true

unfoldable pub AllLive : List Transaction → Type 0
AllLive trs = All InList trs

pub record IsSound (sap : Sap) : Type 0 where
  pub clients_live : AllLive sap.client_transactions
  pub servers_live : AllLive sap.server_transactions
  pub timeouts_set : TimeoutsSet sap.settings

pub new_transaction-IsLive :
    (sap : Sap) (address : Address)
    → TimeoutsSet sap.settings
    → IsLive (new_transaction sap address).ssm
unfolding IsLive
new_transaction-IsLive sap address t = (refl, t, λ e. ground arith)

still_tracked-AllLive : (address : Address) (s : Ssm) → IsLive s → AllLive (still_tracked address s)
unfolding AllLive
still_tracked-AllLive address s live = elim (Bool-cases s.tracked) [
  | inl e ↦ simp (e) (record { live = live; listed = e }, tt)
  | inr e ↦ simp (e) tt
]

ran_one-AllLive :
    (tr : Transaction) (r : Result Done × World) (rest : List Transaction)
    → Kept r
    → AllLive rest
    → AllLive (ran_one tr r rest).1
unfolding AllLive Kept
ran_one-AllLive tr (r, w) rest h k =
    All-append InList (still_tracked tr.pdu_address w.ssm) rest
      (still_tracked-AllLive tr.pdu_address w.ssm h) k

pub ran_new-AllLive :
    (tr : Transaction) (r : Result Done × World) (trs : List Transaction)
    → Kept r
    → AllLive trs
    → AllLive (ran_new tr r trs).1
unfolding AllLive Kept
ran_new-AllLive tr (r, w) trs h k =
    All-append InList trs (still_tracked tr.pdu_address w.ssm) k
      (still_tracked-AllLive tr.pdu_address w.ssm h)

-- The list that is left, if a transaction was found.
unfoldable pub LeftLive : Option Ran → Type 0
LeftLive none = Unit
LeftLive (some ran) = AllLive ran.1

none-LeftLive : LeftLive none
unfolding LeftLive
none-LeftLive = tt

some-LeftLive : (ran : Ran) → AllLive ran.1 → LeftLive (some ran)
unfolding LeftLive
some-LeftLive ran h = h

behind-LeftLive :
    (tr : Transaction) (o : Option Ran) → InList tr → LeftLive o → LeftLive (behind tr o)
unfolding AllLive LeftLive
behind-LeftLive tr none h k = tt
behind-LeftLive tr (some (r, trs, sent)) h k = (h, k)

-- The method keeps each transaction live that the test is true of.
abbrev pub KeepsAll : (Transaction → Bool) → Method Done → List Transaction → Type 0
KeepsAll test m trs =
    All (λ tr. test tr ≡ true → IsLive tr.ssm → Kept (m (record { ssm = tr.ssm; sent = [] }))) trs

pub everywhere :
    (test : Transaction → Bool) (m : Method Done) (trs : List Transaction)
    → Keeps m
    → KeepsAll test m trs
everywhere test m [] keeps = tt
everywhere test m (tr ∷ trs) keeps =
    (λ e live. keeps (record { ssm = tr.ssm; sent = [] }) live, everywhere test m trs keeps)

pub run_first-LeftLive :
    (test : Transaction → Bool) (m : Method Done) (trs : List Transaction)
    → KeepsAll test m trs
    → AllLive trs
    → LeftLive (run_first test m trs)
unfolding run_first run_one AllLive
run_first-LeftLive test m [] keeps h = none-LeftLive
run_first-LeftLive test m (tr ∷ trs) (keeps, later) (first, rest) = elim (Bool-cases (test tr)) [
  | inl e ↦ rw e (
      some-LeftLive (ran_one tr (m (record { ssm = tr.ssm; sent = [] })) trs)
        (ran_one-AllLive tr (m (record { ssm = tr.ssm; sent = [] })) trs (keeps e first.live) rest))
  | inr e ↦
      rw e
        (behind-LeftLive tr (run_first test m trs) first (run_first-LeftLive test m trs later rest))
]

pub or_return-AllLive :
    (trs : List Transaction) (o : Option Ran)
    → AllLive trs
    → LeftLive o
    → AllLive (or_return trs o).1
unfolding LeftLive
or_return-AllLive trs none h k = h
or_return-AllLive trs (some ran) h k = k

pub or_new-AllLive :
    (o : Option Ran) (new : Ran) → LeftLive o → AllLive new.1 → AllLive (or_new o new).1
unfolding LeftLive
or_new-AllLive none new h k = k
or_new-AllLive (some ran) new h k = h

pub with_clients-IsSound :
    (sap : Sap) (ran : Ran) → IsSound sap → AllLive ran.1 → IsSound (with_clients sap ran).1
with_clients-IsSound sap (r, trs, sent) h k = record {
  clients_live = k;
  servers_live = h.servers_live;
  timeouts_set = h.timeouts_set;
}

pub with_servers-IsSound :
    (sap : Sap) (ran : Ran) → IsSound sap → AllLive ran.1 → IsSound (with_servers sap ran).1
with_servers-IsSound sap (r, trs, sent) h k = record {
  clients_live = h.clients_live;
  servers_live = k;
  timeouts_set = h.timeouts_set;
}
