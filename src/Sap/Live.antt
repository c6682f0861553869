-- ===== src/Sap/Live.antt =====
-- bacpypes3/appservice.py, class ApplicationServiceAccessPoint: the transactions in its lists after any history of calls.
use bacpypes.Prelude.{◌≡◌, All, Bool, true, Option, List, [], ◌∷◌}
use bacpypes.Address.{Address}
use bacpypes.Apdu.Apci.{Apdu}
use bacpypes.Ssm.Types.{DeviceInfo}
use bacpypes.Ssm.Client
use bacpypes.Ssm.Client.Live.{CanExpire, timer_expired-IsLive}
use bacpypes.Ssm.Server
use bacpypes.Ssm.Server.Live.{CanServe, server_timer_expired-IsLive}
use bacpypes.Sap.{
  Transaction, Sap, Outcome, confirmation, sap_indication, sap_confirmation, client_timer_expired,
  server_timer_expired,
}
use bacpypes.Sap.Lists.{KeepsAll, IsSound}
use bacpypes.Sap.Calls.{
  found_client-IsSound, found_server-IsSound, answer_apci-IsSound, receive_controlled-IsSound,
  request_controlled-IsSound,
}

-- What can happen to an access point.
pub data Happening : Type 0 where
  arrives : (Apdu → Bool) → Option DeviceInfo → Address → Apdu → Happening
  requests : Option DeviceInfo → Bool → Address → Apdu → Happening
  responds : Address → Apdu → Happening
  client_expires : Option DeviceInfo → Bool → (Transaction → Bool) → Happening
  server_expires : (Transaction → Bool) → Happening

unfoldable pub happen : Sap → Happening → Outcome
unfolding confirmation sap_indication sap_confirmation client_timer_expired server_timer_expired
happen sap (arrives decodes info source apdu) = confirmation sap decodes info source apdu
happen sap (requests info delivered destination apdu) =
    sap_indication sap info delivered destination apdu
happen sap (responds destination apdu) = sap_confirmation sap destination apdu
happen sap (client_expires info delivered test) = client_timer_expired sap info delivered test
happen sap (server_expires test) = server_timer_expired sap test

can_expire :
    (info : Option DeviceInfo) (delivered : Bool) (test : Transaction → Bool)
    (trs : List Transaction)
    → All (λ tr. test tr ≡ true → CanExpire tr.ssm.state info tr.ssm) trs
    → KeepsAll test (Client.timer_expired info delivered) trs
can_expire info delivered test [] h = tt
can_expire info delivered test (tr ∷ trs) (first, h) = (
  λ e live. timer_expired-IsLive info delivered (record { ssm = tr.ssm; sent = [] }) live (first e),
  can_expire info delivered test trs h,
)

can_serve :
    (test : Transaction → Bool) (trs : List Transaction)
    → All (λ tr. test tr ≡ true → CanServe tr.ssm.state) trs
    → KeepsAll test Server.timer_expired trs
can_serve test [] h = tt
can_serve test (tr ∷ trs) (first, h) = (
  λ e live. server_timer_expired-IsLive (record { ssm = tr.ssm; sent = [] }) live (first e),
  can_serve test trs h,
)

-- The timer that expires is that of a client transaction in a client's state, which holds its
-- request if it is to be sent again, or of a server transaction in a server's state.
abbrev pub MayHappen : Sap → Happening → Type 0
MayHappen sap (client_expires info delivered test) =
    All (λ tr. test tr ≡ true → CanExpire tr.ssm.state info tr.ssm) sap.client_transactions
MayHappen sap (server_expires test) =
    All (λ tr. test tr ≡ true → CanServe tr.ssm.state) sap.server_transactions
MayHappen sap _ = Unit

happen-IsSound :
    (sap : Sap) (x : Happening) → MayHappen sap x → IsSound sap → IsSound (happen sap x).1
unfolding happen confirmation sap_indication sap_confirmation client_timer_expired
    server_timer_expired
happen-IsSound sap (arrives decodes info source apdu) may h =
    receive_controlled-IsSound sap h sap.dcc_enable_disable decodes info source apdu
happen-IsSound sap (requests info delivered destination apdu) may h =
    request_controlled-IsSound sap h sap.dcc_enable_disable info delivered destination apdu
happen-IsSound sap (responds destination apdu) may h =
    answer_apci-IsSound sap h destination apdu apdu.apci
happen-IsSound sap (client_expires info delivered test) may h =
    found_client-IsSound sap h test (Client.timer_expired info delivered)
      (can_expire info delivered test sap.client_transactions may)
happen-IsSound sap (server_expires test) may h =
    found_server-IsSound sap h test Server.timer_expired
      (can_serve test sap.server_transactions may)

-- The access point after a history, whether its calls returned or raised.
unfoldable pub run_all : Sap → List Happening → Sap
unfolding happen
run_all sap [] = sap
run_all sap (x ∷ history) = run_all (happen sap x).1 history

abbrev pub MayAllHappen : Sap → List Happening → Type 0
MayAllHappen sap [] = Unit
MayAllHappen sap (x ∷ history) = (MayHappen sap x) × MayAllHappen (happen sap x).1 history

-- After any history of PDUs that arrive, requests and responses of the application and timers that
-- expire, in any order, whether the calls return or raise, all transactions in the lists of a sound
-- access point are live and have not ended; a timer that has expired runs again only if the call has
-- started it. A timer expires of a client transaction in a client's state, which has a confirmed request
-- and a positive segment size if it waits for its confirmation, or of a server transaction in a
-- server's state.
pub run_all-IsSound :
    (sap : Sap) (history : List Happening)
    → MayAllHappen sap history
    → IsSound sap
    → IsSound (run_all sap history)
unfolding run_all
run_all-IsSound sap [] may h = h
run_all-IsSound sap (x ∷ history) (may, later) h =
    run_all-IsSound (happen sap x).1 history later (happen-IsSound sap x may h)
