-- ===== src/Router/Outgoing/Fresh.antt =====
-- bacpypes3/netservice.py, `NetworkServiceAccessPoint.indication`: the PDUs that it sends.
use bacpypes.Prelude.{◌≡◌, none, some, List}
use bacpypes.Pdu.{Bytes}
use bacpypes.Address.{Address}
use bacpypes.Router.Dict.{Dict}
use bacpypes.Router.Cache.{Cache}
use bacpypes.Router.Routing.{Adapter, AccessPoint, Sent, Event, send_down, respond, sap_request}
use bacpypes.Router.Outgoing.Reaches.{Reaches}

-- An application message as it leaves: the whole message, with all its hops, to its destination.
pub record Fresh (p : AccessPoint) (c : Cache) (answers : List (Adapter × Address))
    (destination : Address) (d : Bytes) (x : Adapter) (s : Sent) : Type 0 where
  pub all_hops : s.hop_count ≡ some 255
  pub no_message : s.net_message ≡ none
  pub whole : s.pdu_data ≡ d
  pub reaches : Reaches p c answers destination x s

abbrev pub IsFresh :
    AccessPoint → Cache → List (Adapter × Address) → Address → Bytes → Event → Type 0
IsFresh p c answers destination d (send_down x s) = Fresh p c answers destination d x s
IsFresh p c answers destination d (respond source address octets) = ⊥
IsFresh p c answers destination d (sap_request x npdu) = ⊥
