-- ===== src/Router/Routing/Journey.antt =====
-- bacpypes3/netservice.py, `process_npdu` over several routers: the way of a PDU through networks of
-- any shape.
use bacpypes.Prelude.{
  ℕ, suc, ◌+◌, ◌≡◌, sym, ◌∙◌, ap, Option, none, some, List, [], ◌∷◌, ◌⊎◌, inl, inr, All, subst,
  arith,
}
use bacpypes.Pdu.{Bytes}
use bacpypes.Router.Cache.{Cache}
use bacpypes.Router.Routing.{Adapter, AccessPoint, Npdu, Sent, Event, send_down, process_npdu}
use bacpypes.Router.Routing.Traces.{Happens}
use bacpypes.Router.Routing.Forward.{Onward, IsOnward, process_npdu-Onward}

-- An event of a list.
abbrev pub Among : Event → List Event → Type 0
Among e [] = ⊥
Among e (first ∷ rest) = (first ≡ e) ⊎ Among e rest

All-Among :
    (P : Event → Type 0) (e : Event) (events : List Event) → All P events → Among e events → P e
All-Among P e [] h m = absurd m
All-Among P e (first ∷ rest) h (inl same) = subst P same h.0
All-Among P e (first ∷ rest) h (inr later) = All-Among P e rest h.1 later

-- A PDU that was sent down arrives at the access points of its network, with the addresses of the link
-- layer.
abbrev pub arrives : Sent → Bytes → Npdu
arrives s pdu_source = record {
  pdu_source = pdu_source;
  pdu_destination = s.destination;
  dadr = s.dadr;
  sadr = s.sadr;
  hop_count = s.hop_count;
  net_message = s.net_message;
  pdu_data = s.pdu_data;
}

-- A PDU goes through some routers, each with adapters, a cache and answers of its own.
pub data Journey : ℕ → Npdu → Npdu → Type 0 where
  stay : (npdu : Npdu) → Journey 0 npdu npdu
  through :
      (n : ℕ) (p : AccessPoint) (c : Cache) (answers : ℕ) (adapter x : Adapter) (npdu last : Npdu)
      (s : Sent) (pdu_source : Bytes)
      → Among (send_down x s) (process_npdu p c answers adapter npdu).1.0
      → Journey n (arrives s pdu_source) last
      → Journey (suc n) npdu last

sent-Onward :
    (p : AccessPoint) (c : Cache) (answers : ℕ) (adapter x : Adapter) (npdu : Npdu) (s : Sent)
    → Among (send_down x s) (process_npdu p c answers adapter npdu).1.0
    → Onward adapter npdu x s
unfolding Happens
sent-Onward p c answers adapter x npdu s m =
    All-Among (IsOnward adapter npdu) (send_down x s) (process_npdu p c answers adapter npdu).1.0
      (process_npdu-Onward p answers adapter npdu c) m

count_or : Option ℕ → ℕ
count_or none = 0
count_or (some n) = n

some_same : (o : Option ℕ) (m n : ℕ) → o ≡ some m → o ≡ some n → m ≡ n
unfolding count_or
some_same o m n a b = ap count_or (sym a ∙ b)

-- A PDU with a hop count, in networks of any shape, goes through as many routers at most as its count
-- says, and with each of them the count is one less.
pub hop_count-Journey :
    (n hops : ℕ) (first last : Npdu)
    → Journey n first last
    → first.hop_count ≡ some hops
    → (left : ℕ) × (last.hop_count ≡ some left) × (n + left ≡ hops)
hop_count-Journey n hops first last (stay npdu) e = (hops, e, omega arith)
hop_count-Journey n hops first last
      (through m p c answers adapter x npdu end s pdu_source sent rest) e =
    let o = sent-Onward p c answers adapter x npdu s sent in
    let less : hops ≡ suc o.hops = some_same npdu.hop_count hops (suc o.hops) e o.hops_before in
    let (left, ends, sum) =
      hop_count-Journey m o.hops (arrives s pdu_source) last rest o.hops_after in
    (left, ends, omega arith)
