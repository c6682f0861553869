-- ===== src/Ssm/Client/Live/Steps.antt =====
-- bacpypes3/appservice.py: the shared steps of class SSM, and the ends of a client transaction.
use bacpypes.Prelude.{ℕ, zero, suc, ◌+◌, ◌≡◌, is_some, Bool, true, leb, ◌==◌, arith}
use bacpypes.Pdu.{runtime_error, type_error, assertion_error}
use bacpypes.Apdu.Apci.{Apdu}
use bacpypes.Ssm.Types.{Ssm, World, completed, aborted}
use bacpypes.Ssm.Monad.{modify}
use bacpypes.Ssm.Steps.{
  set_state, get_segment, fill_window, fill_from, window_size, segment_of, segment_header,
  more_follows,
}
use bacpypes.Ssm.Keeps.{
  IsLive, IsListed, listed, Revives, Revives-set_state, TimeoutsSet, Keeps, Keeps-continue, kept,
  Keeps-need, Keeps-lift, Keeps-if, Keeps-raise_if, Keeps-set_state,
}
use bacpypes.Ssm.Client.{abort_apdu, give_up, give_up_both, finish, send_segment_ack}

pub sent_all-IsLive : (s : Ssm) → IsLive s → IsLive (record s { sent_all_segments = true })
unfolding IsLive
sent_all-IsLive s g = g

pub Revives-abort_apdu : (reason : ℕ) → Revives (abort_apdu reason)
unfolding abort_apdu
Revives-abort_apdu reason w g =
    Keeps-continue (set_state aborted 0 w) _ (Revives-set_state aborted 0 (λ e. ground arith) w g)
      λ _ v h. kept _ _ h

pub Revives-give_up : (reason : ℕ) → Revives (give_up reason)
unfolding give_up
Revives-give_up reason w g = Keeps-continue _ _ (Revives-abort_apdu reason w g) λ _ v h. kept _ _ h

pub Keeps-abort_apdu : (reason : ℕ) → Keeps (abort_apdu reason)
Keeps-abort_apdu reason w g = Revives-abort_apdu reason w (listed w.ssm g)

pub Keeps-give_up : (reason : ℕ) → Keeps (give_up reason)
Keeps-give_up reason w g = Revives-give_up reason w (listed w.ssm g)

pub Keeps-give_up_both : (reason : ℕ) → Keeps (give_up_both reason)
unfolding give_up_both
Keeps-give_up_both reason w g = Keeps-continue _ _ (Keeps-abort_apdu reason w g) λ _ v h. kept _ _ h

pub Keeps-finish-completed : (apdu : Apdu) → Keeps (finish completed apdu)
unfolding finish
Keeps-finish-completed apdu w g =
    Keeps-continue _ _ (Keeps-set_state completed 0 (λ e. ground arith) w g) λ _ v h. kept _ _ h

pub Keeps-finish-aborted : (apdu : Apdu) → Keeps (finish aborted apdu)
unfolding finish
Keeps-finish-aborted apdu w g =
    Keeps-continue _ _ (Keeps-set_state aborted 0 (λ e. ground arith) w g) λ _ v h. kept _ _ h

pub Keeps-send_segment_ack : (nak : Bool) (seq : ℕ) → Keeps (send_segment_ack nak seq)
unfolding send_segment_ack
Keeps-send_segment_ack nak seq w g =
    Keeps-continue _ _ (Keeps-need w.ssm.actual_window_size type_error w g) λ _ v h. kept _ _ h

pub Keeps-get_segment : (indx : ℕ) → Keeps (get_segment indx)
unfolding get_segment
Keeps-get_segment indx w g =
    let s = w.ssm in
    Keeps-continue _ _ (Keeps-need s.segment_apdu runtime_error w g) λ whole w1 g1.
      Keeps-continue _ _ (Keeps-need s.segment_count assertion_error w1 g1) λ count w2 g2.
        Keeps-continue _ _ (Keeps-raise_if (leb count indx) runtime_error w2 g2) λ _ w3 g3.
          Keeps-continue _ _ (Keeps-lift (segment_header s whole.apci) w3 g3) λ header w4 g4.
            Keeps-continue _ _ (Keeps-lift (segment_of s indx count) w4 g4) λ place w5 g5.
              Keeps-continue _ _ (Keeps-need s.segment_size assertion_error w5 g5) λ size w6 g6.
                Keeps-continue _ _ (Keeps-raise_if (size == 0) assertion_error w6 g6)
                  λ _ v h. kept _ _ h

pub Keeps-fill_from : (rounds indx : ℕ) → Keeps (fill_from rounds indx)
unfolding fill_from
Keeps-fill_from zero indx w g = kept _ _ g
Keeps-fill_from (suc rounds) indx w g = Keeps-continue _ _ (Keeps-get_segment indx w g) λ apdu v h.
    Keeps-if (more_follows apdu.apci) (fill_from rounds (indx + 1))
      (modify λ s. record s { sent_all_segments = true }) (Keeps-fill_from rounds (indx + 1))
      (λ v' h'. kept _ _ (sent_all-IsLive v'.ssm h')) _ h

pub Keeps-window_size : Keeps window_size
unfolding window_size
Keeps-window_size w g =
    Keeps-continue _ _ (Keeps-need w.ssm.actual_window_size assertion_error w g) λ win v h.
      Keeps-continue _ _ (Keeps-raise_if (win == 0) assertion_error v h) λ _ v' h'. kept _ _ h'

pub Keeps-fill_window : (seq : ℕ) → Keeps (fill_window seq)
unfolding fill_window
Keeps-fill_window seq w g =
    Keeps-continue _ _ (Keeps-window_size w g) λ win v h. Keeps-fill_from win seq v h

-- The timeout of a state is positive.
pub TimeoutSet : (w : World) → IsLive w.ssm → TimeoutsSet w.ssm.settings
unfolding IsLive
TimeoutSet w g = g.1

-- Fields that the invariant does not read may change.
pub modified :
    (s t : Ssm)
    → t.tracked ≡ s.tracked
    → t.state ≡ s.state
    → t.settings ≡ s.settings
    → t.timer ≡ s.timer
    → IsLive s
    → IsLive t
unfolding IsLive
modified s t a b c d g = rw (a, b, c, d) g

pub relisted :
    (s t : Ssm)
    → t.tracked ≡ s.tracked
    → t.state ≡ s.state
    → t.settings ≡ s.settings
    → IsListed s
    → IsListed t
unfolding IsListed
relisted s t a b c g = rw (a, b, c) g

pub ListedTimeoutSet : (s : Ssm) → IsListed s → TimeoutsSet s.settings
unfolding IsListed
ListedTimeoutSet s g = g.1

pub revived :
    (s t : Ssm)
    → t.tracked ≡ s.tracked
    → t.state ≡ s.state
    → t.settings ≡ s.settings
    → is_some t.timer ≡ true
    → IsListed s
    → IsLive t
unfolding IsLive IsListed
revived s t a b c d g = rw (a, b, c) (g.0, g.1, λ _. d)

-- So may the timer, as long as one runs.
pub timed :
    (s t : Ssm)
    → t.tracked ≡ s.tracked
    → t.state ≡ s.state
    → t.settings ≡ s.settings
    → is_some t.timer ≡ true
    → IsLive s
    → IsLive t
unfolding IsLive
timed s t a b c d g = rw (a, b, c) (g.0, g.1, λ _. d)
