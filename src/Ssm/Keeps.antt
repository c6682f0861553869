-- ===== src/Ssm/Keeps.antt =====
-- The invariant of a transaction, and a rule for each way to build a method that keeps it.
use bacpypes.Prelude.{
  ℕ, zero, suc, ◌<◌, ◌≡◌, refl, Bool, true, false, not, Option, none, some, is_some, arith,
  if◌then◌else◌, Bool-cases, ap, ◌∙◌, inl, inr,
}
use bacpypes.Pdu.{Error, Result, ok, err}
use bacpypes.Ssm.Types.{
  State, Ssm, Settings, World, idle, segmented_request, await_confirmation, await_response,
  segmented_response, segmented_confirmation, completed, aborted,
}
use bacpypes.Ssm.Monad.{Method, raise, lift, need, raise_if, continue}
use bacpypes.Ssm.Steps.{is_terminal, set_state, start_timer, timer_of}

-- The states in which the transaction waits for a message.
abbrev pub is_waiting : State → Bool
is_waiting idle = false
is_waiting completed = false
is_waiting aborted = false
is_waiting segmented_request = true
is_waiting await_confirmation = true
is_waiting await_response = true
is_waiting segmented_response = true
is_waiting segmented_confirmation = true

-- Every timeout is at least a millisecond.
abbrev pub TimeoutsSet : Settings → Type 0
TimeoutsSet t = (0 < t.apdu_timeout) × (0 < t.segment_timeout) × (0 < t.application_timeout)

-- A transaction is in the access point's list until it has ended, and only so long; and while it
-- waits for a message a timer is set.
unfoldable pub IsLive : Ssm → Type 0
IsLive s =
    (s.tracked ≡ not (is_terminal s.state))
    × TimeoutsSet s.settings
    × (is_waiting s.state ≡ true → is_some s.timer ≡ true)

-- The same but for the timer, which may have expired.
unfoldable pub IsListed : Ssm → Type 0
IsListed s = (s.tracked ≡ not (is_terminal s.state)) × TimeoutsSet s.settings

pub listed : (s : Ssm) → IsLive s → IsListed s
unfolding IsLive IsListed
listed s g = (g.0, g.1)

-- What a method leaves is live, whether it returned or raised.
unfoldable pub Kept : {A : Type 0} → Result A × World → Type 0
Kept r = IsLive r.1.ssm

abbrev pub Keeps : {A : Type 0} → Method A → Type 0
Keeps m = (w : World) → IsLive w.ssm → Kept (m w)

-- A method that leaves a transaction live also when its timer has expired.
abbrev pub Revives : {A : Type 0} → Method A → Type 0
Revives m = (w : World) → IsListed w.ssm → Kept (m w)

module _ {A : Type 0} where
  pub Revives-if :
      (c : Bool) (m n : Method A) → Revives m → Revives n → Revives (if c then m else n)
  Revives-if true m n hm hn = hm
  Revives-if false m n hm hn = hn

  pub kept : (r : Result A) (w : World) → IsLive w.ssm → Kept (r, w)
  unfolding Kept
  kept r w g = g

  pub Keeps-continue :
      {B : Type 0} (r : Result A × World) (f : A → Method B)
      → Kept r
      → ((a : A) → Keeps (f a))
      → Kept (continue r f)
  unfolding Kept
  Keeps-continue (ok a, w) f h k = k a w h
  Keeps-continue (err e, w) f h k = h

  pub Keeps-need : (o : Option A) (e : Error) → Keeps (need o e)
  unfolding Kept
  Keeps-need none e w g = g
  Keeps-need (some a) e w g = g

  pub Keeps-lift : (r : Result A) → Keeps (lift r)
  unfolding Kept
  Keeps-lift (ok a) w g = g
  Keeps-lift (err e) w g = g

  pub Keeps-if : (c : Bool) (m n : Method A) → Keeps m → Keeps n → Keeps (if c then m else n)
  Keeps-if true m n hm hn = hm
  Keeps-if false m n hm hn = hn

pub Keeps-raise_if : (c : Bool) (e : Error) → Keeps (raise_if c e)
unfolding Kept
Keeps-raise_if true e w g = g
Keeps-raise_if false e w g = g

pub Keeps-raise : (A : Type 0) (e : Error) → Keeps (raise {A = A} e)
unfolding Kept
Keeps-raise A e w g = g

pub Keeps-start_timer : (msecs : ℕ) → Keeps (start_timer msecs)
unfolding IsLive Kept
Keeps-start_timer msecs w g = (g.0, g.1, λ _. refl)

timer_of-is_some : (msecs : ℕ) → 0 < msecs → is_some (timer_of msecs) ≡ true
timer_of-is_some zero h = ground arith
timer_of-is_some (suc m) h = ground arith

-- A state that goes on leaves the transaction on the list.
goes_on :
    (msecs : ℕ) (w : World)
    → is_terminal w.ssm.state ≡ false
    → IsLive w.ssm
    → (w.ssm.tracked ≡ true) × TimeoutsSet w.ssm.settings
unfolding IsLive
goes_on msecs w f g = (g.0 ∙ ap not f, g.1)

enter :
    (new : State) (msecs : ℕ) (w : World)
    → (is_waiting new ≡ true → 0 < msecs)
    → is_terminal w.ssm.state ≡ false
    → IsListed w.ssm
    → IsLive (set_state new msecs w).1.ssm
unfolding set_state IsLive IsListed
enter idle msecs w h f g = rw f (g.0 ∙ ap not f, g.1, λ e. ground arith)
enter segmented_request msecs w h f g =
    rw f (g.0 ∙ ap not f, g.1, λ e. timer_of-is_some msecs (h refl))
enter await_confirmation msecs w h f g =
    rw f (g.0 ∙ ap not f, g.1, λ e. timer_of-is_some msecs (h refl))
enter await_response msecs w h f g =
    rw f (g.0 ∙ ap not f, g.1, λ e. timer_of-is_some msecs (h refl))
enter segmented_response msecs w h f g =
    rw f (g.0 ∙ ap not f, g.1, λ e. timer_of-is_some msecs (h refl))
enter segmented_confirmation msecs w h f g =
    rw f (g.0 ∙ ap not f, g.1, λ e. timer_of-is_some msecs (h refl))
enter completed msecs w h f g = rw (f, g.0 ∙ ap not f) (refl, g.1, λ e. ground arith)
enter aborted msecs w h f g = rw (f, g.0 ∙ ap not f) (refl, g.1, λ e. ground arith)

ended_waits : (state : State) → is_terminal state ≡ true → is_waiting state ≡ true → ⊥
ended_waits idle t e = ground arith
ended_waits completed t e = ground arith
ended_waits aborted t e = ground arith
ended_waits segmented_request t e = ground arith
ended_waits await_confirmation t e = ground arith
ended_waits await_response t e = ground arith
ended_waits segmented_response t e = ground arith
ended_waits segmented_confirmation t e = ground arith

-- A transaction that does not wait for a message needs no timer.
pub not_waiting-IsLive : (s : Ssm) → IsListed s → (is_waiting s.state ≡ true → ⊥) → IsLive s
unfolding IsLive IsListed
not_waiting-IsLive s g h = (g.0, g.1, λ e. absurd (h e))

-- A change to a state that waits starts a timer, and one that ends the transaction takes it off
-- the list.
pub Revives-set_state :
    (new : State) (msecs : ℕ) → (is_waiting new ≡ true → 0 < msecs) → Revives (set_state new msecs)
unfolding set_state Kept
Revives-set_state new msecs h w g = elim (Bool-cases (is_terminal w.ssm.state)) [
  | inl t ↦ rw t (not_waiting-IsLive w.ssm g (ended_waits w.ssm.state t))
  | inr f ↦ enter new msecs w h f g
]

pub Keeps-set_state :
    (new : State) (msecs : ℕ) → (is_waiting new ≡ true → 0 < msecs) → Keeps (set_state new msecs)
Keeps-set_state new msecs h w g = Revives-set_state new msecs h w (listed w.ssm g)
