-- ===== src/Router/Routing/Traces.antt =====
-- bacpypes3/netservice.py, `process_npdu`: predicates on all that happens in a trace.
use bacpypes.Prelude.{
  ◌≡◌, refl, Bool, true, false, List, Option, none, some, All, All-append, if◌then◌else◌,
}
use bacpypes.Pdu.{Error, Result, ok, err}
use bacpypes.Router.Routing.{
  Event, Trace, nothing, event, raises, then_after, and_then, with_result,
}

module _ (P : Event → Type 0) where
  unfoldable pub Happens : Trace → Type 0
  Happens t = All P t.0

  pub Happens-nothing : Happens nothing
  unfolding Happens
  Happens-nothing = tt

  pub Happens-raises : (e : Error) → Happens (raises e)
  unfolding Happens
  Happens-raises e = tt

  pub Happens-event : (e : Event) → P e → Happens (event e)
  unfolding Happens
  Happens-event e h = (h, tt)

  Happens-then_after :
      (e : Option Error) (first : List Event) (rest : Trace)
      → All P first
      → Happens rest
      → Happens (then_after e first rest)
  unfolding Happens
  Happens-then_after none first rest h k = All-append P first rest.0 h k
  Happens-then_after (some e) first rest h k = h

  pub Happens-and_then : (t u : Trace) → Happens t → Happens u → Happens (and_then t u)
  unfolding Happens
  Happens-and_then t u h k = Happens-then_after t.1 t.0 u h k

  pub Happens-with_result :
      {A : Type 0} (r : Result A) (f : A → Trace)
      → ((a : A) → r ≡ ok a → Happens (f a))
      → Happens (with_result r f)
  unfolding Happens
  Happens-with_result (ok a) f h = h a refl
  Happens-with_result (err e) f h = tt

  pub Happens-if : (b : Bool) (t u : Trace) → Happens t → Happens u → Happens (if b then t else u)
  Happens-if true t u h k = h
  Happens-if false t u h k = k
