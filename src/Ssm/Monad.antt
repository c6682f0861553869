-- ===== src/Ssm/Monad.antt =====
-- A method of a state machine: it reads and writes the attributes, sends, and may raise. What it
-- wrote and sent before it raised stays.
use bacpypes.Prelude.{Bool, true, false, Option, none, some, [], ◌∷◌, ◌++◌}
use bacpypes.Pdu.{Error, Result, ok, err}
use bacpypes.Ssm.Types.{Ssm, Output, World}

abbrev pub Method : Type 0 → Type 0
Method A = World → Result A × World

abbrev pub Done : Type 0
Done = Unit {0}

abbrev pub pure : {A : Type 0} → A → Method A
pure a w = (ok a, w)

abbrev pub raise : {A : Type 0} → Error → Method A
raise e w = (err e, w)

abbrev pub continue : {A B : Type 0} → Result A × World → (A → Method B) → Result B × World
continue (ok a, w) f = f a w
continue (err e, w) f = (err e, w)

infixl 5 ◌>>=◌ ◌>>◌
abbrev pub ◌>>=◌ : {A B : Type 0} → Method A → (A → Method B) → Method B
◌>>=◌ m f w = continue (m w) f

abbrev pub ◌>>◌ : {A B : Type 0} → Method A → Method B → Method B
m >> k = m >>= λ _. k

abbrev pub gets : {A : Type 0} → (Ssm → A) → Method A
gets f w = (ok (f w.ssm), w)

abbrev pub modify : (Ssm → Ssm) → Method Done
modify f w = (ok tt, record w { ssm = f w.ssm })

abbrev pub send : Output → Method Done
send o w = (ok tt, record w { sent = w.sent ++ (o ∷ []) })

abbrev pub lift : {A : Type 0} → Result A → Method A
lift (ok a) = pure a
lift (err e) = raise e

-- An attribute that may be None, where None raises.
abbrev pub need : {A : Type 0} → Option A → Error → Method A
need none e = raise e
need (some a) e = pure a

abbrev pub raise_if : Bool → Error → Method Done
raise_if true e = raise e
raise_if false e = pure tt
