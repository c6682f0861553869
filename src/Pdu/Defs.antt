-- ===== src/Pdu/Defs.antt =====
-- The operations of class PDUData (bacpypes3/pdu.py), and `struct` as far as they use it.
use bacpypes.Prelude.{
  ℕ, zero, suc, ◌+◌, ◌*◌, ◌/◌, ◌%◌, ◌^◌, ◌<◌, Bool, true, false, List, [], ◌∷◌, ◌++◌, length, take,
  drop, ltb, if◌then◌else◌,
}
use mathlib.Core.List.{foldl}

-- The exceptions: DecodingError, InvalidTag, ConfigurationError and UnknownRoute of bacpypes3/errors.py, and Python's own.
-- `out_of_fuel` is none of them: a loop of the model ran out of rounds.
pub data Error : Type 0 where
  decoding_error invalid_tag value_error type_error attribute_error : Error
  key_error index_error runtime_error assertion_error struct_error zero_division_error name_error
        configuration_error unknown_route out_of_fuel :
      Error

pub data Result (A : Type 0) : Type 0 where
  ok : A → Result A
  err : Error → Result A

abbrev pub Bytes : Type 0
Bytes = List ℕ

abbrev pub IsByte : ℕ → Type 0
IsByte n = n < 256

abbrev pub Action : Type 0 → Type 0
Action A = Bytes → Result (A × Bytes)

abbrev pub pure : {A : Type 0} → A → Action A
pure a b = ok (a, b)

abbrev pub raise : {A : Type 0} → Error → Action A
raise e b = err e

-- What follows a call that has returned, or the exception that passes it by.
abbrev pub continue : {A B : Type 0} → Result (A × Bytes) → (A → Action B) → Result (B × Bytes)
continue (ok (a, b)) f = f a b
continue (err e) f = err e

infixl 5 ◌>>=◌ ◌>>◌
abbrev pub ◌>>=◌ : {A B : Type 0} → Action A → (A → Action B) → Action B
◌>>=◌ m f b = continue (m b) f

abbrev pub ◌>>◌ : {A B : Type 0} → Action A → Action B → Action B
m >> k = m >>= λ _. k

-- `if c: m`
abbrev pub when : Bool → Action (Unit {0}) → Action (Unit {0})
when true m = m
when false m = pure tt

-- `if c: raise e`
abbrev pub raise_if : Bool → Error → Action (Unit {0})
raise_if true e = raise e
raise_if false e = pure tt

-- struct.pack of `k` octets, most significant first, and struct.unpack.
abbrev pub pack_be : ℕ → ℕ → Bytes
pack_be zero n = []
pack_be (suc k) n = pack_be k (n / 256) ++ (n % 256 ∷ [])

abbrev pub shift_in : ℕ → ℕ → ℕ
shift_in acc octet = acc * 256 + octet

abbrev pub unpack_be : Bytes → ℕ
unpack_be = foldl shift_in 0

unfoldable pub get : Action ℕ
get [] = err decoding_error
get (octet ∷ b) = ok (octet, b)

unfoldable pub get_data : ℕ → Action Bytes
get_data dlen b = if ltb (length b) dlen then err decoding_error else ok (take dlen b, drop dlen b)

unfoldable pub get_short : Action ℕ
get_short = do octets ← get_data 2; pure (unpack_be octets)

unfoldable pub get_long : Action ℕ
get_long = do octets ← get_data 4; pure (unpack_be octets)

-- `bytes([n])` is a ValueError unless `n` fits an octet.
unfoldable pub put : ℕ → Action (Unit {0})
put n b = if ltb n 256 then ok (tt, b ++ (n ∷ [])) else err value_error

unfoldable pub put_data : Bytes → Action (Unit {0})
put_data d b = ok (tt, b ++ d)

unfoldable pub put_short : ℕ → Action (Unit {0})
put_short n b = ok (tt, b ++ pack_be 2 (n % 2 ^ 16))

unfoldable pub put_long : ℕ → Action (Unit {0})
put_long n b = ok (tt, b ++ pack_be 4 (n % 2 ^ 32))
