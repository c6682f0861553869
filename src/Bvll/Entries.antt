-- ===== src/Bvll/Entries.antt =====
-- bacpypes3/ipv4/bvll.py: the octets of each message, and the entries of its tables.
use bacpypes.Prelude.{
  ℕ, zero, suc, ◌%◌, ◌^◌, ◌≤◌, ◌<◌, ◌≡◌, refl, sym, ◌∙◌, ap, true, List, [], ◌∷◌, ◌++◌, append-nil,
  append_assoc, length, length-append, All, ◌==◌, ==_iff, ltb, ltb→lt, all_below, all_below_sound,
  arith,
}
use bacpypes.Pdu.{
  Result, Bytes, Action, ok, continue, get_data, get_short, get_long, put_data, put_short, pack_be,
  get_data-append, get_short_masked, get_short_lem, get_long_lem,
}
use bacpypes.Bvll.{
  BdtEntry, FdtEntry, Lpdu, result_code, write_bdt, read_bdt, read_bdt_ack, forwarded_npdu,
  register_foreign_device, read_fdt, read_fdt_ack, delete_fdt_entry, distribute_broadcast,
  original_unicast, original_broadcast, netmask, count_set_bits, put_bdt, put_fdt, put_lpdu_body,
  get_bdt_entry, get_fdt_entry, get_entries,
}

abbrev pub BdtFits : BdtEntry → Type 0
BdtFits e = (length e.bdt_addr ≡ 4) × (e.bdt_port < 2 ^ 16) × (e.bdt_prefix < 33)

abbrev pub FdtFits : FdtEntry → Type 0
FdtFits e = (length e.fd_address ≡ 6) × (e.fd_ttl < 2 ^ 16) × (e.fd_remain < 2 ^ 16)

-- Every number and address fits its octets.
abbrev pub BodyFits : Lpdu → Type 0
BodyFits (result_code code) = code < 2 ^ 16
BodyFits (write_bdt bdt) = All BdtFits bdt
BodyFits read_bdt = Unit
BodyFits (read_bdt_ack bdt) = All BdtFits bdt
BodyFits (forwarded_npdu addr d) = length addr ≡ 6
BodyFits (register_foreign_device ttl) = ttl < 2 ^ 16
BodyFits read_fdt = Unit
BodyFits (read_fdt_ack fdt) = All FdtFits fdt
BodyFits (delete_fdt_entry addr) = length addr ≡ 6
BodyFits (distribute_broadcast d) = Unit
BodyFits (original_unicast d) = Unit
BodyFits (original_broadcast d) = Unit

abbrev pub short_wire : ℕ → Bytes
short_wire n = pack_be 2 (n % 2 ^ 16)

abbrev pub bdt_wire : BdtEntry → Bytes
bdt_wire e = (e.bdt_addr ++ pack_be 2 e.bdt_port) ++ pack_be 4 (netmask e.bdt_prefix)

abbrev pub fdt_wire : FdtEntry → Bytes
fdt_wire e = e.fd_address ++ (short_wire e.fd_ttl ++ short_wire e.fd_remain)

abbrev pub table_wire : {E : Type 0} → (E → Bytes) → List E → Bytes
table_wire entry [] = []
table_wire entry (e ∷ table) = entry e ++ table_wire entry table

abbrev pub body_wire : Lpdu → Bytes
body_wire (result_code code) = short_wire code
body_wire (write_bdt bdt) = table_wire bdt_wire bdt
body_wire read_bdt = []
body_wire (read_bdt_ack bdt) = table_wire bdt_wire bdt
body_wire (forwarded_npdu addr d) = addr ++ d
body_wire (register_foreign_device ttl) = short_wire ttl
body_wire read_fdt = []
body_wire (read_fdt_ack fdt) = table_wire fdt_wire fdt
body_wire (delete_fdt_entry addr) = addr
body_wire (distribute_broadcast d) = d
body_wire (original_unicast d) = d
body_wire (original_broadcast d) = d

put_bdt_lem :
    (bdt : List BdtEntry) (b : Bytes) → put_bdt bdt b ≡ ok (tt, b ++ table_wire bdt_wire bdt)
unfolding put_bdt put_data
put_bdt_lem [] b = rw append-nil refl
put_bdt_lem (e ∷ bdt) b =
    put_bdt_lem bdt
      ((b ++ (e.bdt_addr ++ pack_be 2 e.bdt_port)) ++ pack_be 4 (netmask e.bdt_prefix))
    ∙ ap (λ o. ok (tt, o))
        (append_assoc (b ++ (e.bdt_addr ++ pack_be 2 e.bdt_port)) (pack_be 4 (netmask e.bdt_prefix))
            (table_wire bdt_wire bdt)
          ∙ append_assoc b (e.bdt_addr ++ pack_be 2 e.bdt_port)
              (pack_be 4 (netmask e.bdt_prefix) ++ table_wire bdt_wire bdt)
          ∙ ap (λ l. b ++ l)
              (sym (
                append_assoc (e.bdt_addr ++ pack_be 2 e.bdt_port) (pack_be 4 (netmask e.bdt_prefix))
                  (table_wire bdt_wire bdt))))

put_fdt_lem :
    (fdt : List FdtEntry) (b : Bytes) → put_fdt fdt b ≡ ok (tt, b ++ table_wire fdt_wire fdt)
unfolding put_fdt put_data put_short
put_fdt_lem [] b = rw append-nil refl
put_fdt_lem (e ∷ fdt) b =
    put_fdt_lem fdt (((b ++ e.fd_address) ++ short_wire e.fd_ttl) ++ short_wire e.fd_remain)
    ∙ ap (λ o. ok (tt, o))
        (ap (λ l. l ++ table_wire fdt_wire fdt)
            (append_assoc (b ++ e.fd_address) (short_wire e.fd_ttl) (short_wire e.fd_remain)
              ∙ append_assoc b e.fd_address (short_wire e.fd_ttl ++ short_wire e.fd_remain))
          ∙ append_assoc b (fdt_wire e) (table_wire fdt_wire fdt))

pub put_lpdu_body_lem : (m : Lpdu) (b : Bytes) → put_lpdu_body m b ≡ ok (tt, b ++ body_wire m)
unfolding put_lpdu_body put_data put_short
put_lpdu_body_lem (result_code code) b = refl
put_lpdu_body_lem (write_bdt bdt) b = put_bdt_lem bdt b
put_lpdu_body_lem read_bdt b = rw append-nil refl
put_lpdu_body_lem (read_bdt_ack bdt) b = put_bdt_lem bdt b
put_lpdu_body_lem (forwarded_npdu addr d) b = ap (λ o. ok (tt, o)) (append_assoc b addr d)
put_lpdu_body_lem (register_foreign_device ttl) b = refl
put_lpdu_body_lem read_fdt b = rw append-nil refl
put_lpdu_body_lem (read_fdt_ack fdt) b = put_fdt_lem fdt b
put_lpdu_body_lem (delete_fdt_entry addr) b = refl
put_lpdu_body_lem (distribute_broadcast d) b = refl
put_lpdu_body_lem (original_unicast d) b = refl
put_lpdu_body_lem (original_broadcast d) b = refl

all_prefixes : all_below 33 (λ n. count_set_bits 32 (netmask n) == n) ≡ true
unfolding all_below count_set_bits
all_prefixes = refl

count_set_bits_lem : (prefix : ℕ) → prefix < 33 → count_set_bits 32 (netmask prefix) ≡ prefix
count_set_bits_lem prefix h =
    (==_iff (count_set_bits 32 (netmask prefix)) prefix).0
      (all_below_sound 33 (λ n. count_set_bits 32 (netmask n) == n) prefix all_prefixes h)

all_netmasks : all_below 33 (λ n. ltb (netmask n) (2 ^ 32)) ≡ true
unfolding all_below
all_netmasks = refl

netmask_fits : (prefix : ℕ) → prefix < 33 → netmask prefix < 2 ^ 32
netmask_fits prefix h =
    ltb→lt (netmask prefix) (2 ^ 32)
      (all_below_sound 33 (λ n. ltb (netmask n) (2 ^ 32)) prefix all_netmasks h)

-- An entry is read back, in front of any octets.
unfoldable pub Reads : {E : Type 0} → Action E → (E → Bytes) → E → Type 0
Reads entry wire e = (rest : Bytes) → entry (wire e ++ rest) ≡ ok (e, rest)

module _ {A B : Type 0} where
  -- What follows an action that has returned.
  pub returned :
      (r : Result (A × Bytes)) (a : A) (b : Bytes) (f : A → Action B)
      → r ≡ ok (a, b)
      → continue r f ≡ f a b
  returned r a b f e = ap (λ q. continue q f) e

pub get_data_exact : (n : ℕ) (d rest : Bytes) → length d ≡ n → get_data n (d ++ rest) ≡ ok (d, rest)
get_data_exact n d rest e = ap (λ k. get_data k (d ++ rest)) (sym e) ∙ get_data-append d rest

fdt_fields :
    (addr : Bytes) (ttl remain : ℕ) (rest : Bytes)
    → length addr ≡ 6
    → ttl < 2 ^ 16
    → remain < 2 ^ 16
    → get_fdt_entry (addr ++ (short_wire ttl ++ (short_wire remain ++ rest)))
      ≡ ok (record { fd_address = addr; fd_ttl = ttl; fd_remain = remain }, rest)
unfolding get_fdt_entry
fdt_fields addr ttl remain rest six t r =
    returned (get_data 6 (addr ++ (short_wire ttl ++ (short_wire remain ++ rest)))) addr _ _
      (get_data_exact 6 addr _ six)
    ∙ returned (get_short (short_wire ttl ++ (short_wire remain ++ rest))) ttl _ _
        (get_short_masked ttl _ t)
    ∙ returned (get_short (short_wire remain ++ rest)) remain rest _
        (get_short_masked remain rest r)

pub get_fdt_entry-Reads : (e : FdtEntry) → FdtFits e → Reads get_fdt_entry fdt_wire e
unfolding Reads
get_fdt_entry-Reads e (six, ttl, remain) rest =
    ap get_fdt_entry
      (append_assoc e.fd_address (short_wire e.fd_ttl ++ short_wire e.fd_remain) rest)
    ∙ fdt_fields e.fd_address e.fd_ttl e.fd_remain rest six ttl remain

bdt_fields :
    (addr : Bytes) (port mask prefix : ℕ) (rest : Bytes)
    → length addr ≡ 4
    → port < 2 ^ 16
    → mask < 2 ^ 32
    → count_set_bits 32 mask ≡ prefix
    → get_bdt_entry (addr ++ (pack_be 2 port ++ (pack_be 4 mask ++ rest)))
      ≡ ok (record { bdt_addr = addr; bdt_port = port; bdt_prefix = prefix }, rest)
unfolding get_bdt_entry
bdt_fields addr port mask prefix rest four p m counted =
    returned (get_data 4 (addr ++ (pack_be 2 port ++ (pack_be 4 mask ++ rest)))) addr _ _
      (get_data_exact 4 addr _ four)
    ∙ returned (get_short (pack_be 2 port ++ (pack_be 4 mask ++ rest))) port _ _
        (get_short_lem port _ p)
    ∙ returned (get_long (pack_be 4 mask ++ rest)) mask rest _ (get_long_lem mask rest m)
    ∙ ap (λ n. ok (record { bdt_addr = addr; bdt_port = port; bdt_prefix = n }, rest)) counted

regroup : (a b c rest : Bytes) → ((a ++ b) ++ c) ++ rest ≡ a ++ (b ++ (c ++ rest))
regroup a b c rest = append_assoc (a ++ b) c rest ∙ append_assoc a b (c ++ rest)

pub get_bdt_entry-Reads : (e : BdtEntry) → BdtFits e → Reads get_bdt_entry bdt_wire e
unfolding Reads
get_bdt_entry-Reads e (four, port, prefix) rest =
    ap get_bdt_entry
      (regroup e.bdt_addr (pack_be 2 e.bdt_port) (pack_be 4 (netmask e.bdt_prefix)) rest)
    ∙ bdt_fields e.bdt_addr e.bdt_port (netmask e.bdt_prefix) e.bdt_prefix rest four port
        (netmask_fits e.bdt_prefix prefix) (count_set_bits_lem e.bdt_prefix prefix)

module _ {E : Type 0} (entry : Action E) (wire : E → Bytes) (Fits : E → Type 0)
    (reads : (e : E) → Fits e → Reads entry wire e)
    (some_octets : (e : E) → Fits e → 1 ≤ length (wire e)) where
  -- A round, on octets that are not none.
  get_entries_round :
      (fuel : ℕ) (b rest : Bytes) (e : E) (table : List E)
      → 1 ≤ length b
      → entry b ≡ ok (e, rest)
      → get_entries entry fuel rest ≡ ok (table, [])
      → get_entries entry (suc fuel) b ≡ ok (e ∷ table, [])
  unfolding get_entries
  get_entries_round fuel [] rest e table some_left first later = absurd (omega arith)
  get_entries_round fuel (a ∷ b) rest e table some_left first later =
      returned (entry (a ∷ b)) e rest _ first
      ∙ returned (get_entries entry fuel rest) table [] _ later

  pub get_entries_lem :
      (fuel : ℕ) (table : List E)
      → All Fits table
      → length (table_wire wire table) ≤ fuel
      → get_entries entry fuel (table_wire wire table) ≡ ok (table, [])
  unfolding get_entries Reads
  get_entries_lem fuel [] h enough = refl
  get_entries_lem zero (e ∷ table) (first, h) enough =
      let some_left = some_octets e first in
      let both = length-append (wire e) (table_wire wire table) in absurd (omega arith)
  get_entries_lem (suc fuel) (e ∷ table) (first, h) enough =
      let some_left = some_octets e first in
      let both = length-append (wire e) (table_wire wire table) in
      get_entries_round fuel (wire e ++ table_wire wire table) (table_wire wire table) e table
        (omega arith) (reads e first (table_wire wire table))
        (get_entries_lem fuel table h (omega arith))
