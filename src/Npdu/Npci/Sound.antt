-- ===== src/Npdu/Npci/Sound.antt =====
-- bacpypes3/npdu.py: what `NPCI.decode` accepts, and its encoding.
use bacpypes.Prelude.{
  ℕ, ◌^◌, ◌<◌, ◌≡◌, refl, subst, Bool, true, false, not, Option, none, some, [], ◌++◌, length,
  arith, is_some, has_bits, bit_and, ltb, ◌==◌, All, all_below, all_below_sound, ltb→lt,
}
use bacpypes.Pdu.{Bytes, ok, IsByte, get, get_data, get_short, decoding_error}
use bacpypes.Pdu.Yields.{
  OnReturn, Yields, Yields-bind, Yields-pure, Yields-raise_if, get-Yields, get_data-Yields,
  get_short-Yields,
}
use bacpypes.Address.{Address, new_remote_station, new_remote_broadcast}
use bacpypes.Npdu.Npci.{
  Npci, encode, decode, decode_dadr, decode_sadr, decode_hop_count, decode_message, decode_vendor,
  destination, check_length, is_proprietary,
}
use bacpypes.Npdu.Npci.Wire.{
  IsDestination, IsSource, HopsFit, VendorFits, MessageFits, IsValid, encoded,
}
use bacpypes.Npdu.Npci.RoundTrip.{decode-encode}

-- Present exactly where the control octet says so.
abbrev Present {ℓ} : {A : Type ℓ} → Bool → Option A → Type 0
Present c o = is_some o ≡ c

abbrev Octets : ℕ → Bytes → Type 0
Octets n d = (length d ≡ n) × All IsByte d

new_remote_station-Yields :
    (net : ℕ) (addr : Bytes)
    → 0 < length addr
    → length addr < 256
    → Yields (λ a. IsDestination (some a) × IsSource (some a)) (new_remote_station net addr)
unfolding new_remote_station
new_remote_station-Yields net addr h k b hb = ground arith

destination-Yields :
    (net dlen : ℕ) (addr : Bytes)
    → dlen < 256
    → Octets dlen addr
    → Yields (λ a. IsDestination (some a)) (destination net dlen addr)
unfolding destination new_remote_station new_remote_broadcast
destination-Yields net dlen addr h k b hb = ground arith

decode_dadr-Yields : (c : Bool) → Yields (λ a. Present c a × IsDestination a) (decode_dadr c)
unfolding decode_dadr
decode_dadr-Yields false = Yields-pure (λ a. Present false a × IsDestination a) none (refl, tt)
decode_dadr-Yields true =
    Yields-bind (λ n. n < 2 ^ 16) _ _ get_short get_short-Yields
      λ net hn. Yields-bind IsByte _ _ get get-Yields λ n hl.
        Yields-bind (Octets n) _ _ (get_data n) (get_data-Yields n) λ addr ha.
          Yields-bind (λ a. IsDestination (some a)) _ _ (destination net n addr)
            (destination-Yields net n addr hl ha)
            λ a h. Yields-pure (λ a. Present true a × IsDestination a) (some a) (refl, h)

length_positive : (n : ℕ) (addr : Bytes) → Octets n addr → (n == 0) ≡ false → 0 < length addr
length_positive n addr h e = ground arith

decode_sadr-Yields : (c : Bool) → Yields (λ a. Present c a × IsSource a) (decode_sadr c)
unfolding decode_sadr
decode_sadr-Yields false = Yields-pure (λ a. Present false a × IsSource a) none (refl, tt)
decode_sadr-Yields true =
    Yields-bind (λ n. n < 2 ^ 16) _ _ get_short get_short-Yields
      λ net hn. Yields-bind IsByte _ _ get get-Yields λ n hl.
        Yields-bind (Octets n) _ _ (get_data n) (get_data-Yields n) λ addr ha.
          Yields-bind (λ _. (net == 0xffff) ≡ false) _ _ _
            (Yields-raise_if (net == 0xffff) decoding_error)
            λ _ e.
              Yields-bind (λ _. (n == 0) ≡ false) _ _ _ (Yields-raise_if (n == 0) decoding_error)
                λ _ z.
                  Yields-bind (λ a. IsDestination (some a) × IsSource (some a)) _ _
                    (new_remote_station net addr)
                    (new_remote_station-Yields net addr (length_positive n addr ha z) (omega arith))
                    λ a h. Yields-pure (λ a. Present true a × IsSource a) (some a) (refl, h.1)

decode_hop_count-Yields :
    (a : Option Address) → Yields (λ hops. HopsFit a hops) (decode_hop_count (is_some a))
unfolding decode_hop_count
decode_hop_count-Yields none = Yields-pure (λ hops. HopsFit none hops) none tt
decode_hop_count-Yields (some a) =
    Yields-bind IsByte _ _ get get-Yields
      λ n h. Yields-pure (λ hops. HopsFit (some a) hops) (some n) h

decode_vendor-Yields : (c : Bool) → Yields (λ v. VendorFits c v) (decode_vendor c)
unfolding decode_vendor
decode_vendor-Yields false = Yields-pure (λ v. VendorFits false v) none tt
decode_vendor-Yields true =
    Yields-bind (λ n. n < 2 ^ 16) _ _ get_short get_short-Yields
      λ n h. Yields-pure (λ v. VendorFits true v) (some n) h

abbrev MessageIs : Bool → Option ℕ × Option ℕ → Type 0
MessageIs c m = Present c m.0 × MessageFits m.0 m.1

decode_message-Yields : (c : Bool) → Yields (MessageIs c) (decode_message c)
unfolding decode_message
decode_message-Yields false = Yields-pure (MessageIs false) (none, none) (refl, tt)
decode_message-Yields true = Yields-bind IsByte _ _ get get-Yields λ m hm.
    Yields-bind (VendorFits (is_proprietary m)) _ _ (decode_vendor (is_proprietary m))
      (decode_vendor-Yields (is_proprietary m))
      λ v hv. Yields-pure (MessageIs true) (some m, v) (refl, (hm, hv))

priority_table : all_below 256 (λ c. ltb (bit_and c 0x03) 4) ≡ true
unfolding all_below
priority_table = refl

priority_fits : (c : ℕ) → c < 256 → bit_and c 0x03 < 4
priority_fits c h =
    ltb→lt _ _ (all_below_sound 256 (λ c. ltb (bit_and c 0x03) 4) c priority_table h)

check_length-Yields : Yields (λ _. Unit) check_length
unfolding check_length
check_length-Yields b hb = ground arith

version_is : (n : ℕ) → not (n == 1) ≡ false → n ≡ 1
version_is n h = ground arith

decode-Yields : Yields IsValid decode
unfolding decode
decode-Yields =
    Yields-bind (λ _. Unit) IsValid _ check_length check_length-Yields
      λ _ _. Yields-bind IsByte IsValid _ get get-Yields λ version _.
        Yields-bind (λ _. not (version == 1) ≡ false) IsValid _ _
          (Yields-raise_if (not (version == 1)) decoding_error)
          λ _ one. Yields-bind IsByte IsValid _ get get-Yields λ c hc.
            Yields-bind (λ a. Present (has_bits c 0x20) a × IsDestination a) IsValid _ _
              (decode_dadr-Yields (has_bits c 0x20))
              λ dadr hd.
                Yields-bind (λ a. Present (has_bits c 0x08) a × IsSource a) IsValid _ _
                  (decode_sadr-Yields (has_bits c 0x08))
                  λ sadr hs.
                    Yields-bind (λ hops. HopsFit dadr hops) IsValid _
                      (decode_hop_count (has_bits c 0x20))
                      (rw (← hd.0) (decode_hop_count-Yields dadr))
                      λ hops hh.
                        Yields-bind (MessageIs (has_bits c 0x80)) IsValid _ _
                          (decode_message-Yields (has_bits c 0x80))
                          λ m hm. Yields-pure IsValid _ (record {
                            version_one = version_is version one;
                            priority_fits = priority_fits c hc;
                            destination_fits = hd.1;
                            source_fits = hs.1;
                            hops_fit = hh;
                            message_fits = hm.1;
                          })

-- Octets that `decode` accepts make a valid header, and what is left is octets.
pub decode-IsValid :
    (b : Bytes) {h : Npci} {rest : Bytes}
    → All IsByte b
    → decode b ≡ ok (h, rest)
    → IsValid h × All IsByte rest
decode-IsValid b hb e = subst (OnReturn IsValid) e (decode-Yields b hb)

-- A header that was read from octets can be written, and is read again as it was, but for the
-- reserved bits of its control octet.
pub decode_again :
    (b : Bytes) {h : Npci} {rest : Bytes}
    → All IsByte b
    → decode b ≡ ok (h, rest)
    → (c : Bytes) × (encode h [] ≡ ok (encoded h, c)) × (decode (c ++ rest) ≡ ok (encoded h, rest))
decode_again b {h} {rest} hb e =
    let (c, written, again) = decode-encode h (decode-IsValid b hb e).0 in (c, written, again rest)
