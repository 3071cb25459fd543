-- ===== src/Trap/Receive.antt =====
-- src/trap.rs: the loop of `recv`.
use rusnmp.Prelude.{
  ℕ, ◌^◌, ◌≤◌, ◌<◌, ◌+◌, ◌≡◌, refl, arith, List, [], ◌∷◌, ◌++◌, length, take, take-all, All, ◌∙◌,
}
use rusnmp.Prelude.Int.{IsByte}
use rusnmp.Error.{SnmpError, Outcome, ok, err, panicked}
use rusnmp.Run.{eval}
use rusnmp.Codec.Decoder.{fold64}
use rusnmp.Codec.Panics.{huge_sequence, read_sequence-huge_sequence}
use rusnmp.Trap.{Trap, Arrival, Recv, datagram, failure, returned, decode_trap, on_decoded, recv}

module _ {Addr : Type 0} where
  -- A datagram that `decode_trap` refuses.
  abbrev pub IsRefused : Arrival Addr → Type 0
  IsRefused (datagram bytes source) =
      (e : SnmpError) × (decode_trap (take 65535 bytes) source ≡ err e)
  IsRefused failure = ⊥

  recv-datagram :
      (bytes : List ℕ) (source : Addr) (rest : List (Arrival Addr))
      → recv (datagram bytes source ∷ rest)
        ≡ on_decoded (decode_trap (take 65535 bytes) source) rest (recv rest)
  unfolding recv
  recv-datagram bytes source rest = refl

  on_decoded-err :
      {r : Outcome (Trap Addr)} {e : SnmpError}
      → r ≡ err e
      → (rest : List (Arrival Addr)) (k : Recv Addr) → on_decoded r rest k ≡ k
  unfolding on_decoded
  on_decoded-err h rest k = rw h refl

  recv-refused :
      (refused rest : List (Arrival Addr))
      → All IsRefused refused
      → recv (refused ++ rest) ≡ recv rest
  recv-refused [] rest h = refl
  recv-refused (datagram bytes source ∷ refused) rest h =
      recv-datagram bytes source (refused ++ rest)
      ∙ (on_decoded-err h.0.1 (refused ++ rest) (recv (refused ++ rest))
          ∙ recv-refused refused rest h.1)
  recv-refused (failure ∷ refused) rest h = absurd h.0

  decode_trap-huge_sequence :
      (octets more : List ℕ) (source : Addr)
      → length octets ≡ 8
      → All IsByte octets
      → 2 ^ 64 ≤ 10 + fold64 0 octets
      → length (huge_sequence octets more) < 2 ^ 63
      → decode_trap (huge_sequence octets more) source ≡ panicked
  unfolding decode_trap
  decode_trap-huge_sequence octets more source eight bytes huge small =
      rw (read_sequence-huge_sequence octets more eight bytes huge small, eval) refl

  -- `recv` passes over datagrams that `decode_trap` refuses, as many as come, returns the trap
  -- of the first one that decodes, and leaves the later ones where they are.
  pub recv-first :
      (refused : List (Arrival Addr)) (bytes : List ℕ) (source : Addr) (rest : List (Arrival Addr))
      (trap : Trap Addr)
      → All IsRefused refused
      → decode_trap (take 65535 bytes) source ≡ ok trap
      → recv (refused ++ datagram bytes source ∷ rest) ≡ returned (ok trap) rest
  recv-first refused bytes source rest trap h e =
      rw (recv-refused refused (datagram bytes source ∷ rest) h, recv-datagram bytes source rest, e)
        (unfold on_decoded in refl)

  -- A datagram of at most 65535 bytes that begins with a SEQUENCE tag and eight length octets
  -- for 2 ^ 64 - 10 or more panics `recv`, whatever follows in it and after it.
  pub recv-huge_sequence :
      (octets more : List ℕ) (source : Addr) (rest : List (Arrival Addr))
      → length octets ≡ 8
      → All IsByte octets
      → 2 ^ 64 ≤ 10 + fold64 0 octets
      → length (huge_sequence octets more) ≤ 65535
      → recv (datagram (huge_sequence octets more) source ∷ rest) ≡ returned panicked rest
  recv-huge_sequence octets more source rest eight bytes huge small =
      rw
        (
          recv-datagram (huge_sequence octets more) source rest,
          take-all 65535 (huge_sequence octets more) small,
          decode_trap-huge_sequence octets more source eight bytes huge (omega arith),
        )
        (unfold on_decoded in refl)
