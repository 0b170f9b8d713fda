-- ===== src/Websocket/Header.antt =====
-- The first bytes of a frame: what `write_packet` puts there, and what `Frame::parse` reads.
use minihttp.Base.{
  ℕ, ◌+◌, ◌%◌, ◌^◌, ◌<◌, ◌≤◌, ◌≡◌, refl, Bool, true, false, not, some, [], ◌∷◌, ◌++◌, Bytes, length,
  get_or, leb, ◌==◌, Bool-cases, inl, inr, arith, bit_and, bit_or, leb→le,
}
use minihttp.Base.Bits.{low_seven, low_four, top_bit, set_top_bit, set_no_bit}
use minihttp.Websocket.Frame.{ByteOrder, big_endian}
use minihttp.Websocket.Parse.{size_field}
use minihttp.Websocket.Write.{packet_head, mask_bit, byte_of}

-- The FIN bit and the opcode in the first byte.
pub first_byte :
    (op : ℕ)
    → op < 16
    → ((bit_and (bit_or op 0x80) 0x80 == 0) ≡ false) × (bit_and (bit_or op 0x80) 0x0f ≡ op)
first_byte op h =
    rw (set_top_bit op (omega arith))
      (ground (arith, top_bit (op + 128)), ground (arith, low_four (op + 128)))

-- The mask bit and the seven bits of the size in the second byte.
pub second_byte :
    (v : ℕ) (mask : Bool)
    → v < 128
    → ((bit_and (bit_or v (mask_bit mask)) 0x80 == 0) ≡ not mask)
      × (bit_and (bit_or v (mask_bit mask)) 0x7f ≡ v)
second_byte v true h =
    rw (set_top_bit v h) (ground (arith, top_bit (v + 128)), ground (arith, low_seven (v + 128)))
second_byte v false h = rw (set_no_bit v h) (ground (arith, top_bit v), ground (arith, low_seven v))

-- The bytes of the size field, put together again.
two_bytes : (n : ℕ) → n < 65536 → big_endian (byte_of n 8 ∷ (n % 256) ∷ []) 0 ≡ n
two_bytes n h = omega arith

abbrev eight : ℕ → Bytes
eight n =
    byte_of n 56
    ∷ byte_of n 48
    ∷ byte_of n 40
    ∷ byte_of n 32
    ∷ byte_of n 24
    ∷ byte_of n 16
    ∷ byte_of n 8
    ∷ (n % 256)
    ∷ []

eight_bytes : (n : ℕ) → n < 2 ^ 64 → big_endian (eight n) 0 ≡ n
eight_bytes n h = omega arith

module _ ⦃e : ByteOrder⦄ where
  -- The size field of a frame reads back as the size.
  pub size_field-packet_head :
      (op n : ℕ) (mask : Bool) (rest : Bytes)
      → n < 2 ^ 64
      → size_field (packet_head op n mask ++ rest) ≡ some (n, length (packet_head op n mask))
  unfolding size_field packet_head
  size_field-packet_head op n mask rest h = elim (Bool-cases (leb n 125)) [
    | inl small ↦
        rw small (ground (arith, second_byte (n % 256) mask (omega (arith, leb→le n 125 small))))
    | inr big ↦ elim (Bool-cases (leb n 65535)) [
      | inl medium ↦
          rw (big, medium)
            (ground (
              arith,
              second_byte 126 mask (omega arith),
              e.read_u16_lem (byte_of n 8 ∷ (n % 256) ∷ []) refl,
              two_bytes n,
            ))
      | inr large ↦
          rw (big, large)
            (ground (
              arith,
              second_byte 127 mask (omega arith),
              e.read_u64_lem (eight n) refl,
              eight_bytes n h,
            ))
    ]
  ]

pub get_or-packet_head :
    (op n : ℕ) (mask : Bool) (rest : Bytes)
    → n < 2 ^ 64
    → (get_or (packet_head op n mask ++ rest) 0 0 ≡ bit_or op 0x80)
      × ((bit_and (get_or (packet_head op n mask ++ rest) 1 0) 0x80 == 0) ≡ not mask)
      × (2 ≤ length (packet_head op n mask))
      × (length (packet_head op n mask) ≤ 10)
unfolding packet_head
get_or-packet_head op n mask rest h = elim (Bool-cases (leb n 125)) [
  | inl small ↦
      rw small (ground (arith, second_byte (n % 256) mask (omega (arith, leb→le n 125 small))))
  | inr big ↦ elim (Bool-cases (leb n 65535)) [
    | inl medium ↦ rw (big, medium) (ground (arith, second_byte 126 mask (omega arith)))
    | inr large ↦ rw (big, large) (ground (arith, second_byte 127 mask (omega arith)))
  ]
]
