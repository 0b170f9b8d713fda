-- ===== src/Websocket/Write.antt =====
-- `Frame::write`, `write_packet` and `write_close` of src/websocket/zero_copy.rs. The random mask
-- that the crate rand fills in is an argument.
use minihttp.Base.{
  ℕ, ◌+◌, ◌-◌, ◌/◌, ◌%◌, ◌^◌, Bool, [], ◌∷◌, ◌++◌, Bytes, length, ltb, leb, if◌then◌else◌, Run,
  panic, returns, bit_or,
}
use minihttp.Buffer.{Buffer, extend}
use minihttp.Websocket.Frame.{Frame, ping, pong, text, binary, close, xor_range}

abbrev pub mask_bit : Bool → ℕ
mask_bit mask = if mask then 0x80 else 0

-- `(len >> k) as u8` for a multiple `k` of 8 is a digit of `len` to the base 256.
abbrev pub byte_of : ℕ → ℕ → ℕ
byte_of n k = n / 2 ^ k % 256

-- The first two bytes and the size field.
unfoldable pub packet_head : ℕ → ℕ → Bool → Bytes
packet_head opcode len mask =
    let first_byte = bit_or opcode 0x80 in
    if leb len 125
    then first_byte ∷ bit_or (len % 256) (mask_bit mask) ∷ []
    else if leb len 65535
    then first_byte ∷ bit_or 126 (mask_bit mask) ∷ byte_of len 8 ∷ (len % 256) ∷ []
    else first_byte
      ∷ bit_or 127 (mask_bit mask)
      ∷ byte_of len 56
      ∷ byte_of len 48
      ∷ byte_of len 40
      ∷ byte_of len 32
      ∷ byte_of len 24
      ∷ byte_of len 16
      ∷ byte_of len 8
      ∷ (len % 256)
      ∷ []

module _ ⦃o : Buffer⦄ where
  -- `if mask { .. buf.extend(&bytes[..]); Some((buf.len(), bytes)) } else { None }`, then the payload in
  -- one or two pieces, then the loop from the position that was noted.
  abbrev masked_payload : Bytes → Bytes → Bool → Bytes → Bytes
  masked_payload buf payload mask key =
      let buf' : Bytes = extend buf key in
      let full : Bytes = extend buf' payload in
      if mask
      then xor_range key full (length buf') (length full - length buf')
      else extend buf payload

  unfoldable pub write_packet : Bytes → ℕ → Bytes → Bool → Bytes → Bytes
  write_packet buf opcode data' mask key =
      masked_payload (extend buf (packet_head opcode (length data') mask)) data' mask key

  unfoldable pub write_close : Bytes → ℕ → Bytes → Bool → Bytes → Run Bytes
  write_close buf code reason mask key =
      if ltb 123 (length reason)
      then panic
      else returns (
          masked_payload
            (extend buf (0x88 ∷ bit_or ((length reason + 2) % 256) (mask_bit mask) ∷ []))
            ((byte_of code 8 ∷ (code % 256) ∷ []) ++ reason) mask key)

  unfoldable pub write : Frame → Bytes → Bool → Bytes → Run Bytes
  write (ping data') buf masked key = returns (write_packet buf 0x9 data' masked key)
  write (pong data') buf masked key = returns (write_packet buf 0xA data' masked key)
  write (text data') buf masked key = returns (write_packet buf 0x1 data' masked key)
  write (binary data') buf masked key = returns (write_packet buf 0x2 data' masked key)
  write (close code reason) buf masked key = write_close buf code reason masked key
