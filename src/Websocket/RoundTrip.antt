-- ===== src/Websocket/RoundTrip.antt =====
-- Reading back what was written: `Frame::parse` after `Frame::write`, src/websocket/zero_copy.rs.
pub mod Frames
use minihttp.Base.{
  ℕ, ◌+◌, ◌-◌, ◌/◌, ◌*◌, ◌%◌, ◌^◌, ◌<◌, ◌≤◌, ◌≡◌, refl, sym, ap, ap₂, ◌∙◌, Bool, true, false, not,
  Option, none, some, [], ◌∷◌, ◌++◌, Bytes, length, take, drop, get_or, All, leb, ltb, ◌==◌,
  if◌then◌else◌, Bool-cases, inl, inr, arith, bit_and, bit_or, le→ltb, Run, panic, returns, Result,
  ok, err, take-append, drop-append, length-append, append_assoc,
}
use minihttp.Buffer.{Buffer, extend, extend_lem}
use minihttp.Utf8.{is_utf8}
use minihttp.Websocket.Frame.{
  Frame, ping, pong, text, binary, close, ErrorEnum, ByteOrder, IsByte, xor_mask, xor_range,
}
use minihttp.Websocket.Parse.{Parsed, size_field, decode, open_frame, parse}
use minihttp.Websocket.Write.{packet_head, write_packet, write_close, write, byte_of}
use minihttp.Websocket.Mask.{length-xor_mask, xor_mask-xor_mask, xor_range-append, xor_range_end}
use minihttp.Websocket.Header.{first_byte, size_field-packet_head, get_or-packet_head}

-- A mask of four bytes.
abbrev pub IsKey : Bytes → Type 0
IsKey key = (length key ≡ 4) × All IsByte key

-- What is asked of the mask: nothing, where there is none.
abbrev pub KeyFor : Bool → Bytes → Type 0
KeyFor true key = IsKey key
KeyFor false key = Unit {0}

-- What stands between the size field and the payload.
abbrev key_part : Bool → Bytes → Bytes
key_part mask key = if mask then key else []

abbrev hidden : Bool → Bytes → Bytes → Bytes
hidden mask key data' = if mask then xor_mask key 0 data' else data'

-- A frame on the wire.
abbrev pub packet : ℕ → Bytes → Bool → Bytes → Bytes
packet opcode data' mask key =
    packet_head opcode (length data') mask ++ (key_part mask key ++ hidden mask key data')

module _ ⦃o : Buffer⦄ where
  pub write_packet_lem :
      (buf : Bytes) (opcode : ℕ) (data' : Bytes) (mask : Bool) (key : Bytes)
      → write_packet buf opcode data' mask key ≡ buf ++ packet opcode data' mask key
  unfolding write_packet
  write_packet_lem buf opcode data' false key = simp (extend_lem, append_assoc)
  write_packet_lem buf opcode data' true key = simp extend_lem (
      xor_range_end key (buf ++ packet_head opcode (length data') true ++ key) data'
      ∙ simp append_assoc)

-- The four bytes that stand before the payload.
key_at :
    (H key more : Bytes)
    → length key ≡ 4
    → take 4 (drop (length (H ++ key) - 4) (H ++ key ++ more)) ≡ key
key_at H key more k4 =
    let e : length (H ++ key) - 4 ≡ length H = omega (arith, length-append H key) in
    rw (append_assoc H key more, e, drop-append H (key ++ more))
      (ap (λ m. take m (key ++ more)) (sym k4) ∙ take-append key more)

module _ ⦃e : ByteOrder⦄ where
  open_masked :
      (front data' rest key : Bytes) (op : ℕ)
      → (bit_and (get_or (front ++ (xor_mask key 0 data' ++ rest)) 0 0) 0x80 == 0) ≡ false
      → bit_and (get_or (front ++ (xor_mask key 0 data' ++ rest)) 0 0) 0x0f ≡ op
      → (bit_and (get_or (front ++ (xor_mask key 0 data' ++ rest)) 1 0) 0x80 == 0) ≡ false
      → take 4 (drop (length front - 4) (front ++ (xor_mask key 0 data' ++ rest))) ≡ key
      → All IsByte key
      → All IsByte data'
      → open_frame (front ++ (xor_mask key 0 data' ++ rest)) true (length front) (length data')
        ≡ (front ++ (data' ++ rest), decode op data' (length front + length data'))
  unfolding open_frame
  open_masked front data' rest key op f c m k hk hd =
      let same : xor_range key (front ++ (xor_mask key 0 data' ++ rest)) (length front)
            (length data')
          ≡ front ++ (data' ++ rest) =
        ap (xor_range key (front ++ (xor_mask key 0 data' ++ rest)) (length front))
          (sym (length-xor_mask key 0 data'))
        ∙ xor_range-append key front (xor_mask key 0 data') rest
        ∙ ap (λ d. front ++ (d ++ rest)) (xor_mask-xor_mask key 0 data' hk hd) in
      rw (f, m, k, c, same, drop-append front (data' ++ rest), take-append data' rest)

  open_plain :
      (front data' rest : Bytes) (op : ℕ)
      → (bit_and (get_or (front ++ (data' ++ rest)) 0 0) 0x80 == 0) ≡ false
      → bit_and (get_or (front ++ (data' ++ rest)) 0 0) 0x0f ≡ op
      → (bit_and (get_or (front ++ (data' ++ rest)) 1 0) 0x80 == 0) ≡ true
      → open_frame (front ++ (data' ++ rest)) false (length front) (length data')
        ≡ (front ++ (data' ++ rest), decode op data' (length front + length data'))
  unfolding open_frame
  open_plain front data' rest op f c m =
      rw (f, m, c, drop-append front (data' ++ rest), take-append data' rest)

  -- A buffer that holds the whole frame, within the limit.
  pub parse-open_frame :
      (buf : Bytes) (limit : ℕ) (masked : Bool) (n field start : ℕ)
      → size_field buf ≡ some (n, field)
      → start ≡ field + (if masked then 4 else 0)
      → 2 ≤ field
      → n ≤ limit
      → start + n ≤ length buf
      → parse buf limit masked ≡ open_frame buf masked start n
  unfolding parse
  parse-open_frame buf limit true n field start s k two l fits = ground arith
  parse-open_frame buf limit false n field start s k two l fits = ground arith

  -- `parse` on a whole frame, followed by anything.
  pub parse-packet :
      (op : ℕ) (data' : Bytes) (mask : Bool) (key rest : Bytes) (limit : ℕ)
      → op < 16
      → length data' < 2 ^ 64
      → length data' ≤ limit
      → KeyFor mask key
      → All IsByte data'
      → (front : Bytes) × (length front + length data' ≡ length (packet op data' mask key))
        × (parse (packet op data' mask key ++ rest) limit mask
            ≡ (front ++ (data' ++ rest), decode op data' (length (packet op data' mask key))))
  parse-packet op data' true key rest limit ho hn hl (k4, kb) hd =
      let n : ℕ = length data' in
      let hid : Bytes = xor_mask key 0 data' in
      let H : Bytes = packet_head op n true in
      let F : Bytes = H ++ key in
      let buf : Bytes = F ++ (hid ++ rest) in
      let shape : packet op data' true key ++ rest ≡ buf = simp append_assoc in
      let shape' : buf ≡ H ++ (key ++ (hid ++ rest)) = append_assoc H key (hid ++ rest) in
      let (b0, b1, lo, hi) = get_or-packet_head op n true (key ++ (hid ++ rest)) hn in
      let (f, c) = first_byte op ho in
      let lens = length-append H key in
      let hidden_len = length-xor_mask key 0 data' in
      let total : length F + n ≡ length (packet op data' true key) =
        simp length-append (omega arith) in
      let all_len : length buf ≡ length F + (n + length rest) = simp length-append (omega arith) in
      let start_key : take 4 (drop (length F - 4) buf) ≡ key = key_at H key (hid ++ rest) k4 in
      (
        F,
        total,
        rw shape (
            parse-open_frame buf limit true n (length H) (length F)
              (rw shape' (size_field-packet_head op n true (key ++ (hid ++ rest)) hn)) (omega arith)
              lo hl (omega arith)
            ∙ open_masked F data' rest key op (rw (shape', b0) f) (rw (shape', b0) c) (rw shape' b1)
                start_key kb hd
            ∙ ap (λ t. (F ++ (data' ++ rest), decode op data' t)) total),
      )
  parse-packet op data' false key rest limit ho hn hl k hd =
      let n : ℕ = length data' in
      let H : Bytes = packet_head op n false in
      let buf : Bytes = H ++ (data' ++ rest) in
      let (b0, b1, lo, hi) = get_or-packet_head op n false (data' ++ rest) hn in
      let (f, c) = first_byte op ho in
      let total : length H + n ≡ length (packet op data' false key) = sym (length-append H data') in
      let all_len : length buf ≡ length H + (n + length rest) = simp length-append (omega arith) in
      (
        H,
        total,
        rw (append_assoc H data' rest) (
            parse-open_frame buf limit false n (length H) (length H)
              (size_field-packet_head op n false (data' ++ rest) hn) (omega arith) lo hl
              (omega arith)
            ∙ open_plain H data' rest op (rw b0 f) (rw b0 c) b1
            ∙ ap (λ t. (H ++ (data' ++ rest), decode op data' t)) total),
      )
