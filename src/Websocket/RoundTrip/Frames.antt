-- ===== src/Websocket/RoundTrip/Frames.antt =====
-- Every frame that the program may send is read back, src/websocket/zero_copy.rs.
use minihttp.Base.{
  ℕ, suc, ◌+◌, ◌%◌, ◌^◌, ◌<◌, ◌≤◌, ◌≡◌, refl, sym, ap, ap₂, ◌∙◌, Bool, true, some, [], ◌∷◌, ◌++◌,
  Bytes, length, All, arith, le→ltb, le→leb, returns, ok, length-append, append_assoc,
}
use minihttp.Buffer.{Buffer}
use minihttp.Utf8.{is_utf8}
use minihttp.Websocket.Frame.{Frame, ping, pong, text, binary, close, ByteOrder, IsByte}
use minihttp.Websocket.Parse.{decode, parse}
use minihttp.Websocket.Write.{packet_head, write_packet, write_close, write, byte_of}
use minihttp.Websocket.RoundTrip.{KeyFor, packet, write_packet_lem, parse-packet}

abbrev opcode_of : Frame → ℕ
opcode_of (ping d) = 0x9
opcode_of (pong d) = 0xA
opcode_of (text d) = 0x1
opcode_of (binary d) = 0x2
opcode_of (close c d) = 0x8

-- The bytes behind the head of the frame.
abbrev pub payload : Frame → Bytes
payload (ping d) = d
payload (pong d) = d
payload (text d) = d
payload (binary d) = d
payload (close c d) = byte_of c 8 ∷ (c % 256) ∷ d

-- What the types of the source say of a frame, and the limit of a close reason.
abbrev pub IsFrame : Frame → Type 0
IsFrame (ping d) = All IsByte d
IsFrame (pong d) = All IsByte d
IsFrame (text d) = All IsByte d × (is_utf8 d ≡ true)
IsFrame (binary d) = All IsByte d
IsFrame (close c d) = All IsByte d × (is_utf8 d ≡ true) × (c < 65536) × (length d ≤ 123)

module _ ⦃o : Buffer⦄ where
  -- A close frame is written as a packet of its code and its reason.
  write_close-write_packet :
      (c : ℕ) (d buf : Bytes) (masked : Bool) (key : Bytes)
      → length d ≤ 123
      → write_close buf c d masked key
        ≡ returns (write_packet buf 0x8 (payload (close c d)) masked key)
  unfolding write_close write_packet packet_head
  write_close-write_packet c d buf masked key l =
      let e : length d + 2 ≡ suc (suc (length d)) = omega arith in
      rw (le→ltb 123 (length d) l, e, le→leb (suc (suc (length d))) 125 (omega arith))

  write-packet :
      (f : Frame) (buf : Bytes) (masked : Bool) (key : Bytes)
      → IsFrame f
      → write f buf masked key ≡ returns (buf ++ packet (opcode_of f) (payload f) masked key)
  unfolding write
  write-packet (ping d) buf masked key h = rw (write_packet_lem buf 0x9 d masked key)
  write-packet (pong d) buf masked key h = rw (write_packet_lem buf 0xA d masked key)
  write-packet (text d) buf masked key h = rw (write_packet_lem buf 0x1 d masked key)
  write-packet (binary d) buf masked key h = rw (write_packet_lem buf 0x2 d masked key)
  write-packet (close c d) buf masked key (b, u, r, l) =
      write_close-write_packet c d buf masked key l
      ∙ ap returns (write_packet_lem buf 0x8 (payload (close c d)) masked key)

module _ ⦃e : ByteOrder⦄ where
  decode-payload :
      (f : Frame) (total : ℕ)
      → IsFrame f
      → decode (opcode_of f) (payload f) total ≡ ok (some (f, total))
  unfolding decode
  decode-payload (ping d) total h = refl
  decode-payload (pong d) total h = refl
  decode-payload (text d) total (b, u) = rw u
  decode-payload (binary d) total h = refl
  decode-payload (close c d) total (b, u, r, l) =
      ground (arith, e.read_u16_lem (byte_of c 8 ∷ (c % 256) ∷ []) refl)

  payload-IsByte : (f : Frame) → IsFrame f → All IsByte (payload f)
  payload-IsByte (ping d) h = h
  payload-IsByte (pong d) h = h
  payload-IsByte (text d) h = h.0
  payload-IsByte (binary d) h = h
  payload-IsByte (close c d) h = (omega arith, (omega arith, h.0))

  opcode_of-lt : (f : Frame) → opcode_of f < 16
  opcode_of-lt f = ground arith

module _ ⦃o : Buffer⦄ ⦃e : ByteOrder⦄ where
  -- A frame of valid text and bytes, with a close reason of at most 123 bytes and a payload below
  -- 2^64 bytes and within the limit, is written without a panic; `parse` with the same mask
  -- setting reads it back from the bytes that were appended, whatever follows them, takes their
  -- number, and leaves what follows as it is.
  pub parse-write :
      (f : Frame) (buf rest : Bytes) (masked : Bool) (key : Bytes) (limit : ℕ)
      → IsFrame f
      → KeyFor masked key
      → length (payload f) < 2 ^ 64
      → length (payload f) ≤ limit
      → (wire : Bytes) × (opened : Bytes) × (write f buf masked key ≡ returns (buf ++ wire))
        × (length opened ≡ length wire)
        × (parse (wire ++ rest) limit masked ≡ (opened ++ rest, ok (some (f, length wire))))
  parse-write f buf rest masked key limit hf hk hn hl =
      let wire : Bytes = packet (opcode_of f) (payload f) masked key in
      let (front, total, parsed) =
        parse-packet (opcode_of f) (payload f) masked key rest limit (opcode_of-lt f) hn hl hk
          (payload-IsByte f hf) in
      (
        wire,
        front ++ payload f,
        write-packet f buf masked key hf,
        length-append front (payload f) ∙ total,
        parsed
            ∙ ap₂ (λ a b. (a, b)) (sym (append_assoc front (payload f) rest))
                (decode-payload f (length wire) hf),
      )
