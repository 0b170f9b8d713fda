-- ===== src/Websocket/Mask.antt =====
-- Masking the payload of a frame, src/websocket/zero_copy.rs.
use minihttp.Base.{
  ℕ, zero, suc, ◌+◌, ◌-◌, take_all, drop_all, append-nil, ◌%◌, ◌<◌, ◌≡◌, refl, ap, ap₂, [], ◌∷◌,
  ◌++◌, Bytes, length, get_or, All, arith, take-append, drop-append, length-append, drop-append_add,
}
use minihttp.Base.Bits.{xor_xor}
use minihttp.Websocket.Frame.{IsByte, xor_mask, xor_range}

pub length-xor_mask : (key : Bytes) (i : ℕ) (xs : Bytes) → length (xor_mask key i xs) ≡ length xs
unfolding xor_mask
length-xor_mask key i [] = refl
length-xor_mask key i (x ∷ xs) = ap suc (length-xor_mask key (i + 1) xs)

pub get_or-IsByte : (xs : Bytes) (i : ℕ) → All IsByte xs → get_or xs i 0 < 256
get_or-IsByte [] i h = omega arith
get_or-IsByte (x ∷ xs) zero h = h.0
get_or-IsByte (x ∷ xs) (suc i) h = get_or-IsByte xs i h.1

-- Masking bytes twice with the same key of bytes, from the same position, gives them back.
pub xor_mask-xor_mask :
    (key : Bytes) (i : ℕ) (xs : Bytes)
    → All IsByte key
    → All IsByte xs
    → xor_mask key i (xor_mask key i xs) ≡ xs
unfolding xor_mask
xor_mask-xor_mask key i [] hk h = refl
xor_mask-xor_mask key i (x ∷ xs) hk (hx, hxs) =
    ap₂ ◌∷◌ (xor_xor x (get_or key (i % 4) 0) hx (get_or-IsByte key (i % 4) hk)).0
      (xor_mask-xor_mask key (i + 1) xs hk hxs)

-- The loop over a slice that stands between two others.
pub xor_range-append :
    (key front slice back : Bytes)
    → xor_range key (front ++ (slice ++ back)) (length front) (length slice)
      ≡ front ++ (xor_mask key 0 slice ++ back)
xor_range-append key front slice back = rw (
  take-append front (slice ++ back),
  drop-append front (slice ++ back),
  take-append slice back,
  drop-append_add (length slice) front (slice ++ back),
  drop-append slice back,
)

-- The loop from a position to the end of the buffer.
pub xor_range_end :
    (key front slice : Bytes)
    → xor_range key (front ++ slice) (length front) (length (front ++ slice) - length front)
      ≡ front ++ xor_mask key 0 slice
xor_range_end key front slice =
    let size : length (front ++ slice) - length front ≡ length slice =
      omega (arith, length-append front slice) in
    rw (
      size,
      take-append front slice,
      drop-append front slice,
      take_all slice,
      drop-append_add (length slice) front slice,
      drop_all slice,
      append-nil,
    )
