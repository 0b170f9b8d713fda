-- ===== src/Websocket/Bounds/Incomplete.antt =====
-- A frame that has not arrived in full, src/websocket/zero_copy.rs.
use minihttp.Base.{
  ℕ, ◌^◌, ◌<◌, ◌≤◌, ◌≡◌, ◌≢◌, refl, sym, ap, ◌∙◌, ◌⊎◌, inl, inr, Bool, none, some, [], ◌∷◌, ◌++◌,
  Bytes, length, arith, returns, ok, err, length-append, append-nil,
}
use minihttp.Buffer.{Buffer}
use minihttp.Websocket.Frame.{Frame, ByteOrder}
use minihttp.Websocket.Parse.{Parsed, parse}
use minihttp.Websocket.Write.{write}
use minihttp.Websocket.RoundTrip.{KeyFor}
use minihttp.Websocket.RoundTrip.Frames.{IsFrame, payload, parse-write}
use minihttp.Websocket.Bounds.{parse-append, parse_takes, parse_waits}

Parsed-cases : (r : Parsed) → (r ≡ ok none) ⊎ (r ≢ ok none)
Parsed-cases (ok none) = inl refl
Parsed-cases (ok (some p)) = inr (λ h. cc)
Parsed-cases (err e) = inr (λ h. cc)

module _ ⦃o : Buffer⦄ ⦃e : ByteOrder⦄ where
  -- On every proper prefix of the bytes of a written frame, with a payload within the limit,
  -- `parse` asks for more and leaves the buffer as it is.
  pub parse_incomplete :
      (f : Frame) (masked : Bool) (key : Bytes) (limit : ℕ) (front : Bytes) (x : ℕ) (back : Bytes)
      → IsFrame f
      → KeyFor masked key
      → length (payload f) < 2 ^ 64
      → length (payload f) ≤ limit
      → write f [] masked key ≡ returns (front ++ (x ∷ back))
      → parse front limit masked ≡ (front, ok none)
  parse_incomplete f masked key limit front x back hf hk hn hl written =
      let (wire, opened, w, len, p) = parse-write f [] [] masked key limit hf hk hn hl in
      let split : wire ≡ front ++ (x ∷ back) = cc in
      let whole : (parse (front ++ (x ∷ back)) limit masked).1 ≡ ok (some (f, length wire)) =
        ap (λ (q : Bytes × Parsed). q.1)
          (ap (λ b. parse b limit masked) (sym split ∙ sym (append-nil wire)) ∙ p) in
      elim (Parsed-cases (parse front limit masked).1) [
        | inl waits ↦ parse_waits front limit masked waits
        | inr given ↦
            let same =
              ap (λ (q : Bytes × Parsed). q.1) (parse-append front (x ∷ back) limit masked given) in
            let bounds = parse_takes front limit masked f (length wire) (sym same ∙ whole) in
            absurd (
              omega (
                arith,
                bounds.1,
                ap (λ (b : Bytes). length b) split,
                length-append front (x ∷ back),
              ))
      ]
