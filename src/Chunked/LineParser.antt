-- ===== src/Chunked/LineParser.antt =====
-- A parser of size lines that meets the interface which src/chunked.rs needs.
use minihttp.Base.{
  ℕ, ◌+◌, ◌*◌, ◌≤◌, ◌≡◌, ap₂, ◌∙◌, inl, inr, Bool-cases, ◌&&◌, [], ◌∷◌, ◌++◌, Bytes, length, All,
  leb, ◌==◌, if◌then◌else◌, Result, ok, err, arith,
}
use minihttp.Base.Digits.{hex, hex-IsDigit, IsDigit, of_digits, of_digits-hex, digit_value}
use minihttp.Chunked.{
  SizeStatus, complete, partial, InvalidChunkSize, invalid_chunk_size, SizeParser,
}

-- The end of a size line whose digits have been read.
abbrev pub line_end : ℕ → Bytes → ℕ → ℕ → Result InvalidChunkSize SizeStatus
line_end c [] pos size = if c == 13 then ok partial else err invalid_chunk_size
line_end c (d ∷ ds) pos size =
    if c == 13 && d == 10 then ok (complete (pos + 2) size) else err invalid_chunk_size

abbrev pub size_from : Bytes → ℕ → ℕ → Result InvalidChunkSize SizeStatus
size_from [] pos size = ok partial
size_from (c ∷ cs) pos size =
    if leb 48 c && leb c 102
    then size_from cs (pos + 1) (size * 16 + digit_value c)
    else line_end c cs pos size

pub size_from-within :
    (buf : Bytes) (pos acc n size : ℕ)
    → size_from buf pos acc ≡ ok (complete n size)
    → (1 ≤ n) × (n ≤ pos + length buf)
size_from-within [] pos acc n size e = absurd (ground arith)
size_from-within (c ∷ []) pos acc n size e = absurd (ground arith)
size_from-within (c ∷ d ∷ ds) pos acc n size e = elim (Bool-cases (leb 48 c && leb c 102)) [
  | inl digit ↦
      let ih =
        size_from-within (d ∷ ds) (pos + 1) (acc * 16 + digit_value c) n size (ground arith) in
      (ih.0, omega arith)
  | inr other ↦ ground arith
]

pub size_from-digits :
    (xs rest : Bytes) (pos acc : ℕ)
    → All IsDigit xs
    → size_from (xs ++ (13 ∷ 10 ∷ rest)) pos acc
      ≡ ok (complete (pos + (length xs + 2)) (of_digits 16 xs acc))
unfolding of_digits
size_from-digits [] rest pos acc h = ground arith
size_from-digits (x ∷ xs) rest pos acc (hx, hxs) =
    ground (arith, size_from-digits xs rest (pos + 1) (acc * 16 + digit_value x) hxs)

abbrev pub line_parser : SizeParser
line_parser = record {
  parse_chunk_size = λ buf. size_from buf 0 0;
  size_within = λ buf n size e. let h = size_from-within buf 0 0 n size e in (h.0, omega arith);
  size_line = λ size rest h.
      size_from-digits (hex size) rest 0 0 (hex-IsDigit size)
      ∙ ap₂ (λ n v. ok (complete n v)) {x = 0 + (length (hex size) + 2)} {y = length (hex size) + 2}
          (omega arith) (of_digits-hex size h);
}
