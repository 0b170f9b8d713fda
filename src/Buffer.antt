-- ===== src/Buffer.antt =====
-- The byte buffer of the crates tk_bufstream and netbuf (`Buf`), which the code only calls. A buffer
-- is read through its contents, a list of bytes, as the crate's `Deref` to a byte slice gives it.
use minihttp.Base.{
  ◌∙◌, arith, ◌+◌, length-append, take-append, drop-append, drop-append_add, ℕ, ◌≤◌, ◌≡◌, refl,
  ◌++◌, Bytes, length, take, drop,
}

-- The operations on the contents that the code calls, and their documented effect. Nothing is said
-- of a range that is out of bounds.
pub record Buffer : Type 0 where
  pub extend : Bytes → Bytes → Bytes
  pub remove_range : Bytes → ℕ → ℕ → Bytes
  pub consume : Bytes → ℕ → Bytes
  pub extend_appends : (buf data' : Bytes) → extend buf data' ≡ buf ++ data'
  pub remove_range_cuts :
      (buf : Bytes) (from to : ℕ)
      → from ≤ to
      → to ≤ length buf
      → remove_range buf from to ≡ take from buf ++ drop to buf
  pub consume_drops : (buf : Bytes) (n : ℕ) → n ≤ length buf → consume buf n ≡ drop n buf

module _ ⦃o : Buffer⦄ where
  -- `buf.extend(data)`, and what `write`, `write_all` and `write!` do on a buffer.
  abbrev pub extend : Bytes → Bytes → Bytes
  extend = o.extend

  abbrev pub remove_range : Bytes → ℕ → ℕ → Bytes
  remove_range = o.remove_range

  abbrev pub consume : Bytes → ℕ → Bytes
  consume = o.consume

  pub extend_lem : (buf data' : Bytes) → extend buf data' ≡ buf ++ data'
  extend_lem = o.extend_appends

  -- Taking a range out that stands between two others.
  pub remove_middle :
      (a b c : Bytes) → remove_range (a ++ (b ++ c)) (length a) (length a + length b) ≡ a ++ c
  remove_middle a b c =
      o.remove_range_cuts (a ++ (b ++ c)) (length a) (length a + length b) (omega arith)
        (omega (arith, length-append a (b ++ c), length-append b c))
      ∙ rw (take-append a (b ++ c), drop-append_add (length b) a (b ++ c), drop-append b c)

-- A buffer that is a plain vector meets the laws.
abbrev pub vec_buffer : Buffer
vec_buffer = record {
  extend = λ buf data'. buf ++ data';
  remove_range = λ buf from to. take from buf ++ drop to buf;
  consume = λ buf n. drop n buf;
  extend_appends = λ buf data'. refl;
  remove_range_cuts = λ buf from to h k. refl;
  consume_drops = λ buf n h. refl;
}
