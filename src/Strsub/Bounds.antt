-- ===== src/Strsub/Bounds.antt =====
-- Which bytes `strsub_parse_string_to` of src/common/strsub.c writes.
use nvol.Base.{
  ℕ, ◌+◌, ◌^◌, ◌≤◌, ◌<◌, ◌≡◌, ◌⊎◌, inl, inr, refl, ◌∙◌, List, [], ◌∷◌, false, some, arith, leb,
  length, take, length-take, Bool-cases,
}
use nvol.Strsub.Keeps.{Keeps, Polite, HasChains, strsub_parse-Keeps}
use nvol.Strsub.Sink.{
  Sink, write_bytes, room, taken, strsub_cb, given_length, strsub_parse_string_to,
}
use nvol.Strsub.Strings.{write_bytes_outside}
use nvol.Strsub.{Strsub}

module _ (cell : ℕ → ℕ) (dst size : ℕ) where
  -- Outside of the buffer the memory is as it was.
  pub record Inside (s : Sink) : Type 0 where
    pub outside : (a : ℕ) → (a < dst) ⊎ (dst + size ≤ a) → s.cell a ≡ cell a
    pub buffer : s.buffer ≡ some dst
    pub len : s.len ≡ size

  -- The bytes taken fit behind the offset.
  taken_fits :
      (len o : ℕ)
      → len < 2 ^ 31
      → size < 2 ^ 31
      → leb (room size) o ≡ false
      → 0 < size
      → o + taken size len o ≤ size
  unfolding room taken
  taken_fits len o small h free pos = ground arith

  pub strsub_cb-Inside : 0 < size → size < 2 ^ 31 → Keeps Inside strsub_cb
  unfolding strsub_cb
  strsub_cb-Inside pos h str len o s small p = elim (Bool-cases (leb (room size) o)) [
    | inl full ↦ simp (strsub_cb, p.len, full) p
    | inr free ↦
        let n = taken size len o in
        let fits = taken_fits len o small h free pos in
        simp (strsub_cb, p.len, p.buffer, free)
          (record {
            outside = λ a out.
                write_bytes_outside s.cell (dst + o) (take n str) a
                  (omega (arith, length-take n str))
                ∙ p.outside a out;
            buffer = refl;
            len = refl;
          })
  ]

  -- `strsub_parse_string_to` into a buffer of at least one byte and fewer than 2 ^ 31 ends, and leaves
  -- every address `a` outside of the buffer as it was, whatever the text and its words: if the text has fewer than
  -- 2 ^ 31 - 1 bytes, the handlers of each token form a chain, and they write by the function that
  -- they are given.
  pub strsub_parse_string_to-bounds :
      (fuel : ℕ) (instance : Strsub Sink) (str : List ℕ) (len a : ℕ)
      → (a < dst) ⊎ (dst + size ≤ a)
      → 0 < size
      → size < 2 ^ 31
      → length str + 1 < 2 ^ 31
      → Polite Inside instance.memory
      → HasChains Inside fuel instance
      → (offset : ℕ) × (mem : ℕ → ℕ) × (strsub_parse_string_to fuel instance cell
            (some str)
            len
            dst
            size
          ≡ some (offset, mem))
        × (mem a ≡ cell a)
  unfolding strsub_parse_string_to
  strsub_parse_string_to-bounds fuel instance str len a out pos h small polite chains =
      let arg : Sink = record {
        cell = write_bytes cell dst (0 ∷ []);
        buffer = some dst;
        len = size;
      } in
      let start : Inside arg = record {
        outside = λ a out. write_bytes_outside cell dst (0 ∷ []) a (omega arith);
        buffer = refl;
        len = refl;
      } in
      let (offset, s', run, p) =
        strsub_parse-Keeps Inside fuel instance strsub_cb (strsub_cb-Inside pos h) polite chains
          (length str) small str (given_length str len) arg (omega arith) start in
      (offset, s'.cell, rw (strsub_parse_string_to, run) refl, p.outside a out)
