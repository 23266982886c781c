-- ===== src/Strsub/Sink.antt =====
-- The string functions of src/common/strsub.c: `strsub_parse` into a buffer, or to count.
use nvol.Base.{
  ℕ, ◌+◌, ◌-◌, ◌%◌, ◌^◌, List, [], ◌∷◌, Option, none, some, ltb, leb, ◌==◌, if◌then◌else◌, length,
  take,
}
use nvol.Dictionary.Keys.{c_string}
use nvol.Strsub.{Answer, wrote, refused, Strsub, strsub_parse}

-- `STRSUB_TO_CB_T`, and the memory that the buffer lies in; `buffer` is null for counting only.
pub record Sink : Type 0 where
  pub cell : ℕ → ℕ
  pub buffer : Option ℕ
  pub len : ℕ

-- `memcpy (cell + addr, bytes, length bytes)`
unfoldable pub write_bytes : (ℕ → ℕ) → ℕ → List ℕ → ℕ → ℕ
write_bytes cell addr [] = cell
write_bytes cell addr (b ∷ bytes) =
    write_bytes (λ a. if a == addr then b else cell a) (addr + 1) bytes

-- `parg->len - 1`, and the number of bytes that `strsub_cb` takes; both are uint32_t.
unfoldable pub room : ℕ → ℕ
room len = (len + 2 ^ 32 - 1) % 2 ^ 32

unfoldable pub taken : ℕ → ℕ → ℕ → ℕ
unfolding room
taken size len offset =
    if leb (room size) ((len + offset) % 2 ^ 32) then (size + 2 ^ 33 - offset - 1) % 2 ^ 32 else len

-- A uint32_t as the int32_t that is returned.
unfoldable pub as_answer : ℕ → Answer
as_answer n = if ltb n (2 ^ 31) then wrote n else refused

-- `strsub_cb`
unfoldable pub strsub_cb : List ℕ → ℕ → ℕ → Sink → Answer × Sink
unfolding room taken as_answer write_bytes
strsub_cb str len offset arg =
    if leb (room arg.len) offset
    then (refused, arg)
    else let n = taken arg.len len offset in
      elim arg.buffer [
        | none ↦ (as_answer n, arg)
        | some dst ↦
            (as_answer n, record arg { cell = write_bytes arg.cell (dst + offset) (take n str) })
      ]

-- `if (!len) len = strlen (str)`
unfoldable pub given_length : List ℕ → ℕ → ℕ
unfolding c_string
given_length str len = if len == 0 then length (c_string str) else len

-- `strsub_parse_get_dst_length`; a null string has no length.
unfoldable pub strsub_parse_get_dst_length :
    ℕ → Strsub Sink → (ℕ → ℕ) → Option (List ℕ) → ℕ → Option ℕ
unfolding strsub_cb given_length
strsub_parse_get_dst_length fuel instance cell none len = some 0
strsub_parse_get_dst_length fuel instance cell (some str) len =
    elim (strsub_parse fuel instance strsub_cb str (given_length str len)
      (record { cell = cell; buffer = none; len = 2 ^ 32 - 1 })) [
        | none ↦ none
        | some (dstlen, _) ↦ some (if ltb dstlen (2 ^ 31) then dstlen + 1 else 0)
      ]

-- `strsub_parse_string_to` into the buffer at `dst`: the offset, and the memory afterwards.
unfoldable pub strsub_parse_string_to :
    ℕ → Strsub Sink → (ℕ → ℕ) → Option (List ℕ) → ℕ → ℕ → ℕ → Option (ℕ × (ℕ → ℕ))
unfolding strsub_cb given_length write_bytes
strsub_parse_string_to fuel instance cell none len dst dst_len =
    some (0, write_bytes cell dst (0 ∷ []))
strsub_parse_string_to fuel instance cell (some str) len dst dst_len =
    elim (strsub_parse fuel instance strsub_cb str (given_length str len)
      (record { cell = write_bytes cell dst (0 ∷ []); buffer = some dst; len = dst_len })) [
        | none ↦ none
        | some (offset, arg) ↦ some (offset, arg.cell)
      ]
