-- ===== src/Nvol/Stored.antt =====
-- Records on the FLASH: what a slot holds, and how the slot functions of src/nvram/nvol3.c read and
-- change it.
pub mod Heads
use Prim.Native.Nat.{bit_and}
use nvol.Base.{
  ℕ, zero, suc, ◌+◌, ◌-◌, ◌*◌, ◌/◌, ◌%◌, ◌^◌, ◌≤◌, ◌<◌, ◌≡◌, ◌≢◌, ◌⊎◌, refl, sym, ap, ◌∙◌, List, [],
  ◌∷◌, ◌++◌, true, false, some, arith, length, get_or, take, drop, ltb, ◌==◌, if◌then◌else◌, inl,
  inr, length-append, get_or-append_left, get_or_default, lt→ltb, ==_ne, length-take,
}
use nvol.Base.Bits.{bit_and_cleared}
use nvol.Base.Bytes.{load16, bytes16, overlay, load16-bytes16}
use nvol.Base.Status.{Status, eok, efail, e_empty, e_invalid, is_eok}
use nvol.Flash.Content.{
  Holds, IsErased, IsBytes, peek_bytes-Holds, Holds-append_left, Holds-append_right,
  programmed-Holds, programmed_outside, IsBytes-append, IsBytes-take,
}
use nvol.Flash.{Flash, IsNor, peek_bytes, programmed}
use nvol.Nvol.Geometry.{IsConfig, slot_fits, slot_addr_lem, max_length_lem}
use Heads.{
  IsHead, Stored, Covers, length-head_bytes, head_bytes-IsBytes, parse, behind_head, reflagged,
}
use nvol.Nvol.Slots.{
  Volume, check_head, read_body, read_variable_record, read_variable_record_head, flash_write,
  write_variable_record, set_variable_record_flags,
}
use nvol.Nvol.{
  Head, Record, Config, Instance, M, head_size, page_size, flags_empty, flags_new, flags_valid,
  flags_invalid, head_bytes, head_of, max_records, max_length, slot_addr,
}

module _ (config : Config) (nor : IsNor config.flash) (c : IsConfig config) where
  -- A header passes the tests only if its record fits the slot.
  check_head-length : (h : Head) → check_head config h ≡ eok → h.length ≤ max_length config
  unfolding check_head
  check_head-length h chk = ground arith

  -- The sector can be used as a whole.
  pub record InReach (s : Volume config) (sector : ℕ) : Type 0 where
    pub capacity : sector + config.sector_size < nor.capacity s.dev
    pub address : sector + config.sector_size < 2 ^ 32

  module _ (s : Volume config) (idx : ℕ) (slot : idx < max_records config)
      (reach : InReach s s.sector) where
    abbrev addr : ℕ
    addr = slot_addr config s.sector idx

    addr_place : addr ≡ s.sector + (page_size + config.record_size * idx)
    addr_place = slot_addr_lem config c s.sector idx reach.address slot

    pub read_head :
        (h : Head) (body : List ℕ)
        → Stored (nor.peek s.dev) addr h body
        → config.flash.read addr head_size s.dev ≡ (eok, head_bytes h)
    unfolding head_bytes bytes16
    read_head h body st =
        let fits = slot_fits config c idx slot in
        nor.read_lem s.dev addr head_size (omega (arith, addr_place, reach.capacity, c.record_room))
        ∙ ap (λ (b : List ℕ). (eok, b))
            (peek_bytes-Holds (nor.peek s.dev) addr (head_bytes h)
              (Holds-append_left (nor.peek s.dev) addr (head_bytes h) body st))

    read_bytes :
        (h : Head) (body : List ℕ)
        → Stored (nor.peek s.dev) addr h body
        → (n : ℕ) → n ≡ length body
        → n ≤ max_length config
        → config.flash.read ((addr + head_size) % 2 ^ 32) n s.dev ≡ (eok, body)
    read_bytes h body st n size fits =
        let room = slot_fits config c idx slot in
        let near : (addr + head_size) % 2 ^ 32 ≡ addr + head_size =
          omega (arith, addr_place, reach.address, c.record_room) in
        let longest = max_length_lem config c in
        rw (near, size)
          (nor.read_lem s.dev (addr + head_size) (length body)
              (omega (arith, addr_place, reach.capacity))
            ∙ ap (λ (b : List ℕ). (eok, b))
                (peek_bytes-Holds (nor.peek s.dev) (addr + head_size) body
                  (behind_head (nor.peek s.dev) addr h body st)))

    -- A record that stands in a slot with a header that passes the tests is read into the front of
    -- the buffer.
    pub read_variable_record-Stored :
        (h : Head) (body : List ℕ) (rec : Record)
        → Stored (nor.peek s.dev) addr h body
        → IsHead h
        → check_head config h ≡ eok
        → h.length ≡ length body
        → 0 < h.length
        → read_variable_record config s rec idx 0
          ≡ (eok, record { head = h; key_and_data = overlay body rec.key_and_data })
    unfolding read_variable_record read_body
    read_variable_record-Stored h body rec st w chk size pos =
        rw (lt→ltb idx _ slot, read_head h body st, parse h w, chk, ==_ne h.length 0 (omega arith))
          (rw (read_bytes h body st h.length size (check_head-length h chk)))

  -- What changed between two states of the device: the range that was written, and nothing else.
  pub record Changes (d d' : config.flash.Dev) (addr n : ℕ) : Type 0 where
    pub outside : (a : ℕ) → (a < addr) ⊎ (addr + n ≤ a) → nor.peek d' a ≡ nor.peek d a
    pub capacity : nor.capacity d' ≡ nor.capacity d

  module _ (s : Volume config) (sector idx : ℕ) (slot : idx < max_records config)
      (reach : InReach s sector) where
    abbrev place : ℕ
    place = slot_addr config sector idx

    place_lem : place ≡ sector + (page_size + config.record_size * idx)
    place_lem = slot_addr_lem config c sector idx reach.address slot

    -- The bytes that are written to a slot, if they fit it.
    write_at :
        (bytes : List ℕ)
        → length bytes ≤ config.record_size
        → (d : config.flash.Dev) × (flash_write config place bytes s
            ≡ some (eok, record s { dev = d }))
          × ((a : ℕ) → nor.peek d a ≡ programmed (nor.peek s.dev) place bytes a)
          × Changes s.dev d place (length bytes)
    unfolding flash_write
    write_at bytes fits =
        let room = slot_fits config c idx slot in
        let (d, run, cells, size) =
          nor.write_lem s.dev place bytes (omega (arith, place_lem, reach.capacity)) in
        (
          d,
          rw run,
          cells,
          record {
            outside = λ a h. cells a ∙ programmed_outside (nor.peek s.dev) place bytes a h;
            capacity = size;
          },
        )

    -- `write_variable_record` into an erased slot: the record stands there, and nothing else changed.
    pub write_variable_record-Stored :
        (rec : Record)
        → rec.head.flags ≢ 0
        → rec.head.length ≤ max_length config
        → IsBytes rec.key_and_data
        → IsErased (nor.peek s.dev) place config.record_size
        → (d : config.flash.Dev) × (write_variable_record config sector rec idx s
            ≡ some (eok, record s { dev = d }))
          × Stored (nor.peek d) place rec.head (take rec.head.length rec.key_and_data)
          × Changes s.dev d place config.record_size
    unfolding write_variable_record
    write_variable_record-Stored rec alive short small blank =
        let body = take rec.head.length rec.key_and_data in
        let bytes = head_bytes rec.head ++ body in
        let size : length bytes ≤ config.record_size =
          rw (length-append, length-head_bytes, length-take)
            (omega (arith, max_length_lem config c, c.record_room)) in
        let (d, run, cells, changes) = write_at bytes size in
        (
          d,
          rw (lt→ltb idx _ slot, ==_ne rec.head.flags 0 alive) run,
          programmed-Holds (nor.peek s.dev) place bytes (λ i p. blank i (omega arith))
              (IsBytes-append (head_bytes rec.head) body (head_bytes-IsBytes rec.head)
                (IsBytes-take rec.head.length rec.key_and_data small))
              (nor.peek d) cells,
          record { outside = λ a h. changes.outside a (omega arith); capacity = changes.capacity },
        )

    -- Writing flags whose bits are among those that are set.
    set_flags :
        (h : Head) (body : List ℕ) (flags : ℕ)
        → Covers h.flags flags
        → Stored (nor.peek s.dev) place h body
        → (d : config.flash.Dev) × (set_variable_record_flags config sector flags idx s
            ≡ some (eok, record s { dev = d }))
          × Stored (nor.peek d) place (record h { flags = flags }) body
          × Changes s.dev d place config.record_size
    unfolding set_variable_record_flags bytes16
    set_flags h body flags covers st =
        let (d, run, cells, changes) = write_at (bytes16 flags) (omega (arith, c.record_room)) in
        (
          d,
          rw (lt→ltb idx _ slot) run,
          reflagged (nor.peek s.dev) (nor.peek d) place h body flags covers st cells,
          record {
            outside = λ a h. changes.outside a (omega (arith, c.record_room));
            capacity = changes.capacity;
          },
        )

    -- Marking a new record as valid completes its header in place.
    pub validate-Stored :
        (h : Head) (body : List ℕ)
        → h.flags ≡ flags_new
        → Stored (nor.peek s.dev) place h body
        → (d : config.flash.Dev) × (set_variable_record_flags config sector flags_valid idx s
            ≡ some (eok, record s { dev = d }))
          × Stored (nor.peek d) place (record h { flags = flags_valid }) body
          × Changes s.dev d place config.record_size
    validate-Stored h body fresh st = set_flags h body flags_valid (rw fresh (refl, refl)) st

    -- Marking any record as invalid clears its flags in place.
    pub invalidate-Stored :
        (h : Head) (body : List ℕ)
        → Stored (nor.peek s.dev) place h body
        → (d : config.flash.Dev) × (set_variable_record_flags config sector flags_invalid idx s
            ≡ some (eok, record s { dev = d }))
          × Stored (nor.peek d) place (record h { flags = flags_invalid }) body
          × Changes s.dev d place config.record_size
    invalidate-Stored h body st =
        set_flags h body flags_invalid
          (
            bit_and_cleared (h.flags % 256) (omega arith),
            bit_and_cleared (h.flags / 256 % 256) (omega arith),
          )
          st
