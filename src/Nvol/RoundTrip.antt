-- ===== src/Nvol/RoundTrip.antt =====
-- A record that is written to a slot and marked as valid, read back (src/nvram/nvol3.c).
use nvol.Base.{
  ℕ, ◌%◌, ◌^◌, ◌≤◌, ◌<◌, ◌≡◌, refl, sym, ap, ◌∙◌, List, ◌++◌, some, arith, length, take, drop,
  take_append, ==_refl, length-take,
}
use nvol.Base.Bytes.{overlay}
use nvol.Base.Status.{eok}
use nvol.Flash.Content.{IsErased, IsBytes}
use nvol.Flash.{IsNor}
use nvol.Nvol.Api.{new_head}
use nvol.Nvol.Geometry.{IsConfig, max_length_lem}
use nvol.Nvol.Slots.{
  Volume, check_head, read_variable_record, negate16, checksum, variable_record_valid,
  write_variable_record, set_variable_record_flags,
}
use nvol.Nvol.Stored.Heads.{IsHead, Stored}
use nvol.Nvol.Stored.{
  InReach, Changes, read_variable_record-Stored, write_variable_record-Stored, validate-Stored,
}
use nvol.Nvol.{Head, Record, Config, flags_valid, max_records, max_length, slot_addr}

-- The header of a new record once it is marked as valid.
abbrev pub valid_head : ℕ → List ℕ → Head
valid_head n kd = record (new_head n kd) { flags = flags_valid }

pub valid_head-IsHead : (n : ℕ) (kd : List ℕ) → IsHead (valid_head n kd)
unfolding new_head checksum negate16
valid_head-IsHead n kd = record {
  flags = omega arith;
  length = omega arith;
  checksum = omega arith;
  reserved = omega arith;
}

retake :
    (m : ℕ → ℕ) (place : ℕ) (h : Head) (kd : List ℕ) (a b : ℕ)
    → a ≡ b
    → Stored m place h (take a kd)
    → Stored m place h (take b kd)
retake m place h kd a b e st = rw (← e) st

-- The bytes that were written, over what the buffer holds.
abbrev pub read_back : ℕ → List ℕ → Record → Record
read_back n kd var = record {
  head = valid_head n kd;
  key_and_data = overlay (take n kd) var.key_and_data;
}

pub length-take_all : (n : ℕ) (kd : List ℕ) → n ≤ length kd → length (take n kd) ≡ n
length-take_all n kd h = rw length-take (omega arith)

pub take-overlay :
    (n : ℕ) (kd rest : List ℕ) → n ≤ length kd → take n (overlay (take n kd) rest) ≡ take n kd
unfolding overlay
take-overlay n kd rest h =
    let e = length-take_all n kd h in
    ap (λ (k : ℕ). take k (take n kd ++ drop (length (take n kd)) rest)) (sym e)
    ∙ take_append (take n kd) (drop (length (take n kd)) rest)

read_back-valid :
    (n : ℕ) (kd : List ℕ) (var : Record)
    → n ≤ length kd
    → n < 2 ^ 16
    → variable_record_valid (read_back n kd var) ≡ eok
unfolding variable_record_valid new_head checksum
read_back-valid n kd var h small =
    let e : n % 2 ^ 16 ≡ n = omega arith in rw (e, take-overlay n kd var.key_and_data h, ==_refl)

module _ (config : Config) (nor : IsNor config.flash) (c : IsConfig config) where
  -- What `record_set` needs of the bytes that it stores.
  pub record Fits (n : ℕ) (kd : List ℕ) : Type 0 where
    pub some_bytes : 0 < n
    pub enough : n ≤ length kd
    pub short : n ≤ max_length config
    pub bytes : IsBytes kd

  pub Fits-small : (n : ℕ) (kd : List ℕ) → Fits n kd → n < 2 ^ 16
  Fits-small n kd f = omega (arith, f.short, max_length_lem config c, c.record_small)

  check_valid : (n : ℕ) (kd : List ℕ) → Fits n kd → check_head config (valid_head n kd) ≡ eok
  unfolding check_head new_head
  check_valid n kd f = ground (arith, f.short, Fits-small n kd f)

  -- A slot that holds the record as valid is read as that record.
  pub read_valid :
      (s : Volume config) (idx n : ℕ) (kd : List ℕ) (var : Record)
      → InReach config nor c s s.sector
      → idx < max_records config
      → Fits n kd
      → Stored (nor.peek s.dev) (slot_addr config s.sector idx) (valid_head n kd) (take n kd)
      → read_variable_record config s var idx 0 ≡ (eok, read_back n kd var)
  unfolding new_head
  read_valid s idx n kd var reach slot f st =
      let e : n % 2 ^ 16 ≡ n = omega (arith, Fits-small n kd f) in
      read_variable_record-Stored config nor c s idx slot reach (valid_head n kd) (take n kd) var st
        (valid_head-IsHead n kd) (check_valid n kd f) (e ∙ sym (length-take_all n kd f.enough))
        (omega (arith, f.some_bytes))

  -- The sector can still be used after a write.
  pub InReach-Changes :
      (s : Volume config) (d : config.flash.Dev) (sector addr n : ℕ)
      → InReach config nor c s sector
      → Changes config nor c s.dev d addr n
      → InReach config nor c (record s { dev = d }) sector
  InReach-Changes s d sector addr n reach ch = record {
    capacity = rw ch.capacity reach.capacity;
    address = reach.address;
  }

  -- Two changes of one range are a change of it.
  pub Changes-trans :
      (d d' d'' : config.flash.Dev) (addr n : ℕ)
      → Changes config nor c d d' addr n
      → Changes config nor c d' d'' addr n
      → Changes config nor c d d'' addr n
  Changes-trans d d' d'' addr n p q = record {
    outside = λ a h. q.outside a h ∙ p.outside a h;
    capacity = q.capacity ∙ p.capacity;
  }

  -- The record that `record_set` makes of the buffer.
  abbrev pub new_record_of : ℕ → List ℕ → Record
  new_record_of n kd = record { head = new_head n kd; key_and_data = kd }

  -- The two writes of `record_set` to an erased slot succeed; then the slot holds the valid record,
  -- and nothing outside of the slot has changed.
  pub append-Stored :
      (s : Volume config) (sector idx n : ℕ) (kd : List ℕ)
      → InReach config nor c s sector
      → idx < max_records config
      → Fits n kd
      → IsErased (nor.peek s.dev) (slot_addr config sector idx) config.record_size
      → (d1 d2 : config.flash.Dev) × (write_variable_record config sector (new_record_of n kd) idx s
          ≡ some (eok, record s { dev = d1 }))
        × (set_variable_record_flags config sector flags_valid idx (record s { dev = d1 })
            ≡ some (eok, record s { dev = d2 }))
        × Changes config nor c s.dev d1 (slot_addr config sector idx) config.record_size
        × Stored (nor.peek d2) (slot_addr config sector idx) (valid_head n kd) (take n kd)
        × Changes config nor c s.dev d2 (slot_addr config sector idx) config.record_size
  unfolding new_head
  append-Stored s sector idx n kd reach slot f blank =
      let e : n % 2 ^ 16 ≡ n = omega (arith, Fits-small n kd f) in
      let place = slot_addr config sector idx in
      let (d1, run1, st1, ch1) =
        write_variable_record-Stored config nor c s sector idx slot reach (new_record_of n kd)
          (omega arith) (rw e f.short) f.bytes blank in
      let st1' : Stored (nor.peek d1) place (new_head n kd) (take n kd) =
        retake (nor.peek d1) place (new_head n kd) kd (n % 2 ^ 16) n e st1 in
      let (d2, run2, st2, ch2) =
        validate-Stored config nor c (record s { dev = d1 }) sector idx slot
          (InReach-Changes s d1 sector place config.record_size reach ch1) (new_head n kd)
          (take n kd) refl st1' in
      (d1, d2, run1, run2, ch1, st2, Changes-trans s.dev d1 d2 place config.record_size ch1 ch2)

  -- A record of n bytes is written to an erased slot of the sector in use and marked as valid: both
  -- writes succeed, and after them the slot is read without an error as the header of the record
  -- and its n bytes, and what was read passes the checksum.
  pub record_round_trip :
      (s : Volume config) (idx n : ℕ) (kd : List ℕ) (var : Record)
      → InReach config nor c s s.sector
      → idx < max_records config
      → Fits n kd
      → IsErased (nor.peek s.dev) (slot_addr config s.sector idx) config.record_size
      → (d1 d2 : config.flash.Dev) × (write_variable_record config s.sector
            (new_record_of n kd)
            idx
            s
          ≡ some (eok, record s { dev = d1 }))
        × (set_variable_record_flags config s.sector flags_valid idx (record s { dev = d1 })
            ≡ some (eok, record s { dev = d2 }))
        × (read_variable_record config (record s { dev = d2 }) var idx 0
            ≡ (eok, read_back n kd var))
        × (variable_record_valid (read_back n kd var) ≡ eok)
  record_round_trip s idx n kd var reach slot f blank =
      let (d1, d2, run1, run2, ch1, st, ch) =
        append-Stored s s.sector idx n kd reach slot f blank in
      let reach' =
        InReach-Changes s d2 s.sector (slot_addr config s.sector idx) config.record_size reach ch in
      (
        d1,
        d2,
        run1,
        run2,
        read_valid (record s { dev = d2 }) idx n kd var reach' slot f st,
        read_back-valid n kd var f.enough (Fits-small n kd f),
      )
