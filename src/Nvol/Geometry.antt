-- ===== src/Nvol/Geometry.antt =====
-- The layout of a volume: what a configuration has to meet, and where its slots lie.
use nvol.Base.{ℕ, ◌+◌, ◌-◌, ◌*◌, ◌/◌, ◌%◌, ◌^◌, ◌≤◌, ◌<◌, ◌≡◌, ◌≢◌, ◌⊎◌, inl, inr, arith}
use nvol.Nvol.{Config, max_records, max_length, slot_addr, head_size, page_size}

-- The sizes of a configuration fit their types, a sector has room for one record at least, and its
-- slots can be counted by a uint16_t.
pub record IsConfig (config : Config) : Type 0 where
  pub record_small : config.record_size < 2 ^ 16
  pub record_room : head_size < config.record_size
  pub sector_small : config.sector_size < 2 ^ 32
  pub sector_room : page_size + config.record_size ≤ config.sector_size
  pub slots_small : max_records config < 2 ^ 16 - 1

mul_below : (d q i n : ℕ) → i < q → d * q ≤ n → d * i + d ≤ n
mul_below d q i n h k = grind arith

div_below : (n d : ℕ) → d * (n / d) ≤ n
div_below n d = omega arith

module _ (config : Config) (c : IsConfig config) where
  -- In a configuration that fits its types, every slot below `max_records` lies in the sector, behind
  -- the page of the sector header.
  pub slot_fits :
      (idx : ℕ)
      → idx < max_records config
      → page_size + (config.record_size * idx + config.record_size) ≤ config.sector_size
  unfolding max_records
  slot_fits idx h =
      let room = (config.sector_size + 2 ^ 32 - page_size) % 2 ^ 32 in
      let same : room ≡ config.sector_size - page_size =
        omega (arith, c.sector_room, c.sector_small) in
      let low =
        mul_below config.record_size (room / config.record_size) idx room h
          (div_below room config.record_size) in
      omega (arith, c.sector_room)

  pub slot_addr_lem :
      (sector idx : ℕ)
      → sector + config.sector_size < 2 ^ 32
      → idx < max_records config
      → slot_addr config sector idx ≡ sector + (page_size + config.record_size * idx)
  unfolding slot_addr
  slot_addr_lem sector idx h k = omega (arith, slot_fits idx k)

  pub max_length_lem : max_length config ≡ config.record_size - head_size
  unfolding max_length
  max_length_lem = omega (arith, c.record_small, c.record_room)

  -- Two slots of a sector do not overlap.
  pub slots_apart :
      (i j : ℕ)
      → i ≢ j
      → (config.record_size * i + config.record_size ≤ config.record_size * j)
        ⊎ (config.record_size * j + config.record_size ≤ config.record_size * i)
  slots_apart i j ne =
      let split : (i < j) ⊎ (j < i) = omega arith in
      elim split [
        | inl h ↦ inl (mul_below config.record_size j i (config.record_size * j) h (omega arith))
        | inr h ↦ inr (mul_below config.record_size i j (config.record_size * i) h (omega arith))
      ]
