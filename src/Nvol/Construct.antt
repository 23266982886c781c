-- ===== src/Nvol/Construct.antt =====
-- The termination of `construct_lookup_table` of src/nvram/nvol3.c.
use nvol.Base.{
  ℕ, zero, suc, ◌+◌, ◌≤◌, ◌<◌, ◌≡◌, refl, ◌∙◌, List, true, some, arith, ltb, inl, inr, Bool-cases,
  Option-cases, ltb→lt,
}
use nvol.Base.Bytes.{bytes16, inc16}
use nvol.Base.Status.{Status, eok, efail, e_empty, e_timeout, e_invalid, e_nomem, is_eok}
use nvol.Dictionary.{
  Dictionary, dictionary_remove, dictionary_install_size, dictionary_remove_all, write_value,
}
use nvol.Nvol.Geometry.{IsConfig}
use nvol.Nvol.Lookup.{
  Round, leave, next_slot, raw_entry, local_bytes, fill_entry, insert_lookup_table, count_invalid,
  count_error, count_inserted, reject_record, construct_record, construct_round, construct_loop,
  clear_table, construct_lookup_table,
}
use nvol.Nvol.Slots.{
  Volume, flash_write, read_variable_record, set_variable_record_flags, variable_record_valid,
}
use nvol.Nvol.{
  Record, Entry, Config, M, ◌>>=◌, bind_run, flags_invalid, max_records, slot_addr, get_dict,
}

module _ (config : Config) where
  -- The instance has a lookup table.
  abbrev pub Loaded : Volume config → Type 0
  Loaded s = (d : Dictionary Entry) × (s.dict ≡ some d)

  -- The code runs to its end, and the lookup table is still there.
  abbrev pub Ends : {A : Type 0} → M config.flash.Dev A → Volume config → Type 0
  Ends {A} m s = (a : A) × (s' : Volume config) × (m s ≡ some (a, s')) × Loaded s'

  Ends-bind :
      {A B : Type 0} (m : M config.flash.Dev A) (f : A → M config.flash.Dev B) (s : Volume config)
      → Ends m s
      → ((a : A) (s' : Volume config) → Loaded s' → Ends (f a) s')
      → Ends (m >>= f) s
  Ends-bind m f s (a, s1, run, l) k =
      let (b, s2, run', l') = k a s1 l in (b, s2, bind_run m f s s1 a run ∙ run', l')

  flash_write-Ends :
      (addr : ℕ) (bytes : List ℕ) (s : Volume config)
      → Loaded s
      → Ends (flash_write config addr bytes) s
  unfolding flash_write
  flash_write-Ends addr bytes s l = (_, _, refl, l)

  set_flags-Ends :
      (sector flags idx : ℕ) (s : Volume config)
      → Loaded s
      → Ends (set_variable_record_flags config sector flags idx) s
  unfolding set_variable_record_flags
  set_flags-Ends sector flags idx s l = elim (Bool-cases (ltb idx (max_records config))) [
    | inl e ↦ rw e (flash_write-Ends (slot_addr config sector idx) (bytes16 flags) s l)
    | inr e ↦ (efail, s, rw e, l)
  ]

  insert-Ends :
      (rec : Record) (idx : ℕ) (s : Volume config)
      → Loaded s
      → Ends (insert_lookup_table config rec idx) s
  unfolding insert_lookup_table
  insert-Ends rec idx s (d, e) =
      let r =
        dictionary_install_size (dictionary_remove d rec.key_and_data).1 rec.key_and_data
          (raw_entry config s.heap (local_bytes config rec)) s.heap in
      elim (Option-cases r.0) [
        | inl h ↦ (
          e_nomem,
          record s { dict = some r.1; heap = r.2 },
          simp (insert_lookup_table, e, h),
          (r.1, refl),
        )
        | inr (a, h) ↦ (
          eok,
          record s { dict = some (write_value r.1 a (fill_entry config rec idx)); heap = r.2 },
          simp (insert_lookup_table, e, h),
          (write_value r.1 a (fill_entry config rec idx), refl),
        )
      ]

  counted : (status : Status) (s : Volume config) → Loaded s → Ends (count_inserted config status) s
  unfolding count_inserted
  counted eok s l = (_, _, refl, l)
  counted _ s l = (_, _, refl, l)

  rejected : (idx : ℕ) (s : Volume config) → Loaded s → Ends (reject_record config idx) s
  unfolding reject_record
  rejected idx s l =
      Ends-bind (set_variable_record_flags config s.sector flags_invalid idx) _ s
        (set_flags-Ends s.sector flags_invalid idx s l) (λ a s' l'. (_, _, refl, l'))

  record-Ends :
      (rec : Record) (idx : ℕ) (s : Volume config)
      → Loaded s
      → Ends (construct_record config rec idx) s
  unfolding construct_record
  record-Ends rec idx s l = elim (Bool-cases (is_eok (variable_record_valid rec))) [
    | inl e ↦ rw e (
        Ends-bind (insert_lookup_table config rec idx) (count_inserted config) s
          (insert-Ends rec idx s l) counted)
    | inr e ↦ rw e (rejected idx s l)
  ]

  round-Ends :
      (status : Status) (rec : Record) (idx : ℕ) (s : Volume config)
      → Loaded s
      → Ends (construct_round config status rec idx) s
  unfolding construct_round count_invalid count_error
  round-Ends e_empty rec idx s l = (_, _, refl, l)
  round-Ends e_timeout rec idx s l = (_, _, refl, l)
  round-Ends e_invalid rec idx s l = (_, _, refl, l)
  round-Ends eok rec idx s l = record-Ends rec idx s l
  round-Ends _ rec idx s l = (_, _, refl, l)

  -- What the slot is read as in one round of the loop.
  abbrev read_at : Volume config → Record → ℕ → Status × Record
  read_at s scratch idx = read_variable_record config s scratch idx 0

  after :
      (f idx : ℕ) (scratch : Record) (s : Volume config)
      → ltb idx (max_records config) ≡ true
      → (r : Round) (s' : Volume config)
      → construct_round config (read_at s scratch idx).0 (read_at s scratch idx).1 idx s
        ≡ some (r, s')
      → Loaded s'
      → Ends (construct_loop config f (inc16 idx) (read_at s scratch idx).1) s'
      → Ends (construct_loop config (suc f) idx scratch) s
  unfolding construct_loop
  after f idx scratch s e (leave st) s' run l rest =
      ((st, idx, (read_at s scratch idx).1), s', simp (construct_loop, e, run), l)
  after f idx scratch s e next_slot s' run l (a, s'', run', l') =
      (a, s'', simp (construct_loop, e, run) run', l')

  -- With fuel for every slot that is left the loop comes to its end.
  loop-Ends :
      (c : IsConfig config) (f idx : ℕ) (scratch : Record) (s : Volume config)
      → Loaded s
      → idx ≤ max_records config
      → max_records config < f + idx
      → Ends (construct_loop config f idx scratch) s
  unfolding construct_loop
  loop-Ends c zero idx scratch s l h fuel = absurd (omega arith)
  loop-Ends c (suc f) idx scratch s l h fuel =
      let (r, s', run, l') =
        round-Ends (read_at s scratch idx).0 (read_at s scratch idx).1 idx s l in
      let rest = loop-Ends c f (inc16 idx) (read_at s scratch idx).1 s' l' in
      elim (Bool-cases (ltb idx (max_records config))) [
        | inr e ↦ ((eok, idx, scratch), s, simp (construct_loop, e), l)
        | inl e ↦
            let here = ltb→lt _ _ e in
            after f idx scratch s e r s' run l'
              (rest (omega (arith, c.slots_small)) (omega (arith, c.slots_small)))
      ]

  clear-Ends : (s : Volume config) → Loaded s → Ends (clear_table config) s
  unfolding clear_table
  clear-Ends s (d, e) = (
    tt,
    record s { dict = some (dictionary_remove_all d); inuse = 0; invalid = 0; error = 0 },
    bind_run get_dict _ s s d (rw e refl),
    (dictionary_remove_all d, refl),
  )

  -- `construct_lookup_table` comes to its end on every volume that has a lookup table, whatever the
  -- sectors hold and whatever the device and the allocator answer, and the volume still has one: if the
  -- sizes of its configuration fit their types, a sector has room for a record, and it has fewer than
  -- 2 ^ 16 - 1 slots, so that the uint16_t that counts them does not wrap.
  pub construct_lookup_table-Ends :
      IsConfig config
      → (scratch : Record) (s : Volume config) → Loaded s
      → Ends (construct_lookup_table config scratch) s
  unfolding construct_lookup_table
  construct_lookup_table-Ends c scratch s l =
      Ends-bind (clear_table config) _ s (clear-Ends s l) (λ _ s1 l1.
        Ends-bind (construct_loop config (max_records config + 1) 0 scratch) _ s1
          (loop-Ends c (max_records config + 1) 0 scratch s1 l1 (omega arith) (omega arith))
          (λ r s2 l2. (_, _, refl, l2)))
