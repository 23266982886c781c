-- ===== src/Nvol/Refine.antt =====
-- A volume of src/nvram/nvol3.c, seen as a map from keys to records.
pub mod Reading
pub mod Setting
pub mod Deleting
pub mod Overwriting
pub mod Known
pub mod Replacing
use nvol.Base.{
  ℕ, ◌+◌, ◌-◌, ◌%◌, ◌^◌, ◌≤◌, ◌<◌, ◌≡◌, ◌≢◌, ◌⊎◌, refl, sym, ap, ◌∙◌, List, Bool, true, false,
  Option, none, some, inl, inr, arith, length, take, if◌then◌else◌, Bool-cases, Option-cases,
}
use nvol.Base.Bytes.{bytes16}
use nvol.Dictionary.Table.{same, IsValid, found_same}
use nvol.Dictionary.{Dictionary, Node, dict_lookup}
use nvol.Flash.{IsNor}
use nvol.Nvol.Geometry.{IsConfig, max_length_lem}
use nvol.Nvol.Insert.{entry_for}
use nvol.Nvol.Replace.{Stored-Changes, slots_far}
use nvol.Nvol.RoundTrip.{Fits, Fits-small, new_record_of, valid_head, length-take_all}
use nvol.Nvol.Set.{HasRoom, Sets}
use nvol.Nvol.Slots.{Volume}
use nvol.Nvol.Stored.Heads.{Stored}
use nvol.Nvol.Stored.{InReach, Changes}
use nvol.Nvol.Lookup.{fill_entry}
use nvol.Nvol.Api.{new_head}
use nvol.Nvol.{Entry, Config, max_records, slot_addr, head_bytes}

-- The map that a volume promises: the bytes of key and data for a key.
abbrev pub Map : Type 0
Map = List ℕ → Option (List ℕ)

-- The map with another record, or without the record, for the keys that match one.
abbrev pub map_set : Dictionary Entry → Map → List ℕ → List ℕ → Map
map_set dict m key bytes q = if same dict key q then some bytes else m q

abbrev pub map_delete : Dictionary Entry → Map → List ℕ → Map
map_delete dict m key q = if same dict key q then none else m q

module _ (config : Config) (nor : IsNor config.flash) (c : IsConfig config) where
  -- The node leads to a slot that holds these bytes as a valid record.
  pub record Kept (s : Volume config) (np : Node Entry) (bytes : List ℕ) : Type 0 where
    pub n : ℕ
    pub source : List ℕ
    pub fits : Fits config nor c n source
    pub whole : bytes ≡ take n source
    pub long : config.key_size < n
    pub counted : np.value.length ≡ n - config.key_size
    pub used : np.value.idx < s.next_idx
    pub stored :
        Stored
          (nor.peek s.dev)
          (slot_addr config s.sector np.value.idx)
          (valid_head n source)
          (take n source)

  abbrev pub Agrees : Volume config → Option (Node Entry) → Option (List ℕ) → Type 0
  Agrees s none none = Unit
  Agrees s none (some bytes) = ⊥
  Agrees s (some np) none = ⊥
  Agrees s (some np) (some bytes) = Kept s np bytes

  pub Agrees-some :
      (s : Volume config) (o : Option (Node Entry)) (b : Option (List ℕ)) (np : Node Entry)
      → Agrees s o b
      → o ≡ some np
      → (bytes : List ℕ) × (b ≡ some bytes) × Kept s np bytes
  Agrees-some s none none np a e = absurd (cc)
  Agrees-some s none (some bytes) np a e = absurd a
  Agrees-some s (some np') none np a e = absurd a
  Agrees-some s (some np') (some bytes) np a e =
      let same_node : np' ≡ np = cc in (bytes, refl, rw (← same_node) a)

  pub Agrees-none :
      (s : Volume config) (o : Option (Node Entry)) (b : Option (List ℕ))
      → Agrees s o b
      → b ≡ none
      → o ≡ none
  Agrees-none s none b a e = refl
  Agrees-none s (some np) none a e = absurd a
  Agrees-none s (some np) (some bytes) a e = absurd (cc)

  pub Agrees-kept :
      (s : Volume config) (o : Option (Node Entry)) (b : Option (List ℕ)) (bytes : List ℕ)
      → Agrees s o b
      → b ≡ some bytes
      → (np : Node Entry) × (o ≡ some np) × Kept s np bytes
  Agrees-kept s none none bytes a e = absurd (cc)
  Agrees-kept s none (some bytes') bytes a e = absurd a
  Agrees-kept s (some np) none bytes a e = absurd a
  Agrees-kept s (some np) (some bytes') bytes a e =
      let same_bytes : bytes' ≡ bytes = cc in (np, refl, rw (← same_bytes) a)

  -- The volume is in use, and with its lookup table it holds the map: for every key the table has a node exactly if the
  -- map has a record, which stands in the slot of the node; and no two nodes share a slot.
  pub record Refines (s : Volume config) (dict : Dictionary Entry) (m : Map) : Type 0 where
    pub loaded : s.dict ≡ some dict
    pub valid : IsValid dict
    pub counted : dict.count < 2 ^ 32
    pub reach : InReach config nor c s s.sector
    pub full : s.next_idx ≤ max_records config
    pub agrees : (q : List ℕ) → Agrees s (dict_lookup dict q) (m q)
    pub apart :
        (q q' : List ℕ) (np np' : Node Entry)
        → dict_lookup dict q ≡ some np
        → dict_lookup dict q' ≡ some np'
        → np.value.idx ≡ np'.value.idx
        → np ≡ np'

  -- A record is still there while its slot stays as it is.
  pub Kept-stays :
      (s s' : Volume config) (np : Node Entry) (bytes : List ℕ)
      → Kept s np bytes
      → s'.sector ≡ s.sector
      → s.next_idx ≤ s'.next_idx
      → ((a : ℕ)
          → slot_addr config s.sector np.value.idx ≤ a
          → a < slot_addr config s.sector np.value.idx + config.record_size
          → nor.peek s'.dev a ≡ nor.peek s.dev a)
      → Kept s' np bytes
  unfolding head_bytes bytes16
  Kept-stays s s' np bytes k sector next stays =
      let fits = length-take_all k.n k.source k.fits.enough in
      let longest = max_length_lem config c in
      record {
        n = k.n;
        source = k.source;
        fits = k.fits;
        whole = k.whole;
        long = k.long;
        counted = k.counted;
        used = omega (arith, k.used);
        stored = rw sector (λ i h.
            stays _ (omega arith) (omega (arith, fits, k.fits.short, longest, c.record_room))
            ∙ k.stored i h);
      }

  -- Slots of different nodes are apart.
  pub slots_of :
      (s : Volume config) (np : Node Entry) (bytes : List ℕ) (idx : ℕ)
      → Kept s np bytes
      → InReach config nor c s s.sector
      → s.next_idx ≤ max_records config
      → idx < max_records config
      → np.value.idx ≢ idx
      → (slot_addr config s.sector np.value.idx + config.record_size
          ≤ slot_addr config s.sector idx)
        ⊎ (slot_addr config s.sector idx + config.record_size
            ≤ slot_addr config s.sector np.value.idx)
  slots_of s np bytes idx k reach small slot other =
      slots_far config nor c s.sector np.value.idx idx reach.address (omega (arith, k.used)) slot
        other

  -- A record is still there when a slot that is not its own changed.
  pub Kept-move :
      (s s' : Volume config) (np : Node Entry) (bytes : List ℕ) (idx : ℕ)
      → Kept s np bytes
      → s'.sector ≡ s.sector
      → s.next_idx ≤ s'.next_idx
      → InReach config nor c s s.sector
      → s.next_idx ≤ max_records config
      → idx < max_records config
      → np.value.idx ≢ idx
      → Changes config nor c s.dev s'.dev (slot_addr config s.sector idx) config.record_size
      → Kept s' np bytes
  Kept-move s s' np bytes idx k sector next reach small slot other ch =
      let far = slots_of s np bytes idx k reach small slot other in
      Kept-stays s s' np bytes k sector next (λ a h l. ch.outside a (omega (arith, far)))

  -- A node of a key that does not match has another slot.
  pub other_slot :
      (s : Volume config) (dict : Dictionary Entry) (m : Map) (key q : List ℕ) (np np' : Node Entry)
      → Refines s dict m
      → dict_lookup dict key ≡ some np
      → same dict key q ≡ false
      → dict_lookup dict q ≡ some np'
      → np'.value.idx ≢ np.value.idx
  other_slot s dict m key q np np' r there differ e h =
      let one = r.apart q key np' np e there h in
      let matching = found_same dict key q np there (e ∙ ap some one) in absurd (cc)
