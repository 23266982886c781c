-- ===== src/Nvol/Refine/Setting.antt =====
-- A new record (src/nvram/nvol3.c) on a volume that holds a map.
use nvol.Base.{
  ℕ, ◌+◌, ◌≤◌, ◌<◌, ◌≡◌, refl, sym, ap, ◌∙◌, List, Bool, true, false, Option, none, some, inl, inr,
  arith, take, if◌then◌else◌, Bool-cases,
}
use nvol.Dictionary.Fresh.{made}
use nvol.Dictionary.Table.{same, IsValid}
use nvol.Dictionary.{Dictionary, Node, dict_lookup}
use nvol.Flash.{IsNor}
use nvol.Nvol.Api.{new_head}
use nvol.Nvol.Geometry.{IsConfig}
use nvol.Nvol.Insert.{Enters, entry_for}
use nvol.Nvol.Lookup.{fill_entry}
use nvol.Nvol.Refine.{Map, map_set, Kept, Agrees, Agrees-some, Refines, Kept-move}
use nvol.Nvol.RoundTrip.{Fits, Fits-small, new_record_of, valid_head}
use nvol.Nvol.Set.{HasRoom, Sets}
use nvol.Nvol.Slots.{Volume}
use nvol.Nvol.Stored.Heads.{Stored}
use nvol.Nvol.{Entry, Config, slot_addr}

module _ (config : Config) (nor : IsNor config.flash) (c : IsConfig config) where
  -- A new record of n bytes in the slot that was next, where the table leads from its key, while the
  -- records of all other keys stay where they are.
  pub record Puts (s s' : Volume config) (dict dict' : Dictionary Entry) (n : ℕ) (kd : List ℕ)
      : Type 0 where
    pub enters :
        Enters dict dict' kd s.heap.next
          (entry_for config s.heap (new_record_of config nor c n kd) s.next_idx)
    pub stored :
        Stored
          (nor.peek s'.dev)
          (slot_addr config s.sector s.next_idx)
          (valid_head n kd)
          (take n kd)
    pub stay :
        (q : List ℕ) (np : Node Entry) (bytes : List ℕ)
        → same dict kd q ≡ false
        → dict_lookup dict q ≡ some np
        → Kept config nor c s np bytes
        → Kept config nor c s' np bytes
    pub loaded : s'.dict ≡ some dict'
    pub valid : IsValid dict'
    pub capacity : nor.capacity s'.dev ≡ nor.capacity s.dev
    pub count : dict'.count ≤ dict.count + 1
    pub sector : s'.sector ≡ s.sector
    pub next : s'.next_idx ≡ s.next_idx + 1

module _ (config : Config) (nor : IsNor config.flash) (c : IsConfig config) (s s' : Volume config)
    (dict dict' : Dictionary Entry) (m : Map) (n : ℕ) (kd : List ℕ)
    (room : HasRoom config nor c s dict) (f : Fits config nor c n kd)
    (puts : Puts config nor c s s' dict dict' n kd) (long : config.key_size < n)
    (r : Refines config nor c s dict m) where
  abbrev entry : Entry
  entry = entry_for config s.heap (new_record_of config nor c n kd) s.next_idx

  abbrev node : Node Entry
  node = made dict kd s.heap.next entry

  entry_idx : entry.idx ≡ s.next_idx
  unfolding fill_entry
  entry_idx = refl

  new_Kept : Kept config nor c s' node (take n kd)
  unfolding fill_entry new_head
  new_Kept = record {
    n = n;
    source = kd;
    fits = f;
    whole = refl;
    long = long;
    counted = omega (arith, Fits-small config nor c n kd f);
    used = omega (arith, puts.next);
    stored = rw puts.sector puts.stored;
  }

  -- The other records are still there.
  old_Agrees :
      (q : List ℕ) (o : Option (Node Entry)) (b : Option (List ℕ))
      → same dict kd q ≡ false
      → dict_lookup dict q ≡ o
      → Agrees config nor c s o b
      → Agrees config nor c s' o b
  old_Agrees q none none differ e a = a
  old_Agrees q none (some bytes) differ e a = a
  old_Agrees q (some np) none differ e a = a
  old_Agrees q (some np) (some bytes) differ e a = puts.stay q np bytes differ e a

  new_Agrees :
      (q : List ℕ) → Agrees config nor c s' (dict_lookup dict' q) (map_set dict m kd (take n kd) q)
  new_Agrees q = elim (Bool-cases (same dict kd q)) [
    | inl e ↦ rw (puts.enters q, e) new_Kept
    | inr e ↦ rw (puts.enters q, e) (old_Agrees q (dict_lookup dict q) (m q) e refl (r.agrees q))
  ]

  -- An entry of the old table leads to a slot before the next one.
  below : (q : List ℕ) (np : Node Entry) → dict_lookup dict q ≡ some np → np.value.idx < s.next_idx
  below q np e =
      let (bytes, _, k) = Agrees-some config nor c s (dict_lookup dict q) (m q) np (r.agrees q) e in
      k.used

  node_idx : (np : Node Entry) → some node ≡ some np → np.value.idx ≡ s.next_idx
  node_idx np e =
      let same_node : node ≡ np = cc in
      sym (ap (λ (x : Node Entry). x.value.idx) same_node) ∙ entry_idx

  chosen_apart :
      (b b' : Bool) (q q' : List ℕ) (np np' : Node Entry)
      → (if b then some node else dict_lookup dict q) ≡ some np
      → (if b' then some node else dict_lookup dict q') ≡ some np'
      → np.value.idx ≡ np'.value.idx
      → np ≡ np'
  chosen_apart true true q q' np np' e e' h = cc
  chosen_apart true false q q' np np' e e' h =
      absurd (omega (arith, node_idx np e, below q' np' e'))
  chosen_apart false true q q' np np' e e' h = absurd (omega (arith, node_idx np' e', below q np e))
  chosen_apart false false q q' np np' e e' h = r.apart q q' np np' e e' h

  pub Refines-Puts : Refines config nor c s' dict' (map_set dict m kd (take n kd))
  Refines-Puts = record {
    loaded = puts.loaded;
    valid = puts.valid;
    counted = omega (arith, puts.count, room.headroom, c.slots_small);
    reach =
        rw puts.sector (record {
          capacity = rw puts.capacity room.reach.capacity;
          address = room.reach.address;
        });
    full = omega (arith, puts.next, room.slot);
    agrees = new_Agrees;
    apart = λ q q' np np' e e' h.
        chosen_apart (same dict kd q) (same dict kd q') q q' np np' (sym (puts.enters q) ∙ e)
          (sym (puts.enters q') ∙ e') h;
  }

module _ (config : Config) (nor : IsNor config.flash) (c : IsConfig config) where
  pub Sets-Puts :
      (s s' : Volume config) (dict dict' : Dictionary Entry) (n : ℕ) (kd : List ℕ)
      → HasRoom config nor c s dict
      → Sets config nor c s s' dict dict' n kd
      → Puts config nor c s s' dict dict' n kd
  Sets-Puts s s' dict dict' n kd room sets = record {
    enters = sets.enters;
    stored = sets.stored;
    stay = λ q np bytes differ e a.
        Kept-move config nor c s s' np bytes s.next_idx a sets.sector (omega (arith, sets.next))
          room.reach (omega (arith, room.slot)) room.slot (omega (arith, a.used)) sets.changes;
    loaded = sets.loaded;
    valid = sets.table.valid;
    capacity = sets.changes.capacity;
    count = sets.count;
    sector = sets.sector;
    next = sets.next;
  }
