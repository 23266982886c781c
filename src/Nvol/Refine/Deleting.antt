-- ===== src/Nvol/Refine/Deleting.antt =====
-- `nvol3_record_delete` of src/nvram/nvol3.c on a volume that holds a map.
use nvol.Base.{
  ℕ, ◌<◌, ◌≡◌, ◌≢◌, refl, sym, ◌∙◌, List, Bool, true, false, Option, none, some, inl, inr, arith,
  take, if◌then◌else◌, Bool-cases,
}
use nvol.Base.Status.{eok}
use nvol.Dictionary.Table.{same}
use nvol.Dictionary.{Dictionary, Node, dict_lookup}
use nvol.Flash.{IsNor}
use nvol.Nvol.Api.{nvol3_record_delete}
use nvol.Nvol.Delete.{nvol3_record_delete_lem}
use nvol.Nvol.Geometry.{IsConfig}
use nvol.Nvol.Refine.{Map, map_delete, Kept, Agrees, Agrees-kept, Refines, Kept-move, other_slot}
use nvol.Nvol.RoundTrip.{valid_head, valid_head-IsHead}
use nvol.Nvol.Slots.{Volume}
use nvol.Nvol.Stored.{Changes}
use nvol.Nvol.{Record, Entry, Config, slot_addr}

module _ (config : Config) (nor : IsNor config.flash) (c : IsConfig config) (s : Volume config)
    (dict : Dictionary Entry) (m : Map) (r : Refines config nor c s dict m) where
  -- The records of other keys are still there.
  kept_Agrees :
      (s' : Volume config) (np : Node Entry) (o : Option (Node Entry)) (b : Option (List ℕ))
      → Agrees config nor c s o b
      → s'.sector ≡ s.sector
      → s'.next_idx ≡ s.next_idx
      → np.value.idx < s.next_idx
      → ((np' : Node Entry) → o ≡ some np' → np'.value.idx ≢ np.value.idx)
      → Changes config nor c s.dev s'.dev
          (slot_addr config s.sector np.value.idx)
          config.record_size
      → Agrees config nor c s' o b
  kept_Agrees s' np none none a sector next used other ch = a
  kept_Agrees s' np none (some bytes) a sector next used other ch = a
  kept_Agrees s' np (some np') none a sector next used other ch = a
  kept_Agrees s' np (some np') (some bytes) a sector next used other ch =
      Kept-move config nor c s s' np' bytes np.value.idx a sector (omega (arith, next)) r.reach
        r.full (omega (arith, r.full)) (other np' refl) ch

  left_apart :
      (b b' : Bool) (q q' : List ℕ) (np np' : Node Entry)
      → (if b then none else dict_lookup dict q) ≡ some np
      → (if b' then none else dict_lookup dict q') ≡ some np'
      → np.value.idx ≡ np'.value.idx
      → np ≡ np'
  left_apart true b' q q' np np' e e' h = absurd (cc)
  left_apart false true q q' np np' e e' h = absurd (cc)
  left_apart false false q q' np np' e e' h = r.apart q q' np np' e e' h

  delete_Kept :
      (rec : Record) (bytes : List ℕ) (np : Node Entry)
      → dict_lookup dict rec.key_and_data ≡ some np
      → Kept config nor c s np bytes
      → (s' : Volume config) × (dict' : Dictionary Entry) × (nvol3_record_delete config rec s
          ≡ some (eok, s'))
        × Refines config nor c s' dict' (map_delete dict m rec.key_and_data)
  delete_Kept rec bytes np there k =
      let key = rec.key_and_data in
      let (s', dict', run, loaded, seen, _, ch, _, _, sector, next, valid, fewer) =
        nvol3_record_delete_lem config nor c s dict rec np (valid_head k.n k.source)
          (take k.n k.source)
          (record {
            loaded = r.loaded;
            valid = r.valid;
            counted = r.counted;
            there = there;
            reach = r.reach;
            slot = omega (arith, k.used, r.full);
            head = valid_head-IsHead k.n k.source;
            stored = k.stored;
          }) in
      let rest : (q : List ℕ)
          → Agrees config nor c s' (dict_lookup dict' q) (map_delete dict m key q) =
        λ q. elim (Bool-cases (same dict key q)) [
          | inl e ↦ rw (seen q, e) tt
          | inr e ↦
              rw (seen q, e)
                (kept_Agrees s' np (dict_lookup dict q) (m q) (r.agrees q) sector next k.used
                  (λ np' h. other_slot config nor c s dict m key q np np' r there e h) ch)
        ] in
      (
        s',
        dict',
        run,
        record {
          loaded = loaded;
          valid = valid;
          counted = omega (arith, fewer, r.counted);
          reach =
              rw sector
                (record { capacity = rw ch.capacity r.reach.capacity; address = r.reach.address });
          full = omega (arith, next, r.full);
          agrees = rest;
          apart = λ q q' np np' e e' h.
              left_apart (same dict key q) (same dict key q') q q' np np' (sym (seen q) ∙ e)
                (sym (seen q') ∙ e') h;
        },
      )

  -- A volume in use holds a map. `nvol3_record_delete` of a key that the map has a record for
  -- succeeds, and then the volume holds the map without the records of the keys that match, and with
  -- what it had for all others.
  pub nvol3_record_delete-Refines :
      (rec : Record) (bytes : List ℕ)
      → m rec.key_and_data ≡ some bytes
      → (s' : Volume config) × (dict' : Dictionary Entry) × (nvol3_record_delete config rec s
          ≡ some (eok, s'))
        × Refines config nor c s' dict' (map_delete dict m rec.key_and_data)
  nvol3_record_delete-Refines rec bytes has =
      let key = rec.key_and_data in
      let (np, there, k) =
        Agrees-kept config nor c s (dict_lookup dict key) (m key) bytes (r.agrees key) has in
      delete_Kept rec bytes np there k
