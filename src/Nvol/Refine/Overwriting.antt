-- ===== src/Nvol/Refine/Overwriting.antt =====
-- A record that takes the place of another (src/nvram/nvol3.c) on a volume that holds a map.
use nvol.Base.{ℕ, zero, suc, ◌≡◌, refl, ap₂, List, [], ◌∷◌, Option, none, some, arith, take}
use nvol.Base.Heap.{Heap}
use nvol.Dictionary.{Dictionary, Node, dict_lookup}
use nvol.Flash.{IsNor}
use nvol.Nvol.Api.{same_bytes}
use nvol.Nvol.Geometry.{IsConfig}
use nvol.Nvol.Refine.Setting.{Puts}
use nvol.Nvol.Refine.{Map, Kept, Agrees, Refines, Kept-stays, slots_of, other_slot}
use nvol.Nvol.Replace.{Replaces}
use nvol.Nvol.RoundTrip.{valid_head}
use nvol.Nvol.Set.{HasRoom}
use nvol.Nvol.Slots.{Volume}
use nvol.Nvol.{Entry, Config}

-- Only bytes that agree are counted.
pub take-same_bytes : (n : ℕ) (xs ys : List ℕ) → same_bytes n xs ys ≡ n → take n xs ≡ take n ys
unfolding same_bytes
take-same_bytes zero xs ys h = refl
take-same_bytes (suc n) [] ys h = absurd (omega (arith, h))
take-same_bytes (suc n) (x ∷ xs) [] h = absurd (omega (arith, h))
take-same_bytes (suc n) (x ∷ xs) (y ∷ ys) h =
    let heads : x ≡ y = ground (arith, h) in
    let rest : same_bytes n xs ys ≡ n = ground (arith, h) in
    ap₂ ◌∷◌ heads (take-same_bytes n xs ys rest)

module _ (config : Config) (nor : IsNor config.flash) (c : IsConfig config) where
  pub Replaces-Puts :
      (s s' : Volume config) (dict dict' : Dictionary Entry) (m : Map) (n : ℕ) (kd : List ℕ)
      (np : Node Entry) (bytes : List ℕ) (r : Refines config nor c s dict m)
      → dict_lookup dict kd ≡ some np
      → (k : Kept config nor c s np bytes) → HasRoom config nor c s dict
      → Replaces config nor c s s' dict dict' n kd np.value.idx
          (valid_head k.n k.source)
          (take k.n k.source)
      → Puts config nor c s s' dict dict' n kd
  Replaces-Puts s s' dict dict' m n kd np bytes r there k room rep = record {
    enters = rep.enters;
    stored = rep.stored;
    stay = λ q np' bytes' differ e a.
        let far =
          slots_of config nor c s np' bytes' np.value.idx a room.reach (omega (arith, room.slot))
            (omega (arith, k.used, room.slot))
            (other_slot config nor c s dict m kd q np np' r there differ e) in
        let far' =
          slots_of config nor c s np' bytes' s.next_idx a room.reach (omega (arith, room.slot))
            room.slot (omega (arith, a.used)) in
        Kept-stays config nor c s s' np' bytes' a rep.sector (omega (arith, rep.next))
          (λ p h l. rep.outside p (omega (arith, far')) (omega (arith, far)));
    loaded = rep.loaded;
    valid = rep.table.valid;
    capacity = rep.capacity;
    count = rep.count;
    sector = rep.sector;
    next = rep.next;
  }

  -- The heap plays no part.
  pub Refines-heap :
      (s : Volume config) (dict : Dictionary Entry) (m : Map) (heap : Heap)
      → Refines config nor c s dict m
      → Refines config nor c (record s { heap = heap }) dict m
  Refines-heap s dict m heap r = record {
    loaded = r.loaded;
    valid = r.valid;
    counted = r.counted;
    reach = record { capacity = r.reach.capacity; address = r.reach.address };
    full = r.full;
    agrees = λ q. over (dict_lookup dict q) (m q) (r.agrees q);
    apart = r.apart;
  }
    where
      over :
          (o : Option (Node Entry)) (b : Option (List ℕ))
          → Agrees config nor c s o b
          → Agrees config nor c (record s { heap = heap }) o b
      over none none a = a
      over none (some bytes) a = a
      over (some np) none a = a
      over (some np) (some bytes) a =
          Kept-stays config nor c s (record s { heap = heap }) np bytes a refl (omega arith)
            (λ p h l. refl)
