-- ===== src/Nvol/Checksum.antt =====
-- The checksum of a record (`record_set` and `variable_record_valid` of src/nvram/nvol3.c).
use nvol.Base.{
  ℕ, zero, suc, ◌+◌, ◌%◌, ◌^◌, ◌<◌, ◌≡◌, ◌≢◌, refl, List, [], ◌∷◌, arith, length, get_or, set, take,
  length-take,
}
use nvol.Base.Status.{eok, e_invalid}
use nvol.Nvol.Slots.{sum16, negate16, checksum, variable_record_valid}
use nvol.Nvol.{Record}

total : List ℕ → ℕ
total [] = 0
total (b ∷ r) = b + total r

sum16-eq-total : (xs : List ℕ) (acc : ℕ) → acc < 2 ^ 16 → sum16 xs acc ≡ (acc + total xs) % 2 ^ 16
unfolding sum16 total
sum16-eq-total [] acc h = omega arith
sum16-eq-total (b ∷ r) acc h = omega (arith, sum16-eq-total r ((acc + b) % 2 ^ 16) (omega arith))

total-set :
    (xs : List ℕ) (i v : ℕ) → i < length xs → total (set xs i v) + get_or xs i 0 ≡ total xs + v
unfolding total
total-set [] i v h = absurd (omega arith)
total-set (x ∷ xs) zero v h = omega arith
total-set (x ∷ xs) (suc i) v h = omega (arith, total-set xs i v (omega arith))

take-set : (xs : List ℕ) (n i v : ℕ) → i < n → take n (set xs i v) ≡ set (take n xs) i v
take-set [] zero i v h = refl
take-set [] (suc n) i v h = refl
take-set (x ∷ xs) zero i v h = absurd (omega arith)
take-set (x ∷ xs) (suc n) zero v h = refl
take-set (x ∷ xs) (suc n) (suc i) v h = rw (take-set xs n i v (omega arith))

take-get_or : (xs : List ℕ) (n i : ℕ) → i < n → get_or (take n xs) i 0 ≡ get_or xs i 0
take-get_or [] zero i h = refl
take-get_or [] (suc n) i h = refl
take-get_or (x ∷ xs) zero i h = absurd (omega arith)
take-get_or (x ∷ xs) (suc n) zero h = refl
take-get_or (x ∷ xs) (suc n) (suc i) h = take-get_or xs n i (omega arith)

length-take_lt : (xs : List ℕ) (n i : ℕ) → i < n → i < length xs → i < length (take n xs)
length-take_lt xs n i h k = rw length-take (omega arith)

-- One byte that is replaced by another gives another checksum.
checksum-set-ne :
    (n i v : ℕ) (xs : List ℕ)
    → i < n
    → i < length xs
    → get_or xs i 0 < 256
    → v < 256
    → v ≢ get_or xs i 0
    → checksum n (set xs i v) ≢ checksum n xs
unfolding checksum negate16
checksum-set-ne n i v xs h k old new ne same =
    let part = take n xs in
    let a = sum16-eq-total (set part i v) 0 (omega arith) in
    let b = sum16-eq-total part 0 (omega arith) in
    let moved = total-set part i v (length-take_lt xs n i h k) in
    let at = take-get_or xs n i h in
    let here : negate16 (sum16 (set part i v) 0) ≡ negate16 (sum16 part 0) =
      rw (← take-set xs n i v h) same in
    omega (arith, here)

-- A record that passes the checksum, with one of the bytes that its header counts replaced by another
-- byte, is reported as invalid.
pub variable_record_valid-changed :
    (rec : Record) (i v : ℕ)
    → variable_record_valid rec ≡ eok
    → i < rec.head.length
    → i < length rec.key_and_data
    → get_or rec.key_and_data i 0 < 256
    → v < 256
    → v ≢ get_or rec.key_and_data i 0
    → variable_record_valid (record rec { key_and_data = set rec.key_and_data i v }) ≡ e_invalid
unfolding variable_record_valid
variable_record_valid-changed rec i v ok h k old new ne =
    let ne' = checksum-set-ne rec.head.length i v rec.key_and_data h k old new ne in
    ground (arith, ok, ne')
