-- ===== src/Examples/Drivers.antt =====
-- Examples of src/drivers/ramdrv.c on a memory of 1 KiB.
use nvol.Base.{ℕ, ◌+◌, ◌<◌, ◌↔◌, ◌⊎◌, ◌≡◌, [], ◌∷◌, arith}
use nvol.Base.Status.{eok, e_parm}
use nvol.Examples.{erased_ram}
use nvol.Flash.{programmed}
use nvol.Ramdrv.Nor.{ramdrv_write_lem, ramdrv_write_accepts, ramdrv_erase_last}
use nvol.Ramdrv.{Ram, ramdrv_erase, ramdrv_write}

ramdrv_write_example :
    (r' : Ram) × (ramdrv_write 8 (1 ∷ 2 ∷ []) erased_ram ≡ (eok, r'))
    × ((a : ℕ) → r'.cell a ≡ programmed (λ _. 255) 8 (1 ∷ 2 ∷ []) a)
    × (r'.size ≡ 1024)
ramdrv_write_example = ramdrv_write_lem erased_ram 8 (1 ∷ 2 ∷ []) (omega arith)

ramdrv_write_accepts_example :
    (((ramdrv_write 1023 (1 ∷ []) erased_ram).0 ≡ eok) ↔ (1023 + 1 < 1024))
    × ((1023 + 1 < 1024) ⊎ (ramdrv_write 1023 (1 ∷ []) erased_ram ≡ (e_parm, erased_ram)))
ramdrv_write_accepts_example = ramdrv_write_accepts erased_ram 1023 (1 ∷ []) (omega arith)

-- A memory whose last byte is programmed.
abbrev used_ram : Ram
used_ram = record { size = 1024; cell = λ a. 0 }

ramdrv_erase_last_example :
    ((ramdrv_erase 0 1024 used_ram).0 ≡ eok) × ((ramdrv_erase 0 1024 used_ram).1.cell 1023 ≡ 0)
ramdrv_erase_last_example = ramdrv_erase_last used_ram 0 1024 (omega arith) (omega arith)
