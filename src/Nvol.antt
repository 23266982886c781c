-- ===== src/Nvol.antt =====
-- src/nvram/nvol3.h: the records of a volume, its configuration and its state.
pub mod Slots
pub mod Geometry
pub mod Stored
pub mod RoundTrip
pub mod Insert
pub mod Set
pub mod SetGet
pub mod Keyed
pub mod Refine
pub mod Delete
pub mod Flags
pub mod Checksum
pub mod Construct
pub mod Unchanged
pub mod Replace
pub mod Sectors
pub mod Lookup
pub mod Swap
pub mod Volumes
pub mod Api
pub mod Entries
use nvol.Base.{
  ℕ, zero, suc, ◌+◌, ◌-◌, ◌*◌, ◌/◌, ◌%◌, ◌^◌, ◌≡◌, ap, List, [], ◌∷◌, ◌++◌, Option, none, some,
  get_or, drop,
}
use nvol.Base.Bytes.{load16, bytes16}
use nvol.Base.Heap.{Heap}
use nvol.Base.Status.{Status}
use nvol.Dictionary.{Dictionary}
use nvol.Flash.{Flash}

-- `NVOL3_RECORD_HEAD_T`: four packed uint16_t
pub record Head : Type 0 where
  pub flags : ℕ
  pub length : ℕ
  pub checksum : ℕ
  pub reserved : ℕ

-- `sizeof (NVOL3_RECORD_HEAD_T)`, `NVOL3_PAGE_SIZE`, `NVOL3_HEADROOM`, `NVOL3_INVALID_VAR_IDX`
abbrev pub head_size : ℕ
head_size = 8

abbrev pub page_size : ℕ
page_size = 0x20

abbrev pub headroom : ℕ
headroom = 4

abbrev pub invalid_var_idx : ℕ
invalid_var_idx = 0xFFFF

-- `NVOL3_RECORD_FLAGS_*`
abbrev pub flags_empty : ℕ
flags_empty = 0xFFFF

abbrev pub flags_new : ℕ
flags_new = 0xAFFF

abbrev pub flags_valid : ℕ
flags_valid = 0xAAAF

abbrev pub flags_invalid : ℕ
flags_invalid = 0x0000

-- `NVOL3_SECTOR_*`
abbrev pub sector_empty : ℕ
sector_empty = 0xFFFFFFFF

abbrev pub sector_initializing : ℕ
sector_initializing = 0xAAFFFFFF

abbrev pub sector_valid : ℕ
sector_valid = 0xAAAAFFFF

abbrev pub sector_invalid : ℕ
sector_invalid = 0xAAAAAAAA

-- `NVOL3_RECORD_T`: the header and the buffer that follows it, which holds the key and the data.
pub record Record : Type 0 where
  pub head : Head
  pub key_and_data : List ℕ

-- `NVOL3_ENTRY_T`, the value of a dictionary node
pub record Entry : Type 0 where
  pub idx : ℕ
  pub length : ℕ
  pub local : List ℕ

-- `NVOL3_CONFIG_T`; the write callback sees the record.
pub record Config : Type 1 where
  pub flash : Flash
  pub sector1_addr : ℕ
  pub sector2_addr : ℕ
  pub sector_size : ℕ
  pub record_size : ℕ
  pub local_size : ℕ
  pub key_size : ℕ
  pub hashsize : ℕ
  pub keyspec : ℕ
  pub version : ℕ
  pub write_cb : Option (Record → Status)

-- `NVOL3_INSTANCE_T`, with the state of the world that the code reaches through it: the device
-- behind the access functions, and the heap.
pub record Instance (Dev : Type 0) : Type 0 where
  pub version : ℕ
  pub next_idx : ℕ
  pub sector : ℕ
  pub dict : Option (Dictionary Entry)
  pub inuse : ℕ
  pub invalid : ℕ
  pub error : ℕ
  pub dev : Dev
  pub heap : Heap

-- Code that works on an instance; `none` is undefined behaviour, such as the use of a null pointer.
abbrev pub M : Type 0 → Type 0 → Type 0
M Dev A = Instance Dev → Option (A × Instance Dev)

abbrev pub pure : {Dev A : Type 0} → A → M Dev A
pure a s = some (a, s)

abbrev pub fault : {Dev A : Type 0} → M Dev A
fault s = none

infixl 5 ◌>>=◌ ◌>>◌
abbrev pub ◌>>=◌ : {Dev A B : Type 0} → M Dev A → (A → M Dev B) → M Dev B
◌>>=◌ m f s = elim (m s) [ none ↦ none | some (a, s') ↦ f a s' ]

-- What a bind does once its first part has run.
pub bind_run :
    {Dev A B : Type 0} (m : M Dev A) (f : A → M Dev B) (s s' : Instance Dev) (a : A)
    → m s ≡ some (a, s')
    → (m >>= f) s ≡ f a s'
bind_run {A} m f s s' a e =
    ap (λ (r : Option (A × Instance _)). elim r [ none ↦ none | some (b, t) ↦ f b t ]) e

abbrev pub ◌>>◌ : {Dev B : Type 0} → M Dev (Unit {0}) → M Dev B → M Dev B
m >> k = m >>= λ _. k

abbrev pub get : {Dev : Type 0} → M Dev (Instance Dev)
get s = some (s, s)

abbrev pub modify : {Dev : Type 0} → (Instance Dev → Instance Dev) → M Dev (Unit {0})
modify f s = some (tt, f s)

-- `instance->dict`, which is followed.
abbrev pub get_dict : {Dev : Type 0} → M Dev (Dictionary Entry)
get_dict s = elim s.dict [ none ↦ none | some d ↦ some (d, s) ]

-- The bytes of a header, and the header that bytes make.
unfoldable pub head_bytes : Head → List ℕ
head_bytes h = bytes16 h.flags ++ (bytes16 h.length ++ (bytes16 h.checksum ++ bytes16 h.reserved))

unfoldable pub head_of : List ℕ → Head
head_of b = record {
  flags = load16 b;
  length = load16 (drop 2 b);
  checksum = load16 (drop 4 b);
  reserved = load16 (drop 6 b);
}

-- `max_records`
unfoldable pub max_records : Config → ℕ
max_records config = (config.sector_size + 2 ^ 32 - page_size) % 2 ^ 32 / config.record_size

-- `config->record_size - sizeof (NVOL3_RECORD_HEAD_T)`, a size_t of 32 bits
unfoldable pub max_length : Config → ℕ
max_length config = (config.record_size + 2 ^ 32 - head_size) % 2 ^ 32

-- the place of slot `idx` of the sector
unfoldable pub slot_addr : Config → ℕ → ℕ → ℕ
slot_addr config sector_addr idx = (sector_addr + (page_size + config.record_size * idx)) % 2 ^ 32
