-- ===== src/Lib.antt =====
-- NVOL keeps named records in two sectors of a NOR FLASH. A volume appends every new version of a
-- record to the sector in use, marks the old version as invalid, and finds records through a
-- dictionary in RAM that is built again when the volume is loaded. When the sector is full the valid
-- records are copied to the other sector, and the sectors change places.
--
-- The parts, and the files here that model them:
-- - src/common/errordef.h: Base/Status.antt (`Status` has the codes, `magnitude` their numbers).
-- - src/common/heap.c: Base/Heap.antt. The C library's allocator is not part of the program: its
--   answers are a list that `heap_malloc` takes one of at every call.
-- - src/nvram/nvol3.h, `NVOL3_FLASH_IF_T`: Flash.antt. The record `Flash` holds the access functions
--   over a state of the device; `IsNor` says what a volume relies on. Flash/Content.antt says what
--   stands in such a memory.
-- - src/drivers/ramdrv.c: Ramdrv.antt; Ramdrv/Nor.antt has the proofs about it.
-- - src/common/dictionary.c: Dictionary.antt, with the key tables in Dictionary/Keys.antt (`KeyType`
--   says which table `dict->key` points to) and the iterators in Dictionary/Iterator.antt. A node is
--   a value with its address; a write through a pointer to a node is `write_value` at its address.
--   `IsValid` (Dictionary/Table.antt) is the invariant of a dictionary.
-- - src/nvram/nvol3.c: Nvol.antt (records, configuration, instance and the constants),
--   Nvol/Slots.antt (one slot of a sector), Nvol/Sectors.antt (sector headers), Nvol/Lookup.antt
--   (`insert_lookup_table`, `construct_lookup_table`), Nvol/Swap.antt (`move_sector`,
--   `swap_sectors`, `nvol3_repair`), Nvol/Volumes.antt (`init_sectors`, `nvol3_load` and the other
--   functions on whole volumes), Nvol/Api.antt (`record_set`, `record_get` and the functions on
--   records), Nvol/Entries.antt (iterators over records, entries). The functions have the source's
--   names. The mutable instance is passed on by a state monad `M`, whose `none` stands for undefined
--   behaviour; the device and the heap are fields of the instance. A buffer is the list of its bytes.
-- - src/common/strsub.c: Strsub.antt (the handlers, and the parser as a state machine over the
--   characters) and Strsub/Sink.antt (the functions that parse into a buffer, `strsub_cb`). The nodes
--   of the handlers stand in a memory, as their owners provide them; what `arg` leads to is a type
--   that the functions are over, and a callback is a function on it.
-- - src/registry/registry.c: Registry.antt, and Registry/Words.antt for the substitution of words,
--   the start and the stop. The module's static variables are the record `Registry`; strncpy and
--   strcmp stand in Registry/Texts.antt.
-- - src/registry/strtab.c: Strtab.antt and Strtab/Words.antt, in the same way. sscanf is a parameter.
-- - src/shell/corshell.c: Shell.antt (lists of commands and their iterators, `corshell_cmd_run`),
--   Shell/Lists.antt (`corshell_install`, `corshell_uninstall`), Shell/Split.antt
--   (`corshell_cmd_split`), Shell/Scan.antt (`corshell_scan_int`), Shell/Lines.antt and
--   Shell/Script.antt (`corshell_script_run`), Shell/Help.antt (`corshell_cmd_help` and the shell's own
--   commands). Lists of commands stand in a memory, as their owners provide them; the function of a
--   command is an address, and what the code there does is a parameter, as is the caller's
--   `shell_out`. Static variables, the lists and what commands change are the record `Shell`. The
--   conversions of sscanf that the shell uses are written out; what they store for a number that does not
--   fit, which C leaves open, is the parameter `unfit`.
-- - src/registry/registrycmd.c and src/registry/strtabcmd.c: Registry/Commands.antt and
--   Strtab/Commands.antt, the commands over the registry's and the string table's state.
--
-- A volume is a client of a driver by the interface `Flash`, the registry and the string table are
-- clients of a volume by its functions on records, and both install a handler in the string substitution,
-- which calls them back for the words of a text. Their starts add their commands to the lists of the shell,
-- and their stops take them off. The shell substitutes the words of a line before it
-- splits it, and its commands for the registry and the string table call these.
--
-- The proofs about volumes stand in Nvol/Geometry.antt (where slots lie), Nvol/Stored.antt and
-- Nvol/Stored/Heads.antt (what a slot holds, and what each slot function does to it), RoundTrip, Insert,
-- Set, SetGet, Unchanged, Replace, Delete, Flags, Checksum and Construct below Nvol. Nvol/Refine.antt
-- says what it is for a volume to hold a map from keys to records, and the files below it have the
-- proofs about the functions on records over such a map. Nvol/Keyed.antt has the part that the registry
-- and the string table share: a key with a value behind it. The proofs about strings stand in Chain (the
-- handlers), Word, Plain, Strings, Keeps, Bounds and Twice below Strsub, those about names in Buffer,
-- SetGet, WordValue and Text (a name in a text) below Registry and in SetGet and Valid below Strtab.
-- Those about the shell stand in Chain (the lists, and loops over them), Chain/Links, Runs, Split/Bounds,
-- Split/Words, Split/Line, Scan/Digits, Help/Bounds and, for scripts, Rounds, Steps, Ends, Texts,
-- Numbered, Plain and Errors below Shell/Script; what the commands show is in Commands/Shown below
-- Registry and Strtab.
-- Examples.antt and the files below it hold small volumes on the RAM driver and texts, and apply the
-- theorems to them.
--
-- Words are native numbers; where the source's uint16_t or uint32_t can wrap, the remainder is written
-- out. Targets are little-endian with a signed `char`. The loop of `construct_lookup_table` and that of
-- `move_sector` get one unit of fuel more than a sector has slots, and every round leaves one slot behind;
-- a walk over the nodes of a dictionary gets `walk_fuel`, one unit more than there are nodes, and the
-- loop of `swap_sectors` one more still; every round of these comes to another node. The walks over the
-- handlers of a token get fuel from their caller: more than the chain has nodes is enough. The loop over
-- a script gets a round for each of its bytes and one more, and every round goes on by a byte at least; a
-- walk over the shell's commands gets a unit for each command.
--
-- Not modelled: messages (src/common/debug.c, `nvol3_entry_log_status`, `registry_log_status`,
-- `strtab_log_status`), the locks, and the text that `vsnprintf` makes of a line of the shell, `corshell_print_table`,
-- `corshell_regtest`, the date of the build (src/shell/corshellcmd.c), and the SPI driver
-- (src/drivers/spiflash.c), which stands on a HAL outside of the repository. The default instance of the
-- string substitution is an argument as any other; its offset is not bounded by an int32_t. A text is the
-- list of the bytes that may be read; where one without a NUL is read to its end, C reads on.
pub mod Base
pub mod Flash
pub mod Ramdrv
pub mod Dictionary
pub mod Nvol
pub mod Strsub
pub mod Registry
pub mod Strtab
pub mod Shell
pub mod Examples
