-- ===== src/Lib.antt =====
-- A verification library of a simulator of cryptographic capabilities: the code that encodes pointers
-- and data and that keeps integrity values, bounds and freed pointers, translated into functions, with
-- the theorems that make it correct.
--
-- The parts and the files that model them:
--   * crypto/bipbip.cpp and bipbip.h, the 24-bit tweakable block cipher of pointers: Bipbip. Tables,
--     Layers and Rounds are the data path, Schedule the key and tweak schedules, Cipher the class
--     PointerCipher24b (`init_key`, `encrypt`, `decrypt`) with its cached tweak schedule as a record
--     that every call hands on. The other files of Bipbip prove the layers and rounds invertible
--     and the cache invisible.
--   * c3lib/c3/generic/ca.h, malloc/try_box.h, crypto/cc_encoding.h and
--     modules/common/ccsimics/ptrencdec_isa.h: Ca. Format has the bit-fields of a CA (a cryptographic
--     address) as functions on 64-bit words, Boxing the choice of a slot, Encoding the class
--     CCPointerEncodingBase on top of Bipbip, Isa the emulated instructions, Instructions their bytes.
--   * modules/common/ccsimics/icv_map.h, the sparse map of integrity check values: IcvMap. Page has
--     the data and the operations, Counting and Sparse the proofs.
--   * malloc/lim_ptr_encoding.h, pointers with a slot size and a tag, and metadata with bounds in the
--     middle of a slot: Lim. Pointer and Metadata have the operations, the other files the proofs.
--   * malloc/cc_malloc.c, the allocation functions: Alloc. Heap has the state, with the calls of the
--     allocator below as a sequence, Quarantine the two buffers of freed pointers, Entry malloc,
--     calloc, realloc and free, Release, Queue and Free the proofs.
--   * crypto/ascon_cipher.cpp and CCDataEncryption of crypto/cc_encoding.h, the encryption of data by
--     its address: Data. Ascon has the keystream of a granule, Countermode the loops over masks and
--     chunks, Stream the proofs.
--   * modules/common/ccsimics/integrity.h with the ICV bits of c3lib/c3/generic/icv.h, the checks of
--     memory accesses against integrity values: Integrity. Icv has the bits, Machine the state, the
--     options and the simulator, whose effects are a sequence of calls, Check the check of an access
--     and the correction of pointers, Instructions the operations behind the ICV instructions. A general
--     protection fault leaves the callback by a long jump: the member `faulted` of the state says that
--     one was raised, and what follows it in the source is not done. Granule,
--     Step, Access, Kept, Loop, Faults and Passes prove what an access raises; Invalidate, Lifecycle,
--     Preinit and Failures what comes after each instruction; Sound, Accesses, Changes and Reachable
--     the invariant. Isa has the instructions of modules/common/ccsimics/integrity_isa.h, Execute the
--     way from their bytes to the accesses after them.
--   * modules/common/ccsimics/c3_base_model.h, the callbacks of the simulator around a memory access:
--     Base. Words has encrypt_decrypt_u64, RoundTrip its inverse, Access the callbacks address_before
--     and modify_data_on_mem_access on the machine of Integrity, Crossing an access to two pages.
--   * modules/common/ccsimics/shadow_rip.h, the CA of the running code and its way through calls,
--     returns and SMM: Shadow. State has the class ShadowRip with the registers, on top of the machine
--     of Integrity, Replace the replacement of an address's fixed bits and the callbacks, Branch the
--     emulated instructions, with what XED says of them as a parameter. Fixed, Slot and Smm prove the
--     way into SMM and back, Jump that of a branch through a register, Stack and Calls that of a call.
--   * modules/common/ccsimics/castack.h, the instructions whose operand on the stack may be a CA:
--     Castack. Fixup has the class CaStack, Restore the proof.
--   * modules/lim_model (model.cpp, model.h), the simulator's model of pointers with a slot size and a
--     tag, on top of Lim: LimModel. State has the class lim_class and the simulator, Memory the reads
--     and writes by linear addresses, Before the callback address_before, Access and Callback the
--     callback modify_data_on_mem_access. Faults says how a failed translation ends, Mapped what
--     a simulator with mapped pages does, Views what the accesses of Memory do on it. Places, Spliced, Displaced, Refines and Logical
--     prove what becomes of displaced data, Shifted, Moved, Cut and ShiftedWrite what becomes of
--     shifted data, Words, Lookup, Checks and Safety what a load does.
--   * modules/common/ccsimics/rep_movsb_tripwire.h, string copies that take the integrity values along:
--     Tripwire. Copy has the class RepMovsTripwire, on the machine of Integrity, Modes the proof.
-- Common holds the shared notation: C words as native numbers with their wrap-around written out,
-- bit-fields, arrays as lists, failing code as Option, and the laws of the bit operations.
--
-- A failed assertion, an abort and an exit are `none`, in LimModel an outcome of its own. Loops are structural recursion on the number
-- of turns left, which the source fixes. On fuel are `bit_length`, which stands for the count of
-- leading zeroes of the compiler (64 is enough for every word), `mask_loop` (one turn more than there
-- are bytes, at 8 bytes a turn) and `many_loop` (as many turns as there are bytes, at 64 bytes a turn);
-- the theorem on the data encryption shows the last two to be enough. So are the translations of
-- LimModel, each of which may need that of the current instruction: one level is enough where all
-- pages are mapped, and two where that of the instruction is.
--
-- Not modelled: the calls of the simulator and of the instruction decoder, which are not in the
-- repository, and printing; the contexts of modules/ and the models that derive from the base model;
-- the wrappers of malloc/ around the allocation functions.
pub mod Common
pub mod Bipbip
pub mod Ca
pub mod IcvMap
pub mod Lim
pub mod Alloc
pub mod Data
pub mod Base
pub mod Integrity
pub mod Shadow
pub mod Castack
pub mod LimModel
pub mod Tripwire
