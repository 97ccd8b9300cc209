-- ===== src/Lib.antt =====
-- The IO spaces of GNU poke, and the environments of its compiler and virtual machine.
--
-- An IO space (libpoke/ios.c) is a sequence of bits that programs read and write as integers of 1 to
-- 64 bits, at any bit offset and in either byte order. It operates a device, which only knows bytes,
-- through `struct ios_dev_if` (libpoke/ios-dev.h), and keeps a table of the values that are mapped in
-- it (libpoke/ios-range.c, libpoke/ios-ivtree.h), which a write marks dirty.
--
-- The compiler keeps a stack of frames of declarations (libpoke/pkl-env.c), and computes from it where
-- the value of a name will be among the frames of the virtual machine (libpoke/pvm-env.c). It works on
-- a copy of the top level, which it frees when it gives up (libpoke/pkl.c).
--
-- - Base: the names of the libraries, tests on numbers, lists, signed integers, and the laws of `|`
--   and `&` at every width. No code of the program.
-- - Iod: the device interface as the record DevIf, the status codes and flags. Iod/Mem is
--   libpoke/ios-dev-mem.c, with the block as a list of bytes; Iod/Mem/Laws has its laws. Iod/Sub is
--   libpoke/ios-dev-sub.c, over any base device; Iod/Sub/Opened says what it opens. Iod/Zero is
--   libpoke/ios-dev-zero.c.
-- - Ios/Word: C's shifts at the types at which the code uses them, IOS_CHAR_GET_LSB,
--   IOS_CHAR_GET_MSB and bswap_64. Ios/Field: what the integer at a bit offset is, with no machine
--   words; all of reading and writing is held against it. Ios/Space: the fields of `struct ios` that
--   the integer routines use, and the split of a signed bit offset.
-- - Ios/Range: the interval tree, its visits and the marking of values; Insert is lookup, and
--   insertion with its balancing, the parent links being the list of the frames above a node. Visit,
--   Dirty, Entries, Order, Sorted and Lookup have the proofs.
-- - Ios/Read: ios_read_int_common (Narrow and Wide are the cases of its switch, Common the rest),
--   the byte-aligned switches (Fast), ios_read_uint and ios_read_int (Api). The other modules prove
--   the cases one by one; Results, Failures and OnMem put them together.
-- - Ios/Write: ios_write_int_fast (Fast), ios_write_int_common (Order is the little endian order of
--   each case, Cases the bytes that each case writes, Common the rest), ios_write_uint and
--   ios_write_int (Api). Message, Swap, Bytes, Span, Single, Ordered and FastBytes prove the cases;
--   Results, OnMem and RoundTrip put them together.
-- - Ios/Through: reading and writing through a range of another space, against the same on that
--   space; Ios/OnZero: reading zeros.
-- - Pkl/Text: the C strings of the names, with strchr, `%d` and atoi. Pkl/Decls and Pkl/Env:
--   pkl-env.c, on a state of declaration nodes that environments share; Decls has the frames and
--   hash tables, Rename the undoing of redefinitions and the freeing of frames, Iter the iterator.
--   Cases has the outcomes of a registration, Valid the invariant, Lookup what is found afterwards,
--   Undo the steps of a compilation and their undoing, Facts what lexical addresses need, and
--   Iter/Visits what the iterator visits.
-- - Pvm/Env: pvm-env.c, on a heap of frames; Blocks, Alias and Toplevel have the proofs.
-- - Lexical: both environments in step. Mirror says when one mirrors the other, Runs has the steps of a
--   program and its compilation, and Address their agreement.
--
-- An operation of a device or of a space takes its state and returns a result and the new state.
-- Statuses stand for the `int` of which they are the magnitude. Words of the machine are natural
-- numbers, with the wrap-around written out; a bit offset is a signed integer that does not overflow,
-- as C leaves its overflow undefined. A negative offset off a byte boundary is a place of its own
-- (`ragged`), where some shifts of the code are by negative amounts: `abort` stands for that and for
-- PK_UNREACHABLE.
--
-- In the environments a failed assertion and the use of NULL are results of their own. Declarations are
-- named by numbers, frames of the virtual machine by addresses, and a chain of nodes is a list. The loops
-- over such chains are structural; pvm_env_toplevel and the loops that use the iterator take fuel, and
-- theorems say how much is enough: a frame more than there are, a declaration more than are visible.
-- `%d` prints an `int` in ten digits at most.
--
-- A device is a parameter of the integer routines, and the theorems about a space say what is assumed
-- of it; OnMem and RoundTrip discharge this for the memory device. Whether there is memory for an
-- allocation is a parameter too.
--
-- Not modelled: removal from the interval tree, the context of the open spaces and strings (ios.c),
-- the parsing of the numbers in the handler of a range, the other devices, the rest of the compiler
-- and of the virtual machine, its values, and the programs around them.
pub mod Base
pub mod Iod
pub mod Ios
pub mod Pkl
pub mod Pvm
pub mod Lexical
