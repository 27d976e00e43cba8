-- ===== src/Lib.antt =====
-- A verification library for xlibfabric: the interface headers of libfabric in include/, the test
-- helpers of include/shared.h, the client-server example include/msg.c, the helper files of the
-- bindings in src/XLibfabric/RDMA/, and the Haskell client src/Scalable.hs.
--
-- The parts and the files.
-- * Machine is the C machine under the inline functions of the headers. Memory is a partial map from
--   addresses to words, one for each field; a local variable whose address is taken lies in a
--   frame below the stack pointer (`frame`); `none` is undefined behaviour. The code behind a function
--   address is the provider's, which is not in the repository: `Host` holds it as a parameter, and so
--   it holds the allocator of the Haskell runtime, which `alloca` asks for a block.
--   Machine/Dispatch relates memory to an abstract table of methods (`Represents`); Machine/Locals is
--   about calls that pass the address of a local variable, Machine/Outcomes about binds.
-- * Fabric (include/fabric.h), Domain (include/fi_domain.h), Endpoint (include/fi_endpoint.h),
--   Cm (include/fi_cm.h), Eq (include/fi_eq.h), Rma (include/fi_rma.h), Tagged
--   (include/fi_tagged.h), Atomic (include/fi_atomic.h) and Collective (include/fi_collective.h) hold a
--   definition for each inline function, under its C name and with its arguments in order. Their
--   Layout files give each struct as the data type of its fields (`struct fi_ops_msg` is FiOpsMsg),
--   with the offsets of LP64. Pointers, sizes, flags and enumerations are words. Optional is about
--   the calls behind FI_CHECK_OP. Fabric/Version, Fabric/TrafficClass and Domain/Address are about
--   packed numbers, Fabric/Info about the attributes. Fabric/InfoFields, Fabric/Enums, Domain/AvAttr,
--   Eq/Attr and Shared/OptsFields have the attributes as they lie in memory, Eq/Entries the entries of
--   queues.
-- * Abi is how a compiler lays out a struct, on two data models; Abi/Attributes has the declarations of
--   the attributes, and Abi/Tables compares their offsets. Trigger is include/fi_trigger.h and Errno
--   include/fi_errno.h, in which the numbers of <errno.h> are a parameter.
-- * Transfer has the calls of the five data transfer headers as data, and programs that are sequences
--   of them.
-- * Shared is include/shared.h: exit codes, options, timing, the message prefix, the choice of sizes
--   and the macros that close and bind objects and look at errors.
-- * Msg is include/msg.c. The helpers of the test suite, getopt and the two functions of the library
--   that it calls are the fields of `Suite`; the calls made so far are kept beside the globals. The
--   option loop runs on fuel, and Msg/Exit has how much is enough.
-- * Binding has the lines of src/XLibfabric/RDMA/*.hsc.helper.c, a file for each, beside the prototypes
--   of the functions that they wrap.
-- * Scalable is src/Scalable.hs, under its names: an IO action is a computation of the machine, a `Ptr`
--   an address, a `peek` of a struct that is used for some fields a read of these. Scalable/Wait polls
--   a queue, Scalable/Close closes, Scalable/Attr sets attributes, Scalable/Info asks for the provider,
--   Scalable/Setup opens and binds, Scalable/Session exchanges addresses and runs, Scalable/Program
--   allocates and starts. The calls of the headers are those of the files above; fi_getinfo,
--   fi_freeinfo, fi_fabric and `moveBytes` are the fields of `Library`. A loop that waits runs on fuel,
--   and ends with `none` where it still waits; Scalable/Wait/Polls has how much is enough. The C
--   functions that the comments of the file quote are there under `documented_` names, where a theorem
--   compares with them.
-- * Base has the shared names, tests and lemmas on numbers and bits; Examples has concrete runs.
--
-- Integers. Numbers are the natural numbers; the bit patterns of fixed width are written out where
-- the code wraps: `fi_rx_addr` shifts in 64 bits, `ft_stop` complements in 32. The version macros are
-- read on numbers that fit their C type. An `int` result is an integer, and so is the
-- index of `fi_rx_addr`. The options and counts of src/Scalable.hs are not negative.
--
-- Not modelled: libfabric and its providers, the functions that the headers only declare, the text
-- that the code prints, the other enumerations that no inline function reads, the portability
-- headers, the foreign declarations in the .hsc files, which hsc2hs expands, and src/Msg.hs,
-- src/Common.hs and app/Main.hs, which call the programs.
pub mod Base
pub mod Machine
pub mod Fabric
pub mod Domain
pub mod Endpoint
pub mod Cm
pub mod Eq
pub mod Rma
pub mod Tagged
pub mod Atomic
pub mod Collective
pub mod Optional
pub mod Shared
pub mod Msg
pub mod Examples
pub mod Binding
pub mod Abi
pub mod Trigger
pub mod Errno
pub mod Scalable
pub mod Transfer
