-- ===== src/Lib.antt =====
-- Verification of nvmefs, a DuckDB file system that keeps databases, their logs and temporary files
-- on a raw NVMe device.
--
-- The device's blocks are block 0 for the metadata, then the regions of the databases, each a data
-- part and a log, then the temporary area. The file system (src/nvmefs.cpp) finds the database of a
-- path (PathHandler), looks up its region in the metadata (Metadata), and leaves what depends on the
-- kind of file to a strategy: the data file and the log each have an end on the device, a location,
-- that several threads move (Strategy), and temporary files take blocks from an allocator over the
-- temporary area (BlockManager). Its operations (FileSystem) turn bytes of a file into a command on
-- blocks, which one of three engines gives to the device (Engine). Between them stands an interface,
-- a device that reads and writes the bytes of a command (Engine.Interface).
--
-- The modules, each with the code that it is about:
--   Device        src/include/device.hpp: the geometry, and when it is that of a device. Placement and
--     Handles are about src/nvme_device.cpp: GetReclaimUnitHandleOrDefault, the placement handles,
--     PrepareIOCmdContext and PrepareOpts; Buffers about the cached allocator of
--     src/include/buffer_allocators.
--   Metadata      src/include/nvmefs.hpp, src/nvmefs.cpp: the region table. Defs has the structs,
--     allocate_region (AllocateNewDatabaseRegion), fresh_metadata (InitializeMetadata) and
--     find_region (GetRegionForPath); Packed the shape of the table; Allocate, Initialize and Fresh
--     the theorems.
--   PathHandler   src/include/nvmefs_path_handler.hpp: GetFileType, ExtractDatabaseName.
--   BlockManager  src/nvmefs_temporary_block_manager.cpp: Defs has AllocateBlock (allocate_block),
--     FreeBlock (free_block) and what they call, by the names of the source; Counts, Lists, Cover,
--     Coalesce, Frame and Used are lemmas; Space follows from the
--     invariant; Invariant, Allocate, Free, Units and Calls are the theorems.
--   Strategy      src/include/strategies/{database,wal}_file_strategy.hpp: the operations, with db_
--     and wal_ before their names; Range is about the range check, Location about UpdateMetadata,
--     Truncate and the sizes, Writers about UpdateMetadata by several threads.
--     Temporary has the strategy of temporary files, which forwards to their manager, and
--     FileStrategyFactory (get_strategy).
--   TempFiles     src/temporary_file_metadata_manager.cpp: Defs has the operations by the names of
--     the source; Counts, Release and Balance are lemmas about block maps; Consistent, Locate and
--     Space the theorems.
--   Engine        src/include/io_engines, src/nvme_device.cpp: Sync, Async and Prefetch have the engines'
--     Read and Write (sync_read, async_write and so on), Select the constructor of NvmeDevice, its
--     Read and Write and GetThreadIndex. Xnvme has what they use of xNVMe and the device's state;
--     Interface what the file system relies on. Sync.Laws shows that the synchronous engine gives it;
--     Async.Reading and Async.Laws, and for one thread Prefetch.Reading and Prefetch.Laws, are about
--     the reads and the writes of the other two, which do not notice a command that the device fails.
--     Async.Chunks and Async.Parts are about the commands that a transfer is cut into, Async.Runs about
--     their execution in any order, Prefetch.Fresh about the bytes of a prefetch.
--   FileSystem    src/nvmefs.cpp: State has the members of NvmeFileSystem and of a handle,
--     Strategies the virtual calls of a strategy, Metadata the record on the device (TryLoadMetadata,
--     WriteMetadata, AllocateNewDatabaseRegion), Open OpenFile, FileExists and RemoveFile, Transfer
--     Read, Write and Trim with the metrics, Directory the rest, with list_directory for ListFiles. Blocks and Parts are
--     lemmas; Files, Isolation, Handles and Restart the theorems.
--   Config        src/nvmefs_config.cpp: the secret, and LoadConfig (load_config).
--   Metrics       src/nvmefs_extension.cpp: the rows of the two table functions.
--   Prelude       words of 64 bits with their wrap-around, lists, strings as lists of character
--     codes, dictionaries, and a monad of state and errors, in which an error keeps the state.
--   Tests         runs on small inputs, and the theorems at inputs that meet their hypotheses.
--
-- How the code is modelled. An idx_t is a natural number below 2^64, and the sums, differences and
-- products of the code are add64, sub64 and mul64, which wrap around. A thrown exception is err with
-- the state at the throw. The intrusive linked lists of the allocator are lists: the list of blocks
-- in its order, and each free list as the names of its blocks, where a name stands for the address
-- of an object. An unordered_map is an association list in the order of its iteration. The string
-- tests of DuckDB's StringUtil are a parameter with their documented meaning, and std::stoi is one.
-- The temporary files' manager is modelled one call at a time, and the ranges that it deallocates on
-- the device are a list; an entry that operator[] makes for a missing key is a null pointer, whose
-- dereference is an error. A loop is structural recursion on a list or on an index, but for the one
-- that cuts a transfer into commands, which has one unit of fuel more than the transfer has blocks:
-- each turn takes a block or more, and a theorem says that the fuel is enough. A transfer of the
-- asynchronous engine executes its commands in an order that is a parameter, and the calls of several
-- threads do not overlap. A queue has contexts for 16 commands, and a transfer that needs more
-- dereferences a null pointer. A refusal while commands are in flight, which free their buffer, is an
-- error of its own (use_after_free), as the dereference of a null pointer is: nothing is said of what
-- runs after either. Each transfer is modelled to find all contexts of its queue free: the one that a
-- refused command does not give back is not counted. Strategies refer to a
-- runtime state by the name that it is filed under. The layout of the C structs in memory is a
-- parameter of the record's operations, with what they rely on, that a record is read back as it was
-- stored, as a hypothesis.
--
-- Not modelled: the registration of the extension, of its functions and of the secret type with
-- DuckDB, which only calls DuckDB; the printing of blocks and of progress; and the libraries DuckDB,
-- xNVMe and Boost. Of xNVMe the model has the commands, the buffers, the queues' refusals and the
-- opening of a device, as parameters.
pub mod Prelude
pub mod Device
pub mod Metadata
pub mod PathHandler
pub mod BlockManager
pub mod Strategy
pub mod TempFiles
pub mod Engine
pub mod FileSystem
pub mod Config
pub mod Metrics
mod Tests
