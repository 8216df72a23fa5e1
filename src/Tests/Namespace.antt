-- ===== src/Tests/Namespace.antt =====
-- A namespace that is a memory, behind the engines.
use mathlib.Core.Option.{some-injective}
use nvmefs.Prelude.{
  arith, List, ◌≡◌, ℕ, ◌+◌, ◌-◌, ◌*◌, ◌%◌, refl, ◌∷◌, sym, ap, true, false, [], some, if◌then◌else◌,
  get_or, bytes_at, within,
}
use nvmefs.Engine.Async.Chunks.{Tiles, HasSmallBlocks, chunks_of-Tiles}
use nvmefs.Engine.Async.{chunks_of, async_read, async_write}
use nvmefs.Device.{CmdContext}
use nvmefs.Engine.Async.Reading.{IsReordering, async_read-Reads}
use nvmefs.Engine.Async.Laws.{async_write-Writes}
use nvmefs.Engine.Interface.{IsFaithful, Reads, Writes}
use nvmefs.Engine.Prefetch.{prefetch_read, prefetch_write}
use nvmefs.Engine.Prefetch.Fresh.{IsFresh}
use nvmefs.Engine.Prefetch.Reading.{Keeps, prefetch_read-Reads}
use nvmefs.Engine.Prefetch.Laws.{prefetch_write-Writes}
use nvmefs.Engine.Sync.Laws.{sync_device, sync_device-IsFaithful}
use nvmefs.Engine.Xnvme.{
  Chunk, Xnvme, IsLawful, CanRead, CanWrite, NvmeDevice, Engine, PrefetchState,
}
use nvmefs.Tests.Layout.{geometry}
use nvmefs.Tests.Paths.{strings}

abbrev pub plain : Xnvme
plain = record {
  Disk = ℕ → ℕ;
  byte = λ f. f;
  nvm_read = λ f w slba nlb. some (bytes_at f (slba * 4096) ((nlb + 1) * 4096));
  nvm_write = λ f w slba nlb bs. some (λ k.
      if within (slba * 4096) ((nlb + 1) * 4096) k then get_or bs (k - slba * 4096) 0 else f k);
  buf_alloc = λ calls size. 1;
  memory = λ calls k. 7;
  reused = λ calls k. 7;
  queue_init = λ thread. true;
  accepts = λ f c. true;
  schedule = λ cs. cs;
}

pub plain-IsLawful : IsLawful geometry plain
plain-IsLawful = record {
  read_law = λ f w slba nlb bs small e. sym (some-injective _ _ e);
  write_law = λ f f' w slba nlb bs k small e. ap (λ h. h k) (sym (some-injective _ _ e));
}

abbrev pub device : NvmeDevice
device = record {
  geometry = geometry;
  use_fdp = false;
  allocated_ruhs = [];
  ruhs_to_phids = [];
  cached = true;
  mdts_nbytes = 131072;
}

sync_device-IsFaithful_example :
    IsFaithful geometry (sync_device plain device strings plain-IsLawful)
sync_device-IsFaithful_example = sync_device-IsFaithful plain device strings plain-IsLawful

plain-IsReordering : IsReordering plain
plain-IsReordering = record { all_of = λ P cs h. h; any_of = λ p cs h. h }

device-HasSmallBlocks : HasSmallBlocks device
device-HasSmallBlocks = omega arith

-- A hundred blocks, which the limit of 32 blocks cuts into four commands.
abbrev command : CmdContext
command = record { nr_bytes = 400000; nr_lbas = 100; start_lba = 5; offset = 100; filepath = [] }

chunks_of-Tiles_example :
    (cs : List Chunk) × (chunks_of device command ≡ some cs) × Tiles 4096 5 100 0 cs
chunks_of-Tiles_example = chunks_of-Tiles device command device-HasSmallBlocks (omega arith)

-- What the namespace and the buffers are like before the first call, after a prefetch of block 6.
abbrev sixth : PrefetchState
sixth = record {
  active = true;
  expected_lba = 6;
  expected_nr_lbas = 1;
  alloc_size = 4096;
  buffer = 1;
  content = bytes_at (λ k. k % 256) (6 * 4096) (1 * 4096);
}

abbrev started : Engine plain
started = record {
  disk = λ k. k % 256;
  buffers = record { cache = []; calls = [] };
  queues = [];
  prefetches = sixth ∷ [];
}

abbrev last_bytes : CmdContext
last_bytes = record { nr_bytes = 96; nr_lbas = 1; start_lba = 6; offset = 4000; filepath = [] }

plain-CanRead : (d : ℕ → ℕ) (start count : ℕ) → CanRead plain d start count
plain-CanRead d start count w slba nlb low high e = cc

plain-CanWrite : (start count : ℕ) → CanWrite plain start count
plain-CanWrite start count d w slba nlb bs low high e = cc

started-IsFresh : IsFresh plain device strings 0 plain-IsLawful started
started-IsFresh ctx c can on start count = rw (start, count) refl

async_read-Reads_example :
    Reads {S = Engine plain}
      (λ s. s.disk)
      geometry
      command
      started
      (async_read plain device strings 0 command started)
async_read-Reads_example =
    async_read-Reads plain device strings 0 plain-IsLawful device-HasSmallBlocks plain-IsReordering
      command started (plain-CanRead started.disk 5 100)

async_write-Writes_example :
    Writes {S = Engine plain}
      (λ s. s.disk)
      geometry
      last_bytes
      (bytes_at (λ k. 1) 0 96)
      started
      (async_write plain device strings 0 last_bytes (bytes_at (λ k. 1) 0 96) started)
async_write-Writes_example =
    async_write-Writes plain device strings 0 plain-IsLawful device-HasSmallBlocks
      plain-IsReordering last_bytes (bytes_at (λ k. 1) 0 96) started (plain-CanWrite 6 1)

prefetch_read-Reads_example :
    Reads {S = Engine plain}
      (λ s. s.disk)
      geometry
      last_bytes
      started
      (prefetch_read plain device strings 0 last_bytes started)
    × Keeps plain device strings 0 plain-IsLawful
        (prefetch_read plain device strings 0 last_bytes started)
prefetch_read-Reads_example =
    prefetch_read-Reads plain device strings 0 plain-IsLawful last_bytes started started-IsFresh
      (plain-CanRead started.disk 6 1)

prefetch_write-Writes_example :
    Writes {S = Engine plain}
      (λ s. s.disk)
      geometry
      last_bytes
      (bytes_at (λ k. 1) 0 96)
      started
      (prefetch_write plain device strings 0 last_bytes (bytes_at (λ k. 1) 0 96) started)
    × Keeps plain device strings 0 plain-IsLawful
        (prefetch_write plain device strings 0 last_bytes (bytes_at (λ k. 1) 0 96) started)
prefetch_write-Writes_example =
    prefetch_write-Writes plain device strings 0 plain-IsLawful last_bytes (bytes_at (λ k. 1) 0 96)
      started started-IsFresh (plain-CanWrite 6 1)
