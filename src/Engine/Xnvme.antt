-- ===== src/Engine/Xnvme.antt =====
-- What the I/O engines use of xNVMe, a parameter, and the state of the device that they share.
use nvmefs.Prelude.{
  ℕ, ◌+◌, ◌-◌, ◌*◌, ◌^◌, ◌<◌, ◌≤◌, ◌≡◌, ◌≢◌, Bool, false, List, [], Option, none, some,
  if◌then◌else◌, get_or, bytes_at, within, Str,
}
use nvmefs.Device.{DeviceGeometry, CmdContext}
use nvmefs.Device.Buffers.{
  BufferAllocator, BufferCall, allocate_buffer, free_buffer, device_allocate, device_free,
}
use nvmefs.Device.Placement.{prepare_io_cmd_context, get_reclaim_unit_handle_or_default}
use nvmefs.PathHandler.Defs.{StringUtil}

-- A part of a transfer: its blocks, and where its bytes stand in the buffer.
pub record Chunk : Type 0 where
  pub slba : ℕ
  pub count : ℕ
  pub buf_offset : ℕ

-- The namespace and the calls of xNVMe. `nvm_read` and `nvm_write` take the words 12 and 13 of the
-- command, the first block and the number of blocks minus one, and give nothing on an error.
-- `memory` is what a new buffer holds, and `reused` what its memory holds once it is freed, while
-- commands in flight still use it; `accepts` tells whether a queue takes a command, and
-- `schedule` in which order the device executes those that it took.
pub record Xnvme : Type 1 where
  pub Disk : Type 0
  pub byte : Disk → ℕ → ℕ
  pub nvm_read : Disk → ℕ × ℕ → (slba nlb : ℕ) → Option (List ℕ)
  pub nvm_write : Disk → ℕ × ℕ → (slba nlb : ℕ) → List ℕ → Option Disk
  pub buf_alloc : List BufferCall → ℕ → ℕ
  pub memory : List BufferCall → ℕ → ℕ
  pub reused : List BufferCall → ℕ → ℕ
  pub queue_init : ℕ → Bool
  pub accepts : Disk → Chunk → Bool
  pub schedule : List Chunk → List Chunk

-- The documented behaviour: a read gives the bytes of its blocks, a write changes these only. The
-- number of blocks is a field of 16 bits.
pub record IsLawful (geo : DeviceGeometry) (x : Xnvme) : Type 0 where
  pub read_law :
      (d : x.Disk) (w : ℕ × ℕ) (slba nlb : ℕ) (bs : List ℕ)
      → nlb < 2 ^ 16
      → x.nvm_read d w slba nlb ≡ some bs
      → bs ≡ bytes_at (x.byte d) (slba * geo.lba_size) ((nlb + 1) * geo.lba_size)
  pub write_law :
      (d d' : x.Disk) (w : ℕ × ℕ) (slba nlb : ℕ) (bs : List ℕ) (k : ℕ)
      → nlb < 2 ^ 16
      → x.nvm_write d w slba nlb bs ≡ some d'
      → x.byte d' k ≡ (
          if within (slba * geo.lba_size) ((nlb + 1) * geo.lba_size) k
          then get_or bs (k - slba * geo.lba_size) 0
          else x.byte d k)

-- No read command for some of the `count` blocks from `start` on fails, over what the namespace holds.
abbrev pub CanRead : (x : Xnvme) → x.Disk → (start count : ℕ) → Type 0
CanRead x d start count =
    (w : ℕ × ℕ) (slba nlb : ℕ)
    → start ≤ slba
    → slba + nlb < start + count
    → x.nvm_read d w slba nlb ≢ none

-- No write command for some of these blocks fails, whatever the namespace holds.
abbrev pub CanWrite : Xnvme → (start count : ℕ) → Type 0
CanWrite x start count =
    (d : x.Disk) (w : ℕ × ℕ) (slba nlb : ℕ) (bs : List ℕ)
    → start ≤ slba
    → slba + nlb < start + count
    → x.nvm_write d w slba nlb bs ≢ none

-- The members of NvmeDevice that reads and writes use. `cached` tells which buffer allocator it has.
pub record NvmeDevice : Type 0 where
  pub geometry : DeviceGeometry
  pub use_fdp : Bool
  pub allocated_ruhs : List (Str × ℕ)
  pub ruhs_to_phids : List (ℕ × ℕ)
  pub cached : Bool
  pub mdts_nbytes : ℕ

-- PrefetchState of a thread, with the bytes that its buffer has when the command has completed.
pub record PrefetchState : Type 0 where
  pub active : Bool
  pub expected_lba : ℕ
  pub expected_nr_lbas : ℕ
  pub alloc_size : ℕ
  pub buffer : ℕ
  pub content : List ℕ

abbrev pub no_prefetch : PrefetchState
no_prefetch = record {
  active = false;
  expected_lba = 0;
  expected_nr_lbas = 0;
  alloc_size = 0;
  buffer = 0;
  content = [];
}

-- What reads and writes change: the namespace, the buffers, which threads have a queue, and what
-- they have prefetched.
pub record Engine (x : Xnvme) : Type 0 where
  pub disk : x.Disk
  pub buffers : BufferAllocator
  pub queues : List Bool
  pub prefetches : List PrefetchState

module _ (x : Xnvme) (dev : NvmeDevice) where
  -- AllocateDeviceBuffer and FreeDeviceBuffer, with the cached or the default allocator.
  unfoldable pub allocate_device_buffer : ℕ → BufferAllocator → ℕ × BufferAllocator
  allocate_device_buffer size s =
      if dev.cached then allocate_buffer x.buf_alloc size s else device_allocate x.buf_alloc size s

  unfoldable pub free_device_buffer : (buffer size : ℕ) → BufferAllocator → BufferAllocator
  free_device_buffer b size s = if dev.cached then free_buffer b size s else device_free b s

  -- What a buffer of `size` bytes holds when it is allocated.
  unfoldable pub fresh_buffer : ℕ → BufferAllocator → List ℕ
  fresh_buffer size s = bytes_at (x.memory s.calls) 0 size

  -- The command words of a read (type 0) and of a write.
  unfoldable pub io_words : StringUtil → CmdContext → (dtype : ℕ) → Bool → ℕ × ℕ
  io_words u ctx dtype write =
      prepare_io_cmd_context dev.use_fdp dev.ruhs_to_phids ctx.nr_lbas
        (get_reclaim_unit_handle_or_default u dev.allocated_ruhs ctx.filepath) dtype write 0
