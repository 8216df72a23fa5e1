-- ===== src/Engine/Interface.antt =====
-- What the file system relies on: a device that reads and writes the bytes of a command.
use nvmefs.Prelude.{
  ℕ, ◌+◌, ◌-◌, ◌*◌, ◌≡◌, Bool, false, List, length, get_or, bytes_at, within, if◌then◌else◌, Cmd,
  Run, ok, err, Error,
}
use nvmefs.Device.{DeviceGeometry, CmdContext, IsCommand}

pub record BlockDevice : Type 1 where
  pub State : Type 0
  pub byte : State → ℕ → ℕ
  pub read : CmdContext → Cmd State (List ℕ)
  pub write : CmdContext → List ℕ → Cmd State (Unit {0})

-- The position of a command's first byte, and whether a position lies in its blocks.
abbrev pub first_byte : DeviceGeometry → CmdContext → ℕ
first_byte geo ctx = ctx.start_lba * geo.lba_size + ctx.offset

abbrev pub in_blocks : DeviceGeometry → CmdContext → ℕ → Bool
in_blocks geo ctx = within (ctx.start_lba * geo.lba_size) (ctx.nr_lbas * geo.lba_size)

module _ {S : Type 0} (byte : S → ℕ → ℕ) (geo : DeviceGeometry) (ctx : CmdContext) where
  -- The results of a read: it fails, or gives the bytes of its command; no byte changes.
  pub data Reads (s : S) : Run S (List ℕ) → Type 0 where
    read_fails : {e : Error} {s' : S} → ((k : ℕ) → byte s' k ≡ byte s k) → Reads s (err e s')
    read_returns :
        {bs : List ℕ} {s' : S}
        → ((k : ℕ) → byte s' k ≡ byte s k)
        → (IsCommand geo ctx → bs ≡ bytes_at (byte s) (first_byte geo ctx) ctx.nr_bytes)
        → Reads s (ok bs s')

  -- The results of a write: it fails, and leaves other blocks alone, or its bytes are those given,
  -- and all others are left alone.
  pub data Writes (src : List ℕ) (s : S) : Run S (Unit {0}) → Type 0 where
    write_fails :
        {e : Error} {s' : S}
        → (IsCommand geo ctx → (k : ℕ) → in_blocks geo ctx k ≡ false → byte s' k ≡ byte s k)
        → Writes src s (err e s')
    write_returns :
        {s' : S}
        → (IsCommand geo ctx
            → length src ≡ ctx.nr_bytes
            → (k : ℕ)
            → byte s' k ≡ (
                if within (first_byte geo ctx) ctx.nr_bytes k
                then get_or src (k - first_byte geo ctx) 0
                else byte s k))
        → Writes src s (ok tt s')

pub record IsFaithful (geo : DeviceGeometry) (d : BlockDevice) : Type 0 where
  pub reads : (ctx : CmdContext) (s : d.State) → Reads d.byte geo ctx s (d.read ctx s)
  pub writes :
      (ctx : CmdContext) (src : List ℕ) (s : d.State)
      → Writes d.byte geo ctx src s (d.write ctx src s)
