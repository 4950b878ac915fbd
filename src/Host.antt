-- ===== src/Host.antt =====
-- What the pipeline calls and does not implement: the front end, the kernel and the image decoders.
-- A host is the state of all that is outside, with one operation for each outside call.
pub mod Disk
pub mod Keep
pub mod Spare
use imi.Common.{ℕ, Bytes, List, Option, Bool, Result}
use imi.Error.{IoKind}
use imi.Events.{Event, Summary, Compression}

-- What one `read` of an image stream yields. `bytes []` is `Ok(0)`.
pub data Read : Type 0 where
  bytes : Bytes → Read
  fails : IoKind → Read

-- A device number, as `(major, minor)`
abbrev pub Devt : Type 0
Devt = ℕ × ℕ

-- The fields of `stat` and `std::fs::metadata` that the crate reads.
pub record Stat : Type 0 where
  pub format : ℕ  -- st_mode & S_IFMT
  pub rdev : Devt
  pub dev : Devt
  pub ino : ℕ
  pub len : ℕ

pub record Host : Type 1 where
  pub World : Type 0
  -- the caller: `Events`, the cancel flag
  pub emit : Event → World → World
  pub confirm : Summary → World → Bool × World
  pub load_cancel : World → Bool × World
  -- time, in nanoseconds
  pub now : World → ℕ × World
  pub sleep : ℕ → World → World
  pub deadline : ℕ → World → Option ℕ × World  -- Instant::now().checked_add
  -- the image: its file, and what the reads of the opened file yield through a decoder
  pub open_file : Bytes → World → Result IoKind (Unit {0}) × World
  pub seek_start : World → Result IoKind (Unit {0}) × World
  pub new_zstd : World → Result IoKind (Unit {0}) × World  -- zstd::Decoder::with_buffer
  pub reads : Compression → World → List Read × World
  pub alloc : World → Result IoKind (Unit {0}) × World
  -- the claimed device
  pub write_all_at : Bytes → ℕ → World → Result IoKind (Unit {0}) × World
  pub read_exact_at : ℕ → ℕ → World → Result IoKind Bytes × World
  pub fdatasync : World → Result IoKind (Unit {0}) × World
  pub get_flags : World → Result IoKind ℕ × World
  pub set_flags : ℕ → World → Result IoKind (Unit {0}) × World
  pub flush_cache : World → Result IoKind (Unit {0}) × World  -- BLKFLSBUF
  pub reread_table : World → Result IoKind (Unit {0}) × World  -- BLKRRPART
  pub claimed_rdev : World → Result IoKind Devt × World  -- fstat
  pub claimed_size : World → Result IoKind ℕ × World  -- BLKGETSIZE64
  pub open_exclusive : Bytes → World → Result IoKind (Unit {0}) × World
  pub release : World → World
  -- the file system and the mount table
  pub is_root : World → Bool × World
  pub canonicalize : Bytes → World → Result IoKind Bytes × World
  pub stat : Bytes → World → Result IoKind Stat × World
  pub exists : Bytes → World → Bool × World
  pub read_to_string : Bytes → World → Result IoKind Bytes × World
  pub read_dir : Bytes → World → Result IoKind (List (Result IoKind Bytes)) × World  -- with what each entry yields
  pub read_link : Bytes → World → Result IoKind Bytes × World
  pub read_magic : Bytes → World → Result IoKind Bytes × World
  -- another device, opened to read
  pub open_read_only : Bytes → World → Result IoKind (Unit {0}) × World
  pub opened_size : World → Result IoKind ℕ × World  -- BLKGETSIZE64
  pub opened_ro : World → Result IoKind ℕ × World  -- BLKROGET
  pub close_opened : World → World
  pub umount : Bytes → World → Result IoKind (Unit {0}) × World
  pub swapoff : Bytes → World → Result IoKind (Unit {0}) × World
