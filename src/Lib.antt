-- ===== src/Lib.antt =====
-- imi writes a disk image to a removable device and compares what arrived with the image. It runs
-- in phases: it checks its inputs (0), clears the device of mounts and swaps (1), claims it with
-- O_EXCL (2), wipes its signatures (3), writes the image (4), waits and reads it back (5), has the
-- kernel read the new partition table (6), and keeps auto-mounters off (7). The phases share a
-- guard, which warns when a run ends half-way, and an error type, which says what became of the
-- device.
--
-- The model is a shallow embedding. What the crate calls and does not implement is a record of
-- operations, Host, on a type World: the caller's event sink and cancel flag, the clock, the
-- decoders, and the kernel's calls on the device, the file system and the mount table. Any
-- cancellation, failure and delay is a choice of these operations. A function that returns Result
-- and may change the world is an Exec: a function from the world to a result and the world behind
-- it, so that what was changed before a failure stays changed; a do block is the chain of `?`.
-- What is relied on of the outside is a record of laws: Disk (a write that succeeds puts its bytes
-- in place, one that fails touches no other byte, a read returns what is there, nothing else
-- changes a byte) and Clock (it does not run backwards, a sleep lasts as long as it was told to).
-- The device of Tests.Sim satisfies both.
--
-- Which file models which part. Paths are from the root of the repository; one that starts with
-- common or phases, or names a file alone, is from crates/imi-core/src:
-- - Error: crates/imi-core/src/error.rs; Error.Classify has its laws.
-- - Events: the phases and events of events.rs; Host: the outside; Exec and Exec.Ends: actions and
--   their postconditions.
-- - Config: config.rs, common/throttle.rs, the sizes of common/aligned.rs and common/geometry.rs;
--   Pace: the pacing at the end of a round of the loops.
-- - Cancel: cancellable_sleep of common/cancel.rs; DirectIo: common/direct_io.rs.
-- - Image: the stream that a decoder yields; Image.Fill: fill_buffer of phases/phase_4.rs;
--   Image.Exact: fill_exact of phases/phase_5.rs; Image.Magic: the format checks of
--   common/image.rs; Image.Reader: ImageReader::open.
-- - Flash: flash_serial of phases/phase_4.rs; Flash.Chunk: process_chunk, the two writes and
--   flash_finalize; Flash.Pipeline: worker_loop and the loop of flash_pipelined as two machines;
--   Flash.Pipeline.Run: flash_pipelined under a schedule, and flash; Flash.Phase: run.
-- - Verify: cooldown and verify_serial of phases/phase_5.rs; Verify.Compare: compare_chunk.
-- - Wipe: preflight, tail_wipe_offset and wipe_ends of phases/phase_3.rs; Wipe.Run: wipe and run.
-- - Guard: common/guard.rs; Session: common/session.rs, the target of common/context.rs, and the
--   end of a phase's run.
-- - Identity: the record and the checks of common/identity.rs; Preflight: the guards of
--   phases/phase_0.rs; Preflight.Subtree: the devices that the target's data may be on;
--   Preflight.Run: the phase.
-- - Mount: the parser, the filters and the guards of common/mount.rs, and final_verdict of
--   phases/phase_7.rs; Mount.Octal: unescape_proc_octal; Mount.Order: deepest_first and
--   classify_dm_uuid.
-- - Mount.Scan and Mount.Detach: what of common/mount.rs reads and changes the world; Sysfs and
--   Sysfs.Names: common/sysfs.rs; Identity.Capture: the reading of an identity.
-- - Topology, Claim, KernelSync, Automount: run of phases/phase_1.rs, phase_2.rs, phase_6.rs and
--   phase_7.rs.
-- - Devices: common/devices.rs.
-- - Strings: what the crate uses of Rust's strings and paths, on bytes.
-- - Cli: the value parsers of crates/imi/src/cli.rs.
--
-- Bounds and fuel. Numbers are unbounded where the source's cannot overflow; the bounds of u64 are
-- written out where the source checks them. The sizes of a chunk and of a wiped region are
-- parameters (BUF_SIZE and WIPE_REGION in the source). The write loop has one round of fuel more
-- than the device has bytes, since every round but the last writes at least one; the compare loop
-- has as many rounds as there are bytes left; the sleep has a round for each tick and two more;
-- the walk over the holders of a device takes its fuel as a parameter, and any number above that
-- of the kernel names is enough; the rounds that close the target's subtree are bounded by the
-- same parameter. The two threads of the pipeline take at most eight steps for each byte of the
-- stream and thirteen more; each step makes at most one access to what the threads share, but for
-- the worker's last send, which is one step with its exit, and a schedule says which thread takes
-- it. Running out of fuel is an error of its own, and a pipeline that comes to no end has a result
-- of its own, which no error of the source equals.
--
-- Not modelled: run_with; a thread that cannot be spawned; the arm of phase 5 that reads a
-- compressed image on a second thread; the terminal front end; the text of messages.
pub mod Common
pub mod Error
pub mod Exec
pub mod Events
pub mod Host
pub mod Image
pub mod Config
pub mod Cancel
pub mod DirectIo
pub mod Pace
pub mod Flash
pub mod Verify
pub mod Session
pub mod Wipe
pub mod Guard
pub mod Preflight
pub mod Identity
pub mod Cli
pub mod Devices
pub mod Sysfs
pub mod Topology
pub mod Claim
pub mod KernelSync
pub mod Automount
pub mod Mount
pub mod Strings
pub mod Tests
