-- ===== src/Tests/Device.antt =====
-- Flash, verify, wipe and sleep on the simulated host.
use imi.Common.{
  ◌*◌, ◌+◌, ◌≡◌, ◌≤◌, ◌⊎◌, ◌^◌, ◌%◌, ◌/◌, true, refl, arith, [], ◌∷◌, List, Bytes, none, some,
  length, ok,
}
use imi.Error.{cancelled, interrupted, Error, context, context_io, context_none}
use imi.DirectIo.{set_direct}
use imi.Config.{chunk_target_nanos}
use imi.Pace.{start_clock, pace}
use imi.Image.Fill.{FillSpec, fill_buffer, fill_buffer_lem}
use imi.Flash.Chunk.{process_chunk, flash_finalize}
use imi.Host.{Read, bytes, fails}
use imi.Host.Disk.{overlay}
use imi.Host.Keep.{Sourced, Holds}
use imi.Exec.{◌>>=◌}
use imi.Exec.Ends.{Ends}
use imi.Verify.Agree.{flash_serial-verify_serial, cooling_lem}
use imi.Image.{stream, failure}
use imi.Flash.Correct.{Beyond, ChunkEnds, process_chunk_ends}
use imi.Verify.{verify_serial, cooling}
use imi.Verify.Serial.{verify_serial-Ends}
use imi.Verify.Rounds.{Matches, Blames}
use imi.Verify.Compare.{CompareSpec, compare_chunk, compare_chunk_lem}
use imi.Wipe.{wipe_ends}
use imi.Wipe.Ends.{Wiped, Spared, wipe_ends_lem}
use imi.Cancel.{cancellable_sleep}
use imi.Cancel.Wait.{Undisturbed, cancellable_sleep_ends}
use imi.Image.Exact.{ExactSpec, fill_exact, fill_exact_lem}
use imi.DirectIo.{has_direct, wanted}
use imi.DirectIo.Bit.{wanted_lem}
use imi.Flash.{flash_serial}
use imi.Flash.Serial.{flash_serial-Ends}
use imi.Tests.Sim.{World, sim, sim_disk, sim_clock, blank}

-- six bytes in two reads, with an interrupted one between them
abbrev six : List Read
six = bytes (1 ∷ 2 ∷ 3 ∷ []) ∷ fails interrupted ∷ bytes (4 ∷ 5 ∷ 6 ∷ []) ∷ []

flash_six : (flash_serial (sim 8) 4 six none 8 none blank).0 ≡ ok 6
unfolding flash_serial context set_direct context_io chunk_target_nanos start_clock fill_buffer
    process_chunk pace context_none flash_finalize
flash_six = refl

flash_serial-Ends_example :
    Ends
      (λ total s'.
        (total ≡ length (stream six))
        × (total ≤ 8)
        × (failure six ≡ none)
        × Holds (sim 8) (sim_disk 8) (overlay (λ i. 0) 0 (stream six)) s')
      (λ e s'. Sourced e × Beyond (λ i. 0) 8 s'.contents)
      (flash_serial (sim 8) 4 six none 8 none blank)
flash_serial-Ends_example =
    flash_serial-Ends (sim 8) (sim_disk 8) (sim_clock 8) 4 8 (λ i. 0) none none six blank
      (omega arith) (omega arith) (λ i. refl)

abbrev six_bytes : Bytes
six_bytes = 1 ∷ 2 ∷ 3 ∷ 4 ∷ 5 ∷ 6 ∷ []

abbrev flashed : World
flashed = record blank { contents = overlay (λ i. 0) 0 six_bytes }

verify_serial-Ends_example :
    Ends
      (λ _ s'.
        Matches (overlay (λ i. 0) 0 six_bytes) (stream six) 6
        × Holds (sim 8) (sim_disk 8) (overlay (λ i. 0) 0 six_bytes) s')
      (λ e s'.
        (Sourced e ⊎ Blames (overlay (λ i. 0) 0 six_bytes) (stream six) 6 [] e)
        × Holds (sim 8) (sim_disk 8) (overlay (λ i. 0) 0 six_bytes) s')
      (verify_serial (sim 8) 4 six [] 6 (some 1) flashed)
verify_serial-Ends_example =
    verify_serial-Ends (sim 8) (sim_disk 8) (sim_clock 8) 4 6 (overlay (λ i. 0) 0 six_bytes) []
      (some 1) six flashed (omega arith) (λ i. refl)

wipe_ends_lem_example :
    Ends
      (Wiped (sim 8) (sim_disk 8) 2 8 (λ i. 7))
      (Spared (sim 8) (sim_disk 8) 2 8 (λ i. 7))
      (wipe_ends (sim 8) 2 8 (record blank { contents = λ i. 7 }))
wipe_ends_lem_example =
    wipe_ends_lem (sim 8) (sim_disk 8) 2 8 (λ i. 7) (record blank { contents = λ i. 7 }) (λ i. refl)

-- the flags of the descriptor, which no call of the sleep changes
abbrev NoFlags : World → Type 0
NoFlags s = s.flags ≡ 0

sleep_keeps_flags : Undisturbed (sim 8) NoFlags
sleep_keeps_flags = record {
  load_P = λ s p. p;
  now_P = λ s p. p;
  sleep_P = λ n s p. p;
  deadline_P = λ n s p. p;
}

cancellable_sleep_ends_example :
    Ends (λ _ s'. NoFlags s') (λ (_ : Error) _. ⊥) (cancellable_sleep (sim 8) 250_000_000 blank)
cancellable_sleep_ends_example =
    cancellable_sleep_ends (sim 8) (sim_clock 8) sleep_keeps_flags 250_000_000 blank refl

process_chunk_ends_example :
    ChunkEnds
      (sim 8)
      (sim_disk 8)
      4
      (λ i. 0)
      (1 ∷ 2 ∷ 3 ∷ 0 ∷ [])
      3
      4
      8
      (process_chunk (sim 8) 4 (1 ∷ 2 ∷ 3 ∷ 0 ∷ []) 3 4 8)
      blank
process_chunk_ends_example =
    process_chunk_ends (sim 8) (sim_disk 8) 4 (λ i. 0) (1 ∷ 2 ∷ 3 ∷ 0 ∷ []) 3 4 8 refl (omega arith)
      blank (omega arith) (omega arith) (omega arith) (λ i. refl)

fill_buffer_lem_example :
    FillSpec (0 ∷ 0 ∷ 0 ∷ 0 ∷ []) (stream six) (failure six) (fill_buffer six (0 ∷ 0 ∷ 0 ∷ 0 ∷ []))
fill_buffer_lem_example = fill_buffer_lem six (0 ∷ 0 ∷ 0 ∷ 0 ∷ [])

fill_exact_lem_example : ExactSpec 8 (stream six) (failure six) (fill_exact six 8)
fill_exact_lem_example = fill_exact_lem six 8

compare_chunk_lem_example :
    CompareSpec
      (1 ∷ 2 ∷ 3 ∷ [])
      (1 ∷ 9 ∷ 3 ∷ [])
      512
      []
      (compare_chunk (1 ∷ 2 ∷ 3 ∷ []) (1 ∷ 9 ∷ 3 ∷ []) 512 [])
compare_chunk_lem_example = compare_chunk_lem (1 ∷ 2 ∷ 3 ∷ []) (1 ∷ 9 ∷ 3 ∷ []) 512 [] refl

wanted_lem_example :
    (has_direct (wanted true 32770) ≡ true)
    × (wanted true 32770 % 2 ^ 14 ≡ 32770 % 2 ^ 14)
    × (wanted true 32770 / 2 ^ 15 ≡ 32770 / 2 ^ 15)
wanted_lem_example = wanted_lem true 32770

flash_serial-verify_serial_example :
    Ends
      (λ _ s'. Holds (sim 8) (sim_disk 8) (overlay (λ i. 0) 0 (stream six)) s')
      (λ e s'. Sourced e × Beyond (λ i. 0) 8 s'.contents)
      ((flash_serial (sim 8) 4 six none 8 none >>= λ total.
          verify_serial (sim 8) 4 six [] total none)
        blank)
flash_serial-verify_serial_example =
    flash_serial-verify_serial (sim 8) (sim_disk 8) (sim_clock 8) 4 8 (λ i. 0) [] none none six
      blank (omega arith) (omega arith) (λ i. refl)

cooling_lem_example :
    Ends
      (λ _ s'. 0 + 3 * 1_000_000_000 ≤ s'.time)
      (λ (e : Error) _. e.kind ≡ cancelled)
      (cooling (sim 8) 3 blank)
cooling_lem_example = cooling_lem (sim 8) (sim_clock 8) 3 blank
