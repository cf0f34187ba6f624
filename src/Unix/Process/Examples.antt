-- ===== src/Unix/Process/Examples.antt =====
-- The theorems on the processes of src/os_impl/unix.rs at work: a process that maps two pages twice
-- on a simulated system, and drops them.
use mmap_rs.Common.{ℕ, ◌≡◌, All, refl, true, some, [], ◌∷◌, arith}
use mmap_rs.Unix.Platform.{linux}
use mmap_rs.Unix.Mapping
use mmap_rs.Unix.Mapping.{do_make}
use mmap_rs.Unix.Map
use mmap_rs.Unix.Map.{advise, mmap_call, do_map, map_mut}
use mmap_rs.Unix.Map.Protection
use mmap_rs.Unix.Map.Protection.{make_as}
use mmap_rs.Unix.Process.{Process, Step, Reach, maps, changes, here, next}
use mmap_rs.Unix.Process.Exclusive.{LacksJitFlag, IsSound, Reach-IsSound}
use mmap_rs.Unix.Process.Mapped.{LacksFixed}
use mmap_rs.Unix.Process.Owned.{IsOwned, Reach-IsOwned}
use mmap_rs.Unix.Process.Table
use mmap_rs.Unix.Process.Table.{Tracked}
use mmap_rs.Unix.Process.Tracked.{IsTracked, Reach-IsTracked}
use mmap_rs.Unix.Process.Drained.{Unmapped, Elsewhere, drained, drained-Unmapped}
use mmap_rs.Unix.Simulated.{
  simulated-HasFlags, simulated-HasProtections, simulated-IsKernel, simulated-HasPages,
}
use mmap_rs.Unix.Examples.{tux, empty, two_pages, mapped, after_map}

abbrev idle : Process tux
idle = record { os = empty; live = [] }

abbrev busy : Process tux
busy = record { os = after_map; live = mapped ∷ [] }

abbrev running : Process tux
running = record { os = (make_as tux Protection.exec mapped after_map).1; live = mapped ∷ [] }

idle-Step : Step tux (LacksJitFlag tux) idle busy
unfolding map_mut do_map mmap_call advise Map.call_if
idle-Step = maps Protection.mutable two_pages mapped after_map refl refl

idle-IsSound : IsSound tux (simulated-IsKernel linux true) idle
unfolding simulated-IsKernel
idle-IsSound = record { exclusive = λ x q h. ground arith; lacking = tt }

Reach-IsSound_example : IsSound tux (simulated-IsKernel linux true) running
Reach-IsSound_example =
    Reach-IsSound tux (simulated-HasProtections linux true) (simulated-IsKernel linux true)
      {w = idle} {v = running}
      (next (next here idle-Step) (changes Protection.exec mapped [] [] refl)) idle-IsSound

abbrev pub mapped_again : Mapping.Mmap
mapped_again = record mapped { ptr = 12288 }

abbrev twice : Process tux
twice = record { os = (map_mut tux two_pages after_map).1; live = mapped_again ∷ mapped ∷ [] }

twice-Reach : Reach tux (LacksFixed tux) idle twice
unfolding map_mut do_map mmap_call advise Map.call_if
twice-Reach =
    next (next here (maps Protection.mutable two_pages mapped after_map refl refl))
      (maps Protection.mutable two_pages mapped_again twice.os refl refl)

Reach-IsOwned_example :
    IsOwned tux
      (simulated-IsKernel linux true)
      (simulated-HasFlags linux true)
      (simulated-HasPages linux true)
      twice
Reach-IsOwned_example =
    Reach-IsOwned tux (simulated-IsKernel linux true) (simulated-HasFlags linux true)
      (simulated-HasPages linux true) {w = idle} {v = twice} twice-Reach
      (record { covered = tt; apart = tt })

drained-Unmapped_example :
    Reach tux (LacksFixed tux) twice (drained tux twice)
    × All (Unmapped tux (simulated-IsKernel linux true) (drained tux twice).os) twice.live
    × ((x : ℕ)
        → Elsewhere tux (simulated-IsKernel linux true) (simulated-HasPages linux true) twice.live x
        → (simulated-IsKernel linux true).prot_at (drained tux twice).os x
          ≡ (simulated-IsKernel linux true).prot_at twice.os x)
drained-Unmapped_example =
    drained-Unmapped tux (simulated-IsKernel linux true) (simulated-HasPages linux true)
      (LacksFixed tux) twice (refl, (refl, tt))

abbrev tracked_idle : Tracked tux
tracked_idle = record { os = empty; table = [] }

-- Two mappings were made, and the older one can be executed by now.
abbrev tracked_twice : Tracked tux
tracked_twice = record {
  os = (make_as tux Protection.exec mapped twice.os).1;
  table = (mapped_again, some Protection.mutable) ∷ (mapped, some Protection.exec) ∷ [];
}

tracked-Reach : Table.Reach tux tracked_idle tracked_twice
unfolding map_mut do_map mmap_call advise Map.call_if Mapping.make_exec do_make
tracked-Reach =
    Table.next
      (Table.next
        (Table.next Table.here (Table.maps Protection.mutable two_pages mapped after_map refl refl))
        (Table.maps Protection.mutable two_pages mapped_again twice.os refl refl))
      (Table.changes Protection.exec mapped (some Protection.mutable)
        ((mapped_again, some Protection.mutable) ∷ []) [] tracked_twice.os refl refl)

Reach-IsTracked_example :
    IsTracked tux
      (simulated-IsKernel linux true)
      (simulated-HasFlags linux true)
      (simulated-HasPages linux true)
      tracked_twice
Reach-IsTracked_example =
    Reach-IsTracked tux (simulated-IsKernel linux true) (simulated-HasFlags linux true)
      (simulated-HasPages linux true) {w = tracked_idle} {v = tracked_twice} tracked-Reach
      (record { agrees = tt; apart = tt })
