-- ===== src/Unix/Process/Tracked.antt =====
-- The memory of a process that uses src/os_impl/unix.rs agrees with the table that it keeps.
use mmap_rs.Common.{
  ℕ, ◌≡◌, subst, sym, ap, ◌∙◌, refl, Option, none, some, is_some, List, ◌∷◌, ◌++◌, All, All-middle,
  All-insert, All-map, All-zip, Pairwise, Pairwise-middle, Pairwise-insert, arith,
}
use mmap_rs.Unix.Platform.{Platform}
use mmap_rs.Unix.Libc.{HasFlags}
use mmap_rs.Unix.Options.{MmapOptions}
use mmap_rs.Unix.Kernel.{IsKernel}
use mmap_rs.Unix.Kernel.Pages.{HasPages}
use mmap_rs.Unix.Mapping.{Mmap, drop}
use mmap_rs.Unix.Map.Protection.{
  Access, HasProt, prot_of, map_as, make_as, map_as-HasProt, make_as-HasProt,
}
use mmap_rs.Unix.Process.{Use, run}
use mmap_rs.Unix.Process.Mapped.{LacksFixed, IsMapped, Inside, make_as-Preserves, map_as-fresh}
use mmap_rs.Unix.Process.Owned.{Apart, Covered, fresh-Apart, flip-Apart}
use mmap_rs.Unix.Process.Spares.{map_as-IsAt, make_as-IsAt, drop-IsAt, run-IsAt}
use mmap_rs.Unix.Process.Table.{
  Entry, Tracked, Step, maps, map_fails, changes, change_fails, uses, drops, Reach, here, next,
}

module _ (p : Platform) (k : IsKernel p) (c : HasFlags p) (pages : HasPages p k) where
  -- The memory agrees with an entry: the pages of the mapping are mapped, and its bytes have the
  -- protection for the access, if that is known.
  abbrev pub Current : p.State → Mmap → Option Access → Type 0
  Current s m none = Unit
  Current s m (some a) = HasProt p k s m (prot_of p a)

  abbrev pub Agrees : p.State → Entry → Type 0
  Agrees s (m, known) = Covered p k c pages s m × Current s m known

  abbrev pub ApartEntries : Entry → Entry → Type 0
  ApartEntries e f = Apart p k c pages e.0 f.0

  pub record IsTracked (w : Tracked p) : Type 0 where
    pub agrees : All (Agrees w.os) w.table
    pub apart : Pairwise ApartEntries w.table

  -- From one state to another, the bytes of a mapping that are mapped keep their protection.
  abbrev pub Spared : p.State → p.State → Mmap → Type 0
  Spared s t m = (x : ℕ) → Inside p k c pages x m → IsMapped p k x s → k.prot_at t x ≡ k.prot_at s x

  pub Spared-Current :
      (s t : p.State) (m : Mmap) (known : Option Access)
      → Spared s t m
      → Covered p k c pages s m
      → Current s m known
      → Current t m known
  Spared-Current s t m none spared covered h = tt
  Spared-Current s t m (some a) spared covered h = λ x lo hi.
      let inside : Inside p k c pages x m = (lo, omega arith) in
      spared x inside (covered x inside) ∙ h x lo hi

  pub Spared-Covered :
      (s t : p.State) (m : Mmap) → Spared s t m → Covered p k c pages s m → Covered p k c pages t m
  Spared-Covered s t m spared covered x inside =
      ap is_some (spared x inside (covered x inside)) ∙ covered x inside

  Spared-Agrees : (s t : p.State) (e : Entry) → Spared s t e.0 → Agrees s e → Agrees t e
  Spared-Agrees s t (m, known) spared (covered, current) =
      (Spared-Covered s t m spared covered, Spared-Current s t m known spared covered current)

  flip-ApartEntries : (e f : Entry) → ApartEntries e f → ApartEntries f e
  flip-ApartEntries e f h = flip-Apart p k c pages e.0 f.0 h

  map_as-Agrees :
      (a : Access) (o : MmapOptions) (s : p.State) (e : Entry)
      → LacksFixed p o
      → Agrees s e
      → Agrees (map_as p a o s).1 e
  map_as-Agrees a o s e free h =
      Spared-Agrees s (map_as p a o s).1 e
        (λ x inside there.
          (map_as-IsAt p k c pages x (k.prot_at s x) a o free there).holds_after s refl)
        h

  make_as-Agrees :
      (a : Access) (m : Mmap) (s : p.State) (e : Entry)
      → Agrees s e
      → Apart p k c pages m e.0
      → Agrees (make_as p a m s).1 e
  make_as-Agrees a m s e h apart =
      Spared-Agrees s (make_as p a m s).1 e
        (λ x inside there.
          (make_as-IsAt p k c pages x (k.prot_at s x) m (λ in_m. apart x in_m inside) a).holds_after
            s refl)
        h

  drop-Agrees :
      (m : Mmap) (s : p.State) (e : Entry)
      → Agrees s e
      → Apart p k c pages m e.0
      → Agrees (drop p m s) e
  drop-Agrees m s e h apart =
      Spared-Agrees s (drop p m s) e
        (λ x inside there.
          drop-IsAt p k c pages x (k.prot_at s x) m (λ in_m. apart x in_m inside) s refl)
        h

  run-Agrees : (u : Use) (m : Mmap) (s : p.State) (e : Entry) → Agrees s e → Agrees (run p u m s) e
  run-Agrees u m s e h =
      Spared-Agrees s (run p u m s) e
        (λ x inside there. run-IsAt p k c pages x (k.prot_at s x) u m s refl) h

  -- A change of one mapping, where memory agrees with its entry afterwards.
  changed-IsTracked :
      (w : Tracked p) (a : Access) (m : Mmap) (old known : Option Access)
      (before after : List Entry)
      → w.table ≡ before ++ (m, old) ∷ after
      → Current (make_as p a m w.os).1 m known
      → IsTracked w
      → IsTracked (record { os = (make_as p a m w.os).1; table = before ++ (m, known) ∷ after })
  changed-IsTracked w a m old known before after own current i =
      let (others, apart) =
        Pairwise-middle ApartEntries flip-ApartEntries before (m, old) after (rw own at i.apart) in
      let ((covered, _), rest) =
        All-middle (Agrees w.os) before (m, old) after (rw own at i.agrees) in
      record {
        agrees =
            All-insert (Agrees (make_as p a m w.os).1) before (m, known) after
              (
                λ x inside.
                    (make_as-Preserves p k c pages x a m).holds_after w.os (covered x inside),
                current,
              )
              (All-zip (λ e. make_as-Agrees a m w.os e) (before ++ after) rest others);
        apart = Pairwise-insert ApartEntries flip-ApartEntries before (m, known) after others apart;
      }

  Step-IsTracked : {w v : Tracked p} → Step p w v → IsTracked w → IsTracked v
  Step-IsTracked {w} (maps a o m t free done) i = record {
    agrees = (
      (
        λ x inside. (map_as-fresh p k c pages a o w.os x free done inside).1,
        map_as-HasProt p k a o w.os done,
      ),
      subst (λ r. All (Agrees r.1) w.table) done
          (All-map (λ e h. map_as-Agrees a o w.os e free h) w.table i.agrees),
    );
    apart = (
      All-map
          (λ e h.
            fresh-Apart p k c pages m e.0 w.os
              (λ x inside. (map_as-fresh p k c pages a o w.os x free done inside).0) h.0)
          w.table i.agrees,
      i.apart,
    );
  }
  Step-IsTracked {w} (map_fails a o e t free done) i = record {
    agrees =
        subst (λ r. All (Agrees r.1) w.table) done
          (All-map (λ f h. map_as-Agrees a o w.os f free h) w.table i.agrees);
    apart = i.apart;
  }
  Step-IsTracked {w} (changes a m old before after t own done) i =
      subst (λ r. IsTracked (record { os = r.1; table = before ++ (m, some a) ∷ after })) done
        (changed-IsTracked w a m old (some a) before after own
          (subst (λ s. HasProt p k s m (prot_of p a)) (sym (ap (λ r. r.1) done))
            (make_as-HasProt p k a m w.os done))
          i)
  Step-IsTracked {w} (change_fails a m old before after e t own done) i =
      subst (λ r. IsTracked (record { os = r.1; table = before ++ (m, none) ∷ after })) done
        (changed-IsTracked w a m old none before after own tt i)
  Step-IsTracked {w} (uses u m old before after own) i = record {
    agrees = All-map (λ e h. run-Agrees u m w.os e h) w.table i.agrees;
    apart = i.apart;
  }
  Step-IsTracked {w} (drops m old before after own) i =
      let (others, apart) =
        Pairwise-middle ApartEntries flip-ApartEntries before (m, old) after (rw own at i.apart) in
      let (_, rest) = All-middle (Agrees w.os) before (m, old) after (rw own at i.agrees) in
      record {
        agrees = All-zip (λ e. drop-Agrees m w.os e) (before ++ after) rest others;
        apart = apart;
      }

  -- Where the system calls do to memory and to its pages what their laws say, and each flag of
  -- `mmap` is a bit of its own: a table that names for each mapping of a process the access
  -- last given to it with success, and none after a change that failed, is a view of the
  -- memory. Whatever the process does with mappings whose options lack the flag `MAP_FIXED`, in
  -- any order and whichever calls fail, if every byte of the pages of its mappings was mapped,
  -- no two of them had a byte in common, and every byte of a mapping had the protection for the
  -- access in the table, then all this stays so.
  pub Reach-IsTracked : {w v : Tracked p} → Reach p w v → IsTracked w → IsTracked v
  Reach-IsTracked here i = i
  Reach-IsTracked (next r step) i = Step-IsTracked step (Reach-IsTracked r i)
