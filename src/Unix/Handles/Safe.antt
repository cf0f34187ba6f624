-- ===== src/Unix/Handles/Safe.antt =====
-- The slices of a process that uses src/mmap.rs over src/os_impl/unix.rs: what they rely on, over the
-- steps of the process.
use mmap_rs.Common.{
  ℕ, ◌≡◌, subst, sym, none, List, ◌∷◌, ◌++◌, All, All-middle, All-insert, All-map, All-zip,
  Pairwise-middle, Pairwise-insert,
}
use mmap_rs.Error.{ok}
use mmap_rs.Mmap.Options.{MmapOptions}
use mmap_rs.Mmap.Handle.{Handle, Conversion, inner, convert_to}
use mmap_rs.Mmap.Ownership.{convert_to-inner, convert_to-old}
use mmap_rs.Unix.Platform.{Platform}
use mmap_rs.Unix.Libc.{HasFlags}
use mmap_rs.Unix.Kernel.{IsKernel, HasProtections}
use mmap_rs.Unix.Kernel.Pages.{HasPages}
use mmap_rs.Unix.Mapping.{drop}
use mmap_rs.Unix.Map.Protection.{Access, map_as-HasProt}
use mmap_rs.Unix.Typed.{access_of, convert_to-HasProt}
use mmap_rs.Unix.Opened.{open_as}
use mmap_rs.Unix.Process.Mapped.{
  LacksFixed, IsMapped, Inside, IsMapped-Looks, map_as-fresh, make_as-Preserves,
}
use mmap_rs.Unix.Process.Owned.{Apart, Covered, fresh-Apart}
use mmap_rs.Unix.Handles.{
  Owner, start, Step, opens, open_fails, converts, convert_fails, uses, drops, Reach, here, next,
}
use mmap_rs.Unix.Handles.Calls.{open_as-inner, convert_to-Preserves}
use mmap_rs.Unix.Handles.Granted.{open_as-Grants, convert_to-Grants}
use mmap_rs.Unix.Handles.Usable.{Usable, Granted-Usable}
use mmap_rs.Unix.Backend.{unix}
use mmap_rs.Unix.Handles.Held.{
  Holds, ApartHandles, IsHeld, flip-ApartHandles, open_as-Holds, convert_to-Holds, drop-Holds,
  run-Holds,
}

module _ (p : Platform) (r : HasProtections p) (k : IsKernel p) (c : HasFlags p)
    (pages : HasPages p k) where
  -- A new mapping is held, and apart from the others.
  opened-IsHeld :
      (w : Owner p) (a : Access) (o : MmapOptions (unix p)) (h : Handle (unix p)) (t : p.State)
      → LacksFixed p o.inner
      → open_as (unix p) a o w.os ≡ (ok h, t)
      → IsHeld p k c pages w
      → IsHeld p k c pages (record { os = t; owned = h ∷ w.owned })
  opened-IsHeld w a o h t free done i =
      let mapped = open_as-inner p o w.os a done in
      let fresh : (x : ℕ)
          → Inside p k c pages x (inner (unix p) h)
          → (k.prot_at w.os x ≡ none) × IsMapped p k x t =
        λ x inside. map_as-fresh p k c pages a o.inner w.os x free mapped inside in
      record {
        holds = (
          (
            λ x inside. (fresh x inside).1,
            record {
              access = a;
              has_prot = map_as-HasProt p k a o.inner w.os mapped;
              grants = open_as-Grants p r a o w.os done;
            },
          ),
          subst (λ q. All (Holds p k c pages q.1) w.owned) done
              (All-map (λ e held. open_as-Holds p k c pages a o w.os e free held) w.owned i.holds),
        );
        apart = (
          All-map
              (λ e held.
                fresh-Apart p k c pages (inner (unix p) h) (inner (unix p) e) w.os
                  (λ x inside. (fresh x inside).0) held.0)
              w.owned i.holds,
          i.apart,
        );
      }

  -- A mapping that is converted with success stays apart from the others.
  converted-IsHeld :
      (w : Owner p) (v : Conversion) (h h' : Handle (unix p))
      (before after : List (Handle (unix p))) (t : p.State)
      → w.owned ≡ before ++ h ∷ after
      → convert_to (unix p) v h w.os ≡ (ok h', t)
      → IsHeld p k c pages w
      → IsHeld p k c pages (record { os = t; owned = before ++ h' ∷ after })
  converted-IsHeld w v h h' before after t own done i =
      let (others, apart) =
        Pairwise-middle (ApartHandles p k c pages) (flip-ApartHandles p k c pages) before h after
          (rw own at i.apart) in
      let ((covered, _), rest) =
        All-middle (Holds p k c pages w.os) before h after (rw own at i.holds) in
      let same : inner (unix p) h' ≡ inner (unix p) h = convert_to-inner (unix p) h v w.os done in
      let there : Covered p k c pages t (inner (unix p) h) = λ x inside.
        subst (λ q. IsMapped p k x q.1) done
          ((convert_to-Preserves p k v h (IsMapped-Looks p k c pages x)
              (λ a. make_as-Preserves p k c pages x a (inner (unix p) h))).holds_after
            w.os (covered x inside)) in
      record {
        holds =
            All-insert (Holds p k c pages t) before h' after
              (
                subst (Covered p k c pages t) (sym same) there,
                record {
                  access = access_of v;
                  has_prot = convert_to-HasProt p k h w.os v done;
                  grants = convert_to-Grants p r v h w.os done;
                },
              )
              (subst (λ q. All (Holds p k c pages q.1) (before ++ after)) done
                (All-zip (convert_to-Holds p k c pages v h w.os) (before ++ after) rest others));
        apart =
            Pairwise-insert (ApartHandles p k c pages) (flip-ApartHandles p k c pages) before h'
              after
              (All-map (λ e. subst (λ m. Apart p k c pages m (inner (unix p) e)) (sym same))
                (before ++ after) others)
              apart;
      }

  -- A mapping that is dropped, after a call that the others withstand, leaves the others.
  dropped-IsHeld :
      (w : Owner p) (h : Handle (unix p)) (before after : List (Handle (unix p))) (t : p.State)
      → w.owned ≡ before ++ h ∷ after
      → ((e : Handle (unix p))
          → Holds p k c pages w.os e
          → ApartHandles p k c pages h e
          → Holds p k c pages t e)
      → IsHeld p k c pages w
      → IsHeld p k c pages (record { os = drop p (inner (unix p) h) t; owned = before ++ after })
  dropped-IsHeld w h before after t own kept i =
      let (others, apart) =
        Pairwise-middle (ApartHandles p k c pages) (flip-ApartHandles p k c pages) before h after
          (rw own at i.apart) in
      let (_, rest) = All-middle (Holds p k c pages w.os) before h after (rw own at i.holds) in
      record {
        holds =
            All-zip (drop-Holds p k c pages (inner (unix p) h) t) (before ++ after)
              (All-zip kept (before ++ after) rest others) others;
        apart = apart;
      }

  Step-IsHeld : {w v : Owner p} → Step p w v → IsHeld p k c pages w → IsHeld p k c pages v
  Step-IsHeld {w} (opens a o h t free done) i = opened-IsHeld w a o h t free done i
  Step-IsHeld {w} (open_fails a o e t free done) i = record {
    holds =
        subst (λ q. All (Holds p k c pages q.1) w.owned) done
          (All-map (λ h held. open_as-Holds p k c pages a o w.os h free held) w.owned i.holds);
    apart = i.apart;
  }
  Step-IsHeld {w} (converts v h h' before after t own done) i =
      converted-IsHeld w v h h' before after t own done i
  Step-IsHeld {w} (convert_fails v h old e before after t own done) i =
      subst
        (λ n.
          IsHeld p k c pages (record { os = drop p (inner (unix p) n) t; owned = before ++ after }))
        (sym (convert_to-old (unix p) h v w.os done))
        (dropped-IsHeld w h before after t own
          (λ n held apart.
            subst (λ q. Holds p k c pages q.1 n) done
              (convert_to-Holds p k c pages v h w.os n held apart))
          i)
  Step-IsHeld {w} (uses u h before after own) i = record {
    holds = All-map (run-Holds p k c pages u (inner (unix p) h) w.os) w.owned i.holds;
    apart = i.apart;
  }
  Step-IsHeld {w} (drops h before after own) i =
      dropped-IsHeld w h before after w.os own (λ n held apart. held) i

  Reach-IsHeld : {w v : Owner p} → Reach p w v → IsHeld p k c pages w → IsHeld p k c pages v
  Reach-IsHeld here i = i
  Reach-IsHeld (next reached step) i = Step-IsHeld step (Reach-IsHeld reached i)

  -- Where the system calls do to memory and to its pages what their laws say, each flag of
  -- `mmap` is a bit of its own, and so is each kind of access: a process that starts with no
  -- mapping, and opens mappings whose options lack the flag `MAP_FIXED` in any of the five
  -- ways, converts them in any of the six, uses their other methods and drops them, in any
  -- order and whichever calls fail, but drops a mapping whose conversion failed, may at any
  -- time read every byte of the slices of its `Mmap` and `MmapMut`, and write every byte of the
  -- mutable slices of its `MmapMut`: the byte is mapped with a protection that has this access.
  pub Reach-Usable :
      (s : p.State) {v : Owner p} → Reach p (start p s) v → All (Usable p k v.os) v.owned
  Reach-Usable s {v} reached =
      All-map (λ h held. Granted-Usable p k v.os h held.1) v.owned
        (Reach-IsHeld reached (record { holds = tt; apart = tt })).holds
