-- ===== src/Windows/Areas/Open.antt =====
-- `MemoryAreas::open` of src/os_impl/windows.rs: the handle of a process, and the iterator that
-- keeps it.
pub mod Listed
pub mod Examples
use mmap_rs.Common.{ℕ, suc, ◌^◌, ◌≡◌, ◌≢◌, refl, Bool, false, Option, none, some}
use mmap_rs.Error.{Error, windows, Result, Exec, pure, convert, ◌>>=◌}
use mmap_rs.Bitflags.{Bitflags}
use mmap_rs.Areas.{PathBuf, MemoryArea}
use mmap_rs.Areas.Platform.{Platform}
use mmap_rs.Windows.Platform.{Constants}
use mmap_rs.Windows.Areas.{Info, Process, next}
use mmap_rs.Windows.Areas.Regions.{IsProcess, next-ends}

pub record MemoryAreas : Type 0 where
  pub handle : ℕ
  pub address : ℕ

-- The system. Its processes do not change while they are listed.
pub record System : Type 1 where
  pub width : ℕ
  pub bitflags : Bitflags
  pub constants : Constants
  pub process_all_access : ℕ
  pub State : Type 0
  -- OpenProcess(access, inherit, id) with an HRESULT, GetCurrentProcess()
  pub open_process : ℕ → Bool → ℕ → Exec State ℕ ℕ
  pub get_current_process : ℕ
  -- by the handle of the process and the address
  pub virtual_query : ℕ → ℕ → Option Info
  pub mapped_file_name : ℕ → ℕ → Option PathBuf

module _ (y : System) where
  abbrev pub handle_of : Option ℕ → Exec y.State Error ℕ
  handle_of (some id) = convert windows (y.open_process y.process_all_access false id)
  handle_of none = pure y.get_current_process

  unfoldable pub open_handle : Option ℕ → Exec y.State Error MemoryAreas
  open_handle pid = do handle ← handle_of pid; pure (record { handle = handle; address = 0 })

  -- The process of a handle.
  unfoldable pub process_of : ℕ → Process
  process_of handle = record {
    width = y.width;
    bitflags = y.bitflags;
    constants = y.constants;
    virtual_query = y.virtual_query handle;
    mapped_file_name = y.mapped_file_name handle;
  }

  -- Every handle answers for a process whose regions are as `VirtualQueryEx` documents them.
  abbrev pub HasRegions : Type 0
  HasRegions = (handle : ℕ) → IsProcess (process_of handle)

-- The answer of a loop that ends.
abbrev pub ended : {A : Type 0} (r : Option A) → r ≢ none → A
ended none ends = absurd (ends refl)
ended (some a) ends = a

module _ (y : System) (regions : HasRegions y) where
  -- `MemoryAreas::next`. Its loop ends within as many turns as there are addresses and one more.
  unfoldable pub next_area : MemoryAreas → Option (Result Error MemoryArea) × MemoryAreas
  unfolding process_of
  next_area areas =
      let (item, address) =
        ended (next (process_of y areas.handle) (suc (2 ^ y.width)) areas.address)
          (next-ends (process_of y areas.handle) (regions areas.handle) areas.address) in
      (item, record areas { address = address })

  -- src/os_impl/windows.rs as the `platform` of src/areas.rs.
  abbrev pub windows_areas : Platform
  windows_areas = record {
    State = y.State;
    Inner = MemoryAreas;
    open_inner = λ pid s. some (open_handle y pid s);
    next_inner = next_area;
  }
