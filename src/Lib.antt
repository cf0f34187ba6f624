-- ===== src/Lib.antt =====
-- Verification of mmap-rs, a crate that maps memory and files and lists the memory areas of a
-- process.
--
-- The parts of the crate and their models:
--
-- * src/error.rs is Error.antt: the error type, Rust's Result, and calls of the operating system
--   as functions from a state to a result and a state, with `?` as the conversion of the error.
-- * src/mmap.rs is Flags.antt (the flags and page sizes), Mmap.antt (the three mapping types; the
--   macro `mmap_impl!` is a section over the type and its field `inner`), Mmap/Slices.antt and
--   Mmap/MutSlices.antt (the slices of `Mmap` and of `MmapMut`), Mmap/Options.antt (the builder,
--   with Mmap/Options/Order.antt on sequences of its calls, of which Unix/Builder.antt and
--   Windows/Builder.antt say what they build) and Backend.antt (what src/mmap.rs uses of its
--   `platform` module, as an interface). Mmap/Handle.antt and Mmap/Ownership.antt put the three
--   types under one roof for the conversions between them; Mmap/Gated.antt is what src/mmap.rs
--   relies on of the flag `JIT`, which Unix/Gated.antt and Windows/Gated.antt fill.
-- * src/os_impl/unix.rs is Unix.antt. Unix/Platform.antt holds what the file takes from its
--   surroundings: the target, the constants, and the calls of the crate `nix` over a state of the
--   system. Unix/Options.antt is the builder and the computation of the flags of `mmap`;
--   Unix/Map.antt is `do_map` and the five ways to map; Unix/Mapping.antt is `Mmap` with its
--   `Drop`; Unix/Backend.antt fills the interface of Backend.antt. Unix/Typed.antt and
--   Unix/Opened.antt are src/mmap.rs over it. Unix/Process.antt is a process that calls them in
--   any order, as a step relation, with a parameter for the options that it may map with;
--   Unix/Handles.antt is a process that uses src/mmap.rs over them, with the slices of its
--   mappings in Unix/Handles/Usable.antt; Unix/Process/Table.antt is one that keeps a table of
--   the access of each mapping; Unix/Calls.antt says which predicates the calls preserve.
-- * src/areas.rs is Areas.antt (the types and the accessors) and Areas/Platform.antt
--   (`MemoryAreas`, over its `platform` module as an interface, which Linux/Open.antt,
--   FreeBsd/Open.antt, MacOs/Open.antt and Windows/Areas/Open.antt fill with the `open` and
--   `next` of each system).
-- * src/os_impl/linux.rs is Linux.antt. Linux/Combine.antt is the interface of the crate
--   `combine`; Linux/Number.antt is `from_str_radix` of the standard library; Linux/Region.antt
--   is the parsers and `next`; Linux/Open.antt is `open`; Linux/Line.antt is the format of a line
--   of /proc/<pid>/maps.
-- * src/os_impl/windows.rs is Windows.antt, built like Unix.antt: Windows/Platform.antt holds the
--   constants and functions of the crate `windows`, Windows/Kernel.antt what the code relies on
--   of them, Windows/Options.antt, Windows/Map.antt and Windows/Mapping.antt the code, and
--   Windows/Areas.antt the iterator over the regions of a process.
-- * src/os_impl/freebsd.rs is FreeBsd.antt and src/os_impl/macos.rs is MacOs.antt: the iterators
--   over the memory areas. Utf8.antt is `from_utf8` and Format.antt the formats `{}` and `{:x}`
--   of the standard library.
-- * The programs under examples/ are Programs/ListAreas.antt (examples/areas.rs) and
--   Programs/MapAnon.antt (examples/map_anon.rs).
--
-- Every `cfg(target_os = ...)` of src/os_impl/unix.rs is a test of the target, so the theorems
-- hold of every system at once. An address is a natural number; where the code adds to a pointer
-- or subtracts two indices, the model wraps at the width of `usize` or panics as the target says.
-- Addresses and lengths that are only passed on are not bounded. A flag type is a number with the
-- operations `union` and `contains` of the crate bitflags, whose laws on powers of two are
-- hypotheses; in Bitflags/Native.antt they are the native `&` and `|`.
--
-- What the system calls do to memory is stated in Unix/Kernel.antt as documented laws: which
-- protection each address has after a success, and that a failure leaves it or gives it the
-- protection that was asked for. Unix/Kernel/Pages.antt adds what they do to whole pages: without
-- `MAP_FIXED` `mmap` takes pages that were free, and `munmap` and `mprotect` leave those outside
-- their ranges. Unix/Libc.antt states that each flag of `mmap` is a bit of its own.
-- Unix/Simulated.antt and Windows/Simulated.antt are systems that meet these laws, and
-- Linux/Combine/Direct.antt is a parser library that meets those asked of `combine`; the examples
-- run on them.
--
-- The loop of a client over an iterator takes fuel: one call of `next` more than there are lines
-- or entries is enough. The loop inside `next` of src/os_impl/windows.rs takes fuel as well: one
-- turn more than there are addresses is enough, since every region has a size. The theorems on
-- them state this; the iterator of Windows/Areas/Open.antt takes the documented law on regions as
-- a parameter, so that its loop has always ended. Where src/os_impl/freebsd.rs makes a slice of a
-- null pointer, which is undefined behaviour, `open` has no result. A text of a number of w bits
-- is printed with at most w digits, which is enough in every base. The memory of a process or a
-- task does not change while it is listed.
--
-- Not modelled: the contents of mapped memory and of files, and so the bytes that
-- examples/map_anon.rs writes and prints; and the module declarations of src/lib.rs and
-- src/os_impl/mod.rs. On Windows the old protection that VirtualProtect writes, which nothing
-- reads, is left out. Where src/os_impl/macos.rs has `task_for_pid` write through a shared
-- reference, the model takes the write as made.
pub mod Common
pub mod Format
pub mod Bitflags
pub mod Error
pub mod Flags
pub mod Backend
pub mod Mmap
pub mod Areas
pub mod Unix
pub mod Linux
pub mod FreeBsd
pub mod MacOs
pub mod Windows
pub mod Utf8
pub mod Programs
