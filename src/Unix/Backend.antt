-- ===== src/Unix/Backend.antt =====
-- src/os_impl/unix.rs as the `platform` of src/mmap.rs.
use mmap_rs.Backend.{Backend}
use mmap_rs.Unix.Platform.{Platform}
use mmap_rs.Unix.Options
use mmap_rs.Unix.Mapping
use mmap_rs.Unix.Map

abbrev pub unix : Platform → Backend
unix p = record {
  State = p.State;
  File = Options.File;
  Mapping = Mapping.Mmap;
  Options = Options.MmapOptions;
  file = Mapping.file;
  as_ptr = Mapping.as_ptr;
  as_mut_ptr = Mapping.as_mut_ptr;
  size = Mapping.size;
  lock = Mapping.lock p;
  unlock = Mapping.unlock p;
  flush = Mapping.flush p;
  flush_async = Mapping.flush_async p;
  flush_icache = Mapping.flush_icache p;
  make_none = Mapping.make_none p;
  make_read_only = Mapping.make_read_only p;
  make_exec = Mapping.make_exec p;
  make_mut = Mapping.make_mut p;
  make_exec_mut = Mapping.make_exec_mut p;
  drop = Mapping.drop p;
  new = Options.new;
  page_size = Options.page_size p;
  with_address = Options.with_address;
  with_file = Options.with_file;
  with_flags = Options.with_flags;
  with_unsafe_flags = Options.with_unsafe_flags;
  with_page_size = Options.with_page_size;
  map_none = Map.map_none p;
  map = Map.map p;
  map_exec = Map.map_exec p;
  map_mut = Map.map_mut p;
  map_exec_mut = Map.map_exec_mut p;
}
