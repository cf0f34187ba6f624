-- ===== src/Flags/PageSize.antt =====
-- `PageSize` of src/mmap.rs: the size of a page as the exponent of two.
use mmap_rs.Common.{ℕ}

pub record PageSize : Type 0 where
  pub log2 : ℕ

abbrev page_size : ℕ → PageSize
page_size n = record { log2 = n }

abbrev pub _4k : PageSize
_4k = page_size 12

abbrev pub _64k : PageSize
_64k = page_size 16

abbrev pub _512k : PageSize
_512k = page_size 19

abbrev pub _1m : PageSize
_1m = page_size 20

abbrev pub _2m : PageSize
_2m = page_size 21

abbrev pub _4m : PageSize
_4m = page_size 22

abbrev pub _8m : PageSize
_8m = page_size 23

abbrev pub _16m : PageSize
_16m = page_size 24

abbrev pub _32m : PageSize
_32m = page_size 25

abbrev pub _256m : PageSize
_256m = page_size 28

abbrev pub _512m : PageSize
_512m = page_size 29

abbrev pub _1g : PageSize
_1g = page_size 30

abbrev pub _2g : PageSize
_2g = page_size 31

abbrev pub _16g : PageSize
_16g = page_size 34
