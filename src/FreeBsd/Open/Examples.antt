-- ===== src/FreeBsd/Open/Examples.antt =====
-- The theorem on `open` of src/os_impl/freebsd.rs at work: a system with one process, number 7.
use mmap_rs.Common.{
  ℕ, ℤ, pos, negsuc, suc, ◌-◌, ◌≡◌, ◌≢◌, refl, ap, sym, ◌∙◌, some, none, Option, List, [], ◌∷◌,
  arith, length, ◌==◌, get_elem?, if◌then◌else◌, unwrap_or,
}
use mmap_rs.FreeBsd.{Entry}
use mmap_rs.FreeBsd.Examples.{heap, shell}
use mmap_rs.FreeBsd.Open.{Libc}
use mmap_rs.FreeBsd.Open.Listed.{IsLibc}

abbrev entries : List Entry
entries = heap ∷ shell ∷ []

abbrev found : ℤ → Option (List Entry)
found (pos n) = if n == 7 then some entries else none
found (negsuc n) = none

abbrev answer : Option (List Entry) → ℕ → (ℕ × ℕ) × ℕ
answer none s = ((0, 0), s)
answer (some es) s = ((4096, length es), suc s)

-- The state is the number of arrays that are allocated; null is not freed.
abbrev system : Libc
system = record {
  State = ℕ;
  getpid = λ s. pos 7;
  kinfo_getvmmap = λ pid s. answer (found pid) s;
  load = λ s a i. unwrap_or (get_elem? entries i) heap;
  free = λ a s. if a == 0 then s else s - 1;
}

answer-none : (r : Option (List Entry)) (s : ℕ) → r ≡ none → (answer r s).0.0 ≡ 0
answer-none none s h = refl
answer-none (some es) s h = cc

answer-length :
    (r : Option (List Entry)) (s : ℕ) (es : List Entry) {entries count t : ℕ}
    → r ≡ some es
    → answer r s ≡ ((entries, count), t)
    → (entries ≢ 0) × (count ≡ length es)
answer-length none s es h made = cc
answer-length (some fs) s es h made = (ground arith, ground arith)

found-entries : (pid : ℤ) (es : List Entry) → found pid ≡ some es → es ≡ entries
found-entries (pos n) es h = ground arith
found-entries (negsuc n) es h = cc

loaded : (e : Entry) (r : Option Entry) → r ≡ some e → unwrap_or r heap ≡ e
loaded e none h = cc
loaded e (some x) h = cc

freed :
    (r : Option (List Entry)) (s : ℕ) {entries count t : ℕ}
    → answer r s ≡ ((entries, count), t)
    → (if entries == 0 then t else t - 1) ≡ s
freed none s made = ground arith
freed (some es) s made = ground arith

abbrev system-IsLibc : IsLibc system
system-IsLibc = record {
  readable = λ s pid. found pid;
  held = λ s. s;
  kinfo-none = λ pid s h. answer-none (found pid) s h;
  kinfo-some = λ pid s es h made. (
    (answer-length (found pid) s es h made).0,
    (answer-length (found pid) s es h made).1,
    λ i e at.
        loaded e (get_elem? entries i)
          (ap (λ fs. get_elem? fs i) (sym (found-entries pid es h)) ∙ at),
  );
  free-kinfo = λ pid s made. freed (found pid) s made;
}
