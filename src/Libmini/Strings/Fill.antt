-- ===== src/Libmini/Strings/Fill.antt =====
-- What the two loops that fill memory leave at each address.
use nctu_unix.Base.{
  ℕ, zero, suc, ◌+◌, ◌≡◌, refl, arith, ltb, leb, ◌&&◌, if◌then◌else◌, ℤ, pos, negsuc, pos_part,
}
use nctu_unix.Base.Memory.{Memory, update}
use nctu_unix.Libmini.Machine.{Machine}
use nctu_unix.Libmini.Strings.{low8, memset, memset_loop, bzero, bzero_loop}

pub memset_loop_lem :
    (ptr : ℕ) (val len : ℤ) (m : Memory) (b : ℕ)
    → memset_loop ptr val len m b
      ≡ (if leb ptr b && ltb b (ptr + pos_part len) then low8 val else m b)
unfolding memset_loop
memset_loop_lem ptr val (negsuc n) m b = ground arith
memset_loop_lem ptr val (pos zero) m b = ground arith
memset_loop_lem ptr val (pos (suc n)) m b =
    ground (arith, memset_loop_lem (ptr + 1) val (pos n) (update m ptr (low8 val)) b)

-- `memset(dest, val, len)` returns `dest`, puts the low byte of `val` at each of the `len`
-- addresses from `dest` (at none, if `len` is negative), and leaves every other byte, `errno` and
-- the history of system calls as they were.
pub memset_fills :
    (dest : ℕ) (val len : ℤ) (m : Machine)
    → ((memset dest val len m).0 ≡ dest)
      × ((b : ℕ)
          → (memset dest val len m).1.memory b
            ≡ (if leb dest b && ltb b (dest + pos_part len) then low8 val else m.memory b))
      × ((memset dest val len m).1.errno ≡ m.errno)
      × ((memset dest val len m).1.calls ≡ m.calls)
unfolding memset
memset_fills dest val len m = (refl, memset_loop_lem dest val len m.memory, refl, refl)

bzero_loop-memset_loop :
    (ptr : ℕ) (size : ℤ) (m : Memory) → bzero_loop ptr size m ≡ memset_loop ptr (pos 0) size m
unfolding bzero_loop memset_loop
bzero_loop-memset_loop ptr (negsuc n) m = refl
bzero_loop-memset_loop ptr (pos zero) m = refl
bzero_loop-memset_loop ptr (pos (suc n)) m =
    bzero_loop-memset_loop (ptr + 1) (pos n) (update m ptr 0)

-- `bzero(s, size)` leaves the machine exactly as `memset(s, 0, size)` does, for every size.
pub bzero-eq-memset :
    (s : ℕ) (size : ℤ) (m : Machine) → (bzero s size m).1 ≡ (memset s (pos 0) size m).1
unfolding bzero memset
bzero-eq-memset s size m = λ i. record m { memory = bzero_loop-memset_loop s size m.memory i }
