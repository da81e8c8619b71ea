-- ===== src/Debugger/Breakpoints/Entries.antt =====
-- The list of breakpoints of hw4/hw4.cpp: ids, addresses, and what `bp` and `del` do to them.
use mathlib.Core.Path.{subst}
use nctu_unix.Base.{
  ℕ, zero, suc, ◌+◌, ◌<◌, ap, get_elem?-some, ◌≡◌, refl, true, false, ◌||◌, ◌==◌, List, [], ◌∷◌,
  ◌++◌, none, some, ℤ, pos, negsuc, length, get_elem?, arith,
}
use nctu_unix.Debugger.State.{Breakpoint, Elf}
use nctu_unix.Debugger.Breakpoints.{intext, has_addr, find_id, erase, renumber}

-- The id of each breakpoint is its index, counted from n.
abbrev pub Numbered : List Breakpoint → ℕ → Type 0
Numbered [] n = Unit
Numbered (b ∷ bs) n = (b.id ≡ n) × Numbered bs (suc n)

abbrev pub Distinct : List Breakpoint → Type 0
Distinct [] = Unit
Distinct (b ∷ bs) = (has_addr bs b.addr ≡ false) × Distinct bs

abbrev pub InText : Elf → List Breakpoint → Type 0
InText elf [] = Unit
InText elf (b ∷ bs) = (intext elf b.addr ≡ true) × InText elf bs

pub Numbered-append :
    (bs : List Breakpoint) (n : ℕ) (b : Breakpoint)
    → Numbered bs n
    → b.id ≡ n + length bs
    → Numbered (bs ++ (b ∷ [])) n
Numbered-append [] n b h e = (omega arith, tt)
Numbered-append (x ∷ bs) n b h e = (h.0, Numbered-append bs (suc n) b h.1 (omega arith))

has_addr-append :
    (bs : List Breakpoint) (b : Breakpoint) (a : ℕ)
    → has_addr (bs ++ (b ∷ [])) a ≡ (has_addr bs a || (b.addr == a))
unfolding has_addr
has_addr-append [] b a = ground arith
has_addr-append (x ∷ bs) b a = rw (has_addr-append bs b a) (ground arith)

pub Distinct-append :
    (bs : List Breakpoint) (b : Breakpoint)
    → Distinct bs
    → has_addr bs b.addr ≡ false
    → Distinct (bs ++ (b ∷ []))
unfolding has_addr
Distinct-append [] b d h = (refl, tt)
Distinct-append (x ∷ bs) b d h = (
  rw (has_addr-append bs b x.addr) (ground (arith, d.0, h)),
  Distinct-append bs b d.1 (ground (arith, h)),
)

pub InText-append :
    (elf : Elf) (bs : List Breakpoint) (b : Breakpoint)
    → InText elf bs
    → intext elf b.addr ≡ true
    → InText elf (bs ++ (b ∷ []))
InText-append elf [] b t h = (h, tt)
InText-append elf (x ∷ bs) b t h = (t.0, InText-append elf bs b t.1 h)

has_addr-erase :
    (bs : List Breakpoint) (i a : ℕ) → has_addr bs a ≡ false → has_addr (erase bs i) a ≡ false
unfolding has_addr erase
has_addr-erase [] i a h = refl
has_addr-erase (b ∷ bs) zero a h = ground (arith, h)
has_addr-erase (b ∷ bs) (suc i) a h = ground (arith, h, has_addr-erase bs i a)

pub Distinct-erase : (bs : List Breakpoint) (i : ℕ) → Distinct bs → Distinct (erase bs i)
unfolding erase
Distinct-erase [] i d = tt
Distinct-erase (b ∷ bs) zero d = d.1
Distinct-erase (b ∷ bs) (suc i) d = (has_addr-erase bs i b.addr d.0, Distinct-erase bs i d.1)

pub InText-erase :
    (elf : Elf) (bs : List Breakpoint) (i : ℕ) → InText elf bs → InText elf (erase bs i)
unfolding erase
InText-erase elf [] i t = tt
InText-erase elf (b ∷ bs) zero t = t.1
InText-erase elf (b ∷ bs) (suc i) t = (t.0, InText-erase elf bs i t.1)

has_addr-renumber :
    (bs : List Breakpoint) (i n a : ℕ) → has_addr (renumber bs i n) a ≡ has_addr bs a
unfolding has_addr renumber
has_addr-renumber [] i n a = refl
has_addr-renumber (b ∷ bs) zero n a = rw (has_addr-renumber bs 0 (suc n) a)
has_addr-renumber (b ∷ bs) (suc i) n a = rw (has_addr-renumber bs i n a)

pub Distinct-renumber : (bs : List Breakpoint) (i n : ℕ) → Distinct bs → Distinct (renumber bs i n)
unfolding renumber
Distinct-renumber [] i n d = tt
Distinct-renumber (b ∷ bs) zero n d =
    (rw (has_addr-renumber bs 0 (suc n) b.addr) d.0, Distinct-renumber bs 0 (suc n) d.1)
Distinct-renumber (b ∷ bs) (suc i) n d =
    (rw (has_addr-renumber bs i n b.addr) d.0, Distinct-renumber bs i n d.1)

pub InText-renumber :
    (elf : Elf) (bs : List Breakpoint) (i n : ℕ) → InText elf bs → InText elf (renumber bs i n)
unfolding renumber
InText-renumber elf [] i n t = tt
InText-renumber elf (b ∷ bs) zero n t = (t.0, InText-renumber elf bs 0 (suc n) t.1)
InText-renumber elf (b ∷ bs) (suc i) n t = (t.0, InText-renumber elf bs i n t.1)

renumber-Numbered : (bs : List Breakpoint) (n : ℕ) → Numbered (renumber bs 0 n) n
unfolding renumber
renumber-Numbered [] n = tt
renumber-Numbered (b ∷ bs) n = (refl, renumber-Numbered bs (suc n))

add_zero : (n : ℕ) → n + 0 ≡ n
add_zero n = omega arith

add_suc : (n i : ℕ) → n + suc i ≡ suc n + i
add_suc n i = omega arith

renumber-erase :
    (bs : List Breakpoint) (i n : ℕ) → Numbered bs n → Numbered (renumber (erase bs i) i (n + i)) n
unfolding erase renumber
renumber-erase [] i n h = tt
renumber-erase (b ∷ bs) zero n h = rw (add_zero n) (renumber-Numbered bs n)
renumber-erase (b ∷ bs) (suc i) n h = (h.0, rw (add_suc n i) (renumber-erase bs i (suc n) h.1))

find_id-tail :
    (b : Breakpoint) (bs : List Breakpoint) (id : ℤ) (i : ℕ)
    → find_id (b ∷ bs) id ≡ some (suc i)
    → find_id bs id ≡ some i
unfolding find_id
find_id-tail b bs id i e = ground arith

-- Where the ids are the indices, the index found is the id.
find_id-Numbered :
    (bs : List Breakpoint) (m n i : ℕ) → Numbered bs m → find_id bs (pos n) ≡ some i → n ≡ m + i
unfolding find_id
find_id-Numbered [] m n i h e = absurd (ground arith)
find_id-Numbered (b ∷ bs) m n zero h e = ground (arith, h.0)
find_id-Numbered (b ∷ bs) m n (suc i) h e =
    omega (arith, find_id-Numbered bs (suc m) n i h.1 (find_id-tail b bs (pos n) i e))

find_id-length : (bs : List Breakpoint) (id : ℤ) (i : ℕ) → find_id bs id ≡ some i → i < length bs
unfolding find_id
find_id-length [] id i e = absurd (ground arith)
find_id-length (b ∷ bs) id zero e = omega arith
find_id-length (b ∷ bs) id (suc i) e =
    omega (arith, find_id-length bs id i (find_id-tail b bs id i e))

find_id-negative : (bs : List Breakpoint) (n : ℕ) → find_id bs (negsuc n) ≡ none
unfolding find_id
find_id-negative [] n = refl
find_id-negative (b ∷ bs) n = rw (find_id-negative bs n)

zero_add : (n : ℕ) → 0 + n ≡ n
zero_add n = omega arith

pub renumber-erase_all :
    (bs : List Breakpoint) (i : ℕ) → Numbered bs 0 → Numbered (renumber (erase bs i) i i) 0
renumber-erase_all bs i h =
    subst (λ (n : ℕ). Numbered (renumber (erase bs i) i n) 0) (zero_add i) (renumber-erase bs i 0 h)

-- Where the ids are the indices, the id that is found is an index of the list.
pub found-in_list :
    (bs : List Breakpoint) (id : ℤ) (i : ℕ)
    → Numbered bs 0
    → find_id bs id ≡ some i
    → (id ≡ pos i) × (b : Breakpoint) × (get_elem? bs i ≡ some b)
found-in_list bs (pos n) i h e =
    let (b, here) = get_elem?-some bs i (find_id-length bs (pos n) i e) in
    (ap pos (omega (arith, find_id-Numbered bs 0 n i h e)), b, here)
found-in_list bs (negsuc n) i h e = absurd (ground (arith, find_id-negative bs n, e))
