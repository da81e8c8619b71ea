-- ===== src/Libmini/Perror/Report.antt =====
-- The text that `perror` of hw3/libmini.c prints, and the read that it makes past its table.
use Prim.Native.String.{String}
use nctu_unix.Base.{ℕ, ◌<◌, ◌≡◌, refl, ◌≢◌, ◌∙◌, ap, arith, true, false, ◌||◌, ◌==◌, ==_false}
use nctu_unix.Base.{
  if◌then◌else◌, Bool, List, ◌++◌, none, some, get_elem?, get_elem?-none, length, codes,
}
use nctu_unix.Base.{ℤ, pos, negsuc, ltb_ℤ}
use nctu_unix.Base.Memory.{StringAt}
use nctu_unix.Libmini.Machine.{Kernel, Machine}
use nctu_unix.Libmini.Perror.{
  errmsg, unknown, colon, newline, wild_read, message, put, put_prefix, put_message, perror,
  perrmsg_min, perrmsg_max, ◌>>◌,
}
use nctu_unix.Libmini.Perror.Output.{
  IsTerminal, IsLoaded, Prefix, Prints, >>_Prints, put-Prints, put_prefix-Prints,
  put_message-Prints, put_unknown-Prints,
}

abbrev pub out_of_table : ℤ → Bool
out_of_table e = ltb_ℤ e perrmsg_min || ltb_ℤ perrmsg_max e

length-errmsg : length errmsg ≡ 35
unfolding errmsg
length-errmsg = refl

in_table : (i : ℕ) (text : String) → get_elem? errmsg i ≡ some text → i < 35
in_table i text found = ground (arith, get_elem?-none errmsg i, length-errmsg)

message-none : (e : ℤ) → out_of_table e ≡ true → message e ≡ none
unfolding message
message-none (negsuc n) h = refl
message-none (pos n) h = get_elem?-none errmsg n (ground (arith, length-errmsg))

picked : (b : Bool) (i : ℕ) → i < 35 → out_of_table (if b then pos i else pos 0) ≡ false
picked true i h = ground arith
picked false i h = refl

put_message_wild :
    (k : Kernel) (place : String → ℕ) (fuel : ℕ) (backup : ℤ) (m : Machine)
    → m.errno ≡ pos 0
    → message backup ≡ none
    → put_message k place fuel backup m ≡ wild_read
unfolding put_message
put_message_wild k place fuel backup m e n = rw (e, n, put_message)

module _ (k : Kernel) (place : String → ℕ) (fuel : ℕ) (t : IsTerminal k) (room : 36 < fuel)
    (m : Machine) (loaded : IsLoaded place m.memory) where
  -- On a terminal, with `errno` the number of one of the 35 messages: `perror` ends, and prints
  -- the prefix and a colon (if there is a prefix), that message and a newline.
  pub perror_reports :
      (prefix : ℕ) (shown : List ℕ) (i : ℕ) (text : String)
      → Prefix m.memory fuel prefix shown
      → m.errno ≡ pos i
      → get_elem? errmsg i ≡ some text
      → Prints m ((shown ++ codes text) ++ codes newline) (pos 0) (perror k place fuel prefix m)
  unfolding perror
  perror_reports prefix shown i text pre e found =
      >>_Prints (put_prefix k place fuel prefix >> put_message k place fuel m.errno)
        (put k place fuel (place newline) (pos 1)) m (shown ++ codes text) (codes newline) (pos 0)
        (pos 0)
        (>>_Prints (put_prefix k place fuel prefix) (put_message k place fuel m.errno) m shown
          (codes text) _ (pos 0) (put_prefix-Prints k place fuel t prefix shown m loaded pre)
          (λ m' same e'.
            put_message-Prints k place fuel t m.errno text m' (rw same loaded) (within m' e')
              (rw e found_as) room))
        (λ m' same _.
          put-Prints k place fuel t (place newline) (codes newline) m' (rw same loaded.newline_at))
    where
      found_as : message (pos i) ≡ some text
      found_as = unfold message in found

      within :
          (m' : Machine)
          → m'.errno ≡ (if prefix == 0 then m.errno else pos 0)
          → out_of_table m'.errno ≡ false
      within m' e' =
          ap out_of_table (e' ∙ ap (λ (c : ℤ). if prefix == 0 then c else pos 0) e)
          ∙ picked (prefix == 0) i (in_table i text found)

  -- On a terminal, with no prefix and `errno` outside the table: it prints "Unknown".
  pub perror-unknown :
      out_of_table m.errno ≡ true
      → Prints m (codes unknown ++ codes newline) (pos 0) (perror k place fuel 0 m)
  unfolding perror put_prefix
  perror-unknown out =
      >>_Prints (put_message k place fuel m.errno) (put k place fuel (place newline) (pos 1)) m
        (codes unknown) (codes newline) (pos 0) (pos 0)
        (put_unknown-Prints k place fuel t m.errno m loaded out room)
        (λ m' same _.
          put-Prints k place fuel t (place newline) (codes newline) m' (rw same loaded.newline_at))

  -- On a terminal, with a prefix and `errno` outside the table: the writes of the prefix clear
  -- `errno`, so the test passes, and `perror` reads outside the table.
  pub perror-wild_read :
      (prefix : ℕ) (s : List ℕ)
      → prefix ≢ 0
      → StringAt m.memory prefix s
      → length s < fuel
      → out_of_table m.errno ≡ true
      → perror k place fuel prefix m ≡ wild_read
  unfolding perror
  perror-wild_read prefix s ne at short out =
      let p =
        put_prefix-Prints k place fuel t prefix (s ++ codes colon) m loaded
          (Prefix.given s ne at short refl) in
      rw (
        p.ends,
        ◌>>◌,
        put_message_wild k place fuel m.errno p.after (p.errno_is ∙ rw (==_false prefix 0 ne))
            (message-none m.errno out),
      )
