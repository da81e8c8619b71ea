-- ===== src/Libmini/Perror/Output.antt =====
-- What `perror` of hw3/libmini.c sends to the terminal.
use Prim.Native.String.{String}
use mathlib.Core.Path.{ap₂}
use mathlib.Core.List.{append_assoc, append-nil}
use nctu_unix.Base.{
  ℕ, zero, suc, ◌+◌, ◌<◌, ◌≤◌, ◌≡◌, refl, ◌≢◌, ◌∙◌, ap, sym, arith, true, false, ◌||◌, ◌==◌,
}
use nctu_unix.Base.{if◌then◌else◌, List, [], ◌∷◌, ◌++◌, some, get_elem?, length, codes, leb, ◌&&◌}
use nctu_unix.Base.{ℤ, pos, negsuc, ltb_ℤ, eq_ℤ, is_negative, pos_part, ==_false, Bool}
use nctu_unix.Base.Memory.{Memory, StringAt, bytes_at}
use nctu_unix.Libmini.Machine.{Kernel, Machine, Event, sys_write}
use nctu_unix.Libmini.Strings.Length.{strlen-StringAt}
use nctu_unix.Libmini.Wrappers.{write}
use nctu_unix.Libmini.Wrappers.Reply.{write_accepted}
use nctu_unix.Libmini.Perror.{
  errmsg, unknown, colon, newline, Outcome, done, perrmsg_min, perrmsg_max, message, put,
  put_string, put_prefix, put_message, Action, ◌>>◌,
}

-- What one call hands to the standard error output.
abbrev pub handed : Event → List ℕ
handed e = elim e.call [
  | sys_write fd p n ↦ if eq_ℤ fd (pos 2) then bytes_at e.seen p (pos_part n) else []
  | _ ↦ []
]

-- All that a history, the last call first, has handed to it.
abbrev pub written : List Event → List ℕ
written [] = []
written (e ∷ es) = written es ++ handed e

-- A terminal takes every write, and a write leaves the program's memory alone.
pub record IsTerminal (k : Kernel) : Type 0 where
  pub accepts :
      (h : List Event) (fd : ℤ) (p : ℕ) (n : ℤ) (m : Memory)
      → is_negative (k h (sys_write fd p n) m).0 ≡ false
  pub keeps :
      (h : List Event) (fd : ℤ) (p : ℕ) (n : ℤ) (m : Memory) → (k h (sys_write fd p n) m).1 ≡ m

-- The loader has put the literals where `place` says.
pub record IsLoaded (place : String → ℕ) (m : Memory) : Type 0 where
  pub unknown_at : StringAt m (place unknown) (codes unknown)
  pub colon_at : StringAt m (place colon) (codes colon)
  pub newline_at : StringAt m (place newline) (codes newline)
  pub message_at :
      (i : ℕ) (t : String) → get_elem? errmsg i ≡ some t → StringAt m (place t) (codes t)

-- Every message fits 36 bytes.
all_short : List String → Bool
all_short [] = true
all_short (t ∷ ts) = leb (length (codes t)) 36 && all_short ts

all_short_sound :
    (ts : List String) (i : ℕ) (t : String)
    → all_short ts ≡ true
    → get_elem? ts i ≡ some t
    → length (codes t) ≤ 36
unfolding all_short
all_short_sound [] i t h e = absurd (ground arith)
all_short_sound (u ∷ ts) zero t h e = let p : u ≡ t = cc in rw (← p) (ground arith)
all_short_sound (u ∷ ts) (suc i) t h e = all_short_sound ts i t (ground arith) e

message_short : (i : ℕ) (t : String) → get_elem? errmsg i ≡ some t → length (codes t) ≤ 36
unfolding all_short errmsg
message_short i t e = all_short_sound errmsg i t refl e

bytes_at-StringAt : (m : Memory) (p : ℕ) (s : List ℕ) → StringAt m p s → bytes_at m p (length s) ≡ s
bytes_at-StringAt m p [] h = refl
bytes_at-StringAt m p (c ∷ s) h = ap₂ ◌∷◌ h.0 (bytes_at-StringAt m (p + 1) s h.2)

-- The machine after `write(2, p, n)` on a terminal.
abbrev wrote : ℕ → ℤ → Machine → Machine
wrote p n m = record m {
  errno = pos 0;
  calls = record { call = sys_write (pos 2) p n; seen = m.memory } ∷ m.calls;
}

-- The argument `prefix` of `perror`, and what is printed for it.
pub data Prefix (m : Memory) (fuel prefix : ℕ) (s : List ℕ) : Type 0 where
  absent : prefix ≡ 0 → s ≡ [] → Prefix m fuel prefix s
  given :
      (t : List ℕ)
      → prefix ≢ 0
      → StringAt m prefix t
      → length t < fuel
      → s ≡ t ++ codes colon
      → Prefix m fuel prefix s

-- The outcome `o` of an action at `m` is that it has appended `s` to the output, with memory as it
-- was and `errno` e.
pub record Prints (m : Machine) (s : List ℕ) (e : ℤ) (o : Outcome) : Type 0 where
  pub after : Machine
  pub ends : o ≡ done after
  pub output : written after.calls ≡ written m.calls ++ s
  pub same_memory : after.memory ≡ m.memory
  pub errno_is : after.errno ≡ e

pub >>_Prints :
    (f g : Action) (m : Machine) (s s' : List ℕ) (e e' : ℤ)
    → Prints m s e (f m)
    → ((m' : Machine) → m'.memory ≡ m.memory → m'.errno ≡ e → Prints m' s' e' (g m'))
    → Prints m (s ++ s') e' ((f >> g) m)
>>_Prints f g m s s' e e' p q =
    let r = q p.after p.same_memory p.errno_is in
    rw (p.ends, ◌>>◌)
      (record {
        after = r.after;
        ends = r.ends;
        output = r.output ∙ ap (λ b. b ++ s') p.output ∙ append_assoc (written m.calls) s s';
        same_memory = r.same_memory ∙ p.same_memory;
        errno_is = r.errno_is;
      })

module _ (k : Kernel) (place : String → ℕ) (fuel : ℕ) (t : IsTerminal k) where
  write_lem : (p : ℕ) (n : ℤ) (m : Machine) → (write k (pos 2) p n m).1 ≡ wrote p n m
  write_lem p n m = write_accepted k (pos 2) p n m (t.accepts m.calls (pos 2) p n m.memory) ∙ λ i.
      record (wrote p n m) { memory = t.keeps m.calls (pos 2) p n m.memory i }

  pub put-Prints :
      (p : ℕ) (s : List ℕ) (m : Machine)
      → StringAt m.memory p s
      → Prints m s (pos 0) (put k place fuel p (pos (length s)) m)
  unfolding put
  put-Prints p s m h = record {
    after = wrote p (pos (length s)) m;
    ends = ap done (write_lem p (pos (length s)) m);
    output = ap (λ b. written m.calls ++ b) (bytes_at-StringAt m.memory p s h);
    same_memory = refl;
    errno_is = refl;
  }

  pub put_string-Prints :
      (p : ℕ) (s : List ℕ) (m : Machine)
      → StringAt m.memory p s
      → length s < fuel
      → Prints m s (pos 0) (put_string k place fuel p m)
  unfolding put_string
  put_string-Prints p s m h l =
      rw (strlen-StringAt fuel m.memory p s h l, put_string) (put-Prints p s m h)

  pub put_prefix-Prints :
      (prefix : ℕ) (shown : List ℕ) (m : Machine)
      → IsLoaded place m.memory
      → Prefix m.memory fuel prefix shown
      → Prints m shown (if prefix == 0 then m.errno else pos 0) (put_prefix k place fuel prefix m)
  unfolding put_prefix
  put_prefix-Prints prefix shown m loaded (absent e n) =
      rw (e, n)
        (record {
          after = m;
          ends = refl;
          output = sym (append-nil (written m.calls));
          same_memory = refl;
          errno_is = refl;
        })
  put_prefix-Prints prefix shown m loaded (given s ne at l e) =
      rw (==_false prefix 0 ne, e)
        (>>_Prints (put_string k place fuel prefix) (put k place fuel (place colon) (pos 2)) m s
          (codes colon) (pos 0) (pos 0) (put_string-Prints prefix s m at l)
          (λ m' same _. put-Prints (place colon) (codes colon) m' (rw same loaded.colon_at)))

  -- The message is looked up under the number saved, whatever `errno` within the table has become.
  pub put_message-Prints :
      (backup : ℤ) (text : String) (m : Machine)
      → IsLoaded place m.memory
      → (ltb_ℤ m.errno perrmsg_min || ltb_ℤ perrmsg_max m.errno) ≡ false
      → message backup ≡ some text
      → 36 < fuel
      → Prints m (codes text) (pos 0) (put_message k place fuel backup m)
  unfolding put_message message
  put_message-Prints (negsuc i) text m loaded within found room = absurd (ground arith)
  put_message-Prints (pos i) text m loaded within found room =
      rw (within, found, put_message)
        (put_string-Prints (place text) (codes text) m (loaded.message_at i text found)
          (omega (arith, message_short i text found)))

  pub put_unknown-Prints :
      (backup : ℤ) (m : Machine)
      → IsLoaded place m.memory
      → (ltb_ℤ m.errno perrmsg_min || ltb_ℤ perrmsg_max m.errno) ≡ true
      → 36 < fuel
      → Prints m (codes unknown) (pos 0) (put_message k place fuel backup m)
  unfolding put_message
  put_unknown-Prints backup m loaded outside room =
      rw outside
        (put_string-Prints (place unknown) (codes unknown) m loaded.unknown_at (omega arith))
