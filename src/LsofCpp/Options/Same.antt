-- ===== src/LsofCpp/Options/Same.antt =====
-- That hw1/hw1.cpp and hw1/hw1.c read the same options.
use mathlib.Core.List.{append_assoc}
use nctu_unix.Base.{
  ℕ, suc, ◌+◌, ◌*◌, ◌<◌, ◌≡◌, ◌≢◌, refl, ap, sym, ◌∙◌, true, false, List, [], ◌∷◌, ◌++◌, some,
  get_elem?, length, length-append, arith,
}
use nctu_unix.Lsof.Options.{
  Options, no_options, options, Flag, flag_c, flag_t, flag_f, other, flag, with_option, parse,
  buf_max,
}
use nctu_unix.Lsof.Options.Last.{Setting, arguments, Fits, parse-last, settled, last, settle}
use nctu_unix.LsofCpp.Options.{
  Text, Filters, no_filters, Opt, opt_c, opt_t, opt_f, opt_other, filters, is_type, set_filter,
  refused, reads, options_loop,
}

-- Flags that both know, each with a value that fits the buffer; those of -t name a type that
-- both know.
abbrev pub AllKnown : List Setting → Type 0
AllKnown [] = Unit
AllKnown (x ∷ xs) =
    (length x.value < buf_max)
    × (flag x.text ≢ other)
    × (flag x.text ≡ flag_t → is_type x.value ≡ true)
    × AllKnown xs

abbrev letter : Flag → Opt
letter flag_c = opt_c
letter flag_t = opt_t
letter flag_f = opt_f
letter other = opt_other

-- What `getopt` answers for such arguments: the letters, in order.
abbrev pub letters : List Setting → List Opt
letters [] = []
letters (x ∷ xs) = letter (flag x.text) ∷ letters xs

abbrev pub as_filters : Options → Filters
as_filters o = record {
  filter0 = o.option0;
  filter1 = o.option1;
  filter2 = o.option2;
  filtargu0 = o.arg1;
  filtargu1 = o.arg2;
  filtargu2 = o.arg3;
}

known-Fits : (xs : List Setting) → AllKnown xs → Fits xs
known-Fits [] h = tt
known-Fits (x ∷ xs) (small, k, t, h) = (small, λ e. ground (arith, t e), known-Fits xs h)

module _ (value : Text) (o : Options) where
  reads_known : (f : Flag) → f ≢ other → reads (letter f) ≡ true
  reads_known flag_c h = refl
  reads_known flag_t h = refl
  reads_known flag_f h = refl
  reads_known other h = absurd (h refl)

  refused_known :
      (f : Flag) → (f ≡ flag_t → is_type value ≡ true) → refused (letter f) value ≡ false
  refused_known flag_c h = refl
  refused_known flag_t h = rw (h refl) refl
  refused_known flag_f h = refl
  refused_known other h = refl

  set_known :
      (f : Flag) → set_filter (letter f) value (as_filters o) ≡ as_filters (with_option f value o)
  set_known flag_c = refl
  set_known flag_t = refl
  set_known flag_f = refl
  set_known other = refl

second :
    (front : List Text) (text value : Text) (rest : List Text)
    → get_elem? (front ++ (text ∷ value ∷ rest)) (suc (length front)) ≡ some value
second [] text value rest = refl
second (x ∷ front) text value rest = second front text value rest

value_at :
    (front : List Text) (text value : Text) (rest : List Text) (i : ℕ)
    → length front ≡ 2 * i
    → get_elem? (front ++ (text ∷ value ∷ rest)) (2 * i + 1) ≡ some value
value_at front text value rest i h =
    ap (get_elem? (front ++ (text ∷ value ∷ rest))) (omega (arith, h))
    ∙ second front text value rest

abbrev settled_by : List Setting → Options → Options
settled_by xs o = settled (last flag_c xs) (last flag_t xs) (last flag_f xs) o

-- The loop, with the arguments of earlier rounds in front.
loop_known :
    (xs : List Setting) (front : List Text) (i : ℕ) (o : Options)
    → AllKnown xs
    → length front ≡ 2 * i
    → options_loop (letters xs) i (front ++ arguments xs) (as_filters o)
      ≡ filters (as_filters (settled_by xs o))
unfolding options_loop
loop_known [] front i o h n = refl
loop_known (x ∷ xs) front i o (small, k, t, h) n =
    rw
      (
        options_loop,
        reads_known x.value o (flag x.text) k,
        value_at front x.text x.value (arguments xs) i n,
        refused_known x.value o (flag x.text) t,
        set_known x.value o (flag x.text),
      )
      (ap
          (λ (argv : List Text).
            options_loop (letters xs) (i + 1) argv
              (as_filters (with_option (flag x.text) x.value o)))
          (sym (append_assoc front (x.text ∷ x.value ∷ []) (arguments xs)))
        ∙ loop_known xs (front ++ (x.text ∷ x.value ∷ [])) (i + 1)
            (with_option (flag x.text) x.value o) h
            (omega (arith, n, length-append front (x.text ∷ x.value ∷ [])))
        ∙ ap (λ (o' : Options). filters (as_filters o'))
            (settle (flag x.text) x.value (last flag_c xs) (last flag_t xs) (last flag_f xs) o))

-- For -c, -t and -f in any order, each with its value behind it, where the values fit the
-- buffers of hw1.c and those of -t name a type other than unknown, and getopt answers the letters
-- in order, both programs come to the same options.
pub same_options :
    (xs : List Setting)
    → AllKnown xs
    → (o : Options) × (parse (arguments xs) no_options ≡ options o)
      × (options_loop (letters xs) 0 (arguments xs) no_filters ≡ filters (as_filters o))
same_options xs h = (
  settled_by xs no_options,
  parse-last xs no_options (known-Fits xs h),
  loop_known xs [] 0 no_options h refl,
)
