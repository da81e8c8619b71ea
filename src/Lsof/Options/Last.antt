-- ===== src/Lsof/Options/Last.antt =====
-- That the last of several equal flags of hw1/hw1.c counts.
use nctu_unix.Base.{
  ◌<◌, ◌≡◌, refl, ◌∙◌, ap, Bool, true, false, ltb, lt→ltb, if◌then◌else◌, List, [], ◌∷◌, Option,
  none, some, length,
}
use nctu_unix.Lsof.Options.{
  Text, Options, Parsed, options, fault, Flag, flag_c, flag_t, flag_f, other, flag, with_option,
  round, reads, parse, is_type, buf_max,
}

-- An argument list of flags, each with its value.
pub record Setting : Type 0 where
  pub text : Text
  pub value : Text

abbrev pub arguments : List Setting → List Text
arguments [] = []
arguments (x ∷ xs) = x.text ∷ x.value ∷ arguments xs

-- Values fit their buffers, and those of -t are names of types.
abbrev pub Fits : List Setting → Type 0
Fits [] = Unit
Fits (x ∷ xs) =
    (length x.value < buf_max) × (flag x.text ≡ flag_t → is_type x.value ≡ true) × Fits xs

abbrev pub same_flag : Flag → Flag → Bool
same_flag flag_c flag_c = true
same_flag flag_t flag_t = true
same_flag flag_f flag_f = true
same_flag other other = true
same_flag f g = false

abbrev pub is_set : Option Text → Bool → Bool
is_set none b = b
is_set (some v) b = true

abbrev pub chosen : Option Text → Text → Text
chosen none v = v
chosen (some v) v' = v

-- The value of the last setting of a flag.
abbrev pub last : Flag → List Setting → Option Text
last f [] = none
last f (x ∷ xs) = if same_flag f (flag x.text) then some (chosen (last f xs) x.value) else last f xs

-- The options that the values for -c, -t and -f make.
abbrev pub settled : Option Text → Option Text → Option Text → Options → Options
settled a b c o = record {
  option0 = is_set a o.option0;
  option1 = is_set b o.option1;
  option2 = is_set c o.option2;
  arg1 = chosen a o.arg1;
  arg2 = chosen b o.arg2;
  arg3 = chosen c o.arg3;
}

abbrev pub with_first : Flag → Flag → Text → Option Text → Option Text
with_first f g v a = if same_flag f g then some (chosen a v) else a

pub settle :
    (f : Flag) (v : Text) (a b c : Option Text) (o : Options)
    → settled a b c (with_option f v o)
      ≡ settled (with_first flag_c f v a) (with_first flag_t f v b) (with_first flag_f f v c) o
settle flag_c v none b c o = refl
settle flag_c v (some w) b c o = refl
settle flag_t v a none c o = refl
settle flag_t v a (some w) c o = refl
settle flag_f v a b none o = refl
settle flag_f v a b (some w) o = refl
settle other v a b c o = refl

round_fits :
    (f : Flag) (value : Text) (o : Options)
    → (f ≡ flag_t → is_type value ≡ true)
    → round f value o ≡ some (with_option f value o)
round_fits flag_c value o h = refl
round_fits flag_t value o h = rw (h refl) refl
round_fits flag_f value o h = refl
round_fits other value o h = refl

guarded :
    (reading : Bool) (value : Text) (parsed : Parsed)
    → length value < buf_max
    → (if reading then (if ltb (length value) buf_max then parsed else fault) else parsed) ≡ parsed
guarded true value parsed h = rw (lt→ltb (length value) buf_max h) refl
guarded false value parsed h = refl

-- For flags that each have a value, where the values fit their buffers and those of -t name a
-- type, each option is on exactly if it was or its flag occurs, and has the value of the last
-- occurrence; other flags are passed over.
pub parse-last :
    (xs : List Setting) (o : Options)
    → Fits xs
    → parse (arguments xs) o
      ≡ options (settled (last flag_c xs) (last flag_t xs) (last flag_f xs) o)
unfolding parse
parse-last [] o h = refl
parse-last (x ∷ xs) o h =
    rw (parse, round_fits (flag x.text) x.value o h.1)
      (guarded (reads (flag x.text)) x.value _ h.0
        ∙ parse-last xs (with_option (flag x.text) x.value o) h.2
        ∙ ap options
            (settle (flag x.text) x.value (last flag_c xs) (last flag_t xs) (last flag_f xs) o))
