-- ===== src/Lsof/Row/Filter.antt =====
-- Which rows print_info of hw1/hw1.c prints.
use nctu_unix.Base.{
  ◌≡◌, refl, Bool, true, false, ◌&&◌, not, if◌then◌else◌, List, [], ◌∷◌, ◌++◌, eq_text,
  eq_text_refl, eq_text_sound, arith, Bool-cases, inl, inr,
}
use nctu_unix.Lsof.Options.{Text, Options}
use nctu_unix.Lsof.Row.{Row, print_info, check_cond0, check_cond1, check_cond2}

module _ (matches : Text → Text → Bool) where
  -- What the options that are on ask of a row.
  pub record Wanted (o : Options) (row : Row) : Type 0 where
    pub command_matches : o.option0 ≡ true → matches o.arg1 row.info.cmdline ≡ true
    pub type_equals : o.option1 ≡ true → row.type ≡ o.arg2
    pub file_matches : o.option2 ≡ true → matches o.arg3 row.file ≡ true

  allowed : (on test : Bool) → (on ≡ true → test ≡ true) → (if on then not test else false) ≡ false
  allowed true test h = rw (h refl) refl
  allowed false test h = refl

  asked : (on test : Bool) → (if on then not test else false) ≡ false → on ≡ true → test ≡ true
  asked on test h e = ground (arith, h, e)

  all_off :
      (a b c : Bool) → (not a && not b && not c) ≡ true → (a ≡ false) × (b ≡ false) × (c ≡ false)
  all_off a b c h = (ground (arith, h), ground (arith, h), ground (arith, h))

  type_test : (t u : Text) → t ≡ u → eq_text t u ≡ true
  type_test t u e = rw e (eq_text_refl u)

  -- A row that every option which is on accepts is printed, behind the rows that were.
  -- Any other row is not: what is printed is as it was.
  pub print_info_lem :
      (o : Options) (row : Row) (out : List Row)
      → (Wanted o row → print_info matches o row out ≡ out ++ (row ∷ []))
        × ((Wanted o row → ⊥) → print_info matches o row out ≡ out)
  unfolding print_info
  print_info_lem o row out = (
    λ h.
        rw
          (
            allowed o.option0 (matches o.arg1 row.info.cmdline) h.command_matches,
            allowed o.option1 (eq_text row.type o.arg2)
                (λ e. type_test row.type o.arg2 (h.type_equals e)),
            allowed o.option2 (matches o.arg3 row.file) h.file_matches,
          )
          refl,
    λ h.
        elim (Bool-cases (
          not (check_cond0 matches o row)
          && not (check_cond1 matches o row)
          && not (check_cond2 matches o row))) [
            | inl t ↦
                let (a, b, c) =
                  all_off (check_cond0 matches o row) (check_cond1 matches o row)
                    (check_cond2 matches o row) t in
                absurd (
                  h (record {
                    command_matches = asked o.option0 (matches o.arg1 row.info.cmdline) a;
                    type_equals = λ e.
                        eq_text_sound row.type o.arg2
                          (asked o.option1 (eq_text row.type o.arg2) b e);
                    file_matches = asked o.option2 (matches o.arg3 row.file) c;
                  }))
            | inr n ↦ rw n refl
          ],
  )
