-- ===== src/Debugger/Main/Valid.antt =====
-- That a run of sdb keeps its invariant, and that a script ends it (hw4/hw4.cpp).
use nctu_unix.Base.{ℕ, List, [], ◌∷◌, Option, none, some}
use nctu_unix.Debugger.State.{Kernel, Text}
use nctu_unix.Debugger.Breakpoints.Valid.{Keeps}
use nctu_unix.Debugger.Invariant.{
  Preserves, bind, next, harmless, choose, pure-Preserves, get-Preserves,
}
use nctu_unix.Debugger.Load.{load}
use nctu_unix.Debugger.Host.{IsHost}
use nctu_unix.Debugger.Shell.Valid.{
  load-Keeps, typed-Preserves, script-Preserves, initial, initial-IsValid,
}
use nctu_unix.Debugger.Main.{
  script_file, or_exit, open_script, is_script, arguments, commands, main,
}

module _ {k : Kernel} where
  or_exit-Preserves : (path : Text) (file : Option (List ℕ)) → Preserves {k = k} (or_exit path file)
  or_exit-Preserves path none = harmless _ (λ s v. tt)
  or_exit-Preserves path (some file) = harmless _ (λ s v. v)

  open_script-Preserves :
      (f : Option (List Text)) (path : Text) → Preserves {k = k} (open_script f path)
  unfolding open_script
  open_script-Preserves f path =
      bind get-Preserves (λ s. or_exit-Preserves path (script_file k f path s.world))

module _ {k : Kernel} (host : IsHost k) where
  arguments-Preserves :
      (argv : List Text) (f : Option (List Text)) → Preserves {k = k} (arguments argv f)
  unfolding arguments
  arguments-Preserves [] f = pure-Preserves f
  arguments-Preserves (arg ∷ []) f =
      choose (is_script arg) (harmless _ (λ s v. tt))
        (next (harmless (load arg) (load-Keeps arg)) (pure-Preserves f))
  arguments-Preserves (arg ∷ path ∷ argv) f =
      choose (is_script arg)
        (bind (open_script-Preserves f path) (λ lines. arguments-Preserves argv (some lines)))
        (next (harmless (load arg) (load-Keeps arg)) (arguments-Preserves (path ∷ argv) f))

  commands-Preserves :
      (lines : List Text) (f : Option (List Text)) → Preserves {k = k} (commands lines f)
  commands-Preserves lines none = typed-Preserves host lines
  commands-Preserves lines (some file) = script-Preserves host file

-- Where `fork` gives the parent a process id, sdb started with any arguments and given any command
-- lines never indexes its list of breakpoints outside, and in the state that it comes to, if it
-- neither ends nor waits for ever nor does something else that is undefined, each breakpoint's id
-- is its index, no two have the same address, all lie in the text section, there is none before a
-- program is loaded, and the pid that sdb keeps is other than 0 exactly while the state is RUNNING.
pub main-IsValid :
    (k : Kernel) (host : IsHost k) (w : k.World) (argv lines : List Text)
    → Keeps (main argv lines (initial k w))
unfolding main
main-IsValid k host w argv lines =
    (bind (arguments-Preserves host argv none) (commands-Preserves host lines)).keeps (initial k w)
      (initial-IsValid k w)
