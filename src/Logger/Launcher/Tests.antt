-- ===== src/Logger/Launcher/Tests.antt =====
-- hw2/hw2.cpp, run on a small command line.
use nctu_unix.Base.{◌≡◌, refl, List, [], ◌∷◌, some, codes, pos}
use nctu_unix.Base.Numbers.{atoi}
use nctu_unix.Logger.Launcher.Variables.{Text, Environment, getenv}
use nctu_unix.Logger.Launcher.{Opt, opt_o, child, main}
use nctu_unix.Logger.Launcher.Run.{launched, main_lem}

abbrev arguments : List Text
arguments = codes "-o" ∷ codes "log" ∷ codes "--" ∷ codes "ls" ∷ codes "-l" ∷ []

abbrev getopt : List Text → List Opt × List Text
getopt argv = (opt_o (codes "log") ∷ [], argv)

main_lem_example :
    (env' : Environment) × (main getopt child (pos 3) (codes "logger") arguments []
      ≡ launched child (codes "ls" ∷ codes "-l" ∷ []) env')
    × (getenv (codes "LD_PRELOAD") env' ≡ some (codes "./logger.so"))
    × (getenv (codes "LOGGER_OUTPUT") env' ≡ some (codes "log"))
    × (text : Text) × (getenv (codes "LOGGER_STDERR") env' ≡ some text)
    × (atoi text ≡ pos 3)
main_lem_example =
    main_lem getopt child (pos 3) (codes "logger") arguments [] (opt_o (codes "log") ∷ []) arguments
      refl tt
