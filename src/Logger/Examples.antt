-- ===== src/Logger/Examples.antt =====
-- Tests of Logger.
use libudjat.Base.{◌≡◌, refl, true, false, none, some, List, [], ◌∷◌, ◌==◌, codes, ncase_eq}
use libudjat.Logger.{verbosity, set_verbosity, verbosity_text, on_argument, setup, Options, null}
use libudjat.Arguments.{
  extract, is_option, has_loop, has_argument, match_short, match_argument, get_loop, get_argument,
}
use libudjat.Logger.Writer.{line_of, overflow}
use libudjat.Logger.Writer.Threads.{run, chars_of, lines_of, run-lines_of, Put}
use libudjat.Logger.Writer.Buffers.{written_by}

abbrev options : Options
options = record {
  enabled = λ level. level == 0;
  console = false;
  file = null;
  filename = none;
  coredump = none;
}

-- `--loglevel` alone enables all levels but the last, which is Debug.
loglevel-alone : verbosity (setup true false (codes "app" ∷ codes "-L" ∷ [], options)).1 ≡ 4
unfolding verbosity setup on_argument verbosity_text set_verbosity get_argument get_loop
    match_argument match_short has_argument has_loop is_option ncase_eq extract
loglevel-alone = refl

-- Two threads, whose characters are mixed.
abbrev puts : List Put
puts =
    record { thread = 1; level = 0; char = some b'a' }
    ∷ record { thread = 2; level = 0; char = some b'x' }
    ∷ record { thread = 1; level = 0; char = some b' ' }
    ∷ record { thread = 2; level = 0; char = some b'y' }
    ∷ record { thread = 1; level = 0; char = some b'\n' }
    ∷ record { thread = 2; level = 0; char = none }
    ∷ []

write-mixed :
    (run puts (record { buffers = []; written = [] })).written
    ≡ record { thread = 1; level = 0; text = codes "a" }
      ∷ record { thread = 2; level = 0; text = codes "xy" }
      ∷ []
unfolding run overflow line_of
write-mixed = refl

run-lines_of_example :
    written_by 2 0 (run puts (record { buffers = []; written = [] })).written
    ≡ lines_of 2 0 [] (chars_of 2 0 puts)
run-lines_of_example = run-lines_of 2 0 puts
