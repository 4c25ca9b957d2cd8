-- ===== src/Runner.antt =====
-- ARM_runner_example.c: a sample program that is sent to the simulator and run.
use arm_reimplementation.Base.{ℕ, Bool, Option, some, List, [], ◌∷◌, ◌++◌, codes}
use arm_reimplementation.Runtime.Bytes.{store32}
use arm_reimplementation.Runtime.Io.{Run, M, text, ◌>>=◌, ◌>>◌, pure, exit, deref, complain}
use arm_reimplementation.Gdb.Packet.{Link, Writer}
use arm_reimplementation.Simulator.{arm_write_register, arm_write_memory, arm_run}
use arm_reimplementation.Debug.{Registry, add_debug_to}

unfoldable pub usage : List ℕ → M (Unit {0})
unfolding complain
usage name = complain (
    text (
      codes "Usage:\n"
      ++ (name
          ++ codes
              " [ --help ] [ --host hostname ] [ --service servicename ] [ --debug file ] file\n\nLoads a sample ARM code to a remote simulator. The --debug flag enables the output produced by calls to the debug function in the named source file.\n")))

-- What `getopt_long` gives, one option after the other.
pub data Choice : Type 0 where
  choose_host choose_service choose_debug : List ℕ → Choice
  choose_help : Choice
  unknown : ℕ → Choice

-- The variables that the options set.
pub record Settings : Type 0 where
  pub hostname : Option (List ℕ)
  pub servicename : Option (List ℕ)
  pub debugged : Registry

-- The loop of `main` over the options.
unfoldable pub read_options : List ℕ → List Choice → Settings → M Settings
unfolding usage complain add_debug_to
read_options name [] settings = pure settings
read_options name (choose_host host ∷ choices) settings =
    read_options name choices (record settings { hostname = some host })
read_options name (choose_service service ∷ choices) settings =
    read_options name choices (record settings { servicename = some service })
read_options name (choose_debug file ∷ choices) settings = do
  debugged ← deref (add_debug_to settings.debugged file)
  read_options name choices (record settings { debugged = debugged })
read_options name (choose_help ∷ choices) settings = usage name >> exit 0
read_options name (unknown code ∷ choices) settings = do
  complain (text (codes "Unrecognized option " ++ (code ∷ codes "\n")))
  usage name
  exit 1

-- The four words as they lie in memory.
unfoldable pub sample_code : Bool → List ℕ
unfolding store32
sample_code big =
    store32 big 0x0500a0e3
    ++ (store32 big 0x010050e2 ++ (store32 big 0xfdffff1a ++ store32 big 0x563412ef))

-- From the connection on.
unfoldable pub sample_run : Writer → Bool → Bool → Run Link (Unit {0})
unfolding arm_write_memory arm_write_register arm_run sample_code
sample_run rio_writen big target_big_endian = do
  arm_write_memory rio_writen 0x58 (sample_code big)
  arm_write_register rio_writen big target_big_endian 15 0x58
  arm_run rio_writen
