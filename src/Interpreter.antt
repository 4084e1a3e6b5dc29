-- ===== src/Interpreter.antt =====
-- The command line, kernel/shell/interpreter.c: how a line is split and which command it calls. What
-- the commands do is not part of it: a call is a value, with the argument that the command is given.
pub mod Lines
use Prim.Native.String.{String}
use alderkernel.Prelude.{ℕ, Option, none, some, List, [], ◌∷◌, ◌==◌, if◌then◌else◌, get_or, codes}
use alderkernel.Util.{strcmp}

-- The calls of the `command_` functions. An argument that is `none` is a null pointer.
pub data Command : Type 0 where
  help : Command
  clear : Command
  about : Command
  halt : Command
  echo : List ℕ → Command
  uname : Option (List ℕ) → Command
  req_syscallop : Option (List ℕ) → Command
  memtest : Command
  ls : Option (List ℕ) → Command
  cd : Option (List ℕ) → Command
  pwd : Command
  cat : Option (List ℕ) → Command
  meminfo : Command
  loop : Option (List ℕ) → Command
  diskinfo : Command
  partinfo : Command
  mkpart : Command
  mkfs : Command
  install : Command
  lsdisk : Option (List ℕ) → Command
  catdisk : Option (List ℕ) → Command
  runelf : Option (List ℕ) → Command
  unknown : List ℕ → Command

-- while (*p == ' ') p++; the end of the line is no argument.
unfoldable pub skip_spaces : List ℕ → Option (List ℕ)
skip_spaces [] = none
skip_spaces (c ∷ s) =
    let rest = skip_spaces s in if c == b' ' then rest else if c == 0 then none else some (c ∷ s)

-- The buffer after the first space was overwritten, and the argument.
unfoldable pub split_args : List ℕ → List ℕ × Option (List ℕ)
split_args [] = ([], none)
split_args (c ∷ s) =
    let rest = split_args s in
    if c == 0
    then (c ∷ s, none)
    else if c == b' '
    then (0 ∷ s, skip_spaces s)
    else (c ∷ rest.0, rest.1)

abbrev pub or_empty : Option (List ℕ) → List ℕ
or_empty none = []
or_empty (some s) = s

-- The chain of comparisons, for a line that is not empty.
unfoldable pub dispatch : List ℕ → Option (List ℕ) → Command
dispatch input args =
    if strcmp input (codes "help") == 0
    then help
    else if strcmp input (codes "clear") == 0
    then clear
    else if strcmp input (codes "about") == 0
    then about
    else if strcmp input (codes "halt") == 0
    then halt
    else if strcmp input (codes "echo") == 0
    then echo (or_empty args)
    else if strcmp input (codes "uname") == 0
    then uname args
    else if strcmp input (codes "req-syscallop") == 0
    then req_syscallop args
    else if strcmp input (codes "memtest") == 0
    then memtest
    else if strcmp input (codes "ls") == 0
    then ls args
    else if strcmp input (codes "cd") == 0
    then cd args
    else if strcmp input (codes "pwd") == 0
    then pwd
    else if strcmp input (codes "cat") == 0
    then cat args
    else if strcmp input (codes "meminfo") == 0
    then meminfo
    else if strcmp input (codes "loop") == 0
    then loop args
    else if strcmp input (codes "diskinfo") == 0
    then diskinfo
    else if strcmp input (codes "partinfo") == 0
    then partinfo
    else if strcmp input (codes "mkpart") == 0
    then mkpart
    else if strcmp input (codes "mkfs") == 0
    then mkfs
    else if strcmp input (codes "install") == 0
    then install
    else if strcmp input (codes "lsdisk") == 0
    then lsdisk args
    else if strcmp input (codes "catdisk") == 0
    then catdisk args
    else if strcmp input (codes "runelf") == 0
    then runelf args
    else unknown input

-- `none` is an empty line, which calls nothing.
unfoldable pub interpret_command : List ℕ → Option Command
interpret_command line =
    let (input, args) = split_args line in
    if get_or input 0 0 == 0 then none else some (dispatch input args)
