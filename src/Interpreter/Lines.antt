-- ===== src/Interpreter/Lines.antt =====
-- Every command is called by its name, whatever follows it.
use alderkernel.Prelude.{
  ℕ, zero, suc, ◌≡◌, refl, ◌≢◌, ap, ◌∙◌, Option, none, some, List, ◌∷◌, ◌++◌, codes, replicate,
  arith,
}
use alderkernel.Util.{strcmp}
use alderkernel.Interpreter.{
  Command, or_empty, skip_spaces, split_args, dispatch, interpret_command,
}

-- The commands by name.
pub data Name : Type 0 where
  help : Name
  clear : Name
  about : Name
  halt : Name
  echo : Name
  uname : Name
  req_syscallop : Name
  memtest : Name
  ls : Name
  cd : Name
  pwd : Name
  cat : Name
  meminfo : Name
  loop : Name
  diskinfo : Name
  partinfo : Name
  mkpart : Name
  mkfs : Name
  install : Name
  lsdisk : Name
  catdisk : Name
  runelf : Name

abbrev pub name : Name → List ℕ
name Name.help = codes "help"
name Name.clear = codes "clear"
name Name.about = codes "about"
name Name.halt = codes "halt"
name Name.echo = codes "echo"
name Name.uname = codes "uname"
name Name.req_syscallop = codes "req-syscallop"
name Name.memtest = codes "memtest"
name Name.ls = codes "ls"
name Name.cd = codes "cd"
name Name.pwd = codes "pwd"
name Name.cat = codes "cat"
name Name.meminfo = codes "meminfo"
name Name.loop = codes "loop"
name Name.diskinfo = codes "diskinfo"
name Name.partinfo = codes "partinfo"
name Name.mkpart = codes "mkpart"
name Name.mkfs = codes "mkfs"
name Name.install = codes "install"
name Name.lsdisk = codes "lsdisk"
name Name.catdisk = codes "catdisk"
name Name.runelf = codes "runelf"

abbrev pub call : Name → Option (List ℕ) → Command
call Name.help args = Command.help
call Name.clear args = Command.clear
call Name.about args = Command.about
call Name.halt args = Command.halt
call Name.echo args = Command.echo (or_empty args)
call Name.uname args = Command.uname args
call Name.req_syscallop args = Command.req_syscallop args
call Name.memtest args = Command.memtest
call Name.ls args = Command.ls args
call Name.cd args = Command.cd args
call Name.pwd args = Command.pwd
call Name.cat args = Command.cat args
call Name.meminfo args = Command.meminfo
call Name.loop args = Command.loop args
call Name.diskinfo args = Command.diskinfo
call Name.partinfo args = Command.partinfo
call Name.mkpart args = Command.mkpart
call Name.mkfs args = Command.mkfs
call Name.install args = Command.install
call Name.lsdisk args = Command.lsdisk args
call Name.catdisk args = Command.catdisk args
call Name.runelf args = Command.runelf args

-- A name alone on the line calls its command without an argument.
interpret_command-name : (n : Name) → interpret_command (name n) ≡ some (call n none)
unfolding interpret_command split_args dispatch strcmp
interpret_command-name Name.help = refl
interpret_command-name Name.clear = refl
interpret_command-name Name.about = refl
interpret_command-name Name.halt = refl
interpret_command-name Name.echo = refl
interpret_command-name Name.uname = refl
interpret_command-name Name.req_syscallop = refl
interpret_command-name Name.memtest = refl
interpret_command-name Name.ls = refl
interpret_command-name Name.cd = refl
interpret_command-name Name.pwd = refl
interpret_command-name Name.cat = refl
interpret_command-name Name.meminfo = refl
interpret_command-name Name.loop = refl
interpret_command-name Name.diskinfo = refl
interpret_command-name Name.partinfo = refl
interpret_command-name Name.mkpart = refl
interpret_command-name Name.mkfs = refl
interpret_command-name Name.install = refl
interpret_command-name Name.lsdisk = refl
interpret_command-name Name.catdisk = refl
interpret_command-name Name.runelf = refl

after_name :
    (n : Name) (s : List ℕ) → interpret_command (name n ++ b' ' ∷ s) ≡ some (call n (skip_spaces s))
unfolding interpret_command split_args dispatch strcmp
after_name Name.help s = refl
after_name Name.clear s = refl
after_name Name.about s = refl
after_name Name.halt s = refl
after_name Name.echo s = refl
after_name Name.uname s = refl
after_name Name.req_syscallop s = refl
after_name Name.memtest s = refl
after_name Name.ls s = refl
after_name Name.cd s = refl
after_name Name.pwd s = refl
after_name Name.cat s = refl
after_name Name.meminfo s = refl
after_name Name.loop s = refl
after_name Name.diskinfo s = refl
after_name Name.partinfo s = refl
after_name Name.mkpart s = refl
after_name Name.mkfs s = refl
after_name Name.install s = refl
after_name Name.lsdisk s = refl
after_name Name.catdisk s = refl
after_name Name.runelf s = refl

skip_spaces-replicate : (k : ℕ) (s : List ℕ) → skip_spaces (replicate k b' ' ++ s) ≡ skip_spaces s
unfolding skip_spaces
skip_spaces-replicate zero s = refl
skip_spaces-replicate (suc k) s = skip_spaces-replicate k s

skip_spaces-word : (c : ℕ) (s : List ℕ) → c ≢ 0 → c ≢ b' ' → skip_spaces (c ∷ s) ≡ some (c ∷ s)
unfolding skip_spaces
skip_spaces-word c s nz ns = ground arith

-- A line of a command's name, one space or more, and an argument that starts with another character
-- calls that command with that argument, inner and trailing spaces included.
pub interpret_command-call :
    (n : Name) (k c : ℕ) (s : List ℕ)
    → c ≢ 0
    → c ≢ b' '
    → interpret_command (name n ++ b' ' ∷ (replicate k b' ' ++ c ∷ s))
      ≡ some (call n (some (c ∷ s)))
interpret_command-call n k c s nz ns =
    after_name n (replicate k b' ' ++ c ∷ s)
    ∙ ap (λ a. some (call n a)) (skip_spaces-replicate k (c ∷ s) ∙ skip_spaces-word c s nz ns)
