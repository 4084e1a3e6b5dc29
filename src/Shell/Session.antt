-- ===== src/Shell/Session.antt =====
-- The commands as `interpret_command` of kernel/shell/interpreter.c calls them, the loop command and the
-- main loop of kernel/shell/shell.c.
pub mod Typing
use alderkernel.Prelude.{
  ℕ, zero, suc, ◌+◌, ◌-◌, not, Bool, true, false, Option, none, some, List, [], ◌∷◌, ◌==◌,
  if◌then◌else◌, add32, ◌|>◌,
}
use alderkernel.Util.{str_copy}
use alderkernel.Console.{Console, print_text, print_uint, say}
use alderkernel.Ps2.{Keyboard, key_buffer_pop, keyboard_handler}
use alderkernel.Vfs.{Allocator, Vfs}
use alderkernel.Heap.{Heap}
use alderkernel.Elf.{Memory}
use alderkernel.Syscalls.{Outcome, returned, halted, divide_error, out_of_fuel}
use alderkernel.Interpreter.{
  Command, help, clear, about, halt, echo, uname, req_syscallop, memtest, ls, cd, pwd, cat, meminfo,
  loop, diskinfo, partinfo, mkpart, mkfs, install, lsdisk, catdisk, runelf, unknown, split_args,
  interpret_command,
}
use alderkernel.Shell.{Shell, shell_key}
use alderkernel.Shell.Basics.{
  command_help, command_clear, command_about, command_echo, command_halt, print_prompt,
}
use alderkernel.Shell.Files.{command_ls, command_cd, command_pwd, command_cat}
use alderkernel.Shell.Disks.{Drive, Machine, command_mkpart, command_mkfs}
use alderkernel.Shell.Disks.Files.{command_lsdisk, command_catdisk, command_runelf}
use alderkernel.Shell.Disks.Install.{command_install}
use alderkernel.Shell.Info.{
  Ram, command_uname, command_req_syscallop, command_memtest, command_meminfo, command_diskinfo,
  command_partinfo,
}

-- What a session stands on: the drive, the memory under test, the allocator of the file tree, what a
-- program does once it is entered, the address of the local that takes the entry point, what the
-- stack held where the loop command has its arrays, and the fuel for each walk along a list or a path.
pub record Setup : Type 1 where
  pub drive : Drive
  pub tested : Ram
  pub allocator : Allocator
  pub program : ℕ → Memory → Memory
  pub out_entry : ℕ
  pub stack : List ℕ
  pub fuel : ℕ

module _ (u : Setup) where
  -- `arrivals` has the scan codes that the keyboard sends before each look at the ring.
  pub record Session : Type 0 where
    pub machine : Machine u.drive
    pub vfs : Vfs u.allocator
    pub ram : u.tested.State
    pub keyboard : Keyboard
    pub arrivals : List (List ℕ)

  -- How a command ends: it returns, the processor is halted, it divides by zero, or the fuel is out.
  pub data Ended (A : Type 0) : Type 0 where
    back : A → Ended A
    stopped : Session → Ended A
    trapped : Session → Ended A
    exhausted : Ended A

  abbrev pub follow : {A B : Type 0} → Ended A → (A → Ended B) → Ended B
  follow (back x) f = f x
  follow (stopped s) f = stopped s
  follow (trapped s) f = trapped s
  follow exhausted f = exhausted

  abbrev pub on_machine : (Machine u.drive → Machine u.drive) → Session → Session
  on_machine f s = record s { machine = f s.machine }

  abbrev pub show_on : (Console → Console) → Session → Session
  show_on f s = on_machine (λ m. record m { console = f m.console }) s

  abbrev pub if_shown : Option Console → Session → Ended Session
  if_shown none s = exhausted
  if_shown (some c) s = back (show_on (λ _. c) s)

  abbrev pub if_done : Option (Machine u.drive) → Session → Ended Session
  if_done none s = exhausted
  if_done (some m) s = back (record s { machine = m })

  abbrev pub with_heap : Heap → Console → Session → Session
  with_heap h c s = record s { machine = record s.machine { heap = h; console = c } }

  abbrev pub after_syscall : Outcome → Session → Ended Session
  after_syscall (returned h c) s = back (with_heap h c s)
  after_syscall (halted h c) s = stopped (with_heap h c s)
  after_syscall (divide_error h c) s = trapped (with_heap h c s)
  after_syscall out_of_fuel s = exhausted

  -- The scan codes that the interrupt handler takes.
  unfoldable pub interrupts : List ℕ → Keyboard → Keyboard
  interrupts [] k = k
  interrupts (code ∷ codes) k = interrupts codes (keyboard_handler code k)

  -- `key_buffer_pop()`, after the interrupts that come before it.
  unfoldable pub poll : Session → ℕ × Session
  poll s = elim s.arrivals [
    | [] ↦ let (c, k) = key_buffer_pop s.keyboard in (c, record s { keyboard = k })
    | (codes ∷ arrivals) ↦
        let (c, k) = key_buffer_pop (interrupts codes s.keyboard) in
        (c, record s { keyboard = k; arrivals = arrivals })
  ]

  -- while (key_buffer_pop() != 0)
  unfoldable pub drain_keys : ℕ → Session → Ended Session
  drain_keys zero s = exhausted
  drain_keys (suc fuel) s =
      let (c, s1) = poll s in let rest = drain_keys fuel s1 in if c == 0 then back s1 else rest

  module _ (again : List ℕ → Session → Ended Session) where
    -- The loop up to the key that stops it: the count of the iterations.
    unfoldable pub loop_rounds : ℕ → List ℕ → List ℕ → ℕ → Session → Ended (ℕ × Session)
    loop_rounds zero saved working iterations s = exhausted
    loop_rounds (suc fuel) saved working iterations s =
        let (c, s1) = poll s in
        let copy = str_copy working saved in
        let rest =
          follow (again copy s1)
            (λ s2. loop_rounds fuel saved (split_args copy).0 (add32 iterations 1) s2) in
        if not (c == 0) then back (iterations, s1) else rest

    unfoldable pub command_loop : ℕ → Option (List ℕ) → Session → Ended Session
    command_loop fuel none s = back (show_on (say "Usage: loop <command>\n") s)
    command_loop fuel (some arg) s =
        let saved = str_copy u.stack arg in
        let s1 =
          s
          |> show_on (say "Looping '")
          |> show_on (print_text saved)
          |> show_on (say "' at max speed - press any key to stop.\n") in
        follow (drain_keys fuel s1) (λ s2. follow (loop_rounds fuel saved u.stack 0 s2) (λ r. back (
          r.1
          |> show_on (say "\nLoop stopped after ")
          |> show_on (print_uint r.0)
          |> show_on (say " iterations.\n"))))

    -- The call of a command, `fuel` rounds at most for the loop command.
    unfoldable pub run_command : ℕ → Command → Session → Ended Session
    run_command fuel help s = back (show_on command_help s)
    run_command fuel clear s = back (show_on command_clear s)
    run_command fuel about s = back (show_on command_about s)
    run_command fuel halt s = stopped (show_on command_halt s)
    run_command fuel (echo args) s = back (show_on (command_echo args) s)
    run_command fuel (uname args) s = back (show_on (command_uname args) s)
    run_command fuel (req_syscallop args) s =
        after_syscall (command_req_syscallop u.fuel args s.machine.heap s.machine.console) s
    run_command fuel memtest s =
        let (ram, c) = command_memtest u.tested s.ram s.machine.console in
        back (show_on (λ _. c) (record s { ram = ram }))
    run_command fuel (ls args) s = back (show_on (command_ls u.allocator args s.vfs) s)
    run_command fuel (cd args) s =
        let (v, c) = command_cd u.allocator args s.vfs s.machine.console in
        back (show_on (λ _. c) (record s { vfs = v }))
    run_command fuel pwd s = if_shown (command_pwd u.allocator u.fuel s.vfs s.machine.console) s
    run_command fuel (cat args) s = back (show_on (command_cat u.allocator args s.vfs) s)
    run_command fuel meminfo s = back (show_on (command_meminfo s.machine.heap) s)
    run_command fuel (loop args) s = command_loop fuel args s
    run_command fuel diskinfo s = back (on_machine (command_diskinfo u.drive) s)
    run_command fuel partinfo s = back (on_machine (command_partinfo u.drive) s)
    run_command fuel mkpart s = back (on_machine (command_mkpart u.drive) s)
    run_command fuel mkfs s = back (on_machine (command_mkfs u.drive) s)
    run_command fuel install s = if_done (command_install u.drive s.machine) s
    run_command fuel (lsdisk args) s = back (on_machine (command_lsdisk u.drive args) s)
    run_command fuel (catdisk args) s = if_done (command_catdisk u.drive u.fuel args s.machine) s
    run_command fuel (runelf args) s =
        if_done (command_runelf u.drive u.program u.out_entry u.fuel args s.machine) s
    run_command fuel (unknown input) s =
        back (
          s
          |> show_on (say "Unknown command: ")
          |> show_on (print_text input)
          |> show_on (say "\n"))

  -- `interpret_command`. The fuel bounds the loops within loops and the rounds of each.
  unfoldable pub run_line : ℕ → List ℕ → Session → Ended Session
  run_line zero line s = exhausted
  run_line (suc fuel) line s = elim (interpret_command line) [
    | none ↦ back s
    | some command ↦ run_command (run_line fuel) fuel command s
  ]

  unfoldable pub prompt : Session → Ended Session
  prompt s = if_shown (print_prompt u.allocator u.fuel s.vfs s.machine.console) s

  -- The end of a round: the line that the key completed, if it did.
  unfoldable pub end_round : ℕ → Option (List ℕ) → Shell → Session → Ended (Shell × Session)
  end_round fuel none sh s = back (sh, s)
  end_round fuel (some line) sh s =
      follow (run_line fuel line s) (λ s1.
        follow (prompt s1) (λ s2. back (record sh { shell_buffer = (split_args line).0 }, s2)))

  -- One round of the main loop. A round that finds no key only waits for the next interrupt.
  unfoldable pub shell_round : ℕ → Shell × Session → Ended (Shell × Session)
  shell_round fuel (sh, s) =
      let (c, s1) = poll s in
      let (sh1, console, line) = shell_key c sh s1.machine.console in
      if c == 0 then back (sh, s1) else end_round fuel line sh1 (show_on (λ _. console) s1)

  unfoldable pub shell_rounds : ℕ → ℕ → Shell × Session → Ended (Shell × Session)
  shell_rounds fuel zero x = back x
  shell_rounds fuel (suc n) x = follow (shell_round fuel x) (λ y. shell_rounds fuel n y)

  -- The start of `shell_start`, up to its loop.
  unfoldable pub shell_welcome : Session → Ended Session
  shell_welcome s =
      prompt (show_on (say "\nWelcome to zSlash.\nType 'help' for a list of commands.\n") s)
