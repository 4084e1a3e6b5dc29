-- ===== src/Shell/Basics.antt =====
-- The commands that only print and the prompt, of kernel/shell/shell.c, and the clearing of the screen,
-- `clear_screen` of kernel/main.c.
use alderkernel.Prelude.{
  ℕ, zero, suc, ◌+◌, ◌*◌, ◌^◌, Option, none, some, List, ◌++◌, codes, set, bit_or, ◌|>◌,
}
use alderkernel.Console.{Console, print_text, say, clear_screen_reset_cursor, screen_size}
use alderkernel.Vfs.{Allocator, Vfs, vfs_print_cwd_path}

-- The loop of `clear_screen` from cell `i` on, with `n` left.
unfoldable pub fill_screen : ℕ → ℕ → ℕ → List ℕ → List ℕ
fill_screen zero i empty buffer = buffer
fill_screen (suc n) i empty buffer = fill_screen n (i + 1) empty (set buffer i empty)

unfoldable pub clear_screen : ℕ → Console → Console
clear_screen color c =
    clear_screen_reset_cursor
      (record c { video = fill_screen screen_size 0 (bit_or 0x20 (color * 2 ^ 8)) c.video })

unfoldable pub command_clear : Console → Console
command_clear c = clear_screen 0 c

unfoldable pub command_about : Console → Console
command_about c =
    say
      "AlderKernel\nA small hobby operating system kernel.\nShell: zSlash\nMade by loren-wastaken\n"
      c

unfoldable pub command_echo : List ℕ → Console → Console
command_echo args c = c |> print_text args |> say "\n"

-- Up to the halt.
unfoldable pub command_halt : Console → Console
command_halt c = say "CPU halted.\n" c

-- The fuel is for the way up from the working directory.
unfoldable pub print_prompt : (a : Allocator) → ℕ → Vfs a → Console → Option Console
print_prompt a fuel v c = elim (vfs_print_cwd_path a fuel v (say "\nzSlash " c)) [
  | none ↦ none
  | some c1 ↦ some (say "> " c1)
]

-- The literal of `command_help`, one line of it in each row.
abbrev help_text : List ℕ
help_text =
    codes "Available commands:\n"
    ++ (codes "help                       - show this list\n"
        ++ (codes "clear                      - clear the screen\n"
            ++ (codes "about                      - information about AlderKernel\n"
                ++ (codes "echo <text>                - print text\n"
                    ++ (codes "uname [-a|-s|-r|-m]        - show system info\n"
                        ++ (codes
                              "req-syscallop <number>     - request a syscall operation (stub)\n"
                            ++ (codes "memtest                    - run a simple memory test\n"
                                ++ (codes
                                      "meminfo                    - show physical + heap memory stats\n"
                                    ++ (codes "ls [path]                  - list a directory\n"
                                        ++ (codes "cd [path]                  - change directory\n"
                                            ++ (codes
                                                  "pwd                        - print working directory\n"
                                                ++ (codes
                                                      "cat <file>                 - print a file's contents\n"
                                                    ++ (codes
                                                          "halt                       - stop the CPU\n"
                                                        ++ (codes
                                                            "loop <command>             - repeat a command at max speed until a key is pressed\n"
                                                            ++ (codes
                                                            "diskinfo                   - probe primary ATA disk and dump MBR\n"
                                                            ++ (codes
                                                            "partinfo                   - list MBR partition table entries\n"
                                                            ++ (codes
                                                            "runelf <file>              - load and run a trusted ELF32 binary (ring 0, no isolation)\n"
                                                            ++ (codes
                                                            "\nPress Up/Down to recall previous commands.\n"))))))))))))))))))

unfoldable pub command_help : Console → Console
command_help c = print_text help_text c
