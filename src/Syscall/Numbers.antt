-- ===== src/Syscall/Numbers.antt =====
-- abi/src/lib.rs: the numbers of the system calls.
use ferri_os.Base.{ℕ}

abbrev pub sys_print_num : ℕ
sys_print_num = 1

abbrev pub sys_print_str : ℕ
sys_print_str = 2

abbrev pub sys_fork : ℕ
sys_fork = 3

abbrev pub sys_exec : ℕ
sys_exec = 4

abbrev pub sys_getpid : ℕ
sys_getpid = 5

abbrev pub sys_uptime : ℕ
sys_uptime = 6

abbrev pub sys_exit : ℕ
sys_exit = 7

abbrev pub sys_wait : ℕ
sys_wait = 8

abbrev pub sys_kill : ℕ
sys_kill = 9

abbrev pub sys_sbrk : ℕ
sys_sbrk = 10
