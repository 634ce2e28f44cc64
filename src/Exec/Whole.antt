-- ===== src/Exec/Whole.antt =====
-- kernel/src/exec/mod.rs, `exec`: the loader and the commit together.
use ferri_os.Base.{ℕ, List, Ret, ok, err, panic}
use ferri_os.Base.{Error, Panic}
use ferri_os.Memory.{Memory, Mapper}
use ferri_os.Memory.Paging.{Paging}
use ferri_os.Kernel.{Kernel}
use ferri_os.Exec.Image.{Exec}
use ferri_os.Exec.Commit.{UserProgram, commit_exec}
use ferri_os.Exec.Prepared.{Found, Prepared}
use ferri_os.Exec.Rollback.{Committed}

module _ (x86 : Paging) (mapper : Mapper) (programs : List UserProgram) (path : List ℕ)
    (argv : List (List ℕ)) (k : Kernel) where
  -- What a successful `exec` has found and done: the program, its image and the commit.
  pub record Replaced (k1 : Kernel) : Type 0 where
    pub elf : List ℕ
    pub prepared : Exec
    pub memory : Memory
    pub program : Found programs path elf
    pub image : Prepared x86 mapper elf argv k.memory prepared
    pub committed_is : Committed prepared (record k { memory = memory }) k1

  -- How `exec` ends.
  pub data Executes : Ret Kernel (Unit {0}) → Type 0 where
    refused : (e : Error) (m : Memory) → Executes (err e (record k { memory = m }))
    stopped : (p : Panic) → Executes (panic p)
    replaced : (k1 : Kernel) → Replaced k1 → Executes (ok tt k1)

  -- The code after `lookup`, for the memory and the image that the loader gives.
  finish : Ret Memory Exec → Ret Kernel (Unit {0})
  finish (ok prepared m) = commit_exec prepared (record k { memory = m })
  finish (err e m) = err e (record k { memory = m })
  finish (panic p) = panic p
