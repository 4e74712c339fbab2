-- ===== src/User/Calls/Answers.antt =====
-- What a program learns of a call that the kernel has served.
use sysu_ysosv.Prelude.{
  ℕ, ◌%◌, ◌^◌, ◌<◌, ◌≡◌, refl, Bool, false, not, some, is_some, [], ◌∷◌, ◌++◌, arith, Outcome,
  returns, ◌>>=◌, Bool-cases, inl, inr,
}
use sysu_ysosv.Prelude.Map.{Map, lookup, insert, remove}
use sysu_ysosv.Memory.X86.{X86}
use sysu_ysosv.Resource.{KeyQueue, FileIo, close_handle}
use sysu_ysosv.Sync.{wake_up, signal_sem}
use sysu_ysosv.Proc.Context.{Context}
use sysu_ysosv.Proc.State.{Family, Process, pause}
use sysu_ysosv.Proc.Spawn.{UserSelectors}
use sysu_ysosv.Proc.Calls.{current_family, close_file, on_sems}
use sysu_ysosv.Proc.Schedule.Semaphores.{sem_signal-eq}
use sysu_ysosv.Syscall
use sysu_ysosv.Syscall.Dispatch.{from_number, Surroundings, Caller, serve, dispatcher}
use sysu_ysosv.Syscall.Dispatch.Numbers.{from_number-number}
use sysu_ysosv.User.Calls.{syscall3, sys_close_file, sys_sem_signal, int_0x80}

module _ (x : X86) (q : KeyQueue) (io : FileIo) (w : Surroundings io.File) (physical_offset : ℕ)
    (selectors : UserSelectors) where
  abbrev pub kernel_call :
      Context
      → Caller x q io w physical_offset selectors
      → Outcome (Context × Caller x q io w physical_offset selectors)
  kernel_call = dispatcher x q io w physical_offset selectors

  -- The call that a program makes with three arguments is the one that the kernel serves, with these arguments; what the
  -- service leaves in rax is the answer.
  pub syscall3-serve :
      (n : Syscall.Syscall) (arg0 arg1 arg2 : ℕ) (c : Context)
      (s : Caller x q io w physical_offset selectors)
      → syscall3 kernel_call n arg0 arg1 arg2 c s ≡ (do
        (c', s') ←
            serve x q io w physical_offset selectors n
              (record { arg0 = arg0; arg1 = arg1; arg2 = arg2 })
              (record c {
                regs = record c.regs { rax = Syscall.number n; rdi = arg0; rsi = arg1; rdx = arg2 };
              })
              s
        returns (c'.regs.rax, c', s'))
  unfolding syscall3 int_0x80 dispatcher
  syscall3-serve n arg0 arg1 arg2 c s = rw (from_number-number n) refl

  -- What the caller is told, and the families of processes after the call
  abbrev pub told :
      Outcome (Bool × Context × Caller x q io w physical_offset selectors)
      → Outcome (Bool × Map (Family io.File))
  told r = do (answer, c, s) ← r; returns (answer, s.kernel.families)

  -- Suppose that the process that runs is of a family. Then sys_close_file closes the descriptor, and answers false if there was
  -- one to close and true if there was none.
  pub sys_close_file_inverted :
      (fd : ℕ) (c : Context) (s : Caller x q io w physical_offset selectors) (id : ℕ)
      (f : Family io.File)
      → fd < 2 ^ 8
      → current_family s.kernel ≡ returns (id, f)
      → told (sys_close_file kernel_call fd c s)
        ≡ returns (
          not (is_some (lookup fd f.resources)),
          insert id (record f { resources = remove fd f.resources }) s.kernel.families,
        )
  unfolding dispatcher sys_close_file serve from_number Syscall.close_service close_file
      close_handle
  sys_close_file_inverted fd c s id f small e =
      let same : fd % 2 ^ 8 ≡ fd = ground arith in
      elim (Bool-cases (is_some (lookup fd f.resources))) [
        | inl there ↦ rw (same, e, ◌>>=◌, there) refl
        | inr gone ↦ rw (same, e, ◌>>=◌, gone) refl
      ]

  -- Suppose that a process waits for the semaphore at a key. Then sys_sem_signal wakes it, and still answers false: the
  -- number of the call is left in rax.
  pub sys_sem_signal_denies :
      (key pid : ℕ) (c : Context) (s : Caller x q io w physical_offset selectors) (p : Process)
      (families : Map (Family io.File))
      → key < 2 ^ 32
      → lookup pid s.kernel.processes ≡ some p
      → on_sems (signal_sem key) s.kernel
        ≡ returns (wake_up pid, record s.kernel { families = families })
      → (c' : Context) × (sys_sem_signal kernel_call key c s
          ≡ returns (
            false,
            c',
            record s {
              kernel = record s.kernel {
                processes = insert pid (pause p) s.kernel.processes;
                ready_queue = s.kernel.ready_queue ++ pid ∷ [];
                families = families;
              };
            },
          ))
  unfolding dispatcher sys_sem_signal serve from_number Syscall.sem_service
  sys_sem_signal_denies key pid c s p families small there e =
      let same : key % 2 ^ 32 ≡ key = ground arith in
      let c' = record c { regs = record c.regs { rax = 64; rdi = 2; rsi = key } } in
      (c', rw (same, sem_signal-eq key pid c' s.kernel p families there e) refl)
