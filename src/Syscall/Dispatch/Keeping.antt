-- ===== src/Syscall/Dispatch/Keeping.antt =====
-- The system calls keep the queues in agreement with the processes.
use sysu_ysosv.Prelude.{
  ◌||◌, ℕ, ◌%◌, ◌^◌, ◌==◌, ◌≡◌, ◌≢◌, none, some, List, inl, inr, Outcome, returns, panics, ◌>>=◌,
  Outcome-cases, Option-cases, Bool-cases, if◌then◌else◌,
}
use sysu_ysosv.Prelude.Map.{lookup}
use sysu_ysosv.Memory.X86.{X86}
use sysu_ysosv.Elf.{Ram}
use sysu_ysosv.Resource.{KeyQueue, FileIo}
use sysu_ysosv.Proc.Context.{Context, set_rax}
use sysu_ysosv.Proc.State.{Kernel, next_pid}
use sysu_ysosv.Proc.Spawn.{Program, UserSelectors}
use sysu_ysosv.Proc.Schedule.{IsScheduled}
use sysu_ysosv.Proc.Schedule.Calls.{Keeps, wait_pid-Keeps}
use sysu_ysosv.Proc.Schedule.SemCalls.{
  sem_wait-Keeps, sem_signal-Keeps, new_sem-Keeps, drop_sem-Keeps, answer-Keeps,
}
use sysu_ysosv.Proc.Schedule.Forked.{fork-Keeps}
use sysu_ysosv.Proc.Schedule.Reach.{exit-Keeps, brk-Keeps}
use sysu_ysosv.Proc.Schedule.Spawned.{Spawned, elf_spawn-Keeps}
use sysu_ysosv.Proc.Schedule.FileCalls.{
  ReadKeeps, read-Keeps, write-Keeps, open_file-Keeps, close_file-Keeps,
}
use sysu_ysosv.Syscall
use sysu_ysosv.Syscall.Dispatch.{
  from_number, Surroundings, Caller, answers, resumes, bytes_at, write_at, spawn_service, read_call,
  allocate_service, deallocate_service, serve, dispatcher,
}

module _ {T F K : Type 0} where
  sem_service-Keeps :
      (args : Syscall.SyscallArgs) (c : Context) (k : Kernel T F K)
      → IsScheduled k
      → Keeps (Syscall.sem_service args c k)
  unfolding Syscall.sem_service
  sem_service-Keeps args c k kept =
      let key = args.arg1 % 2 ^ 32 in
      elim (Bool-cases (args.arg0 == 0)) [
        | inl e0 ↦
            rw (Syscall.sem_service, e0)
              (answer-Keeps (λ r. set_rax r c) _ (new_sem-Keeps key args.arg2 k kept))
        | inr e0 ↦ elim (Bool-cases (args.arg0 == 1)) [
          | inl e1 ↦
              rw (Syscall.sem_service, e0, e1)
                (answer-Keeps (λ r. set_rax r c) _ (drop_sem-Keeps key k kept))
          | inr e1 ↦ elim (Bool-cases (args.arg0 == 2)) [
            | inl e2 ↦ rw (Syscall.sem_service, e0, e1, e2) (sem_signal-Keeps key c k kept)
            | inr e2 ↦ elim (Bool-cases (args.arg0 == 3)) [
              | inl e3 ↦ rw (Syscall.sem_service, e0, e1, e2, e3) (sem_wait-Keeps key c k kept)
              | inr e3 ↦ rw (Syscall.sem_service, e0, e1, e2, e3) kept
            ]
          ]
        ]
      ]

  get_pid_service-Keeps :
      (k : Kernel T F K)
      → IsScheduled k
      → Keeps {A = ℕ} (do pid ← Syscall.get_pid_service k; returns (pid, k))
  get_pid_service-Keeps k kept = elim (Outcome-cases (Syscall.get_pid_service k)) [
    | inl e ↦ rw e tt
    | inr (pid, e) ↦ rw e kept
  ]

module _ (x : X86) {F K : Type 0} where
  brk_service-Keeps :
      (args : Syscall.SyscallArgs) (k : Kernel x.Table F K)
      → IsScheduled k
      → Keeps (Syscall.brk_service x args k)
  unfolding Syscall.brk_service
  brk_service-Keeps args k kept = elim (Bool-cases (args.arg0 == 0)) [
    | inl e ↦ rw (Syscall.brk_service, e) (brk-Keeps x none k kept)
    | inr e ↦ elim (Outcome-cases (x.virt_addr args.arg0)) [
      | inl bad ↦ rw (Syscall.brk_service, e, bad) tt
      | inr (addr, good) ↦ rw (Syscall.brk_service, e, good) (brk-Keeps x (some addr) k kept)
    ]
  ]

module _ (x : X86) (q : KeyQueue) (io : FileIo) (w : Surroundings io.File) (physical_offset : ℕ)
    (selectors : UserSelectors) where
  -- A system call that returns leaves the queues in agreement with the processes.
  abbrev pub StaysScheduled : Outcome (Context × Caller x q io w physical_offset selectors) → Type 0
  StaysScheduled panics = Unit {0}
  StaysScheduled (returns (c, s)) = IsScheduled s.kernel

  -- The next number of the counter, for a call that gives it to a process
  abbrev pub HasNumber : Syscall.Syscall → Kernel x.Table io.File q.Keys → Type 0
  HasNumber Syscall.sys_fork k =
      (next_pid k.counter ≢ 0) × (lookup (next_pid k.counter) k.processes ≡ none)
  HasNumber Syscall.sys_spawn k =
      (next_pid k.counter ≢ 0) × (lookup (next_pid k.counter) k.processes ≡ none)
  HasNumber _ k = Unit {0}

  answers-StaysScheduled :
      (c : Context) (s : Caller x q io w physical_offset selectors)
      (r : Outcome (ℕ × Kernel x.Table io.File q.Keys))
      → Keeps r
      → StaysScheduled (answers x q io w physical_offset selectors c s r)
  answers-StaysScheduled c s panics h = tt
  answers-StaysScheduled c s (returns (value, k)) h = h

  resumes-StaysScheduled :
      (s : Caller x q io w physical_offset selectors)
      (r : Outcome (Context × Kernel x.Table io.File q.Keys))
      → Keeps r
      → StaysScheduled (resumes x q io w physical_offset selectors s r)
  resumes-StaysScheduled s panics h = tt
  resumes-StaysScheduled s (returns (c, k)) h = h

  module _ (args : Syscall.SyscallArgs) (c : Context)
      (s : Caller x q io w physical_offset selectors) (kept : IsScheduled s.kernel) where
    read_call-StaysScheduled :
        StaysScheduled (read_call x q io w physical_offset selectors args c s)
    unfolding read_call Syscall.read_service
    read_call-StaysScheduled =
        by_result _
          (read-Keeps q io (args.arg0 % 2 ^ 8) (bytes_at args.arg1 args.arg2 s.user) s.kernel kept)
      where
        by_result :
            (r : Outcome (ℕ × List ℕ × Kernel x.Table io.File q.Keys))
            → ReadKeeps q io r
            → StaysScheduled (do
              (value, buf, k) ← r
              returns
                  (set_rax value c, record s { kernel = k; user = write_at args.arg1 buf s.user }))
        by_result panics h = tt
        by_result (returns (value, buf, k)) h = h

    spawn_service-StaysScheduled :
        next_pid s.kernel.counter ≢ 0
        → lookup (next_pid s.kernel.counter) s.kernel.processes ≡ none
        → StaysScheduled (spawn_service x q io w physical_offset selectors args c s)
    unfolding spawn_service
    spawn_service-StaysScheduled pos free =
        elim (Option-cases (w.program_at (bytes_at args.arg0 args.arg1 s.user))) [
          | inl missing ↦ rw (spawn_service, missing) tt
          | inr (program, found) ↦
              rw (spawn_service, found)
                (by_result program _ (
                  elf_spawn-Keeps x physical_offset selectors program s.kernel s.ram kept pos free))
        ]
      where
        by_result :
            (program : Program) (r : Outcome (ℕ × Kernel x.Table io.File q.Keys × Ram))
            → Spawned x physical_offset selectors program r
            → StaysScheduled
                (do (pid, k, ram) ← r; returns (set_rax pid c, record s { kernel = k; ram = ram }))
        by_result program panics h = tt
        by_result program (returns (pid, k, ram)) h = h

    allocate_service-StaysScheduled :
        StaysScheduled (allocate_service x q io w physical_offset selectors args c s)
    unfolding allocate_service
    allocate_service-StaysScheduled = elim (Option-cases (w.layout_at args.arg0 s.user)) [
      | inl null ↦ rw (allocate_service, null) tt
      | inr (layout, there) ↦ elim (Bool-cases (w.size layout == 0)) [
        | inl empty ↦ rw (allocate_service, there, ◌>>=◌, empty) kept
        | inr some_size ↦ elim (Option-cases (w.allocate_first_fit layout s.heap).0) [
          | inl full ↦ rw (allocate_service, there, ◌>>=◌, some_size, full) kept
          | inr (ptr, got) ↦ rw (allocate_service, there, ◌>>=◌, some_size, got) kept
        ]
      ]
    ]

    deallocate_service-StaysScheduled :
        StaysScheduled (deallocate_service x q io w physical_offset selectors args c s)
    unfolding deallocate_service
    deallocate_service-StaysScheduled = elim (Option-cases (w.layout_at args.arg1 s.user)) [
      | inl null ↦ rw (deallocate_service, null) tt
      | inr (layout, there) ↦ elim (Bool-cases (args.arg0 == 0 || w.size layout == 0)) [
        | inl nothing ↦ rw (deallocate_service, there, nothing) kept
        | inr gives ↦ rw (deallocate_service, there, gives) kept
      ]
    ]

    serve-StaysScheduled :
        (call : Syscall.Syscall)
        → HasNumber call s.kernel
        → StaysScheduled (serve x q io w physical_offset selectors call args c s)
    unfolding serve Syscall.write_service Syscall.exit_service Syscall.wait_pid_service
        Syscall.open_service Syscall.close_service Syscall.fork_service
    serve-StaysScheduled Syscall.sys_read h = read_call-StaysScheduled
    serve-StaysScheduled Syscall.sys_write h =
        answers-StaysScheduled c s _
          (write-Keeps q io (args.arg0 % 2 ^ 8) (bytes_at args.arg1 args.arg2 s.user) s.kernel kept)
    serve-StaysScheduled Syscall.sys_get_pid h =
        answers-StaysScheduled c s _ (get_pid_service-Keeps s.kernel kept)
    serve-StaysScheduled Syscall.sys_brk h =
        answers-StaysScheduled c s _ (brk_service-Keeps x args s.kernel kept)
    serve-StaysScheduled Syscall.sys_spawn (pos, free) = spawn_service-StaysScheduled pos free
    serve-StaysScheduled Syscall.sys_exit h =
        resumes-StaysScheduled s _ (exit-Keeps x args.arg0 s.kernel kept)
    serve-StaysScheduled Syscall.sys_wait_pid h =
        resumes-StaysScheduled s _ (wait_pid-Keeps (args.arg0 % 2 ^ 16) c s.kernel kept)
    serve-StaysScheduled Syscall.sys_open h =
        answers-StaysScheduled c s _
          (open_file-Keeps q io (w.file_at (bytes_at args.arg0 args.arg1 s.user)) s.kernel kept)
    serve-StaysScheduled Syscall.sys_close h = answers-StaysScheduled c s _ (
        answer-Keeps (λ closed. if closed then 1 else 0) _
          (close_file-Keeps q io (args.arg0 % 2 ^ 8) s.kernel kept))
    serve-StaysScheduled Syscall.sys_stat h = kept
    serve-StaysScheduled Syscall.sys_list_app h = kept
    serve-StaysScheduled Syscall.sys_list_dir h = kept
    serve-StaysScheduled Syscall.sys_allocate h = allocate_service-StaysScheduled
    serve-StaysScheduled Syscall.sys_deallocate h = deallocate_service-StaysScheduled
    serve-StaysScheduled Syscall.sys_print_info h = kept
    serve-StaysScheduled Syscall.sys_time h = kept
    serve-StaysScheduled Syscall.sys_fork (pos, free) =
        resumes-StaysScheduled s _ (fork-Keeps x c s.kernel kept pos free)
    serve-StaysScheduled Syscall.sys_sem h =
        resumes-StaysScheduled s _ (sem_service-Keeps args c s.kernel kept)
    serve-StaysScheduled Syscall.sys_unknown h = kept

  -- Suppose that the queues agree with the processes, and that the next number of the counter is neither 0 nor in use if the call is
  -- fork or spawn. Then whatever registers a process makes a system call with, as long as the call returns, the queues agree with
  -- the processes after it.
  pub dispatcher-StaysScheduled :
      (c : Context) (s : Caller x q io w physical_offset selectors)
      → IsScheduled s.kernel
      → HasNumber (from_number c.regs.rax) s.kernel
      → StaysScheduled (dispatcher x q io w physical_offset selectors c s)
  unfolding dispatcher
  dispatcher-StaysScheduled c s kept h =
      serve-StaysScheduled (record { arg0 = c.regs.rdi; arg1 = c.regs.rsi; arg2 = c.regs.rdx }) c s
        kept (from_number c.regs.rax) h
