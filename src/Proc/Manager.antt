-- ===== src/Proc/Manager.antt =====
-- pkg/kernel/src/proc/manager.rs and the operations of pkg/kernel/src/proc/process.rs that it calls.
-- The processes are in one map, where a lookup stands for a clone of the Arc and an update for a write
-- under its lock. `unwrap` and `expect` panic. Logging is left out.
use sysu_ysosv.Prelude.{
  ℕ, zero, suc, ◌+◌, ◌-◌, ◌*◌, ◌%◌, ◌^◌, Bool, true, false, Option, none, some, List, [], ◌∷◌, ◌++◌,
  length, ◌==◌, not, if◌then◌else◌, Outcome, returns, panics, unwrap, ◌>>=◌,
}
use sysu_ysosv.Prelude.Map.{lookup, insert, remove, add}
use sysu_ysosv.Memory.X86.{X86}
use sysu_ysosv.Vm.Stack.{stack_max_pages, handle_stack_fault}
use sysu_ysosv.Proc.Context.{Context, set_rax, stack_top, update_stack_frame}
use sysu_ysosv.Proc.AddressSpace.{Spaces, fork_vm, brk_vm, drop_vm}
use sysu_ysosv.Proc.State.{
  Process, Kernel, is_ready, is_dead, next_pid, save, tick, pause, resume, block, put_rax, ready,
  dead,
}

-- KERNEL_PID
abbrev pub kernel_pid : ℕ
kernel_pid = 1

module _ {T F K : Type 0} where
  -- ProcessManager::push_ready
  unfoldable pub push_ready : ℕ → Kernel T F K → Kernel T F K
  push_ready pid k = record k { ready_queue = k.ready_queue ++ pid ∷ [] }

  -- `get_proc(pid).unwrap().write()` and an operation on the process
  unfoldable pub update_proc : ℕ → (Process → Process) → Kernel T F K → Outcome (Kernel T F K)
  update_proc pid f k = do
    p ← unwrap (lookup pid k.processes)
    returns (record k { processes = insert pid (f p) k.processes })

  -- processor::get_pid, which panics if the processor is free
  unfoldable pub get_pid : Kernel T F K → Outcome ℕ
  get_pid k = if k.current == 0 then panics else returns k.current

  -- ProcessManager::current
  unfoldable pub current_proc : Kernel T F K → Outcome (ℕ × Process)
  unfolding get_pid
  current_proc k = do pid ← get_pid k; p ← unwrap (lookup pid k.processes); returns (pid, p)

  -- ProcessManager::add_waiting: entry(pid).or_default().insert(get_pid())
  unfoldable pub add_waiting : ℕ → Kernel T F K → Outcome (Kernel T F K)
  unfolding get_pid
  add_waiting pid k = do
    now ← get_pid k
    let wait_set : List ℕ = elim (lookup pid k.waiting) [ none ↦ [] | some s ↦ s ]
    returns (record k { waiting = insert pid (add now wait_set) k.waiting })

  -- ProcessManager::block_proc
  unfoldable pub block_proc : ℕ → Kernel T F K → Outcome (Kernel T F K)
  unfolding update_proc
  block_proc pid k = update_proc pid block k

  -- ProcessManager::wake_up
  unfoldable pub wake_up : ℕ → Kernel T F K → Outcome (Kernel T F K)
  unfolding update_proc push_ready
  wake_up pid k = do k' ← update_proc pid pause k; returns (push_ready pid k')

  -- `for pid in wait_set` of wake_waiting
  unfoldable pub wake_each : ℕ → List ℕ → Kernel T F K → Outcome (Kernel T F K)
  unfolding update_proc wake_up
  wake_each ret [] k = returns k
  wake_each ret (pid ∷ pids) k = do
    k1 ← update_proc pid (put_rax ret) k
    k2 ← wake_up pid k1
    wake_each ret pids k2

  -- ProcessManager::wake_waiting
  unfoldable pub wake_waiting : ℕ → Kernel T F K → Outcome (Kernel T F K)
  unfolding get_pid wake_each
  wake_waiting ret k = do
    now ← get_pid k
    elim (lookup now k.waiting) [
      | none ↦ returns k
      | some wait_set ↦ wake_each ret wait_set (record k { waiting = remove now k.waiting })
    ]

  -- ProcessManager::get_exit_code
  unfoldable pub get_exit_code : ℕ → Kernel T F K → Outcome (Option ℕ)
  get_exit_code pid k = do p ← unwrap (lookup pid k.processes); returns p.exit_code

  -- ProcessManager::is_proc_alive
  unfoldable pub is_proc_alive : ℕ → Kernel T F K → Bool
  is_proc_alive pid k = elim (lookup pid k.processes) [
    | none ↦ false
    | some p ↦ not (is_dead p.status)
  ]

  -- ProcessManager::save_current
  unfoldable pub save_current : Context → Kernel T F K → Outcome (ℕ × Kernel T F K)
  unfolding current_proc
  save_current c k = do
    (pid, p) ← current_proc k
    returns (pid, record k { processes = insert pid (save c (tick p)) k.processes })

  -- The loop of switch_next: pop processes, and push them back, until one is ready. The fuel is
  -- the number of pops. Without a ready process the loop has no end, which ends here in a panic.
  unfoldable pub fetch_ready : ℕ → Kernel T F K → Outcome (ℕ × Process × Kernel T F K)
  unfolding push_ready
  fetch_ready zero k = panics
  fetch_ready (suc fuel) k = elim k.ready_queue [
    | [] ↦ panics
    | pid ∷ rest ↦
        let popped = record k { ready_queue = rest } in
        let again = fetch_ready fuel (push_ready pid popped) in
        elim (lookup pid k.processes) [
          | none ↦ panics
          | some p ↦ if is_ready p.status then returns (pid, p, popped) else again
        ]
  ]

  -- ProcessManager::switch_next. `restore` hands out the context of the process and loads its
  -- page table.
  unfoldable pub switch_next : Kernel T F K → Outcome (Context × Kernel T F K)
  unfolding fetch_ready
  switch_next k = do
    (pid, p, k') ← fetch_ready (length k.ready_queue) k
    vm ← unwrap p.proc_vm
    returns (
      p.context,
      record k' { processes = insert pid (resume p) k'.processes; current = pid; cr3 = vm.root },
    )

module _ (x : X86) where
  -- The context of the child in ProcessInner::fork: it has the stack pointer of the parent within
  -- the slot of its own stack, and gets 0 as the answer of the call.
  unfoldable pub child_context : ℕ → Context → Outcome Context
  child_context stack_min c = do
    sp ← x.virt_addr (stack_top c % 2 ^ 32 + (stack_min - stack_min % 2 ^ 32))
    returns (set_rax 0 (update_stack_frame sp c))

  -- ProcessInner::fork
  unfoldable pub fork_inner : ℕ → Process → Spaces x.Table → Outcome (Process × Spaces x.Table)
  fork_inner parent p s = do
    own ← unwrap p.proc_vm
    (vm, s') ← fork_vm x ((length p.children + 1) * stack_max_pages) own s
    data_of ← unwrap p.proc_data
    context ← child_context (vm.stack.range.start * 4096) p.context
    returns (
      record {
        parent = some parent;
        children = [];
        ticks_passed = 0;
        status = ready;
        exit_code = none;
        context = context;
        proc_data = some data_of;
        proc_vm = some vm;
      },
      s',
    )

module _ (x : X86) {F K : Type 0} where
  -- Process::kill: dropping the memory recycles the stack, and all of a space that was used last.
  unfoldable pub kill_proc : ℕ → ℕ → Process → Kernel x.Table F K → Outcome (Kernel x.Table F K)
  unfolding drop_vm
  kill_proc pid ret p k = do
    vm ← elim p.proc_vm [ none ↦ returns k.vm | some vm ↦ drop_vm x vm k.vm ]
    returns (record k {
      processes =
          insert pid
            (record p { exit_code = some ret; status = dead; proc_vm = none; proc_data = none })
            k.processes;
      vm = vm;
    })

  -- ProcessManager::kill
  unfoldable pub kill : ℕ → ℕ → Kernel x.Table F K → Outcome (Kernel x.Table F K)
  unfolding kill_proc
  kill pid ret k = elim (lookup pid k.processes) [
    | none ↦ returns k
    | some p ↦ if is_dead p.status then returns k else kill_proc pid ret p k
  ]

  -- ProcessManager::kill_self and kill_current
  unfoldable pub kill_self : ℕ → Kernel x.Table F K → Outcome (Kernel x.Table F K)
  unfolding get_pid kill
  kill_self ret k = do pid ← get_pid k; kill pid ret k

  -- ProcessManager::handle_page_fault. What the memory answers is not looked at.
  unfoldable pub handle_page_fault :
      ℕ → Bool → Kernel x.Table F K → Outcome (Bool × Kernel x.Table F K)
  unfolding current_proc handle_stack_fault
  handle_page_fault addr protection_violation k = do
    (pid, p) ← current_proc k
    elim protection_violation [
      | true ↦ returns (false, k)
      | false ↦ do
        vm ← unwrap p.proc_vm
        (_, stack, mem) ←
            handle_stack_fault x vm.root (not (pid == kernel_pid)) addr vm.stack k.vm.mem
        returns (
          true,
          record k {
            processes =
                insert pid (record p { proc_vm = some (record vm { stack = stack }) }) k.processes;
            vm = record k.vm { mem = mem };
          },
        )
    ]

  -- ProcessManager::brk
  unfoldable pub brk_proc : Option ℕ → Kernel x.Table F K → Outcome (Option ℕ × Kernel x.Table F K)
  unfolding get_pid brk_vm
  brk_proc addr k = do
    pid ← get_pid k
    elim (lookup pid k.processes) [
      | none ↦ returns (none, k)
      | some p ↦ do
        vm ← unwrap p.proc_vm
        (r, spaces) ← brk_vm x (not (pid == kernel_pid)) addr vm k.vm
        returns (r, record k { vm = spaces })
    ]

  -- ProcessManager::fork and Process::fork
  unfoldable pub fork_proc : Kernel x.Table F K → Outcome (ℕ × Kernel x.Table F K)
  unfolding current_proc fork_inner
  fork_proc k = do
    (pid, p) ← current_proc k
    let child = next_pid k.counter
    (q, s) ← fork_inner x pid p k.vm
    let p' = put_rax child (record p { children = p.children ++ child ∷ [] })
    returns (
      child,
      record k { processes = insert child q (insert pid p' k.processes); counter = child; vm = s },
    )
