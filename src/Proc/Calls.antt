-- ===== src/Proc/Calls.antt =====
-- pkg/kernel/src/proc/mod.rs: what interrupt handlers ask of the processes. Interrupts are off during
-- each call, so it is one step. `context` is that of the interrupted process when the call begins,
-- and of the process to run next when it ends. pkg/kernel/src/proc/data.rs is the part of a
-- call that works on the descriptors and semaphores of the family.
use sysu_ysosv.Prelude.{
  ℕ, Bool, true, false, Option, none, some, List, if◌then◌else◌, Outcome, returns, panics, unwrap,
  ◌>>=◌,
}
use sysu_ysosv.Prelude.Map.{lookup, insert}
use sysu_ysosv.Memory.X86.{X86}
use sysu_ysosv.Sync.{
  Sems, ok, not_exist, block, wake_up, wait_sem, signal_sem, insert_sem, remove_sem,
}
use sysu_ysosv.Resource.{
  KeyQueue, FileIo, file, read_handle, write_handle, open_handle, close_handle, minus_one,
}
use sysu_ysosv.Proc.Context.{Context, set_rax}
use sysu_ysosv.Proc.State.{Kernel, Family}
use sysu_ysosv.Proc.Manager

module _ {T F K : Type 0} where
  -- The family of the current process: `current().write()` and its `proc_data`.
  unfoldable pub current_family : Kernel T F K → Outcome (ℕ × Family F)
  unfolding Manager.current_proc
  current_family k = do
    (pid, p) ← Manager.current_proc k
    data_of ← unwrap p.proc_data
    family ← unwrap (lookup data_of.family k.families)
    returns (data_of.family, family)

  -- An operation on the semaphores of the current process.
  unfoldable pub on_sems :
      {A : Type 0} → (Sems → A × Sems) → Kernel T F K → Outcome (A × Kernel T F K)
  unfolding current_family
  on_sems op k = do
    (id, family) ← current_family k
    let (r, sems) = op family.semaphores
    returns (r, record k { families = insert id (record family { semaphores = sems }) k.families })

  -- switch
  unfoldable pub switch : Context → Kernel T F K → Outcome (Context × Kernel T F K)
  unfolding Manager.save_current Manager.push_ready Manager.switch_next
  switch context k = do
    (pid, k1) ← Manager.save_current context k
    Manager.switch_next (Manager.push_ready pid k1)

  -- wait_pid
  unfoldable pub wait_pid : ℕ → Context → Kernel T F K → Outcome (Context × Kernel T F K)
  unfolding Manager.get_pid Manager.is_proc_alive Manager.save_current Manager.block_proc
      Manager.add_waiting Manager.switch_next Manager.get_exit_code
  wait_pid pid context k = elim (Manager.is_proc_alive pid k) [
    | true ↦ do
      now ← Manager.get_pid k
      (_, k1) ← Manager.save_current context k
      k2 ← Manager.block_proc now k1
      k3 ← Manager.add_waiting pid k2
      Manager.switch_next k3
    | false ↦ do
      exit_code ← Manager.get_exit_code pid k
      code ← unwrap exit_code
      returns (set_rax code context, k)
  ]

  -- sem_wait, once the process that runs is known
  unfoldable pub sem_wait_as : ℕ → ℕ → Context → Kernel T F K → Outcome (Context × Kernel T F K)
  unfolding on_sems wait_sem Manager.save_current Manager.block_proc Manager.switch_next
  sem_wait_as pid key context k = do
    (ret, k') ← on_sems (wait_sem key pid) k
    elim ret [
      | ok ↦ returns (set_rax 0 context, k')
      | not_exist ↦ returns (set_rax 1 context, k')
      | block _ ↦ do
        (_, k1) ← Manager.save_current context k'
        k2 ← Manager.block_proc pid k1
        Manager.switch_next k2
      | wake_up _ ↦ panics
    ]

  -- sem_wait
  unfoldable pub sem_wait : ℕ → Context → Kernel T F K → Outcome (Context × Kernel T F K)
  unfolding Manager.get_pid sem_wait_as
  sem_wait key context k = do pid ← Manager.get_pid k; sem_wait_as pid key context k

  -- sem_signal
  unfoldable pub sem_signal : ℕ → Context → Kernel T F K → Outcome (Context × Kernel T F K)
  unfolding on_sems signal_sem Manager.wake_up
  sem_signal key context k = do
    (ret, k') ← on_sems (signal_sem key) k
    elim ret [
      | ok ↦ returns (set_rax 0 context, k')
      | not_exist ↦ returns (set_rax 1 context, k')
      | wake_up pid ↦ do k1 ← Manager.wake_up pid k'; returns (context, k1)
      | block _ ↦ panics
    ]

  -- new_sem
  unfoldable pub new_sem : ℕ → ℕ → Kernel T F K → Outcome (ℕ × Kernel T F K)
  unfolding on_sems insert_sem
  new_sem key value k = do
    (ret, k') ← on_sems (insert_sem key value) k
    returns (if ret then 0 else 1, k')

  -- remove_sem
  unfoldable pub drop_sem : ℕ → Kernel T F K → Outcome (ℕ × Kernel T F K)
  unfolding on_sems remove_sem
  drop_sem key k = do (ret, k') ← on_sems (remove_sem key) k; returns (if ret then 0 else 1, k')

module _ (x : X86) {F K : Type 0} where
  -- fork
  unfoldable pub fork : Context → Kernel x.Table F K → Outcome (Context × Kernel x.Table F K)
  unfolding Manager.save_current Manager.fork_proc Manager.push_ready Manager.switch_next
  fork context k = do
    (pid, k1) ← Manager.save_current context k
    (child, k2) ← Manager.fork_proc x k1
    Manager.switch_next (Manager.push_ready pid (Manager.push_ready child k2))

  -- exit. The context of the process that exits is not saved.
  unfoldable pub exit : ℕ → Kernel x.Table F K → Outcome (Context × Kernel x.Table F K)
  unfolding Manager.wake_waiting Manager.kill_self Manager.switch_next
  exit ret k = do
    k1 ← Manager.wake_waiting ret k
    k2 ← Manager.kill_self x ret k1
    Manager.switch_next k2

  -- brk: the new end as an isize, or -1
  unfoldable pub brk : Option ℕ → Kernel x.Table F K → Outcome (ℕ × Kernel x.Table F K)
  unfolding Manager.brk_proc
  brk addr k = do
    (end, k') ← Manager.brk_proc x addr k
    returns (elim end [ some new_end ↦ new_end | none ↦ minus_one ], k')

module _ {T : Type 0} (q : KeyQueue) (io : FileIo) where
  -- read, and ProcessData::read
  unfoldable pub read :
      ℕ → List ℕ → Kernel T io.File q.Keys → Outcome (ℕ × List ℕ × Kernel T io.File q.Keys)
  unfolding current_family read_handle
  read fd buf k = do
    (id, family) ← current_family k
    (count, buf', handles, console) ← read_handle q io fd buf family.resources k.console
    returns (
      count,
      buf',
      record k {
        families = insert id (record family { resources = handles }) k.families;
        console = console;
      },
    )

  -- write, and ProcessData::write
  unfoldable pub write :
      ℕ → List ℕ → Kernel T io.File q.Keys → Outcome (ℕ × Kernel T io.File q.Keys)
  unfolding current_family write_handle
  write fd buf k = do
    (_, family) ← current_family k
    let (count, console) = write_handle q io fd buf family.resources k.console
    returns (count, record k { console = console })

  -- open_file, and ProcessData::open_file. `found` is what the file system answers; an error
  -- panics.
  unfoldable pub open_file :
      Option io.File → Kernel T io.File q.Keys → Outcome (ℕ × Kernel T io.File q.Keys)
  unfolding current_family open_handle
  open_file found k = do
    (id, family) ← current_family k
    handle ← unwrap found
    let (fd, handles) = open_handle (file handle) family.resources
    returns
        (fd, record k { families = insert id (record family { resources = handles }) k.families })

  -- close_file, and ProcessData::close_file
  unfoldable pub close_file : ℕ → Kernel T io.File q.Keys → Outcome (Bool × Kernel T io.File q.Keys)
  unfolding current_family close_handle
  close_file fd k = do
    (id, family) ← current_family k
    let (r, handles) = close_handle fd family.resources
    returns
        (r, record k { families = insert id (record family { resources = handles }) k.families })
