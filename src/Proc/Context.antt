-- ===== src/Proc/Context.antt =====
-- pkg/kernel/src/proc/context.rs and pkg/kernel/src/utils/regs.rs: the saved registers of a process.
-- An interrupt handler gets the context of what it interrupted and may replace it.
use sysu_ysosv.Prelude.{ℕ}

-- RegistersValue
pub record Registers : Type 0 where
  pub r15 : ℕ
  pub r14 : ℕ
  pub r13 : ℕ
  pub r12 : ℕ
  pub r11 : ℕ
  pub r10 : ℕ
  pub r9 : ℕ
  pub r8 : ℕ
  pub rdi : ℕ
  pub rsi : ℕ
  pub rdx : ℕ
  pub rcx : ℕ
  pub rbx : ℕ
  pub rax : ℕ
  pub rbp : ℕ

-- InterruptStackFrameValue of the x86_64 crate
pub record StackFrame : Type 0 where
  pub instruction_pointer : ℕ
  pub code_segment : ℕ
  pub cpu_flags : ℕ
  pub stack_pointer : ℕ
  pub stack_segment : ℕ

-- ProcessContext
pub record Context : Type 0 where
  pub regs : Registers
  pub stack_frame : StackFrame

-- ProcessContext::default
abbrev pub default_context : Context
default_context = record {
  regs = record {
    r15 = 0;
    r14 = 0;
    r13 = 0;
    r12 = 0;
    r11 = 0;
    r10 = 0;
    r9 = 0;
    r8 = 0;
    rdi = 0;
    rsi = 0;
    rdx = 0;
    rcx = 0;
    rbx = 0;
    rax = 0;
    rbp = 0;
  };
  stack_frame = record {
    instruction_pointer = 0x1000;
    code_segment = 0;
    cpu_flags = 0;
    stack_pointer = 0x2000;
    stack_segment = 0;
  };
}

-- ProcessContext::set_rax
abbrev pub set_rax : ℕ → Context → Context
set_rax value c = record c { regs = record c.regs { rax = value } }

-- ProcessContext::update_stack_frame
abbrev pub update_stack_frame : ℕ → Context → Context
update_stack_frame stack_top c = record c {
  stack_frame = record c.stack_frame { stack_pointer = stack_top };
}

-- ProcessContext::stack_top
abbrev pub stack_top : Context → ℕ
stack_top c = c.stack_frame.stack_pointer
