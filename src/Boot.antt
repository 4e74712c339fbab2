-- ===== src/Boot.antt =====
-- pkg/boot/src/config.rs: the configuration of the boot loader. What is logged is left out.
pub mod Describing
use sysu_ysosv.Prelude.{
  ℕ, ◌^◌, Bool, true, false, not, ◌&&◌, ◌||◌, Option, none, some, List, [], ◌∷◌, ltb, ◌==◌,
  if◌then◌else◌, Outcome, returns, panics, unwrap, ◌>>=◌,
}
use sysu_ysosv.Text.{from_utf8, str_len, is_empty, codes}
use sysu_ysosv.Text.Parsing.{trim, lines, split_once, slice_from, from_str_radix}

-- Config
pub record Config : Type 0 where
  pub kernel_stack_address : ℕ
  pub kernel_stack_auto_grow : ℕ
  pub kernel_stack_size : ℕ
  pub physical_memory_offset : ℕ
  pub kernel_path : List ℕ
  pub cmdline : List ℕ
  pub load_apps : Bool
  pub log_level : List ℕ

-- DEFAULT_CONFIG
abbrev pub default_config : Config
default_config = record {
  kernel_stack_address = 0xFFFF_FF01_0000_0000;
  kernel_stack_auto_grow = 0;
  kernel_stack_size = 512;
  physical_memory_offset = 0xFFFF_8000_0000_0000;
  kernel_path = codes "\\KERNEL.ELF";
  cmdline = [];
  load_apps = false;
  log_level = codes "Info";
}

-- The keys that process knows
pub data Key : Type 0 where
  stack_address stack_size memory_offset path auto_grow command apps level unknown : Key

-- `==` of str
unfoldable pub same_text : List ℕ → List ℕ → Bool
same_text [] [] = true
same_text [] (c ∷ t) = false
same_text (c ∷ s) [] = false
same_text (c ∷ s) (d ∷ t) = c == d && same_text s t

unfoldable pub key_of : List ℕ → Key
unfolding same_text
key_of key =
    if same_text key (codes "kernel_stack_address")
    then stack_address
    else if same_text key (codes "kernel_stack_size")
    then stack_size
    else if same_text key (codes "physical_memory_offset")
    then memory_offset
    else if same_text key (codes "kernel_path")
    then path
    else if same_text key (codes "kernel_stack_auto_grow")
    then auto_grow
    else if same_text key (codes "cmdline")
    then command
    else if same_text key (codes "load_apps")
    then apps
    else if same_text key (codes "log_level")
    then level
    else unknown

or_zero : Option ℕ → ℕ
or_zero none = 0
or_zero (some n) = n

-- `r10` and `r16`
unfoldable pub decimal : List ℕ → ℕ
unfolding from_str_radix or_zero
decimal value = or_zero (from_str_radix value 10)

unfoldable pub hexadecimal : List ℕ → Outcome ℕ
unfolding from_str_radix or_zero str_len slice_from
hexadecimal value = elim (ltb 2 (str_len value)) [
  | true ↦ do digits ← unwrap (slice_from 2 value); returns (or_zero (from_str_radix digits 16))
  | false ↦ returns 0
]

-- The branches of process
unfoldable pub set : Key → List ℕ → ℕ → ℕ → Config → Config
set stack_address value r10 r16 c = record c { kernel_stack_address = r16 }
set stack_size value r10 r16 c = record c { kernel_stack_size = r16 }
set memory_offset value r10 r16 c = record c { physical_memory_offset = r16 }
set path value r10 r16 c = record c { kernel_path = value }
set auto_grow value r10 r16 c = record c { kernel_stack_auto_grow = r10 }
set command value r10 r16 c = record c { cmdline = value }
set apps value r10 r16 c = record c { load_apps = not (r10 == 0) }
set level value r10 r16 c = record c { log_level = value }
set unknown value r10 r16 c = c

-- Config::process
unfoldable pub process : List ℕ → List ℕ → Config → Outcome Config
unfolding key_of decimal hexadecimal set
process key value c = do
  r16 ← hexadecimal value
  returns (set (key_of key) value (decimal value) r16 c)

-- What a line assigns, if it assigns something
assigns : List ℕ → Option (List ℕ × List ℕ)
unfolding split_once
assigns [] = none
assigns (c ∷ s) = if c == 0x23 then none else split_once 0x3D (c ∷ s)

unfoldable pub assignment : List ℕ → Option (List ℕ × List ℕ)
unfolding trim assigns
assignment line = assigns (trim line)

-- The loop of parse
unfoldable pub parse_lines : List (List ℕ) → Config → Outcome Config
unfolding assignment process
parse_lines [] c = returns c
parse_lines (line ∷ rest) c = elim (assignment line) [
  | none ↦ parse_lines rest c
  | some part ↦ do c' ← process part.0 part.1 c; parse_lines rest c'
]

-- Config::parse
unfoldable pub parse : List ℕ → Outcome Config
unfolding from_utf8 lines parse_lines
parse content = do text ← unwrap (from_utf8 content); parse_lines (lines text) default_config
