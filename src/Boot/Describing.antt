-- ===== src/Boot/Describing.antt =====
-- Which lines of a configuration a setting comes from.
use sysu_ysosv.Prelude.{
  ℕ, ◌≡◌, ◌≢◌, arith, Bool, true, false, not, none, some, List, [], ◌∷◌, ◌==◌, if◌then◌else◌,
  Outcome, returns, panics,
}
use sysu_ysosv.Boot.{
  Config, Key, stack_address, stack_size, memory_offset, path, auto_grow, command, apps, level,
  key_of, decimal, hexadecimal, assignment,
}

-- The assignments of a text, with keys told apart
unfoldable pub assignments : List (List ℕ) → List (Key × List ℕ)
assignments [] = []
assignments (line ∷ rest) = elim (assignment line) [
  | none ↦ assignments rest
  | some part ↦ (key_of part.0, part.1) ∷ assignments rest
]

-- What the last assignment that a test picks says, or `d` if there is none
abbrev pub last_of : {A : Type 0} → (Key → Bool) → (List ℕ → A) → A → List (Key × List ℕ) → A
last_of is read d [] = d
last_of is read d ((k, v) ∷ rest) = last_of is read (if is k then read v else d) rest

abbrev is_stack_address : Key → Bool
is_stack_address stack_address = true
is_stack_address _ = false

abbrev is_stack_size : Key → Bool
is_stack_size stack_size = true
is_stack_size _ = false

abbrev is_memory_offset : Key → Bool
is_memory_offset memory_offset = true
is_memory_offset _ = false

abbrev is_path : Key → Bool
is_path path = true
is_path _ = false

abbrev is_auto_grow : Key → Bool
is_auto_grow auto_grow = true
is_auto_grow _ = false

abbrev is_command : Key → Bool
is_command command = true
is_command _ = false

abbrev is_apps : Key → Bool
is_apps apps = true
is_apps _ = false

abbrev is_level : Key → Bool
is_level level = true
is_level _ = false

-- The number that a value stands for behind its first two bytes
abbrev pub address_of : List ℕ → ℕ
address_of value = elim (hexadecimal value) [ returns n ↦ n | panics ↦ 0 ]

-- The settings, each by itself
abbrev pub described : Config → List (Key × List ℕ) → Config
described c parts = record {
  kernel_stack_address = last_of is_stack_address address_of c.kernel_stack_address parts;
  kernel_stack_auto_grow = last_of is_auto_grow decimal c.kernel_stack_auto_grow parts;
  kernel_stack_size = last_of is_stack_size address_of c.kernel_stack_size parts;
  physical_memory_offset = last_of is_memory_offset address_of c.physical_memory_offset parts;
  kernel_path = last_of is_path (λ value. value) c.kernel_path parts;
  cmdline = last_of is_command (λ value. value) c.cmdline parts;
  load_apps = last_of is_apps (λ value. not (decimal value == 0)) c.load_apps parts;
  log_level = last_of is_level (λ value. value) c.log_level parts;
}

-- Each value can be cut behind its first two bytes.
abbrev pub AreCut : List (Key × List ℕ) → Type 0
AreCut [] = Unit {0}
AreCut ((k, v) ∷ rest) = (hexadecimal v ≢ panics) × AreCut rest

pub cut : (r : Outcome ℕ) (n : ℕ) → r ≡ returns n → r ≢ panics
cut r n e bad = ground (arith, e, bad)
