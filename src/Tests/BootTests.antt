-- ===== src/Tests/BootTests.antt =====
-- A configuration that is read.
use sysu_ysosv.Prelude.{ℕ, List}
use sysu_ysosv.Text.{codes}

abbrev conf : List ℕ
conf = codes "# Stack\nkernel_stack_size = 0x20\nkernel_stack_size=0x20\nload_apps=1"
