-- ===== src/Interrupts/Tests.antt =====
-- A descriptor table at 128 KiB, and a table of handlers at 64 KiB.
use rainbow_os.Prelude.{◌/◌, ◌%◌, inl, arith}
use rainbow_os.Memory.{Mem, SameOutside}
use rainbow_os.Interrupts.{install_all}
use rainbow_os.Interrupts.Table.{Gates, install_all-Gates}

abbrev handlers : Mem
handlers x = x / 4 % 256

install_all-Gates_example :
    let m' = install_all 131072 65536 handlers in
    Gates 0 256 131072 65536 handlers m' × SameOutside 131072 2048 handlers m'
install_all-Gates_example =
    install_all-Gates 131072 65536 (inl (omega arith)) handlers (λ x. omega arith)
