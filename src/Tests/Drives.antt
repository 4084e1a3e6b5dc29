-- ===== src/Tests/Drives.antt =====
-- The driver on a drive that is always ready.
use alderkernel.Prelude.{ℕ, refl, List, [], get_or, drop, replicate}
use alderkernel.Ata.{Ports}
use alderkernel.Ata.Drive.{AtaDrive, on_outb, on_data, IsAtaDrive}

-- The status has the bits of a ready drive and of a request for data.
abbrev ready_ports : Ports
ready_ports = record {
  State = AtaDrive;
  inb = λ q d. (0x48, d);
  outb = on_outb;
  inw = λ q d. (get_or d.offered 0 0, record d { offered = drop 1 d.offered });
  outw = λ q w d. on_data w d;
}

abbrev ready_ports-IsAtaDrive : IsAtaDrive ready_ports
ready_ports-IsAtaDrive = record {
  view = λ d. d;
  view-inb = λ q h. refl;
  view-outb = λ q v h. refl;
  inw_offered = λ h. refl;
  view-inw = λ h. refl;
  view-outw = λ w h. refl;
}

-- Each word of each sector is 0x1234.
abbrev printed : AtaDrive
printed = record {
  sectors = λ l i. 0x1234;
  lo = 0;
  mid = 0;
  hi = 0;
  head = 0;
  offered = [];
  taken = [];
}

abbrev zeros : List ℕ
zeros = replicate 512 0
