-- ===== src/Devices.antt =====
-- The descriptions of the devices: src/jtag_device_desc.h, ioreg.h and utils.hh. An array that is
-- given fewer values than it has is filled with zeros, as in C.
pub mod Registers
pub mod Parts
pub mod Lookup
pub mod Consistent
pub mod Sizes
pub mod Twins
use jtag_js.Base.{
  ℕ, ◌*◌, ◌/◌, ◌%◌, ◌^◌, Bool, false, Option, none, List, [], ◌∷◌, ◌++◌, zeros, codes, Bytes,
}
use Prim.Native.String.{String}
use jtag_js.Gdb.{IoReg}

unfoldable pub fill_b4 : ℕ → Bytes
fill_b4 u = u % 256 ∷ u / 2 ^ 8 % 256 ∷ u / 2 ^ 16 % 256 ∷ u / 2 ^ 24 % 256 ∷ []

unfoldable pub fill_b2 : ℕ → Bytes
fill_b2 u = u % 256 ∷ u / 2 ^ 8 % 256 ∷ []

abbrev pub io_reg_rse : ℕ
io_reg_rse = 0x01

abbrev pub reg : String → ℕ → ℕ → IoReg
reg name reg_addr flags = record { name = codes name; reg_addr = reg_addr; flags = flags }

-- `jtag1_device_desc_type`
pub record Mk1Desc : Type 0 where
  pub cmd : ℕ
  pub rd : Bytes
  pub wr : Bytes
  pub sh_rd : Bytes
  pub sh_wr : Bytes
  pub ext_rd : Bytes
  pub ext_wr : Bytes
  pub ext_sh_rd : Bytes
  pub ext_sh_wr : Bytes
  pub idr_addr : ℕ
  pub spmcr_addr : ℕ
  pub rampz_addr : ℕ
  pub flash_pg_sz : Bytes
  pub eeprom_pg_sz : ℕ
  pub boot_addr : Bytes
  pub last_ext_io_addr : ℕ
  pub eom : Bytes

-- `jtag2_device_desc_type`
pub record Mk2Desc : Type 0 where
  pub cmd : ℕ
  pub uc_read_io : Bytes
  pub uc_read_io_shadow : Bytes
  pub uc_write_io : Bytes
  pub uc_write_io_shadow : Bytes
  pub uc_read_ext_io : Bytes
  pub uc_read_io_ext_shadow : Bytes
  pub uc_write_ext_io : Bytes
  pub uc_write_io_ext_shadow : Bytes
  pub uc_idr_address : ℕ
  pub uc_spmcr_address : ℕ
  pub uc_rampz_address : ℕ
  pub ui_flash_page_size : Bytes
  pub uc_eeprom_page_size : ℕ
  pub ul_boot_address : Bytes
  pub ui_upper_ext_io_loc : Bytes
  pub ul_flash_size : Bytes
  pub uc_eeprom_inst : Bytes
  pub uc_flash_inst : Bytes
  pub uc_sph_addr : ℕ
  pub uc_spl_addr : ℕ
  pub ui_flashpages : Bytes
  pub uc_dwdr_address : ℕ
  pub uc_dw_base_pc : ℕ
  pub uc_allow_full_page_bitstream : ℕ
  pub ui_start_smallest_boot_loader_section : Bytes
  pub enable_page_programming : ℕ
  pub uc_cache_type : ℕ
  pub ui_sram_start_addr : Bytes
  pub uc_reset_type : ℕ
  pub uc_pc_mask_extended : ℕ
  pub uc_pc_mask_high : ℕ
  pub uc_eind_address : ℕ
  pub eecr_address : Bytes

abbrev pub devfl_none : ℕ
devfl_none = 0

abbrev pub devfl_no_softbp : ℕ
devfl_no_softbp = 1

abbrev pub devfl_mkii_only : ℕ
devfl_mkii_only = 2

abbrev pub jtag_c_set_device_descriptor : ℕ
jtag_c_set_device_descriptor = 0xA0

abbrev pub cmnd_set_device_descriptor : ℕ
cmnd_set_device_descriptor = 0x0C

-- `jtag_device_def_type`. The name of the entry that ends the table is null.
pub record DeviceDef : Type 0 where
  pub name : Option Bytes
  pub device_id : ℕ
  pub flash_page_size : ℕ
  pub flash_page_count : ℕ
  pub eeprom_page_size : ℕ
  pub eeprom_page_count : ℕ
  pub vectors_end : ℕ
  pub device_flags : ℕ
  pub io_reg_defs : Option (List IoReg)
  pub is_xmega : Bool
  pub dev_desc1 : Mk1Desc
  pub dev_desc2 : Mk2Desc

-- The initialiser `{ cmd }`.
abbrev pub no_mk1_desc : ℕ → Mk1Desc
no_mk1_desc cmd = record {
  cmd = cmd;
  rd = zeros 8;
  wr = zeros 8;
  sh_rd = zeros 8;
  sh_wr = zeros 8;
  ext_rd = zeros 20;
  ext_wr = zeros 20;
  ext_sh_rd = zeros 20;
  ext_sh_wr = zeros 20;
  idr_addr = 0;
  spmcr_addr = 0;
  rampz_addr = 0;
  flash_pg_sz = zeros 2;
  eeprom_pg_sz = 0;
  boot_addr = zeros 4;
  last_ext_io_addr = 0;
  eom = zeros 2;
}

-- A description for the mkII with nothing but its command.
abbrev pub no_mk2_desc : Mk2Desc
no_mk2_desc = record {
  cmd = cmnd_set_device_descriptor;
  uc_read_io = zeros 8;
  uc_read_io_shadow = zeros 8;
  uc_write_io = zeros 8;
  uc_write_io_shadow = zeros 8;
  uc_read_ext_io = zeros 52;
  uc_read_io_ext_shadow = zeros 52;
  uc_write_ext_io = zeros 52;
  uc_write_io_ext_shadow = zeros 52;
  uc_idr_address = 0;
  uc_spmcr_address = 0;
  uc_rampz_address = 0;
  ui_flash_page_size = zeros 2;
  uc_eeprom_page_size = 0;
  ul_boot_address = zeros 4;
  ui_upper_ext_io_loc = zeros 2;
  ul_flash_size = zeros 4;
  uc_eeprom_inst = zeros 20;
  uc_flash_inst = zeros 3;
  uc_sph_addr = 0;
  uc_spl_addr = 0;
  ui_flashpages = zeros 2;
  uc_dwdr_address = 0;
  uc_dw_base_pc = 0;
  uc_allow_full_page_bitstream = 0;
  ui_start_smallest_boot_loader_section = zeros 2;
  enable_page_programming = 0;
  uc_cache_type = 0;
  ui_sram_start_addr = zeros 2;
  uc_reset_type = 0;
  uc_pc_mask_extended = 0;
  uc_pc_mask_high = 0;
  uc_eind_address = 0;
  eecr_address = zeros 2;
}

-- The last entry of the table.
abbrev pub terminator : DeviceDef
terminator = record {
  name = none;
  device_id = 0;
  flash_page_size = 0;
  flash_page_count = 0;
  eeprom_page_size = 0;
  eeprom_page_count = 0;
  vectors_end = 0;
  device_flags = devfl_none;
  io_reg_defs = none;
  is_xmega = false;
  dev_desc1 = no_mk1_desc 0;
  dev_desc2 = record no_mk2_desc { cmd = 0 };
}

-- The bytes of the structures, in the order of their fields.
abbrev pub desc1_bytes : Mk1Desc → Bytes
desc1_bytes d =
    d.cmd ∷ d.rd
    ++ (d.wr
        ++ (d.sh_rd
            ++ (d.sh_wr
                ++ (d.ext_rd
                    ++ (d.ext_wr
                        ++ (d.ext_sh_rd
                            ++ (d.ext_sh_wr
                                ++ (d.idr_addr ∷ d.spmcr_addr ∷ d.rampz_addr ∷ d.flash_pg_sz
                                    ++ (d.eeprom_pg_sz ∷ d.boot_addr
                                        ++ (d.last_ext_io_addr ∷ d.eom ++ ([])))))))))))

abbrev pub desc2_bytes : Mk2Desc → Bytes
desc2_bytes d =
    d.cmd ∷ d.uc_read_io
    ++ (d.uc_read_io_shadow
        ++ (d.uc_write_io
            ++ (d.uc_write_io_shadow
                ++ (d.uc_read_ext_io
                    ++ (d.uc_read_io_ext_shadow
                        ++ (d.uc_write_ext_io
                            ++ (d.uc_write_io_ext_shadow
                                ++ (d.uc_idr_address ∷ d.uc_spmcr_address ∷ d.uc_rampz_address
                                      ∷ d.ui_flash_page_size
                                    ++ (d.uc_eeprom_page_size ∷ d.ul_boot_address
                                        ++ (d.ui_upper_ext_io_loc
                                            ++ (d.ul_flash_size
                                                ++ (d.uc_eeprom_inst
                                                    ++ (d.uc_flash_inst
                                                        ++ (d.uc_sph_addr ∷ d.uc_spl_addr
                                                            ∷ d.ui_flashpages
                                                            ++ (d.uc_dwdr_address ∷ d.uc_dw_base_pc
                                                            ∷ d.uc_allow_full_page_bitstream
                                                            ∷ d.ui_start_smallest_boot_loader_section
                                                            ++ (d.enable_page_programming
                                                            ∷ d.uc_cache_type ∷ d.ui_sram_start_addr
                                                            ++ (d.uc_reset_type
                                                            ∷ d.uc_pc_mask_extended
                                                            ∷ d.uc_pc_mask_high ∷ d.uc_eind_address
                                                            ∷ d.eecr_address
                                                            ++ ([]))))))))))))))))))
